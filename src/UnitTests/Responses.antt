-- ===== src/UnitTests/Responses.antt =====
-- crates/types/src: the tests of the two response types, over any `serde_json`; they pass where it
-- reads back what it writes, and writes a struct as an object with its fields.
use yral_onboarding_hello_wo.Prelude.{
  ℕ, ◌≡◌, refl, ◌==◌, Bool, true, false, Option, none, some, Text, codes, text_eq, Outcome, ok,
  Program, or_panic, assert, assert_eq, ◌>>=◌, ◌>>◌, lift,
}
use yral_onboarding_hello_wo.Domain.{HelloResponse, HealthResponse}

-- `to_string`, `from_str` and `to_value` of one type, with what the tests read of a value.
pub record SerdeJson (A Value : Type 0) : Type 0 where
  pub to_string : A → Outcome Text Text
  pub from_str : Text → Outcome Text A
  pub to_value : A → Outcome Text Value
  pub index : Value → Text → Value
  pub eq_str : Value → Text → Bool
  pub is_null : Value → Bool

pub record ReadsBack {A Value : Type 0} (serde : SerdeJson A Value) : Type 0 where
  pub written : A → Text
  pub writes : (a : A) → serde.to_string a ≡ ok (written a)
  pub reads : (a : A) → serde.from_str (written a) ≡ ok a

abbrev is_count : Option ℕ → ℕ → Bool
is_count none n = false
is_count (some m) n = m == n

abbrev Test : Type 0
Test = Program (Unit {0}) Text (Unit {0})

module _ {Value : Type 0} (serde : SerdeJson HelloResponse Value) where
  pub hello_response_round_trips_with_count : Test
  hello_response_round_trips_with_count = do
    let response : HelloResponse = record { message = codes "Hello"; visitor_count = some 3 }
    json ← lift (or_panic (serde.to_string response))
    round_trip ← lift (or_panic (serde.from_str json))
    assert (is_count round_trip.visitor_count 3)
    assert_eq round_trip.message (codes "Hello")

  pub hello_response_serializes_without_count : Test
  hello_response_serializes_without_count = do
    let response : HelloResponse = record { message = codes "Hello World"; visitor_count = none }
    json ← lift (or_panic (serde.to_value response))
    assert (serde.eq_str (serde.index json (codes "message")) (codes "Hello World"))
    assert (serde.is_null (serde.index json (codes "visitor_count")))

  hello_response_passes :
      (back : ReadsBack serde) (value : HelloResponse → Value)
      → ((h : HelloResponse) → serde.to_value h ≡ ok (value h))
      → ((h : HelloResponse)
          → serde.eq_str (serde.index (value h) (codes "message")) h.message ≡ true)
      → ((h : HelloResponse)
          → h.visitor_count ≡ none
          → serde.is_null (serde.index (value h) (codes "visitor_count")) ≡ true)
      → (hello_response_round_trips_with_count tt ≡ (ok tt, tt))
        × (hello_response_serializes_without_count tt ≡ (ok tt, tt))
  unfolding hello_response_round_trips_with_count hello_response_serializes_without_count text_eq
  hello_response_passes back value valued messages nulls =
      let plain : HelloResponse = record { message = codes "Hello World"; visitor_count = none } in
      (
        rw (back.writes _) (rw (back.reads _) refl),
        rw (valued plain) (rw (messages plain) (rw (nulls plain refl) refl)),
      )

module _ {Value : Type 0} (serde : SerdeJson HealthResponse Value) where
  pub health_response_round_trips_as_json : Test
  health_response_round_trips_as_json = do
    let response : HealthResponse = record { status = codes "ok"; storage = codes "memory" }
    json ← lift (or_panic (serde.to_string response))
    round_trip ← lift (or_panic (serde.from_str json))
    assert_eq round_trip.status (codes "ok")
    assert_eq round_trip.storage (codes "memory")

  health_response_passes : ReadsBack serde → health_response_round_trips_as_json tt ≡ (ok tt, tt)
  unfolding health_response_round_trips_as_json text_eq
  health_response_passes back = rw (back.writes _) (rw (back.reads _) refl)
