-- ===== src/Config/Errors.antt =====
-- Which environments are rejected, and with which text.
use yral_onboarding_hello_wo.Prelude.{
  ℕ, ◌≡◌, ◌≢◌, ◌⊎◌, refl, ap, inl, inr, List, ◌++◌, Option, none, some, Text, codes, text_eq,
  text_eq_iff, Outcome, Outcome-cases, Bool-cases, ok, err, panicked, arith,
}
use yral_onboarding_hello_wo.Decimal.{ParseIntError, parse_u16, display_parse_error}
use yral_onboarding_hello_wo.Decimal.Laws.{parse_u16-ne-panicked}
use yral_onboarding_hello_wo.Application.{GreetingMode}
use yral_onboarding_hello_wo.Config.{
  Values, get, collect, parse_port, parse_greeting_mode, parse_counter_store, from_values,
  from_pairs,
}
use yral_onboarding_hello_wo.Config.Fields.{PortOf, ModeOf, parse_port_iff, parse_greeting_mode_iff}

-- What is wrong with one setting, and the text of its error.
abbrev pub BadPort : Option Text → Text → Type 0
BadPort setting e =
    (t : Text) × (x : ParseIntError) × (setting ≡ some t)
    × (parse_u16 t ≡ err x)
    × (e ≡ codes "invalid APP_PORT: " ++ display_parse_error x)

abbrev pub BadMode : Option Text → Text → Type 0
BadMode setting e =
    (t : Text) × (setting ≡ some t)
    × (t ≢ codes "plain")
    × (t ≢ codes "counter")
    × (e ≡ codes "invalid GREETING_MODE: " ++ t)

abbrev pub BadStore : Option Text → Text → Type 0
BadStore setting e =
    (t : Text) × (setting ≡ some t)
    × (t ≢ codes "memory")
    × (t ≢ codes "postgres")
    × (e ≡ codes "invalid COUNTER_STORE: " ++ t)

abbrev pub NoUrl : Option Text → Option Text → Text → Type 0
NoUrl setting url e =
    (setting ≡ some (codes "postgres"))
    × (url ≡ none)
    × (e ≡ codes "DATABASE_URL is required when COUNTER_STORE=postgres")

-- The first setting that is wrong, in the order port, mode, store, and its error.
pub data Rejected (values : Values) (e : Text) : Type 0 where
  bad_port : BadPort (get (codes "APP_PORT") values) e → Rejected values e
  bad_mode :
      (port : ℕ)
      → PortOf (get (codes "APP_PORT") values) port
      → BadMode (get (codes "GREETING_MODE") values) e
      → Rejected values e
  bad_store :
      (port : ℕ) (mode : GreetingMode)
      → PortOf (get (codes "APP_PORT") values) port
      → ModeOf (get (codes "GREETING_MODE") values) mode
      → BadStore (get (codes "COUNTER_STORE") values) e
      → Rejected values e
  no_url :
      (port : ℕ) (mode : GreetingMode)
      → PortOf (get (codes "APP_PORT") values) port
      → ModeOf (get (codes "GREETING_MODE") values) mode
      → NoUrl (get (codes "COUNTER_STORE") values) (get (codes "DATABASE_URL") values) e
      → Rejected values e

-- A step that fails has an error of the kind `P`, and does not panic.
abbrev FailsBy : {A : Type 0} → (Text → Type 0) → Outcome Text A → Type 0
FailsBy P r = ((e : Text) → r ≡ err e → P e) × (r ≢ panicked)

parse_port-FailsBy : (t : Option Text) → FailsBy (BadPort t) (parse_port t)
unfolding parse_port
parse_port-FailsBy none = ((λ e h. absurd (cc)), λ h. cc)
parse_port-FailsBy (some t) = elim (Outcome-cases (parse_u16 t)) [
  | inl (n, p) ↦ ((λ e h. absurd (ground arith)), λ h. ground arith)
  | inr (inl (x, p)) ↦ ((λ e h. (t, x, refl, p, ground arith)), λ h. ground arith)
  | inr (inr p) ↦ absurd (parse_u16-ne-panicked t p)
]

parse_greeting_mode-FailsBy : (t : Option Text) → FailsBy (BadMode t) (parse_greeting_mode t)
unfolding parse_greeting_mode
parse_greeting_mode-FailsBy none = ((λ e h. absurd (cc)), λ h. cc)
parse_greeting_mode-FailsBy (some t) = (
  (λ e h. (
    t,
    refl,
    ground (arith, text_eq_iff t (codes "plain")),
    ground (arith, text_eq_iff t (codes "counter")),
    ground arith,
  )),
  λ h. ground arith,
)

-- The error of the match on `COUNTER_STORE`.
abbrev StoreError : Option Text → Option Text → Text → Type 0
StoreError t url e = BadStore t e ⊎ NoUrl t url e

parse_counter_store-FailsBy :
    (t url : Option Text) → FailsBy (StoreError t url) (parse_counter_store t url)
unfolding parse_counter_store
parse_counter_store-FailsBy none url = ((λ e h. absurd (cc)), λ h. cc)
parse_counter_store-FailsBy (some t) none = (failed, λ h. ground arith)
  where
    failed : (e : Text) → parse_counter_store (some t) none ≡ err e → StoreError (some t) none e
    failed e h = elim (Bool-cases (text_eq t (codes "postgres"))) [
      | inl same ↦ inr (
        ap some ((text_eq_iff t (codes "postgres")).0 same),
        refl,
        ground (arith, text_eq_iff t (codes "memory"), text_eq_iff t (codes "postgres")),
      )
      | inr other ↦ inl (
        t,
        refl,
        ground (arith, text_eq_iff t (codes "memory")),
        ground (arith, text_eq_iff t (codes "postgres")),
        ground arith,
      )
    ]
parse_counter_store-FailsBy (some t) (some u) = (
  (λ e h. inl (
    t,
    refl,
    ground (arith, text_eq_iff t (codes "memory")),
    ground (arith, text_eq_iff t (codes "memory"), text_eq_iff t (codes "postgres")),
    ground arith,
  )),
  λ h. ground arith,
)

-- An environment that is rejected has a setting that is wrong, and the error is that of the first
-- one in the order port, mode, store.
pub from_pairs-Rejected :
    (pairs : List (Text × Text)) (e : Text) → from_pairs pairs ≡ err e → Rejected (collect pairs) e
unfolding from_pairs from_values
from_pairs-Rejected pairs e h = elim (Outcome-cases (parse_port (get (codes "APP_PORT") values))) [
  | inl (port, p) ↦
      elim (Outcome-cases (parse_greeting_mode (get (codes "GREETING_MODE") values))) [
        | inl (mode, m) ↦ stores port mode p m (ground arith)
        | inr (inl (e', m)) ↦
            let same : e ≡ e' = ground arith in
            bad_mode port ((parse_port_iff _ port).0 p)
              (rw same ((parse_greeting_mode-FailsBy _).0 e' m))
        | inr (inr m) ↦ absurd ((parse_greeting_mode-FailsBy _).1 m)
      ]
  | inr (inl (e', p)) ↦
      let same : e ≡ e' = ground arith in bad_port (rw same ((parse_port-FailsBy _).0 e' p))
  | inr (inr p) ↦ absurd ((parse_port-FailsBy _).1 p)
]
  where
    values : Values
    values = collect pairs

    stores :
        (port : ℕ) (mode : GreetingMode)
        → parse_port (get (codes "APP_PORT") values) ≡ ok port
        → parse_greeting_mode (get (codes "GREETING_MODE") values) ≡ ok mode
        → parse_counter_store
            (get (codes "COUNTER_STORE") values)
            (get (codes "DATABASE_URL") values)
          ≡ err e
        → Rejected values e
    stores port mode p m h =
        let at_port = (parse_port_iff _ port).0 p in
        let at_mode = (parse_greeting_mode_iff _ mode).0 m in
        elim ((parse_counter_store-FailsBy _ _).0 e h) [
          | inl bad ↦ bad_store port mode at_port at_mode bad
          | inr missing ↦ no_url port mode at_port at_mode missing
        ]

-- Reading the environment does not panic.
pub from_pairs-ne-panicked : (pairs : List (Text × Text)) → from_pairs pairs ≢ panicked
unfolding from_pairs from_values
from_pairs-ne-panicked pairs h = ground (
  arith,
  (parse_port-FailsBy (get (codes "APP_PORT") (collect pairs))).1,
  (parse_greeting_mode-FailsBy (get (codes "GREETING_MODE") (collect pairs))).1,
  (parse_counter_store-FailsBy (get (codes "COUNTER_STORE") (collect pairs))
      (get (codes "DATABASE_URL") (collect pairs))).1,
)
