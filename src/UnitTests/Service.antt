-- ===== src/UnitTests/Service.antt =====
-- crates/application/src/service.rs: its tests, over a store that always answers the same.
use yral_onboarding_hello_wo.Prelude.{
  ℕ, ◌≡◌, refl, ◌==◌, Bool, true, false, Option, none, some, Text, codes, text_eq, ok, Program,
  expect_ok, assert, assert_eq, ◌>>=◌, ◌>>◌, return,
}
use yral_onboarding_hello_wo.Decimal.{display}
use yral_onboarding_hello_wo.Domain.{message, new_visitor_count}
use yral_onboarding_hello_wo.Application.{
  CounterStore, GreetingMode, plain, counter, HelloWorldService, hello, health,
}

-- `FakeStore`, here and in crates/adapter-http-axum/src/router.rs.
abbrev pub fake_store : {W : Type 0} → ℕ → Text → CounterStore W
fake_store count storage = record {
  next_visitor_count = return count;
  health = return tt;
  storage_name = storage;
}

abbrev pub fake_service : {W : Type 0} → GreetingMode → ℕ → Text → HelloWorldService W
fake_service mode count storage = record { mode = mode; counter_store = fake_store count storage }

-- `==` on the number of a response.
abbrev same_count : Option ℕ → Option ℕ → Bool
same_count none none = true
same_count none (some n) = false
same_count (some m) none = false
same_count (some m) (some n) = m == n

abbrev Test : Type 0
Test = Program (Unit {0}) Text (Unit {0})

pub plain_mode_returns_plain_hello_response : Test
plain_mode_returns_plain_hello_response = do
  response ← expect_ok (hello (fake_service plain 99 (codes "memory")))
  assert_eq response.message (codes "Hello World")
  assert (same_count response.visitor_count none)

pub counter_mode_returns_numbered_response : Test
counter_mode_returns_numbered_response = do
  response ← expect_ok (hello (fake_service counter 7 (codes "memory")))
  assert_eq response.message (codes "Hello visitor. You are the 7'th visitor to this page")
  assert (same_count response.visitor_count (some 7))

pub health_uses_adapter_reported_storage_name : Test
health_uses_adapter_reported_storage_name = do
  response ← expect_ok (health (fake_service plain 1 (codes "postgres")))
  assert_eq response.status (codes "ok")
  assert_eq response.storage (codes "postgres")

service_passes :
    (plain_mode_returns_plain_hello_response tt ≡ (ok tt, tt))
    × (counter_mode_returns_numbered_response tt ≡ (ok tt, tt))
    × (health_uses_adapter_reported_storage_name tt ≡ (ok tt, tt))
unfolding plain_mode_returns_plain_hello_response counter_mode_returns_numbered_response
    health_uses_adapter_reported_storage_name hello health message new_visitor_count display text_eq
service_passes = (refl, refl, refl)
