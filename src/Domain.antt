-- ===== src/Domain.antt =====
-- crates/domain/src/greeting.rs: the visitor count and the greeting, with the response types of
-- crates/types/src/hello.rs and crates/types/src/health.rs.
pub mod Message
mod Tests
use yral_onboarding_hello_wo.Prelude.{
  ℕ, ◌^◌, ◌++◌, Option, ◌==◌, if◌then◌else◌, Text, codes, Outcome, ok, err,
}
use yral_onboarding_hello_wo.Decimal.{display}

-- `u64` arithmetic is modulo this number.
abbrev pub u64_mod : ℕ
u64_mod = 2 ^ 64

-- The tuple struct around a `u64`; `new` is its only constructor.
pub record VisitorCount : Type 0 where
  pub value : ℕ

pub data GreetingError : Type 0 where
  invalid_visitor_count : GreetingError

abbrev pub display_greeting_error : GreetingError → Text
display_greeting_error invalid_visitor_count = codes "visitor count must be greater than zero"

unfoldable pub new_visitor_count : ℕ → Outcome GreetingError VisitorCount
new_visitor_count value =
    if value == 0 then err invalid_visitor_count else ok (record { value = value })

pub data Greeting : Type 0 where
  plain : Greeting
  numbered : VisitorCount → Greeting

abbrev pub before_count : Text
before_count = codes "Hello visitor. You are the "

abbrev pub after_count : Text
after_count = codes "'th visitor to this page"

unfoldable pub message : Greeting → Text
message plain = codes "Hello World"
message (numbered count) = before_count ++ (display count.value ++ after_count)

pub record HelloResponse : Type 0 where
  pub message : Text
  pub visitor_count : Option ℕ

pub record HealthResponse : Type 0 where
  pub status : Text
  pub storage : Text
