-- ===== src/UnitTests/Greetings.antt =====
-- crates/domain/src/greeting.rs: its tests.
use yral_onboarding_hello_wo.Prelude.{
  ◌≡◌, refl, true, Text, codes, text_eq, ok, Program, or_panic, or_panic_err, assert, assert_eq,
  ◌>>=◌, lift,
}
use yral_onboarding_hello_wo.Decimal.{display}
use yral_onboarding_hello_wo.Domain.{
  plain, numbered, message, new_visitor_count, invalid_visitor_count,
}

abbrev Test : Type 0
Test = Program (Unit {0}) Text (Unit {0})

pub plain_greeting_renders_expected_message : Test
plain_greeting_renders_expected_message = assert_eq (message plain) (codes "Hello World")

pub numbered_greeting_renders_expected_message : Test
numbered_greeting_renders_expected_message = do
  count ← lift (or_panic (new_visitor_count 7))
  assert_eq (message (numbered count))
      (codes "Hello visitor. You are the 7'th visitor to this page")

pub zero_is_rejected_for_visitor_count : Test
zero_is_rejected_for_visitor_count = do
  error ← lift (or_panic_err (new_visitor_count 0))
  assert (elim error [ invalid_visitor_count ↦ true ])

greetings_pass :
    (plain_greeting_renders_expected_message tt ≡ (ok tt, tt))
    × (numbered_greeting_renders_expected_message tt ≡ (ok tt, tt))
    × (zero_is_rejected_for_visitor_count tt ≡ (ok tt, tt))
unfolding plain_greeting_renders_expected_message numbered_greeting_renders_expected_message
    zero_is_rejected_for_visitor_count message new_visitor_count display text_eq
greetings_pass = (refl, refl, refl)
