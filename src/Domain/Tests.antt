-- ===== src/Domain/Tests.antt =====
-- Runs of the tests of crates/domain/src/greeting.rs, and a theorem at concrete greetings.
use yral_onboarding_hello_wo.Prelude.{◌+◌, ◌≡◌, refl, codes, err, arith}
use yral_onboarding_hello_wo.Decimal.{display}
use yral_onboarding_hello_wo.Domain.{
  Greeting, plain, numbered, message, new_visitor_count, invalid_visitor_count,
}
use yral_onboarding_hello_wo.Domain.Message.{message-inj}

plain_greeting : message plain ≡ codes "Hello World"
unfolding message
plain_greeting = refl

numbered_greeting :
    message (numbered (record { value = 7 }))
    ≡ codes "Hello visitor. You are the 7'th visitor to this page"
unfolding message display
numbered_greeting = refl

zero_is_rejected : new_visitor_count 0 ≡ err invalid_visitor_count
unfolding new_visitor_count
zero_is_rejected = refl

abbrev seventh : Greeting
seventh = numbered (record { value = 3 + 4 })

message-inj_example : seventh ≡ numbered (record { value = 7 })
message-inj_example =
    message-inj seventh (numbered (record { value = 7 })) (omega arith) (omega arith) refl
