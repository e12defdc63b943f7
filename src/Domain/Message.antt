-- ===== src/Domain/Message.antt =====
-- What the text of a greeting tells of its count.
use mathlib.Core.List.{append_cancel_right}
use yral_onboarding_hello_wo.Prelude.{ℕ, ◌<◌, ◌≡◌, ◌≢◌, ap, sym, refl, arith, append_cancel_left}
use yral_onboarding_hello_wo.Decimal.Laws.{display_inj}
use yral_onboarding_hello_wo.Domain.{
  u64_mod, VisitorCount, Greeting, plain, numbered, before_count, after_count, message,
}

message-inj_numbered :
    (m n : VisitorCount)
    → m.value < u64_mod
    → n.value < u64_mod
    → message (numbered m) ≡ message (numbered n)
    → m ≡ n
unfolding message
message-inj_numbered m n hm hn e =
    let same : m.value ≡ n.value =
      display_inj m.value n.value (omega arith) (omega arith)
        (append_cancel_right _ _ after_count (append_cancel_left before_count _ _ e)) in
    ap (λ (k : ℕ). record { value = k }) same

message-numbered-ne-plain : (n : VisitorCount) → message (numbered n) ≢ message plain
unfolding message
message-numbered-ne-plain n e = cc

-- A greeting whose count, if it has one, is a `u64`.
abbrev pub InRange : Greeting → Type 0
InRange plain = Unit
InRange (numbered n) = n.value < u64_mod

-- Greetings whose counts are `u64` values have one text only if they are equal: the text tells the
-- plain greeting from the numbered ones, and each number from every other.
pub message-inj : (g h : Greeting) → InRange g → InRange h → message g ≡ message h → g ≡ h
message-inj plain plain _ _ _ = refl
message-inj plain (numbered n) _ _ e = absurd (message-numbered-ne-plain n (sym e))
message-inj (numbered m) plain _ _ e = absurd (message-numbered-ne-plain m e)
message-inj (numbered m) (numbered n) hm hn e = ap numbered (message-inj_numbered m n hm hn e)
