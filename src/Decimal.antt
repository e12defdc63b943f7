-- ===== src/Decimal.antt =====
-- The standard library's decimal print of an unsigned integer (`Display for u64` and `u16`) and
-- its parser `u16::from_str`, with the three errors and their messages.
pub mod Laws
mod Tests
use yral_onboarding_hello_wo.Prelude.{
  ℕ, zero, suc, ◌+◌, ◌-◌, ◌*◌, ◌/◌, ◌%◌, ◌^◌, Bool, ◌&&◌, [], ◌∷◌, ltb, leb, ◌==◌, if◌then◌else◌,
  Text, codes, Outcome, ok, err,
}

abbrev pub max_u16 : ℕ
max_u16 = 2 ^ 16 - 1

-- The digits of `n` in front of `out`, last digit first; the fuel bounds their number.
pub render : ℕ → ℕ → Text → Text
render zero n out = out
render (suc fuel) n out =
    let longer = (b'0' + n % 10) ∷ out in
    let rest = render fuel (n / 10) longer in if ltb n 10 then longer else rest

-- A `u64` is below 10 ^ 20, so it has at most 20 digits.
unfoldable pub display : ℕ → Text
unfolding render
display n = render 20 n []

pub data ParseIntError : Type 0 where
  empty invalid_digit pos_overflow : ParseIntError

unfoldable pub display_parse_error : ParseIntError → Text
display_parse_error empty = codes "cannot parse integer from empty string"
display_parse_error invalid_digit = codes "invalid digit found in string"
display_parse_error pos_overflow = codes "number too large to fit in target type"

unfoldable pub is_digit : ℕ → Bool
is_digit c = leb b'0' c && leb c b'9'

-- The digit loop: the digit is tested before the overflow is reported.
unfoldable pub scan_u16 : Text → ℕ → Outcome ParseIntError ℕ
scan_u16 [] n = ok n
scan_u16 (c ∷ s) n =
    let next = n * 10 + (c - b'0') in
    let rest = scan_u16 s next in
    if is_digit c then (if leb next max_u16 then rest else err pos_overflow) else err invalid_digit

-- One leading plus sign is skipped, unless it is the whole text.
unfoldable pub parse_u16 : Text → Outcome ParseIntError ℕ
parse_u16 [] = err empty
parse_u16 (c ∷ []) = scan_u16 (c ∷ []) 0
parse_u16 (c ∷ d ∷ s) = if c == b'+' then scan_u16 (d ∷ s) 0 else scan_u16 (c ∷ d ∷ s) 0
