-- ===== src/Decimal/Tests.antt =====
-- Prints and parses of concrete numbers.
use yral_onboarding_hello_wo.Prelude.{◌-◌, ◌^◌, ◌≡◌, refl, codes, err}
use yral_onboarding_hello_wo.Decimal.{
  display, is_digit, scan_u16, parse_u16, invalid_digit, pos_overflow,
}
use yral_onboarding_hello_wo.Decimal.Laws.{}

largest_u64 : display (2 ^ 64 - 1) ≡ codes "18446744073709551615"
unfolding display
largest_u64 = refl

zero_is_printed : display 0 ≡ codes "0"
unfolding display
zero_is_printed = refl

too_large : parse_u16 (codes "65536") ≡ err pos_overflow
unfolding parse_u16 scan_u16 is_digit
too_large = refl

no_sign : parse_u16 (codes "-1") ≡ err invalid_digit
unfolding parse_u16 scan_u16 is_digit
no_sign = refl
