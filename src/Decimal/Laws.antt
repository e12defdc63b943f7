-- ===== src/Decimal/Laws.antt =====
-- The value of a print, and the texts that the parser reads.
use native.Mathlib.Nat.{pow-suc}
use mathlib.Core.List.{cons-ne-nil}
use yral_onboarding_hello_wo.Prelude.{
  ℕ, zero, suc, ◌+◌, ◌-◌, ◌*◌, ◌/◌, ◌%◌, ◌^◌, ◌≤◌, ◌<◌, Bool-cases, inl, inr, ◌==◌, if◌then◌else◌,
  ◌≡◌, refl, sym, ap, ◌∙◌, ◌≢◌, panicked, ◌↔◌, [], ◌∷◌, arith, All, Text, ok,
}
use yral_onboarding_hello_wo.Decimal.{render, display, max_u16, is_digit, scan_u16, parse_u16}

-- The number that a text of digits spells behind the number `n`.
abbrev pub value : ℕ → Text → ℕ
value n [] = n
value n (c ∷ s) = value (n * 10 + (c - b'0')) s

abbrev pub IsDigit : ℕ → Type 0
IsDigit c = (b'0' ≤ c) × (c ≤ b'9')

render-value : (fuel n : ℕ) (out : Text) → n < 10 ^ fuel → value 0 (render fuel n out) ≡ value n out
unfolding render
render-value zero n out h = ap (λ (k : ℕ). value k out) (omega arith)
render-value (suc fuel) n out h =
    ground (arith, render-value fuel (n / 10) ((b'0' + n % 10) ∷ out), pow-suc 10 fuel)

pub value-display : (n : ℕ) → n < 10 ^ 20 → value 0 (display n) ≡ n
unfolding display
value-display n h = render-value 20 n [] h

-- Two numbers of at most twenty digits with one print are equal.
pub display_inj : (a b : ℕ) → a < 10 ^ 20 → b < 10 ^ 20 → display a ≡ display b → a ≡ b
display_inj a b ha hb e = sym (value-display a ha) ∙ ap (value 0) e ∙ value-display b hb

le-value : (s : Text) (n : ℕ) → n ≤ value n s
le-value [] n = omega arith
le-value (c ∷ s) n = omega (arith, le-value s (n * 10 + (c - b'0')))

scan_u16_sound :
    (s : Text) (n r : ℕ)
    → n ≤ max_u16
    → scan_u16 s n ≡ ok r
    → All IsDigit s × (value n s ≡ r) × (r ≤ max_u16)
unfolding scan_u16 is_digit
scan_u16_sound [] n r fits h = ground arith
scan_u16_sound (c ∷ s) n r fits h = ground (arith, scan_u16_sound s (n * 10 + (c - b'0')) r)

scan_u16_complete :
    (s : Text) (n : ℕ) → All IsDigit s → value n s ≤ max_u16 → scan_u16 s n ≡ ok (value n s)
unfolding scan_u16 is_digit
scan_u16_complete [] n _ _ = refl
scan_u16_complete (c ∷ s) n (hc, hs) fits =
    let next = n * 10 + (c - b'0') in
    ground (arith, scan_u16_complete s next hs fits, le-value s next)

-- The digits that the parser reads: one leading plus sign is dropped, unless it stands alone.
abbrev pub digits_of : Text → Text
digits_of [] = []
digits_of (c ∷ []) = c ∷ []
digits_of (c ∷ d ∷ s) = if c == b'+' then d ∷ s else c ∷ d ∷ s

parse_u16-scan : (s : Text) → s ≢ [] → parse_u16 s ≡ scan_u16 (digits_of s) 0
unfolding parse_u16
parse_u16-scan [] h = absurd (h refl)
parse_u16-scan (c ∷ []) h = refl
parse_u16-scan (c ∷ d ∷ s) h = elim (Bool-cases (c == b'+')) [
  | inl plus ↦ rw plus
  | inr other ↦ rw other
]

-- A text is read as a port exactly if it has digits alone, behind one optional plus sign, and
-- spells the number, which fits sixteen bits: nothing wraps around.
pub parse_u16_iff :
    (s : Text) (r : ℕ)
    → (parse_u16 s ≡ ok r)
      ↔ ((s ≢ []) × All IsDigit (digits_of s) × (value 0 (digits_of s) ≡ r) × (r ≤ max_u16))
unfolding parse_u16
parse_u16_iff [] r = ((λ e. cc), λ p. absurd (p.0 refl))
parse_u16_iff (c ∷ s) r = (to, from)
  where
    here : c ∷ s ≢ []
    here = cons-ne-nil c s

    to :
        parse_u16 (c ∷ s) ≡ ok r
        → (c ∷ s ≢ [])
          × All IsDigit (digits_of (c ∷ s))
          × (value 0 (digits_of (c ∷ s)) ≡ r)
          × (r ≤ max_u16)
    to e =
        let p =
          scan_u16_sound (digits_of (c ∷ s)) 0 r (omega arith)
            (sym (parse_u16-scan (c ∷ s) here) ∙ e) in
        (here, p.0, p.1, p.2)

    from :
        (c ∷ s ≢ [])
          × All IsDigit (digits_of (c ∷ s))
          × (value 0 (digits_of (c ∷ s)) ≡ r)
          × (r ≤ max_u16)
        → parse_u16 (c ∷ s) ≡ ok r
    from (_, digits, spells, fits) =
        parse_u16-scan (c ∷ s) here
        ∙ scan_u16_complete (digits_of (c ∷ s)) 0 digits (omega arith)
        ∙ ap ok spells

render-IsDigit : (fuel n : ℕ) (out : Text) → All IsDigit out → All IsDigit (render fuel n out)
unfolding render
render-IsDigit zero n out h = h
render-IsDigit (suc fuel) n out h =
    let digit : IsDigit (b'0' + n % 10) = omega arith in
    ground (arith, render-IsDigit fuel (n / 10) ((b'0' + n % 10) ∷ out))

render-ne-nil : (fuel n : ℕ) (out : Text) → out ≢ [] → render fuel n out ≢ []
unfolding render
render-ne-nil zero n out h = h
render-ne-nil (suc fuel) n out h =
    ground
      (arith, cons-ne-nil (b'0' + n % 10) out, render-ne-nil fuel (n / 10) ((b'0' + n % 10) ∷ out))

display-ne-nil : (n : ℕ) → display n ≢ []
unfolding display render
display-ne-nil n =
    ground (arith, cons-ne-nil (b'0' + n % 10) [], render-ne-nil 19 (n / 10) ((b'0' + n % 10) ∷ []))

display-IsDigit : (n : ℕ) → All IsDigit (display n)
unfolding display
display-IsDigit n = render-IsDigit 20 n [] tt

digits_of-digits : (s : Text) → All IsDigit s → digits_of s ≡ s
digits_of-digits [] h = refl
digits_of-digits (c ∷ []) h = refl
digits_of-digits (c ∷ d ∷ s) h = ground arith

-- Every sixteen-bit number is read back from its print.
pub parse_u16-display : (n : ℕ) → n ≤ max_u16 → parse_u16 (display n) ≡ ok n
parse_u16-display n h = (parse_u16_iff (display n) n).1 (
  display-ne-nil n,
  rw (digits_of-digits (display n) (display-IsDigit n)) (display-IsDigit n),
  ap (value 0) (digits_of-digits (display n) (display-IsDigit n)) ∙ value-display n (omega arith),
  h,
)

scan_u16-ne-panicked : (s : Text) (n : ℕ) → scan_u16 s n ≢ panicked
unfolding scan_u16
scan_u16-ne-panicked [] n h = cc
scan_u16-ne-panicked (c ∷ s) n h = ground (arith, scan_u16-ne-panicked s (n * 10 + (c - b'0')))

pub parse_u16-ne-panicked : (s : Text) → parse_u16 s ≢ panicked
unfolding parse_u16
parse_u16-ne-panicked [] h = cc
parse_u16-ne-panicked (c ∷ []) h = scan_u16-ne-panicked (c ∷ []) 0 h
parse_u16-ne-panicked (c ∷ d ∷ s) h =
    ground (arith, scan_u16-ne-panicked (d ∷ s) 0, scan_u16-ne-panicked (c ∷ d ∷ s) 0)
