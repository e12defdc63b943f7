-- ===== src/Prelude/Lists.antt =====
-- Lists measured by native numbers, and predicates on lists by recursion.
use Prim.Native.Nat.{ℕ, suc, ◌+◌, ◌<◌}
use mathlib.Core.Path.{◌≡◌}
use mathlib.Core.List.{List, [], ◌∷◌, ◌++◌}
use native.Mathlib.Omega.{arith}

module _ {ℓ} {A : Type ℓ} where
  abbrev pub length : List A → ℕ
  length [] = 0
  length (x ∷ xs) = suc (length xs)

  pub length-append : (xs ys : List A) → length (xs ++ ys) ≡ length xs + length ys
  length-append [] ys = omega arith
  length-append (x ∷ xs) ys = omega (arith, length-append xs ys)

  pub append_cancel_left : (xs ys zs : List A) → xs ++ ys ≡ xs ++ zs → ys ≡ zs
  append_cancel_left [] ys zs e = e
  append_cancel_left (x ∷ xs) ys zs e = append_cancel_left xs ys zs (cc)

module _ {ℓ κ} {A : Type ℓ} (P : A → Type κ) where
  abbrev pub All : List A → Type κ
  All [] = Unit
  All (x ∷ xs) = P x × All xs

  pub All-append : (xs ys : List A) → All xs → All ys → All (xs ++ ys)
  All-append [] ys _ hy = hy
  All-append (x ∷ xs) ys (px, hx) hy = (px, All-append xs ys hx hy)

-- Every number is above the bound and above all that stand before it.
abbrev pub AscendingFrom : ℕ → List ℕ → Type 0
AscendingFrom n [] = Unit
AscendingFrom n (x ∷ xs) = (n < x) × AscendingFrom x xs
