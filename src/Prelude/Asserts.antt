-- ===== src/Prelude/Asserts.antt =====
-- The assertions of the tests: one that fails is a panic.
use Prim.Native.Nat.{compare, Ordering}
use mathlib.Core.Bool.{Bool, true, false, ◌||◌}
use mathlib.Core.List.{[], ◌∷◌}
use yral_onboarding_hello_wo.Prelude.Strings.{Text, text_eq}
use yral_onboarding_hello_wo.Prelude.Programs.{Outcome, ok, err, panicked, Program}

-- `assert!`, and `assert_eq!` of two texts.
abbrev pub assert : {P E : Type 0} → Bool → Program P E (Unit {0})
assert true p = (ok tt, p)
assert false p = (panicked, p)

abbrev pub assert_eq : {P E : Type 0} → Text → Text → Program P E (Unit {0})
assert_eq left right = assert (text_eq left right)

-- `.expect_err(…)`.
abbrev pub or_panic_err : {E E' A : Type 0} → Outcome E A → Outcome E' E
or_panic_err (ok a) = panicked
or_panic_err (err e) = ok e
or_panic_err panicked = panicked

-- `str::contains`.
unfoldable pub starts_with : Text → Text → Bool
starts_with s [] = true
starts_with [] (d ∷ t) = false
starts_with (c ∷ s) (d ∷ t) = (elim (compare c d) [ Ordering.eq ↦ starts_with s t | _ ↦ false ])

unfoldable pub contains : Text → Text → Bool
unfolding starts_with
contains [] t = starts_with [] t
contains (c ∷ s) t = starts_with (c ∷ s) t || contains s t
