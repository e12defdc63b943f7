-- ===== src/Postgres/Growth.antt =====
-- Programs that keep to a relation between the states before and after, such as never to lower a
-- number read off the state: one rule for each way to compose them.
use yral_onboarding_hello_wo.Prelude.{
  ℕ, ◌≤◌, ◌<◌, ◌≡◌, refl, ◌∙◌, inl, inr, arith, Outcome-cases, ok, Program, ◌>>=◌, ◌>>◌, return,
  throw, rethrow, modify, ignore, if_ok,
}
use yral_onboarding_hello_wo.Domain.{u64_mod}

-- `R` holds from each state to itself, and from the first of two steps to the second.
pub record IsPreorder {W : Type 0} (R : W → W → Type 0) : Type 0 where
  pub stays : (w : W) → R w w
  pub follows : (u v w : W) → R u v → R v w → R u w

-- The program takes every state to one that `R` allows, however it ends.
pub record Along {W : Type 0} (R : W → W → Type 0) {E A : Type 0} (m : Program W E A) : Type 0 where
  pub apply : (w : W) → R w (m w).1

module _ {W : Type 0} {R : W → W → Type 0} (o : IsPreorder R) where
  open o use {stays, follows}

  module _ {E A : Type 0} where
    pub return-Along : (a : A) → Along R {E = E} (return a)
    return-Along a = record { apply = stays }

    pub throw-Along : (e : E) → Along R {A = A} (throw e)
    throw-Along e = record { apply = stays }

    pub >>=-Along :
        {B : Type 0} (m : Program W E A) (k : A → Program W E B)
        → Along R m
        → ((a : A) → Along R (k a))
        → Along R (m >>= k)
    >>=-Along m k hm hk = record {
      apply = λ w. elim (Outcome-cases (m w).0) [
        | inl (a, p) ↦ rw p (follows _ _ _ (hm.apply w) ((hk a).apply (m w).1))
        | inr (inl (e, p)) ↦ rw p (hm.apply w)
        | inr (inr p) ↦ rw p (hm.apply w)
      ];
    }

    pub >>-Along :
        {B : Type 0} (m : Program W E A) (k : Program W E B)
        → Along R m
        → Along R k
        → Along R (m >> k)
    >>-Along m k hm hk = record { apply = (>>=-Along m (λ _. k) hm (λ _. hk)).apply }

    pub if_ok-Along :
        {E' : Type 0} (m : Program W E A) (k : A → Program W E' (Unit {0}))
        → Along R m
        → ((a : A) → Along R (k a))
        → Along R (if_ok m k)
    if_ok-Along m k hm hk = record {
      apply = λ w. elim (Outcome-cases (m w).0) [
        | inl (a, p) ↦ rw (p, if_ok) (follows _ _ _ (hm.apply w) ((hk a).apply (m w).1))
        | inr (inl (e, p)) ↦ rw (p, if_ok) (hm.apply w)
        | inr (inr p) ↦ rw (p, if_ok) (hm.apply w)
      ];
    }

module _ {W : Type 0} {R : W → W → Type 0} where
  module _ {E A : Type 0} where
    pub ignore-Along : {E' : Type 0} (m : Program W E A) → Along R m → Along R {E = E'} (ignore m)
    ignore-Along m hm = record { apply = λ w. hm.apply w }

    pub rethrow-Along :
        {E' : Type 0} (f : E → E') (m : Program W E A) → Along R m → Along R (rethrow f m)
    rethrow-Along f m hm = record { apply = λ w. hm.apply w }

  pub modify-Along : {E : Type 0} (f : W → W) → ((w : W) → R w (f w)) → Along R {E = E} (modify f)
  modify-Along f h = record { apply = h }

module _ {W : Type 0} (stored : W → ℕ) where
  -- The number does not go down.
  abbrev pub Up : W → W → Type 0
  Up w w' = stored w ≤ stored w'

  pub Up-IsPreorder : IsPreorder Up
  Up-IsPreorder = record { stays = λ w. omega arith; follows = λ u v w h k. omega arith }

  abbrev pub Grows : {E A : Type 0} → Program W E A → Type 0
  Grows m = Along Up m

  -- The number stays as it is.
  abbrev pub Same : W → W → Type 0
  Same w w' = stored w' ≡ stored w

  pub Same-IsPreorder : IsPreorder Same
  Same-IsPreorder = record { stays = λ w. refl; follows = λ u v w h k. k ∙ h }

  -- A number that the program returns is a `u64` above what is stored before it, and stays stored.
  pub record Gives {E : Type 0} (m : Program W E ℕ) : Type 0 where
    pub apply :
        (w : W) (n : ℕ) → (m w).0 ≡ ok n → (stored w < n) × (n ≤ stored (m w).1) × (n < u64_mod)

  pub throw-Gives : {E : Type 0} (e : E) → Gives (throw e)
  throw-Gives e = record { apply = λ w n q. cc }

  pub >>-Gives :
      {E A : Type 0} (m : Program W E A) (k : Program W E ℕ) → Grows m → Gives k → Gives (m >> k)
  >>-Gives m k hm hk = record {
    apply = λ w n q. elim (Outcome-cases (m w).0) [
      | inl (a, p) ↦
          let later = hk.apply (m w).1 n (rw p at q) in rw p (omega (arith, hm.apply w, later))
      | inr (inl (e, p)) ↦ absurd (ground arith)
      | inr (inr p) ↦ absurd (ground arith)
    ];
  }

pub ruleset growth = (
  >>=-Along, >>-Along, return-Along, throw-Along, ignore-Along, rethrow-Along, if_ok-Along,
  modify-Along, Up-IsPreorder, Same-IsPreorder,
)
