-- ===== src/Prelude/Programs.antt =====
-- Fallible and stateful code: a Rust `Result`, to which a panic is added, and programs that run
-- from a state to an outcome and the state that they leave.
use mathlib.Core.Path.{◌≡◌, refl, ap}
use mathlib.Core.Logic.{◌⊎◌, inl, inr}
use mathlib.Core.Option.{Option, none, some}

-- `ok` and `err` are the two sides of a `Result`; `panicked` is a panic that ends the task.
pub data Outcome (E A : Type 0) : Type 0 where
  ok : A → Outcome E A
  err : E → Outcome E A
  panicked : Outcome E A

abbrev pub Program : Type 0 → Type 0 → Type 0 → Type 0
Program W E A = W → Outcome E A × W

abbrev pub and_then :
    {W E A B : Type 0} → Outcome E A × W → (A → W → Outcome E B × W) → Outcome E B × W
and_then (ok a, w) k = k a w
and_then (err e, w) k = (err e, w)
and_then (panicked, w) k = (panicked, w)

-- `?` and `.await?`: go on with the value, or return the error.
infixl 5 ◌>>=◌ ◌>>◌
abbrev pub ◌>>=◌ : {W E A B : Type 0} → Program W E A → (A → Program W E B) → Program W E B
◌>>=◌ m k w = and_then (m w) k

abbrev pub ◌>>◌ : {W E A B : Type 0} → Program W E A → Program W E B → Program W E B
◌>>◌ m k w = and_then (m w) (λ _. k)

abbrev pub return : {W E A : Type 0} → A → Program W E A
return a w = (ok a, w)

abbrev pub throw : {W E A : Type 0} → E → Program W E A
throw e w = (err e, w)

-- `.map_err(f)`, and the conversion `From::from` of `?`.
abbrev pub map_err : {E E' A : Type 0} → (E → E') → Outcome E A → Outcome E' A
map_err f (ok a) = ok a
map_err f (err e) = err (f e)
map_err f panicked = panicked

abbrev pub rethrow : {W E E' A : Type 0} → (E → E') → Program W E A → Program W E' A
rethrow f m w = let (r, w') = m w in (map_err f r, w')

-- A pure result in a program.
abbrev pub lift : {W E A : Type 0} → Outcome E A → Program W E A
lift r w = (r, w)

-- `.ok_or(e)`.
abbrev pub ok_or : {E A : Type 0} → Option A → E → Outcome E A
ok_or none e = err e
ok_or (some a) e = ok a

-- `.expect(…)` on a value that may be missing.
abbrev pub expect : {E A : Type 0} → Option A → Outcome E A
expect none = panicked
expect (some a) = ok a

pub Outcome-cases :
    {E A : Type 0} (r : Outcome E A)
    → ((a : A) × (r ≡ ok a)) ⊎ ((e : E) × (r ≡ err e)) ⊎ (r ≡ panicked)
Outcome-cases (ok a) = inl (a, refl)
Outcome-cases (err e) = inr (inl (e, refl))
Outcome-cases panicked = inr (inr refl)

abbrev pub modify : {W E : Type 0} → (W → W) → Program W E (Unit {0})
modify f w = (ok tt, f w)

-- `.expect(…)` on a result.
abbrev pub or_panic : {E E' A : Type 0} → Outcome E A → Outcome E' A
or_panic (ok a) = ok a
or_panic (err e) = panicked
or_panic panicked = panicked

abbrev pub expect_ok : {W E E' A : Type 0} → Program W E A → Program W E' A
expect_ok m w = let (r, w') = m w in (or_panic r, w')

-- Code that cannot fail.
abbrev pub infallible : {W E A : Type 0} → (W → A × W) → Program W E A
infallible f w = let (a, w') = f w in (ok a, w')

-- `let _ = m.await`: the result is dropped, an error too.
abbrev pub ignore : {W E E' A : Type 0} → Program W E A → Program W E' (Unit {0})
ignore m w = let (r, w') = m w in (elim r [ panicked ↦ panicked | _ ↦ ok tt ], w')

-- `if let Ok(a) = m.await { … }`.
abbrev pub if_ok :
    {W E E' A : Type 0} → Program W E A → (A → Program W E' (Unit {0})) → Program W E' (Unit {0})
if_ok m k w =
    let (r, w') = m w in elim r [ ok a ↦ k a w' | err _ ↦ (ok tt, w') | panicked ↦ (panicked, w') ]

pub ok_inj : {E A : Type 0} (a b : A) → ◌≡◌ {A = Outcome E A} (ok a) (ok b) → a ≡ b
ok_inj a b e = ap (λ r. elim r [ ok x ↦ x | _ ↦ a ]) e

-- A composition runs its second part exactly if the first returns, on the state that this leaves.
module _ {W E A B : Type 0} (m : Program W E A) (k : A → Program W E B) (w : W) where
  pub >>=-run : {a : A} → (m w).0 ≡ ok a → (m >>= k) w ≡ k a (m w).1
  >>=-run e = rw e

  pub >>=-eq-ok :
      {b : B} → ((m >>= k) w).0 ≡ ok b → (a : A) × ((m w).0 ≡ ok a) × ((k a (m w).1).0 ≡ ok b)
  >>=-eq-ok e = elim (Outcome-cases (m w).0) [
    | inl (a, p) ↦ (a, p, rw p at e)
    | inr (inl (x, p)) ↦ let q : ◌≡◌ {A = Outcome E B} (err x) (ok _) = rw p at e in absurd (cc)
    | inr (inr p) ↦ let q : ◌≡◌ {A = Outcome E B} panicked (ok _) = rw p at e in absurd (cc)
  ]
