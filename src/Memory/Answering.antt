-- ===== src/Memory/Answering.antt =====
-- Whether a task that waits for the mutex of the store can be answered, from any state of the store.
use yral_onboarding_hello_wo.Prelude.{
  ℕ, zero, suc, ◌≤◌, ◌≡◌, ◌≢◌, ◌⊎◌, inl, inr, refl, Bool, ◌∷◌, Outcome, Outcome-cases, ok, err,
  panicked, arith,
}
use yral_onboarding_hello_wo.Application.{CounterStoreError}
use yral_onboarding_hello_wo.Memory.{increment}
use yral_onboarding_hello_wo.Memory.Concurrent.{
  Lock, free, held, added, Shared, add_one, Step, acquire, add, overflow, reply, add_one-ok,
  add_one-panicked,
}

-- A number of steps, one after the other.
pub data Steps (checks : Bool) : ℕ → Shared → Shared → Type 0 where
  done : (s : Shared) → Steps checks zero s s
  next : {n : ℕ} {s t u : Shared} → Step checks s t → Steps checks n t u → Steps checks (suc n) s u

abbrev pub Within : Bool → ℕ → Shared → Shared → Type 0
Within checks limit s t = (n : ℕ) × (n ≤ limit) × Steps checks n s t

-- At most two steps free the lock: it was free, or its holder has been answered.
pub record Freed (checks : Bool) (s t : Shared) : Type 0 where
  pub steps : Within checks 2 s t
  pub unlocked : t.lock ≡ free
  pub replies :
      (t ≡ s)
      ⊎ ((holder : ℕ) × (r : Outcome CounterStoreError ℕ) × (t.replies ≡ (holder, r) ∷ s.replies))

-- At most three steps make the call of the task, which is an increment of the counter as it stands,
-- and free the lock again.
pub record Called (checks : Bool) (task : ℕ) (t u : Shared) : Type 0 where
  pub steps : Within checks 3 t u
  pub unlocked : u.lock ≡ free
  pub result : Outcome CounterStoreError ℕ
  pub counted : increment checks t.counter ≡ (result, u.counter)
  pub replies : u.replies ≡ (task, result) ∷ t.replies

abbrev pub Answered : Bool → ℕ → Shared → Type 0
Answered checks task s = (t : Shared) × Freed checks s t × (u : Shared) × Called checks task t u

add_one-ne-err : (checks : Bool) (v : ℕ) (e : CounterStoreError) → add_one checks v ≢ err e
unfolding add_one
add_one-ne-err checks v e h = ground arith

module _ (checks : Bool) where
  free-Called : (s : Shared) (task : ℕ) → s.lock ≡ free → (u : Shared) × Called checks task s u
  free-Called s task e =
      let locked : Shared = record s { lock = held task } in
      elim (Outcome-cases (add_one checks s.counter)) [
        | inl (n, p) ↦
            let counted : Shared = record s { counter = n; lock = added task } in
            (
              _,
              record {
                steps = (
                  3,
                  omega arith,
                  next (acquire s task e)
                      (next (add locked task n refl p) (next (reply counted task refl) (done _))),
                );
                unlocked = refl;
                result = ok n;
                counted = add_one-ok checks s.counter n p;
                replies = refl;
              },
            )
        | inr (inl (x, p)) ↦ absurd (add_one-ne-err checks s.counter x p)
        | inr (inr p) ↦ (
          _,
          record {
            steps = (
              2,
              omega arith,
              next (acquire s task e) (next (overflow locked task refl p) (done _)),
            );
            unlocked = refl;
            result = panicked;
            counted = add_one-panicked checks s.counter p;
            replies = refl;
          },
        )
      ]

  added-Freed : (s : Shared) (holder : ℕ) → s.lock ≡ added holder → (t : Shared) × Freed checks s t
  added-Freed s holder e = (
    _,
    record {
      steps = (1, omega arith, next (reply s holder e) (done _));
      unlocked = refl;
      replies = inr (holder, ok s.counter, refl);
    },
  )

  held-Freed : (s : Shared) (holder : ℕ) → s.lock ≡ held holder → (t : Shared) × Freed checks s t
  held-Freed s holder e = elim (Outcome-cases (add_one checks s.counter)) [
    | inl (n, p) ↦
        let counted : Shared = record s { counter = n; lock = added holder } in
        (
          _,
          record {
            steps = (
              2,
              omega arith,
              next (add s holder n e p) (next (reply counted holder refl) (done _)),
            );
            unlocked = refl;
            replies = inr (holder, ok n, refl);
          },
        )
    | inr (inl (x, p)) ↦ absurd (add_one-ne-err checks s.counter x p)
    | inr (inr p) ↦ (
      _,
      record {
        steps = (1, omega arith, next (overflow s holder e p) (done _));
        unlocked = refl;
        replies = inr (holder, panicked, refl);
      },
    )
  ]

  Lock-cases : (l : Lock) → (l ≡ free) ⊎ (((i : ℕ) × (l ≡ held i)) ⊎ ((i : ℕ) × (l ≡ added i)))
  Lock-cases free = inl refl
  Lock-cases (held i) = inr (inl (i, refl))
  Lock-cases (added i) = inr (inr (i, refl))

  Shared-Freed : (s : Shared) → (t : Shared) × Freed checks s t
  Shared-Freed s = elim (Lock-cases s.lock) [
    | inl e ↦ (s, record { steps = (0, omega arith, done s); unlocked = e; replies = inl refl })
    | inr (inl (i, e)) ↦ held-Freed s i e
    | inr (inr (i, e)) ↦ added-Freed s i e
  ]

  -- No call blocks the others for good. From every state of the store, whatever led to it, the lock can
  -- be free after at most two steps, none if it is free, and else with the reply to its holder as the
  -- one reply in between; from there at most three steps make the call of any given task: they
  -- increment the counter, answer the task with the result of this, and free the lock again.
  pub Shared-Answered : (s : Shared) (task : ℕ) → Answered checks task s
  Shared-Answered s task =
      let (t, freed) = Shared-Freed s in
      let (u, called) = free-Called t task freed.unlocked in (t, freed, u, called)
