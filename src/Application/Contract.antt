-- ===== src/Application/Contract.antt =====
-- What a counter store promises, and what the service makes of it.
use yral_onboarding_hello_wo.Prelude.{
  ℕ, suc, ◌≤◌, ◌<◌, ◌≡◌, ◌≢◌, refl, arith, ok, Outcome, Outcome-cases, List, [], ◌∷◌, ◌++◌, none,
  some, length, All, AscendingFrom, inl, inr,
}
use yral_onboarding_hello_wo.Domain.{u64_mod, new_visitor_count, HelloResponse}
use yral_onboarding_hello_wo.Application.{
  CounterStore, ApplicationError, GreetingMode, plain, counter, HelloWorldService, hello, health,
}
use yral_onboarding_hello_wo.Application.Service.{hello_counter_state, health_state}

-- `issued w` is the last number that the store gave out before the state `w`, and `Ready k w` says
-- that `k` more calls can be made. A call that returns a number returns a `u64` above all numbers
-- given out before it, and no call forgets a number, however it ends.
pub record IsCounter {W : Type 0} (store : CounterStore W) (issued : W → ℕ) (Ready : ℕ → W → Type 0)
    : Type 0 where
  pub ready_fewer : (k : ℕ) (w : W) → Ready (suc k) w → Ready k w
  pub next-Ready : (k : ℕ) (w : W) → Ready (suc k) w → Ready k (store.next_visitor_count w).1
  pub next_grows :
      (k : ℕ) (w : W) → Ready (suc k) w → issued w ≤ issued (store.next_visitor_count w).1
  pub next_fresh :
      (k : ℕ) (w : W) (n : ℕ)
      → Ready (suc k) w
      → (store.next_visitor_count w).0 ≡ ok n
      → (issued w < n) × (n ≤ issued (store.next_visitor_count w).1) × (n < u64_mod)
  pub health-Ready : (k : ℕ) (w : W) → Ready (suc k) w → Ready k (store.health w).1
  pub health_grows : (k : ℕ) (w : W) → Ready (suc k) w → issued w ≤ issued (store.health w).1

-- The two requests that the service answers.
pub data Call : Type 0 where
  visit check : Call

abbrev pub count_of : Outcome ApplicationError HelloResponse → List ℕ
count_of (ok r) = elim r.visitor_count [ none ↦ [] | some n ↦ n ∷ [] ]
count_of _ = []

-- The counts that a sequence of requests is answered with, in order; a failed visit has none.
unfoldable pub visits : {W : Type 0} → HelloWorldService W → List Call → W → List ℕ
visits service [] w = []
visits service (visit ∷ calls) w =
    count_of (hello service w).0 ++ visits service calls (hello service w).1
visits service (check ∷ calls) w = visits service calls (health service w).1

AscendingFrom-mono : {m n : ℕ} (xs : List ℕ) → m ≤ n → AscendingFrom n xs → AscendingFrom m xs
AscendingFrom-mono [] h a = tt
AscendingFrom-mono (x ∷ xs) h (p, a) = (omega arith, a)

-- All counts are new, ascending `u64` values.
abbrev pub Fresh : ℕ → List ℕ → Type 0
Fresh n xs = AscendingFrom n xs × All (λ x. x < u64_mod) xs

Fresh-mono : {m n : ℕ} (xs : List ℕ) → m ≤ n → Fresh n xs → Fresh m xs
Fresh-mono xs h (a, b) = (AscendingFrom-mono xs h a, b)

module _ {W : Type 0} {store : CounterStore W} {issued : W → ℕ} {Ready : ℕ → W → Type 0}
    (c : IsCounter store issued Ready) where
  open c use {ready_fewer, next-Ready, next_grows, next_fresh, health-Ready, health_grows}

  hello_plain_state : (w : W) → (hello (record { mode = plain; counter_store = store }) w).1 ≡ w
  unfolding hello
  hello_plain_state w = refl

  hello_plain_count :
      (w : W) → count_of (hello (record { mode = plain; counter_store = store }) w).0 ≡ []
  unfolding hello
  hello_plain_count w = refl

  hello_counter_count :
      (w : W) (n : ℕ)
      → (store.next_visitor_count w).0 ≡ ok n
      → 0 < n
      → count_of (hello (record { mode = counter; counter_store = store }) w).0 ≡ n ∷ []
  unfolding hello new_visitor_count
  hello_counter_count w n p pos = ground arith

  hello_counter_no_count :
      (w : W)
      → ((n : ℕ) → (store.next_visitor_count w).0 ≢ ok n)
      → count_of (hello (record { mode = counter; counter_store = store }) w).0 ≡ []
  unfolding hello new_visitor_count
  hello_counter_no_count w h = elim (Outcome-cases (store.next_visitor_count w).0) [
    | inl (n, p) ↦ absurd (h n p)
    | inr (inl (x, p)) ↦ rw p
    | inr (inr p) ↦ rw p
  ]

  visit_counter :
      (k : ℕ) (w : W) (later : List ℕ)
      → Ready (suc k) w
      → Fresh (issued (store.next_visitor_count w).1) later
      → Fresh
          (issued w)
          (count_of (hello (record { mode = counter; counter_store = store }) w).0 ++ later)
  visit_counter k w later ready h = elim (Outcome-cases (store.next_visitor_count w).0) [
    | inl (n, p) ↦
        let (above, below, fits) = next_fresh k w n ready p in
        let (ascending, bounded) = Fresh-mono later below h in
        rw (hello_counter_count w n p (omega arith)) ((above, ascending), (fits, bounded))
    | inr (inl (x, p)) ↦
        rw (hello_counter_no_count w (λ n q. cc)) (Fresh-mono later (next_grows k w ready) h)
    | inr (inr p) ↦
        rw (hello_counter_no_count w (λ n q. cc)) (Fresh-mono later (next_grows k w ready) h)
  ]

  -- Whatever the requests, and whichever of them fail, the counts that the service answers with are
  -- `u64` values, each above all that were issued before it, if its store keeps the contract and is
  -- ready for as many calls.
  pub visits-Fresh :
      (mode : GreetingMode) (calls : List Call) (w : W)
      → Ready (length calls) w
      → Fresh (issued w) (visits (record { mode = mode; counter_store = store }) calls w)
  unfolding visits
  visits-Fresh mode [] w ready = (tt, tt)
  visits-Fresh plain (visit ∷ calls) w ready =
      rw (hello_plain_state w, hello_plain_count w)
        (visits-Fresh plain calls w (ready_fewer _ w ready))
  visits-Fresh counter (visit ∷ calls) w ready =
      rw (hello_counter_state store w) (
        visit_counter (length calls) w _ ready
          (visits-Fresh counter calls _ (next-Ready _ w ready)))
  visits-Fresh mode (check ∷ calls) w ready =
      rw (health_state store mode w)
        (Fresh-mono _ (health_grows _ w ready) (visits-Fresh mode calls _ (health-Ready _ w ready)))
