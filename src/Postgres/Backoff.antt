-- ===== src/Postgres/Backoff.antt =====
-- How often and how long a call waits, over every driver: the driver is run with a log.
use yral_onboarding_hello_wo.Prelude.{
  ℕ, zero, suc, ◌+◌, ◌*◌, ◌≤◌, ◌≡◌, ◌≢◌, ◌⊎◌, inl, inr, refl, sym, ap, ◌∙◌, arith, ok, err,
  panicked, Outcome, Outcome-cases, negsuc, pos, Option-cases, List, [], ◌∷◌, ◌++◌, append-nil,
  append_assoc, Program,
}
use yral_onboarding_hello_wo.Application.{CounterStoreError, unavailable}
use yral_onboarding_hello_wo.Postgres.{
  Driver, PostgresCounterStore, connect_client, new_client, attempt, read_count, reinitialize,
  on_attempt, retry_loop, next_visitor_count, display_try_from_error, out_of_range,
}

-- The world with the log: the waits in order, and the number of queries sent.
pub record Logged (W : Type 0) : Type 0 where
  pub world : W
  pub slept : List ℕ
  pub queries : ℕ

abbrev pub keep_log : {W E A : Type 0} → Program W E A → Program (Logged W) E A
keep_log m l = let (r, w') = m l.world in (r, record l { world = w' })

module _ {W Client Connection Row Failure : Type 0}
    (driver : Driver W Client Connection Row Failure) where
  abbrev pub logged : Driver (Logged W) Client Connection Row Failure
  logged = record {
    connect = λ s. keep_log (driver.connect s);
    spawn = λ c l. record l { world = driver.spawn c l.world };
    batch_execute = λ c sql. keep_log (driver.batch_execute c sql);
    query_one = λ c sql l.
        let (r, w') = driver.query_one c sql l.world in
        (r, record l { world = w'; queries = l.queries + 1 });
    get_i64 = driver.get_i64;
    describe = driver.describe;
    sleep = λ ms l. record l { world = driver.sleep ms l.world; slept = l.slept ++ ms ∷ [] };
  }

  -- `k` waits, each twice as long as the one before it.
  abbrev pub doubling : ℕ → ℕ → List ℕ
  doubling zero delay = []
  doubling (suc k) delay = delay ∷ doubling k (delay * 2)

  new_client_log :
      (store : PostgresCounterStore) (l : Logged W)
      → ((new_client logged store l).1.slept ≡ l.slept)
        × ((new_client logged store l).1.queries ≡ l.queries)
  unfolding new_client connect_client
  new_client_log store l = ground arith

  attempt_log :
      (store : PostgresCounterStore) (l : Logged W)
      → ((attempt logged store l).1.slept ≡ l.slept)
        × ((attempt logged store l).1.queries ≤ l.queries + 1)
  unfolding attempt
  attempt_log store l = ground (arith, new_client_log store l)

  reinitialize_log :
      (store : PostgresCounterStore) (l : Logged W)
      → ((reinitialize logged store l).1.slept ≡ l.slept)
        × ((reinitialize logged store l).1.queries ≡ l.queries)
  unfolding reinitialize
  reinitialize_log store l = ground (arith, new_client_log store l)

  -- An error comes after all the retries, or it is that of a negative value.
  abbrev pub GivesUp : ℕ → ℕ → Outcome CounterStoreError ℕ → Type 0
  GivesUp rounds retries (err e) =
      (rounds ≡ retries) ⊎ (e ≡ unavailable (display_try_from_error out_of_range))
  GivesUp rounds retries _ = Unit

  -- How a call that starts with the log `l` ends, with `retries` left and `delay` for the next wait.
  pub record BacksOff (retries delay : ℕ) (l : Logged W)
      (end : Outcome CounterStoreError ℕ × Logged W) : Type 0 where
    pub rounds : ℕ
    pub bounded : rounds ≤ retries
    pub waits : end.1.slept ≡ l.slept ++ doubling rounds delay
    pub asks : end.1.queries ≤ l.queries + rounds + 1
    pub gives_up : GivesUp rounds retries end.0

  GivesUp-suc :
      (rounds retries : ℕ) (r : Outcome CounterStoreError ℕ)
      → GivesUp rounds retries r
      → GivesUp (suc rounds) (suc retries) r
  GivesUp-suc rounds retries (ok n) h = tt
  GivesUp-suc rounds retries (err e) (inl all) = inl (ap suc all)
  GivesUp-suc rounds retries (err e) (inr negative) = inr negative
  GivesUp-suc rounds retries panicked h = tt

  GivesUp-none_left : (r : Outcome CounterStoreError ℕ) → GivesUp 0 0 r
  GivesUp-none_left (ok n) = tt
  GivesUp-none_left (err e) = inl refl
  GivesUp-none_left panicked = tt

  read_count-GivesUp : (retries : ℕ) (row : Row) → GivesUp 0 retries (read_count logged row)
  unfolding read_count
  read_count-GivesUp retries row = elim (Option-cases (driver.get_i64 row)) [
    | inl none_there ↦ let e : read_count logged row ≡ panicked = ground arith in rw e tt
    | inr (pos n, found) ↦ let e : read_count logged row ≡ ok n = ground arith in rw e tt
    | inr (negsuc n, found) ↦
        let e : read_count logged row ≡ err (unavailable (display_try_from_error out_of_range)) =
          ground arith in
        rw e (inr refl)
  ]

  reinitialize-ne-err :
      (store : PostgresCounterStore) (l : Logged W) (e : CounterStoreError)
      → (reinitialize logged store l).0 ≢ err e
  unfolding reinitialize
  reinitialize-ne-err store l e h = ground arith

  -- The call ends at this attempt.
  last_round :
      (store : PostgresCounterStore) (retries delay : ℕ) (l : Logged W)
      {r : Outcome CounterStoreError ℕ}
      → GivesUp 0 retries r
      → BacksOff retries delay l (r, (attempt logged store l).1)
  last_round store retries delay l gives_up = record {
    rounds = 0;
    bounded = omega arith;
    waits = (attempt_log store l).0 ∙ sym (append-nil l.slept);
    asks = omega (arith, attempt_log store l);
    gives_up = gives_up;
  }

  -- The call ends by a panic while the table is created again.
  crashed_round :
      (store : PostgresCounterStore) (retries delay : ℕ) (l : Logged W)
      → BacksOff retries delay l
          (panicked, (reinitialize logged store (attempt logged store l).1).1)
  crashed_round store retries delay l =
      let after : Logged W = (attempt logged store l).1 in
      record {
        rounds = 0;
        bounded = omega arith;
        waits =
            (reinitialize_log store after).0 ∙ (attempt_log store l).0 ∙ sym (append-nil l.slept);
        asks = omega (arith, attempt_log store l, reinitialize_log store after);
        gives_up = tt;
      }

  -- One more round, between this attempt and the rest of the call.
  more_rounds :
      (store : PostgresCounterStore) (retries delay : ℕ) (l : Logged W)
      {end : Outcome CounterStoreError ℕ × Logged W}
      → BacksOff retries
          (delay * 2)
          (logged.sleep delay (reinitialize logged store (attempt logged store l).1).1)
          end
      → BacksOff (suc retries) delay l end
  more_rounds store retries delay l {end} b = record {
    rounds = suc b.rounds;
    bounded = omega (arith, b.bounded);
    waits =
        b.waits
        ∙ ap (λ xs. (xs ++ delay ∷ []) ++ doubling b.rounds (delay * 2))
            ((reinitialize_log store (attempt logged store l).1).0 ∙ (attempt_log store l).0)
        ∙ append_assoc l.slept (delay ∷ []) (doubling b.rounds (delay * 2));
    asks =
        omega
          (arith, b.asks, attempt_log store l, reinitialize_log store (attempt logged store l).1);
    gives_up = GivesUp-suc b.rounds retries end.0 b.gives_up;
  }

  retry_loop-BacksOff :
      (store : PostgresCounterStore) (retries delay : ℕ) (l : Logged W)
      → BacksOff retries delay l (retry_loop logged store retries delay l)
  unfolding retry_loop
  retry_loop-BacksOff store zero delay l = elim (Outcome-cases (attempt logged store l).0) [
    | inl (row, p) ↦
        rw (p, on_attempt)
          (last_round store zero delay l (GivesUp-none_left (read_count logged row)))
    | inr (inl (e, p)) ↦ rw (p, on_attempt) (last_round store zero delay l (inl refl))
    | inr (inr p) ↦ rw (p, on_attempt) (last_round store zero delay l (tt))
  ]
  retry_loop-BacksOff store (suc retries) delay l =
      elim (Outcome-cases (attempt logged store l).0) [
        | inl (row, p) ↦
            rw (p, on_attempt)
              (last_round store (suc retries) delay l (read_count-GivesUp (suc retries) row))
        | inr (inl (e, p)) ↦
            elim (Outcome-cases (reinitialize logged store (attempt logged store l).1).0) [
              | inl (u, q) ↦
                  rw (p, on_attempt)
                    (rw q (
                      more_rounds store retries delay l
                        (retry_loop-BacksOff store retries (delay * 2) _)))
              | inr (inl (x, q)) ↦ absurd (reinitialize-ne-err store _ x q)
              | inr (inr q) ↦ rw (p, on_attempt) (rw q (crashed_round store (suc retries) delay l))
            ]
        | inr (inr p) ↦ rw (p, on_attempt) (last_round store (suc retries) delay l tt)
      ]

  -- A call sends at most four updates and waits at most three times, first 250 milliseconds and then
  -- twice as long each time. It ends with an error only after all three waits, or with the error of the
  -- conversion of a negative value.
  pub next_visitor_count-BacksOff :
      (store : PostgresCounterStore) (l : Logged W)
      → BacksOff 3 250 l (next_visitor_count logged store l)
  unfolding next_visitor_count
  next_visitor_count-BacksOff store l = retry_loop-BacksOff store 3 250 l
