-- ===== src/Postgres/Spending.antt =====
-- How many numbers one call can use up, where no other server uses the row.
use yral_onboarding_hello_wo.Prelude.{
  ℕ, zero, suc, ◌+◌, ◌*◌, ◌≤◌, ◌≡◌, inl, inr, arith, Outcome-cases, ◌>>◌, modify, Text, throw,
  Program,
}
use yral_onboarding_hello_wo.Application.{CounterStoreError}
use yral_onboarding_hello_wo.Postgres.{
  Driver, init_sql, update_sql, PostgresCounterStore, connect_client, new_client, attempt,
  reinitialize, on_attempt, retry_loop, next_visitor_count,
}
use yral_onboarding_hello_wo.Postgres.Growth.{Along, Same, modify-Along, growth}
use yral_onboarding_hello_wo.Postgres.Database.{IsDatabase, retry_loop-Grows}

-- No other server uses the row: only an update changes the value, by at most one.
pub record IsQuiet {W Client Connection Row Failure : Type 0}
    (driver : Driver W Client Connection Row Failure) (stored : W → ℕ) : Type 0 where
  pub connect_keeps : (s : Text) → Along (Same stored) (driver.connect s)
  pub spawn_keeps : (c : Connection) (w : W) → stored (driver.spawn c w) ≡ stored w
  pub sleep_keeps : (ms : ℕ) (w : W) → stored (driver.sleep ms w) ≡ stored w
  pub init_keeps : (c : Client) → Along (Same stored) (driver.batch_execute c init_sql)
  pub update_bounded :
      (c : Client) (w : W) → stored (driver.query_one c update_sql w).1 ≤ stored w + 1

module _ {W Client Connection Row Failure : Type 0}
    {driver : Driver W Client Connection Row Failure} {stored : W → ℕ}
    (quiet : IsQuiet driver stored) where
  open quiet use {connect_keeps, spawn_keeps, sleep_keeps, init_keeps, update_bounded}

  new_client-Same : (store : PostgresCounterStore) → Along (Same stored) (new_client driver store)
  unfolding new_client connect_client
  new_client-Same store = search (growth, connect_keeps, spawn_keeps) depth 8

  reinitialize-Same :
      (store : PostgresCounterStore) → Along (Same stored) (reinitialize driver store)
  unfolding reinitialize
  reinitialize-Same store = search (growth, new_client-Same, init_keeps) depth 8

  attempt-bounded :
      (store : PostgresCounterStore) (w : W) → stored (attempt driver store w).1 ≤ stored w + 1
  unfolding attempt
  attempt-bounded store w =
      let before = (new_client-Same store).apply w in
      elim (Outcome-cases (new_client driver store w).0) [
        | inl (c, p) ↦ rw p (omega (arith, before, update_bounded c (new_client driver store w).1))
        | inr (inl (e, p)) ↦ rw p (omega (arith, before))
        | inr (inr p) ↦ rw p (omega (arith, before))
      ]

  -- The attempt uses up one number, and the arm of its error `k` more.
  on_attempt-bounded :
      (store : PostgresCounterStore) (failed : CounterStoreError → Program W CounterStoreError ℕ)
      (k : ℕ)
      → ((e : CounterStoreError) (w : W) → stored (failed e w).1 ≤ stored w + k)
      → (w : W) → stored (on_attempt driver (attempt driver store w) failed).1 ≤ stored w + 1 + k
  on_attempt-bounded store failed k h w =
      let first = attempt-bounded store w in
      elim (Outcome-cases (attempt driver store w).0) [
        | inl (row, p) ↦ rw (p, on_attempt) (omega (arith, first))
        | inr (inl (e, p)) ↦
            rw (p, on_attempt) (omega (arith, first, h e (attempt driver store w).1))
        | inr (inr p) ↦ rw (p, on_attempt) (omega (arith, first))
      ]

  -- What comes before the rest of a program and keeps the number adds nothing.
  >>-bounded :
      {E A B : Type 0} (m : Program W E A) (rest : Program W E B) (k : ℕ)
      → Along (Same stored) m
      → ((w : W) → stored (rest w).1 ≤ stored w + k)
      → (w : W) → stored ((m >> rest) w).1 ≤ stored w + k
  >>-bounded m rest k hm h w =
      let first = hm.apply w in
      elim (Outcome-cases (m w).0) [
        | inl (a, p) ↦ rw p (omega (arith, first, h (m w).1))
        | inr (inl (e, p)) ↦ rw p (omega (arith, first))
        | inr (inr p) ↦ rw p (omega (arith, first))
      ]

  retry_loop-bounded :
      (store : PostgresCounterStore) (retries delay : ℕ) (w : W)
      → stored (retry_loop driver store retries delay w).1 ≤ stored w + 1 + retries
  unfolding retry_loop
  retry_loop-bounded store zero delay w = on_attempt-bounded store throw 0 (λ e w'. omega arith) w
  retry_loop-bounded store (suc retries) delay w =
      on_attempt-bounded store _ (suc retries)
        (λ e. >>-bounded _ _ (suc retries) (reinitialize-Same store) (
          >>-bounded (modify (driver.sleep delay)) (retry_loop driver store retries (delay * 2))
            (suc retries) (modify-Along (driver.sleep delay) (sleep_keeps delay))
            (λ w'. omega (arith, retry_loop-bounded store retries (delay * 2) w'))))
        w

  -- If the database behaves as documented and no other server uses the row, a call, however it
  -- ends, uses up at most four numbers.
  pub next_visitor_count-bounded :
      IsDatabase driver stored
      → (store : PostgresCounterStore) (w : W)
      → (stored w ≤ stored (next_visitor_count driver store w).1)
        × (stored (next_visitor_count driver store w).1 ≤ stored w + 4)
  unfolding next_visitor_count
  next_visitor_count-bounded db store w =
      ((retry_loop-Grows db store 3 250).apply w, omega (arith, retry_loop-bounded store 3 250 w))
