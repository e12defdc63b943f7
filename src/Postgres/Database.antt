-- ===== src/Postgres/Database.antt =====
-- The Postgres store over a database that behaves as documented and that other servers use too, and
-- the contract of a counter.
use yral_onboarding_hello_wo.Prelude.{
  ℕ, zero, suc, ◌*◌, ◌^◌, ◌≤◌, ◌<◌, ◌≡◌, inl, inr, some, pos, arith, Outcome-cases, ok, Text, throw,
  Program,
}
use yral_onboarding_hello_wo.Domain.{u64_mod}
use yral_onboarding_hello_wo.Application.{CounterStoreError}
use yral_onboarding_hello_wo.Application.Contract.{IsCounter}
use yral_onboarding_hello_wo.Postgres.{
  Driver, init_sql, update_sql, select_sql, PostgresCounterStore, connect_client, new_client,
  attempt, read_count, reinitialize, on_attempt, retry_loop, next_visitor_count, health,
  postgres_store,
}
use yral_onboarding_hello_wo.Postgres.Growth.{
  Grows, Gives, growth, Up-IsPreorder, throw-Along, modify-Along, throw-Gives, >>-Gives,
}

-- `stored w` is the value of the row in the state `w`, or zero if there is none. Time passes in
-- each of these calls, and other servers may raise the value meanwhile. An `UPDATE … RETURNING` is
-- atomic and durable: the value that it returns is a new one, and is not lost.
pub record IsDatabase {W Client Connection Row Failure : Type 0}
    (driver : Driver W Client Connection Row Failure) (stored : W → ℕ) : Type 0 where
  pub connect_grows : (s : Text) → Grows stored (driver.connect s)
  pub spawn_grows : (c : Connection) (w : W) → stored w ≤ stored (driver.spawn c w)
  pub sleep_grows : (ms : ℕ) (w : W) → stored w ≤ stored (driver.sleep ms w)
  pub init_grows : (c : Client) → Grows stored (driver.batch_execute c init_sql)
  pub select_grows : (c : Client) → Grows stored (driver.query_one c select_sql)
  pub update_grows : (c : Client) → Grows stored (driver.query_one c update_sql)
  pub update_row :
      (c : Client) (w : W) (row : Row) (n : ℕ)
      → (driver.query_one c update_sql w).0 ≡ ok row
      → driver.get_i64 row ≡ some (pos n)
      → (stored w < n) × (n ≤ stored (driver.query_one c update_sql w).1) × (n < 2 ^ 63)

module _ {W Client Connection Row Failure : Type 0}
    (driver : Driver W Client Connection Row Failure) where
  pub read_count-ok :
      (row : Row) (n : ℕ) → read_count driver row ≡ ok n → driver.get_i64 row ≡ some (pos n)
  unfolding read_count
  read_count-ok row n e = ground arith

module _ {W Client Connection Row Failure : Type 0}
    {driver : Driver W Client Connection Row Failure} {stored : W → ℕ}
    (db : IsDatabase driver stored) where
  open db use {
    connect_grows, spawn_grows, sleep_grows, init_grows, select_grows, update_grows, update_row,
  }

  pub new_client-Grows : (store : PostgresCounterStore) → Grows stored (new_client driver store)
  unfolding new_client connect_client
  new_client-Grows store = search (growth, connect_grows, spawn_grows) depth 8

  attempt-Grows : (store : PostgresCounterStore) → Grows stored (attempt driver store)
  unfolding attempt
  attempt-Grows store = search (growth, new_client-Grows, update_grows) depth 8

  reinitialize-Grows : (store : PostgresCounterStore) → Grows stored (reinitialize driver store)
  unfolding reinitialize
  reinitialize-Grows store = search (growth, new_client-Grows, init_grows) depth 8

  health-Grows : (store : PostgresCounterStore) → Grows stored (health driver store)
  unfolding health
  health-Grows store = search (growth, new_client-Grows, select_grows) depth 8

  -- A number that one attempt returns is new.
  attempt-row :
      (store : PostgresCounterStore) (w : W) (row : Row) (n : ℕ)
      → (attempt driver store w).0 ≡ ok row
      → driver.get_i64 row ≡ some (pos n)
      → (stored w < n) × (n ≤ stored (attempt driver store w).1) × (n < u64_mod)
  unfolding attempt
  attempt-row store w row n e r = elim (Outcome-cases (new_client driver store w).0) [
    | inl (c, p) ↦
        let before = (new_client-Grows store).apply w in
        rw p
          (omega (arith, before, update_row c (new_client driver store w).1 row n (ground arith) r))
    | inr (inl (x, p)) ↦ absurd (ground arith)
    | inr (inr p) ↦ absurd (ground arith)
  ]

  on_attempt-Grows :
      (store : PostgresCounterStore) (failed : CounterStoreError → Program W CounterStoreError ℕ)
      → ((e : CounterStoreError) → Grows stored (failed e))
      → Grows stored (λ w. on_attempt driver (attempt driver store w) failed)
  on_attempt-Grows store failed h = record {
    apply = λ w.
        let first = (attempt-Grows store).apply w in
        elim (Outcome-cases (attempt driver store w).0) [
          | inl (row, p) ↦ rw (p, on_attempt) first
          | inr (inl (e, p)) ↦
              rw (p, on_attempt) (omega (arith, first, (h e).apply (attempt driver store w).1))
          | inr (inr p) ↦ rw (p, on_attempt) first
        ];
  }

  pub retry_loop-Grows :
      (store : PostgresCounterStore) (retries delay : ℕ)
      → Grows stored (retry_loop driver store retries delay)
  unfolding retry_loop
  retry_loop-Grows store zero delay =
      on_attempt-Grows store throw (throw-Along (Up-IsPreorder stored))
  retry_loop-Grows store (suc retries) delay = on_attempt-Grows store _ λ e.
      let later = retry_loop-Grows store retries (delay * 2) in
      search (growth, reinitialize-Grows, sleep_grows) depth 8

  on_attempt-Gives :
      (store : PostgresCounterStore) (failed : CounterStoreError → Program W CounterStoreError ℕ)
      → ((e : CounterStoreError) → Gives stored (failed e))
      → Gives stored (λ w. on_attempt driver (attempt driver store w) failed)
  on_attempt-Gives store failed h = record {
    apply = λ w n q.
        let first = (attempt-Grows store).apply w in
        elim (Outcome-cases (attempt driver store w).0) [
          | inl (row, p) ↦
              let read = read_count-ok driver row n (rw (p, on_attempt) at q) in
              rw (p, on_attempt) (attempt-row store w row n p read)
          | inr (inl (e, p)) ↦
              let later = (h e).apply (attempt driver store w).1 n (rw (p, on_attempt) at q) in
              rw (p, on_attempt) (omega (arith, first, later))
          | inr (inr p) ↦ absurd (ground arith)
        ];
  }

  retry_loop-Gives :
      (store : PostgresCounterStore) (retries delay : ℕ)
      → Gives stored (retry_loop driver store retries delay)
  unfolding retry_loop
  retry_loop-Gives store zero delay = on_attempt-Gives store throw (throw-Gives stored)
  retry_loop-Gives store (suc retries) delay = on_attempt-Gives store _ λ e.
      >>-Gives stored _ _ (reinitialize-Grows store) (
        >>-Gives stored _ _ (modify-Along (driver.sleep delay) (sleep_grows delay))
          (retry_loop-Gives store retries (delay * 2)))

  -- If the database behaves as documented, a number that a call returns, at the first attempt or after
  -- retries, is a `u64` above the number that was stored before the call, and is not lost from the
  -- database by the end of the call.
  pub next_visitor_count-fresh :
      (store : PostgresCounterStore) (w : W) (n : ℕ)
      → (next_visitor_count driver store w).0 ≡ ok n
      → (stored w < n) × (n ≤ stored (next_visitor_count driver store w).1) × (n < u64_mod)
  unfolding next_visitor_count
  next_visitor_count-fresh store w n e = (retry_loop-Gives store 3 250).apply w n e

  -- The Postgres store keeps the contract of a counter, for any number of calls.
  pub postgres_store-IsCounter :
      (store : PostgresCounterStore)
      → IsCounter (postgres_store driver store) stored (λ k w. Unit {0})
  unfolding next_visitor_count
  postgres_store-IsCounter store = record {
    ready_fewer = λ k w _. tt;
    next-Ready = λ k w _. tt;
    next_grows = λ k w _. (retry_loop-Grows store 3 250).apply w;
    next_fresh = λ k w n _ e. next_visitor_count-fresh store w n e;
    health-Ready = λ k w _. tt;
    health_grows = λ k w _. (health-Grows store).apply w;
  }
