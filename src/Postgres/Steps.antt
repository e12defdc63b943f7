-- ===== src/Postgres/Steps.antt =====
-- `next_visitor_count` taken apart at its awaits: each step of a call is one call of the driver, so
-- that calls of several tasks and servers can interleave.
pub mod Refinement
use yral_onboarding_hello_wo.Prelude.{
  ℕ, zero, suc, ◌*◌, ◌≡◌, ◌≢◌, refl, inl, inr, ap, Program, ◌>>◌, modify, ignore, if_ok, Outcome,
  Outcome-cases, ok, err, panicked,
}
use yral_onboarding_hello_wo.Application.{CounterStoreError}
use yral_onboarding_hello_wo.Postgres.{
  Driver, init_sql, update_sql, PostgresCounterStore, map_counter_store_error, new_client, attempt,
  read_count, reinitialize, retry_loop, next_visitor_count,
}

-- Where a call stands, with the retries left and the delay of its next wait.
pub data Pc (Client : Type 0) : Type 0 where
  -- Before the connection of an attempt, and before its update.
  connecting : ℕ → ℕ → Pc Client
  updating : Client → ℕ → ℕ → Pc Client
  -- Behind a failed attempt: before the connection, the creation of the table, and the wait.
  reconnecting : ℕ → ℕ → Pc Client
  initializing : Client → ℕ → ℕ → Pc Client
  sleeping : ℕ → ℕ → Pc Client
  done : Outcome CounterStoreError ℕ → Pc Client

module _ {W Client Connection Row Failure : Type 0}
    (driver : Driver W Client Connection Row Failure) (store : PostgresCounterStore) where
  -- The arms of an error, with and without retries left.
  abbrev pub after_error : CounterStoreError → ℕ → ℕ → Pc Client
  after_error e zero delay = done (err e)
  after_error e (suc retries) delay = reconnecting retries delay

  abbrev pub after_connect : Outcome CounterStoreError Client → ℕ → ℕ → Pc Client
  after_connect (ok client) retries delay = updating client retries delay
  after_connect (err e) retries delay = after_error e retries delay
  after_connect panicked retries delay = done panicked

  abbrev pub after_update : Outcome Failure Row → ℕ → ℕ → Pc Client
  after_update (ok row) retries delay = done (read_count driver row)
  after_update (err e) retries delay = after_error (map_counter_store_error driver e) retries delay
  after_update panicked retries delay = done panicked

  abbrev pub after_reconnect : Outcome CounterStoreError Client → ℕ → ℕ → Pc Client
  after_reconnect (ok client) retries delay = initializing client retries delay
  after_reconnect (err e) retries delay = sleeping retries delay
  after_reconnect panicked retries delay = done panicked

  abbrev pub after_init : Outcome Failure (Unit {0}) → ℕ → ℕ → Pc Client
  after_init panicked retries delay = done panicked
  after_init _ retries delay = sleeping retries delay

  -- One step.
  unfoldable pub step : Pc Client → W → Pc Client × W
  step (connecting retries delay) w =
      let (r, w') = new_client driver store w in (after_connect r retries delay, w')
  step (updating client retries delay) w =
      let (r, w') = driver.query_one client update_sql w in (after_update r retries delay, w')
  step (reconnecting retries delay) w =
      let (r, w') = new_client driver store w in (after_reconnect r retries delay, w')
  step (initializing client retries delay) w =
      let (r, w') = driver.batch_execute client init_sql w in (after_init r retries delay, w')
  step (sleeping retries delay) w = (connecting retries (delay * 2), driver.sleep delay w)
  step (done r) w = (done r, w)

  pub steps : ℕ → Pc Client × W → Pc Client × W
  steps zero (pc, w) = (pc, w)
  steps (suc k) (pc, w) = steps k (step pc w)
