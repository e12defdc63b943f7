-- ===== src/Postgres.antt =====
-- crates/adapter-counter-store-postgres/src/lib.rs. The crates `tokio_postgres` and `tokio` and the
-- database behind them are the parameter `Driver`; `W` is all that they read and change.
pub mod Growth
pub mod Database
pub mod Spending
pub mod Steps
pub mod Cluster
pub mod Backoff
pub mod Simulation
pub mod ContainerTests
mod Tests
use yral_onboarding_hello_wo.Prelude.{
  ℕ, zero, suc, ◌*◌, Option, none, some, ℤ, pos, negsuc, Text, codes, Outcome, ok, err, panicked,
  Program, ◌>>=◌, ◌>>◌, return, throw, lift, rethrow, map_err, modify, ignore, if_ok, expect,
}
use yral_onboarding_hello_wo.Application.{CounterStore, CounterStoreError, unavailable}

-- What the adapter calls of `tokio_postgres` and `tokio`.
pub record Driver (W Client Connection Row Failure : Type 0) : Type 0 where
  -- `tokio_postgres::connect` with no TLS.
  pub connect : Text → Program W Failure (Client × Connection)
  -- `tokio::spawn` of the task that drives the connection.
  pub spawn : Connection → W → W
  pub batch_execute : Client → Text → Program W Failure (Unit {0})
  -- `query_one` with no parameters.
  pub query_one : Client → Text → Program W Failure Row
  -- `row.get::<_, i64>(0)`; `none` where it panics.
  pub get_i64 : Row → Option ℤ
  -- `error.to_string()`.
  pub describe : Failure → Text
  -- `tokio::time::sleep`, in milliseconds.
  pub sleep : ℕ → W → W

unfoldable pub init_sql : Text
init_sql =
    codes
      "\nCREATE TABLE IF NOT EXISTS counters (\n    id INTEGER PRIMARY KEY,\n    value BIGINT NOT NULL\n    );\n    \n    INSERT INTO counters (id, value)\n    VALUES (1, 0)\n    ON CONFLICT (id) DO NOTHING;\n    "

unfoldable pub update_sql : Text
update_sql =
    codes
      "\n                        UPDATE counters\n                        SET value = value + 1\n                        WHERE id = 1\n                        RETURNING value\n                        "

unfoldable pub select_sql : Text
select_sql = codes "SELECT 1"

pub record PostgresCounterStoreConfig : Type 0 where
  pub connection_string : Text

pub record PostgresCounterStore : Type 0 where
  pub connection_string : Text

pub data PostgresAdapterError (Failure : Type 0) : Type 0 where
  connect initialize : Failure → PostgresAdapterError Failure

-- `u64::try_from` on an `i64`, and the standard library's text of its error.
pub data TryFromIntError : Type 0 where
  out_of_range : TryFromIntError

abbrev pub display_try_from_error : TryFromIntError → Text
display_try_from_error out_of_range = codes "out of range integral type conversion attempted"

abbrev pub u64_try_from : ℤ → Outcome TryFromIntError ℕ
u64_try_from (pos n) = ok n
u64_try_from (negsuc n) = err out_of_range

module _ {W Client Connection Row Failure : Type 0}
    (driver : Driver W Client Connection Row Failure) where
  abbrev pub map_counter_store_error : Failure → CounterStoreError
  map_counter_store_error error = unavailable (driver.describe error)

  unfoldable pub connect_client : Text → Program W Failure Client
  connect_client connection_string = do
    pair ← driver.connect connection_string
    modify (driver.spawn pair.1)
    return pair.0

  unfoldable pub connect_store :
      PostgresCounterStoreConfig → Program W (PostgresAdapterError Failure) PostgresCounterStore
  connect_store config = do
    client ← rethrow connect (connect_client config.connection_string)
    rethrow initialize (driver.batch_execute client init_sql)
    return (record { connection_string = config.connection_string })

  pub new_client : PostgresCounterStore → Program W CounterStoreError Client
  new_client store = rethrow map_counter_store_error (connect_client store.connection_string)

  -- The `attempt` block of the loop.
  pub attempt : PostgresCounterStore → Program W CounterStoreError Row
  attempt store = do
    client ← new_client store
    rethrow map_counter_store_error (driver.query_one client update_sql)

  -- The arm of a row: its value as a `u64`.
  pub read_count : Row → Outcome CounterStoreError ℕ
  read_count row = elim (driver.get_i64 row) [
    | none ↦ panicked
    | some value ↦ map_err (λ e. unavailable (display_try_from_error e)) (u64_try_from value)
  ]

  -- Between two attempts the table is created again, if the database can be reached.
  pub reinitialize : PostgresCounterStore → Program W CounterStoreError (Unit {0})
  reinitialize store =
      if_ok (new_client store) (λ client. ignore (driver.batch_execute client init_sql))

  -- The match on an attempt, with the arm of its error.
  abbrev pub on_attempt :
      Outcome CounterStoreError Row × W
      → (CounterStoreError → Program W CounterStoreError ℕ)
      → Outcome CounterStoreError ℕ × W
  on_attempt (ok row, w) failed = (read_count row, w)
  on_attempt (err e, w) failed = failed e w
  on_attempt (panicked, w) failed = (panicked, w)

  -- The loop, over `retries` and the `delay` in milliseconds.
  pub retry_loop : PostgresCounterStore → ℕ → ℕ → Program W CounterStoreError ℕ
  retry_loop store zero delay w = on_attempt (attempt store w) throw
  retry_loop store (suc retries) delay w =
      on_attempt (attempt store w) λ _. do
        reinitialize store
        modify (driver.sleep delay)
        retry_loop store retries (delay * 2)

  pub next_visitor_count : PostgresCounterStore → Program W CounterStoreError ℕ
  next_visitor_count store = retry_loop store 3 250

  pub health : PostgresCounterStore → Program W CounterStoreError (Unit {0})
  health store = do
    client ← new_client store
    rethrow map_counter_store_error (driver.query_one client select_sql)
    return tt

  abbrev pub postgres_store : PostgresCounterStore → CounterStore W
  postgres_store store = record {
    next_visitor_count = next_visitor_count store;
    health = health store;
    storage_name = codes "postgres";
  }
