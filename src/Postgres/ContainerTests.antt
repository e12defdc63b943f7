-- ===== src/Postgres/ContainerTests.antt =====
-- crates/adapter-counter-store-postgres/src/lib.rs: its tests, each over a container of its own, and
-- run on the simulated database. Here an error is a panic, and the name of a container its own.
use yral_onboarding_hello_wo.Prelude.{
  ℕ, zero, suc, ◌≡◌, ◌++◌, ◌==◌, refl, true, none, some, [], ◌∷◌, if◌then◌else◌, Text, codes,
  text_eq, Outcome, ok, err, panicked, Program, expect_ok, ignore, assert, assert_eq, ◌>>=◌, ◌>>◌,
  return,
}
use yral_onboarding_hello_wo.Decimal.{display}
use yral_onboarding_hello_wo.Application.{CounterStoreError}
use yral_onboarding_hello_wo.Postgres.{
  Driver, PostgresAdapterError, PostgresCounterStore, PostgresCounterStoreConfig, connect_store,
  connect_client, new_client, next_visitor_count, retry_loop, attempt, read_count, health,
  postgres_store, init_sql, update_sql, select_sql,
}
use yral_onboarding_hello_wo.Postgres.Simulation.{Sim, sim_driver}
use yral_onboarding_hello_wo.TestSupport.Harness.{
  Os, Lab, on_lab, fetch_add, connection_string_of, run_args, rm_args,
}

pub record PostgresContainer : Type 0 where
  pub container_name : Text
  pub connection_string : Text

module _ {W Client Connection Row Failure : Type 0}
    (driver : Driver W Client Connection Row Failure) (os : Os W) where
  abbrev Test : Type 0
  Test = Program (Lab W) Text (Unit {0})

  -- The name and the port are fixed first; the counter is the static `CONTAINER_COUNTER`.
  pub start_container : Text → ℕ → Program (Lab W) Text PostgresContainer
  start_container container_name host_port = do
    success ← expect_ok (on_lab (os.docker (run_args container_name host_port)))
    assert success
    return (record {
      container_name = container_name;
      connection_string = connection_string_of host_port;
    })

  pub spawn_postgres_container : Program (Lab W) Text PostgresContainer
  spawn_postgres_container = do
    host_port ← expect_ok (on_lab os.free_port)
    number ← fetch_add
    start_container
        (codes "yral-postgres-test-" ++ (display os.process_id ++ (codes "-" ++ display number)))
        host_port

  abbrev on_connected :
      Outcome (PostgresAdapterError Failure) PostgresCounterStore × W
      → Program W Text PostgresCounterStore
      → Outcome Text PostgresCounterStore × W
  on_connected (ok store, w) again = (ok store, w)
  on_connected (err e, w) again = again (driver.sleep 250 w)
  on_connected (panicked, w) again = (panicked, w)

  -- The loop, over the rounds that are left.
  pub connect_rounds : PostgresCounterStoreConfig → ℕ → Program W Text PostgresCounterStore
  connect_rounds config zero w = (panicked, w)
  connect_rounds config (suc rounds) w =
      on_connected (connect_store driver config w) (connect_rounds config rounds)

  pub connect_container : PostgresContainer → Program (Lab W) Text PostgresCounterStore
  connect_container container =
      on_lab (connect_rounds (record { connection_string = container.connection_string }) 30)

  pub stop : PostgresContainer → Test
  stop container = do
    success ← expect_ok (on_lab (os.docker (rm_args container.container_name)))
    assert success

  pub drop_container : PostgresContainer → Test
  drop_container container = ignore (on_lab (os.docker (rm_args container.container_name)))

  -- A test owns its container, which is dropped however the test ends.
  abbrev owning : (PostgresContainer → PostgresCounterStore → Test) → Test
  owning body = do
    postgres ← spawn_postgres_container
    λ l.
        let (r, l') = (connect_container postgres >>= body postgres) l in
        (r, (drop_container postgres l').1)

  pub next_visitor_count_increments_atomically : Test
  next_visitor_count_increments_atomically = owning (λ postgres store. do
    first ← expect_ok (on_lab (next_visitor_count driver store))
    second ← expect_ok (on_lab (next_visitor_count driver store))
    assert (first == 1)
    assert (second == 2))

  -- The checks that are left, until one reports the database as unavailable.
  abbrev on_health :
      Outcome CounterStoreError (Unit {0}) × W
      → Program W Text (Unit {0})
      → Outcome Text (Unit {0}) × W
  on_health (ok u, w) again = again (driver.sleep 100 w)
  on_health (err e, w) again = (ok tt, w)
  on_health (panicked, w) again = (panicked, w)

  pub health_rounds : PostgresCounterStore → ℕ → Program W Text (Unit {0})
  health_rounds store zero w = (panicked, w)
  health_rounds store (suc rounds) w =
      on_health (health driver store w) (health_rounds store rounds)

  pub health_fails_when_connection_is_broken : Test
  health_fails_when_connection_is_broken =
      owning (λ postgres store. do stop postgres; on_lab (health_rounds store 20))

  pub storage_name_is_postgres : Test
  storage_name_is_postgres =
      owning
        (λ postgres store. assert_eq (postgres_store driver store).storage_name (codes "postgres"))

-- A `docker` whose containers hold the one row: `rm` takes it away, and then no query is answered.
abbrev row_docker : Os Sim
row_docker = record {
  free_port = return 5433;
  process_id = 42;
  docker = λ args s. elim args [
    | [] ↦ (ok true, s)
    | c ∷ rest ↦
        if text_eq c (codes "rm") then (ok true, record s { value = none }) else (ok true, s)
  ];
}

abbrev row_driver : Driver Sim (Unit {0}) (Unit {0}) ℕ Text
row_driver = record sim_driver {
  query_one = λ c sql s. elim s.value [
    | none ↦ (err (codes "db error"), s)
    | some n ↦ sim_driver.query_one c sql s
  ];
}

abbrev fresh : Lab Sim
fresh = record { harness_counter = 0; world = record { value = none; plan = [] } }

abbrev after : Lab Sim
after = record { harness_counter = 1; world = record { value = none; plan = [] } }

containers_pass :
    (next_visitor_count_increments_atomically row_driver row_docker fresh ≡ (ok tt, after))
    × (health_fails_when_connection_is_broken row_driver row_docker fresh ≡ (ok tt, after))
    × (storage_name_is_postgres row_driver row_docker fresh ≡ (ok tt, after))
unfolding next_visitor_count_increments_atomically health_fails_when_connection_is_broken
    storage_name_is_postgres spawn_postgres_container start_container connect_container
    connect_rounds stop drop_container health_rounds connect_store connect_client new_client
    next_visitor_count retry_loop attempt read_count health init_sql update_sql select_sql text_eq
    run_args rm_args
containers_pass = (refl, refl, refl)
