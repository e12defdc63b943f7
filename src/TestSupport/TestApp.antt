-- ===== src/TestSupport/TestApp.antt =====
-- crates/test-support/src/test_app.rs: a server in the background of a test. The state is that of
-- the test's process: the counter of the memory store, the static counter of the harness, and all
-- that the database, the operating system and the network hold. A test has one application.
pub mod Watched
pub mod Ownership
pub mod Lifetime
use yral_onboarding_hello_wo.Prelude.{
  ◌++◌, Bool, Option, none, some, Text, codes, Outcome, Program, expect_ok, ◌>>=◌, ◌>>◌, return,
  lift, rethrow, modify, infallible,
}
use yral_onboarding_hello_wo.Application.{
  CounterStore, GreetingMode, plain, counter, HelloWorldService,
}
use yral_onboarding_hello_wo.Memory.{memory_store, default_counter}
use yral_onboarding_hello_wo.Postgres.{Driver, connect_store, postgres_store}
use yral_onboarding_hello_wo.Http.{Router, build_router}
use yral_onboarding_hello_wo.Http.Framework.{Axum}
use yral_onboarding_hello_wo.Server.{display_adapter_error}
use yral_onboarding_hello_wo.Server.State.{
  Process, on_counter, on_world, counter_store_of, world_store_of,
}
use yral_onboarding_hello_wo.TestSupport.Harness.{
  Os, Lab, on_lab, PostgresHarness, drop_harness, spawn, or_drop,
}

-- What the application calls of `tokio` and `axum`, with the listener's address as its text. The
-- server runs in a task of its own, and so does its `expect`.
pub record Host (P R Listener Sender Receiver Handle : Type 0) : Type 0 where
  -- `TcpListener::bind("127.0.0.1:0")`.
  pub bind_any : Program P Text Listener
  pub local_addr : Listener → Program P Text Text
  -- `oneshot::channel`.
  pub channel : P → (Sender × Receiver) × P
  -- `tokio::spawn` of `axum::serve` with its graceful shutdown.
  pub serve : Listener → R → Receiver → P → Handle × P
  pub send : Sender → P → P
  pub abort : Handle → P → P

pub record TestApp (Sender Handle : Type 0) : Type 0 where
  pub base_url : Text
  pub postgres_harness : Option PostgresHarness
  pub shutdown : Option Sender
  pub server_handle : Handle

-- A store in the state of the process, beside the counter of the harness.
abbrev pub lab_store : {W : Type 0} → CounterStore W → CounterStore (Lab W)
lab_store store = record {
  next_visitor_count = on_lab store.next_visitor_count;
  health = on_lab store.health;
  storage_name = store.storage_name;
}

abbrev pub test_node : Text
test_node = codes "test-node"

module _ {W Client Connection Row Failure Response HeaderValue : Type 0}
    {Listener Sender Receiver Handle : Type 0} (driver : Driver W Client Connection Row Failure)
    (os : Os W) (checks : Bool) (axum : Axum Response HeaderValue)
    (host : Host
      (Process (Lab W))
      (Router (Process (Lab W)) HeaderValue)
      Listener
      Sender
      Receiver
      Handle) where
  abbrev pub P : Type 0
  P = Process (Lab W)

  -- The drop of the field with the harness.
  abbrev pub drop_option : Option PostgresHarness → Program P Text (Unit {0})
  drop_option none = return tt
  drop_option (some harness) = on_world (drop_harness driver os harness)

  -- `spawn_router` behind the harness, which it owns until the application does.
  pub start_router :
      Router P HeaderValue → Option PostgresHarness → Program P Text (TestApp Sender Handle)
  start_router app postgres_harness = do
    listener ← host.bind_any
    address ← host.local_addr listener
    ends ← infallible host.channel
    server_handle ← infallible (host.serve listener app ends.1)
    return (record {
      base_url = codes "http://" ++ address;
      postgres_harness = postgres_harness;
      shutdown = some ends.0;
      server_handle = server_handle;
    })

  pub spawn_router :
      Router P HeaderValue → Option PostgresHarness → Program P Text (TestApp Sender Handle)
  spawn_router app postgres_harness =
      or_drop (drop_option postgres_harness) (start_router app postgres_harness)

  -- The application over a memory store of its own.
  unfoldable pub spawn_memory : GreetingMode → Program P Text (TestApp Sender Handle)
  unfolding spawn_router start_router
  spawn_memory mode = do
    on_counter (modify (λ _. default_counter))
    let service : HelloWorldService P = record {
      mode = mode;
      counter_store = counter_store_of (memory_store checks);
    }
    app ← lift (build_router axum service test_node)
    spawn_router app none

  unfoldable pub spawn_plain : Program P Text (TestApp Sender Handle)
  spawn_plain = spawn_memory plain

  unfoldable pub spawn_counter_memory : Program P Text (TestApp Sender Handle)
  spawn_counter_memory = spawn_memory counter

  -- The router over the store in the container.
  pub postgres_router : PostgresHarness → Program P Text (Router P HeaderValue)
  postgres_router harness = do
    store ← rethrow (display_adapter_error driver checks) (
        on_world (
          on_lab (connect_store driver (record { connection_string = harness.connection_string }))))
    let service : HelloWorldService P = record {
      mode = counter;
      counter_store = world_store_of (lab_store (postgres_store driver store));
    }
    lift (build_router axum service test_node)

  pub spawn_counter_postgres : Program P Text (TestApp Sender Handle)
  spawn_counter_postgres = do
    postgres_harness ← on_world (spawn driver os)
    app ←
        or_drop (on_world (drop_harness driver os postgres_harness))
          (postgres_router postgres_harness)
    spawn_router app (some postgres_harness)

  -- `Drop for TestApp`, and then the drop of the harness among its fields.
  abbrev pub send_shutdown : Option Sender → P → P
  send_shutdown none p = p
  send_shutdown (some sender) p = host.send sender p

  pub drop_app : TestApp Sender Handle → Program P Text (Unit {0})
  drop_app app = do
    modify (send_shutdown app.shutdown)
    modify (host.abort app.server_handle)
    drop_option app.postgres_harness

  -- A test: the application is started, used and, however the test ends, dropped. An application that
  -- does not start is a panic, by `expect`.
  abbrev pub ending :
      Program P Text (Unit {0}) → Outcome Text (Unit {0}) × P → Outcome Text (Unit {0}) × P
  ending drop (r, p) = (r, (drop p).1)

  unfoldable pub run_test :
      Program P Text (TestApp Sender Handle)
      → (TestApp Sender Handle → Program P Text (Unit {0}))
      → Program P Text (Unit {0})
  run_test spawn_app body = do app ← expect_ok spawn_app; λ p. ending (drop_app app) (body app p)
