-- ===== src/Server.antt =====
-- crates/bin-server/src/main.rs: the composition of the server. `Process` is the state of the whole
-- process: the counter of the memory store, and the world that the database driver, the network and
-- the listener read and change.
pub mod State
pub mod Selection
pub mod Zoom
pub mod Startup
pub mod Run
pub mod Guarded
mod Tests
use yral_onboarding_hello_wo.Prelude.{
  ℕ, ◌++◌, Bool, true, false, Option, List, Text, codes, Outcome, ok, err, panicked, Program, ◌>>=◌,
  ◌>>◌, return, throw, lift, rethrow, modify,
}
use yral_onboarding_hello_wo.Decimal.{display}
use yral_onboarding_hello_wo.Application.{CounterStore, GreetingMode, HelloWorldService}
use yral_onboarding_hello_wo.Memory.{memory_store, default_counter}
use yral_onboarding_hello_wo.Postgres.{
  Driver, PostgresAdapterError, connect, initialize, connect_store, postgres_store,
}
use yral_onboarding_hello_wo.Config.{AppConfig, CounterStoreConfig, memory, postgres, from_env}
use yral_onboarding_hello_wo.Http.{Router, build_router}
use yral_onboarding_hello_wo.Http.Framework.{Axum}
use yral_onboarding_hello_wo.Observability.{
  Tracing, ObservabilityGuard, init_observability, drop_guard, hooked,
}
use State.{Process, on_counter, on_world, counter_store_of, world_store_of}

-- The two Cargo features of the binary.
pub record Features : Type 0 where
  pub memory_store : Bool
  pub postgres_store : Bool

-- The standard library's address parser, and what `main` calls of `tokio` and `axum`; errors are the
-- texts of the `anyhow` errors.
pub record Network (P Address Listener R : Type 0) : Type 0 where
  pub parse_address : Text → Outcome Text Address
  pub bind : Address → Program P Text Listener
  -- `SocketAddr` (Display), and `tracing::info!`.
  pub display_address : Address → Text
  pub info : Text → P → P
  -- `axum::serve`, which comes back only when serving ends.
  pub run : Listener → R → Program P Text (Unit {0})

module _ {W Client Connection Row Failure : Type 0}
    (driver : Driver W Client Connection Row Failure) (checks : Bool) where
  abbrev pub display_adapter_error : PostgresAdapterError Failure → Text
  display_adapter_error (connect e) = codes "failed to connect to postgres: " ++ driver.describe e
  display_adapter_error (initialize e) =
      codes "failed to initialize postgres counter store: " ++ driver.describe e

  -- A new memory store has its own counter.
  pub memory_service : GreetingMode → Program (Process W) Text (HelloWorldService (Process W))
  memory_service mode = do
    on_counter (modify (λ _. default_counter))
    return (record { mode = mode; counter_store = counter_store_of (memory_store checks) })

  pub postgres_service :
      GreetingMode → Text → Program (Process W) Text (HelloWorldService (Process W))
  postgres_service mode database_url = do
    store ←
        rethrow display_adapter_error
          (on_world (connect_store driver (record { connection_string = database_url })))
    return (record { mode = mode; counter_store = world_store_of (postgres_store driver store) })

  -- The block that the two features leave, over the two fields that it reads.
  abbrev pub build_for :
      Bool
      → Bool
      → GreetingMode
      → CounterStoreConfig
      → Program (Process W) Text (HelloWorldService (Process W))
  build_for true false mode memory = memory_service mode
  build_for true false mode (postgres url) =
      throw (codes "postgres counter store requested but memory-store binary is active")
  build_for false true mode memory =
      throw (codes "memory counter store requested but postgres-store binary is active")
  build_for false true mode (postgres url) = postgres_service mode url
  build_for true true mode memory = memory_service mode
  build_for true true mode (postgres url) = postgres_service mode url
  build_for false false mode store = throw (codes "no store feature enabled")

  pub build_service :
      Features → AppConfig → Program (Process W) Text (HelloWorldService (Process W))
  build_service features config =
      build_for features.memory_store features.postgres_store config.greeting_mode
        config.counter_store

  module _ {Response HeaderValue Address Listener : Type 0} (axum : Axum Response HeaderValue)
      (network : Network (Process W) Address Listener (Router (Process W) HeaderValue)) where
    -- `main`, over the variables of the environment, behind the observability.
    pub main : Features → Option (List (Text × Text)) → Program (Process W) Text (Unit {0})
    main features env = do
      config ← lift (from_env env)
      service ← build_service features config
      app ← lift (build_router axum service config.server_label)
      address ← lift (network.parse_address (config.host ++ (codes ":" ++ display config.port)))
      listener ← network.bind address
      modify (network.info (codes "listening on " ++ network.display_address address))
      network.run listener app

    -- `main` from its first line on: the guard lives to its end, however that comes. The subscriber and
    -- the Sentry client are in the state that the rest of `main` runs on, with its events.
    module _ {EnvFilter Failed ClientInitGuard : Type 0}
        (tracing : Tracing (Process W) EnvFilter Failed ClientInitGuard) where
      abbrev pub until_end :
          ObservabilityGuard ClientInitGuard
          → Program (Process W) Text (Unit {0})
          → Program (Process W) Text (Unit {0})
      until_end guard m p = let (r, p') = m p in (r, drop_guard tracing guard (hooked tracing r p'))

      pub observed_main :
          Bool
          → Option Text
          → Features
          → Option (List (Text × Text))
          → Program (Process W) Text (Unit {0})
      observed_main sentry sentry_dsn features env = do
        guard ← init_observability tracing sentry sentry_dsn
        until_end guard (main features env)
