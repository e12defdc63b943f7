-- ===== src/Lib.antt =====
-- The visitor counter: a web server that greets its visitors, each with a number of its own, over a
-- counter in memory or in Postgres; and a client of it.
--
-- The parts, inside out. The domain (crates/domain) has the greetings. The application service
-- (crates/application) makes a greeting of the next number of a counter store, which it knows by a
-- port alone. Two adapters are such stores: a mutex in memory (crates/adapter-counter-store-memory)
-- and a row in Postgres (crates/adapter-counter-store-postgres). The HTTP adapter
-- (crates/adapter-http-axum) serves the service as two routes, and the binary (crates/bin-server)
-- reads the configuration (crates/adapter-config-env) and puts all of it together, behind its logs
-- (crates/adapter-observability-tracing). The integration tests (crates/integration-tests) start such a
-- server in a process of their own (crates/test-support) and call it with the client.
--
-- Which file models which part:
--   Prelude      the names of the libraries, strings as bytes, and programs. A fallible function is an
--                `Outcome`: `ok`, `err`, or `panicked`, for a Rust panic. Code that reads or changes a
--                state is a `Program`: a function from the state to an outcome and the next state.
--   Decimal      the decimal print and `u16::from_str` of the standard library, as the program uses them.
--   Domain       crates/domain/src/greeting.rs and crates/types/src: `VisitorCount::new` is
--                `new_visitor_count`, `Greeting::message` is `message`.
--   Application  crates/application/src: the errors and their texts, the trait `CounterStore` as a
--                record of programs, `HelloWorldService` with `hello` and `health`. Contract states
--                what a counter store promises (`IsCounter`); both stores fill it, and the service and
--                the server use it.
--   Memory       crates/adapter-counter-store-memory/src/lib.rs: `increment` is the body of
--                `next_visitor_count`, in a build with and without overflow checks. Concurrent takes
--                the body apart into the steps of tasks that share the store and meet at its mutex, and
--                Answering counts the steps to an answer.
--   Postgres     crates/adapter-counter-store-postgres/src/lib.rs: `connect_store` is `connect`,
--                `retry_loop` the loop of `next_visitor_count` with its attempt and the creation of the
--                table between two attempts. The crates `tokio_postgres` and `tokio` and the database are
--                the parameter `Driver`; Database has what is assumed of them (`IsDatabase`),
--                Spending what holds where no other server uses the row (`IsQuiet`), and
--                Simulation a driver with lost replies and refused updates that meets both. Backoff
--                runs a call over a driver with a log of its waits and queries. Steps takes
--                a call apart at its awaits, and Cluster interleaves the calls of any number of servers
--                over one row.
--   Config       crates/adapter-config-env/src/lib.rs: `from_pairs`, one function for each field, and
--                `from_env`.
--   Http         crates/adapter-http-axum/src: handlers.rs, router.rs and state.rs. The crate `axum` is
--                the parameter `Axum`, with its documented behaviour `IsAxum` (Framework), which a
--                sample framework (Sample) meets.
--   Client       crates/client-rust/src: the client, with the crates `url` and `reqwest` as the
--                parameter `Web`. Wire joins it to the router of Http (`IsConnected`).
--   Server       crates/bin-server/src/main.rs: `build_service` for each choice of the two Cargo
--                features, and `main`. The state of the process is the counter of the memory store
--                beside the world of the driver and the network. `observed_main` is the source's
--                `main` from its first line on: `main` here is the rest of it, behind the logs, which are in
--                the same state and which it adds its events to.
--   Observability  crates/adapter-observability-tracing/src/lib.rs: `init_observability` with and without
--                the feature `sentry`; the crates `tracing_subscriber` and `sentry` are the parameter
--                `Tracing`.
--   TestSupport  crates/test-support/src: Harness is postgres_harness.rs, a container that is started,
--                waited for and removed by its drop; `docker` and the ports are the parameter `Os`.
--                TestApp is test_app.rs, an application in the background of a test; the listener and
--                the task of the server are the parameter `Host`. A drop stands where the block of the
--                owner ends (`or_drop`, `ending`). Containers and TestApp.Watched run them with a record
--                of the `docker` commands.
--   IntegrationTests  crates/integration-tests/tests: the five tests, with a failed assertion as a panic.
--                Network has what the four over a memory store need of the network (`IsReached`).
--   UnitTests    the tests inside crates/domain, crates/types, crates/application,
--                crates/adapter-config-env and crates/adapter-counter-store-memory, which are run on the
--                definitions. Those of crates/adapter-http-axum are Http.RouterTests, on the sample
--                framework, those of crates/adapter-counter-store-postgres Postgres.ContainerTests, on
--                the simulated database, and those of crates/client-rust Client.ClientTests.
--
-- Bounds. A `u64` is a native number with its wrap-around written out (`increment`); the value of the
-- row is an `i64`, a signed integer that the assumption on the database keeps below 2 ^ 63. `display`
-- prints on fuel for twenty digits, enough for every `u64`, which is below 10 ^ 20. The loop of
-- `next_visitor_count` is recursion on its own counter of retries, and the loop of `wait_until_ready`
-- on its thirty rounds, so they need no fuel.
--
-- Assumed: a database answers an update with a new value that it does not lose, and other servers only
-- raise the value (`IsDatabase`); the documented behaviour of responses and of a `GET` of a registered
-- path (`IsAxum`); a network that brings requests and responses over unchanged (`IsConnected`), also to
-- an application that a test has started (`IsReached`). Requests are handled one after the other, except
-- where calls interleave: at the mutex in Memory.Concurrent, and at the awaits in Postgres.Cluster.
--
-- Assumed of the logs: reading the filter and installing the subscriber return errors and do not panic.
--
-- Not modelled: the two unit tests of crates/adapter-observability-tracing, which try the crates that
-- are a parameter here; the scripts and the configuration of the services around the program, which
-- hold no Rust. What the crates `tracing_subscriber` and `sentry` do with an event is theirs.
mod Prelude
pub mod Decimal
pub mod Domain
pub mod Application
pub mod Memory
pub mod Postgres
pub mod Config
pub mod Http
pub mod Client
pub mod Observability
pub mod Server
pub mod TestSupport
pub mod IntegrationTests
pub mod UnitTests
