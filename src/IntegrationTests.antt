-- ===== src/IntegrationTests.antt =====
-- crates/integration-tests/tests: the tests that start an application and call it with the client. A
-- failed assertion is a panic.

pub mod Network
pub mod Startup
pub mod Passing
mod Tests
use yral_onboarding_hello_wo.Prelude.{
  ◌++◌, Bool, true, false, ◌==◌, Text, codes, text_eq, ok, panicked, Program, or_panic, expect_ok,
  assert, assert_eq, ◌>>=◌, ◌>>◌, lift, return,
}
use yral_onboarding_hello_wo.Postgres.{Driver}
use yral_onboarding_hello_wo.Http.{Router}
use yral_onboarding_hello_wo.Http.Framework.{Axum}
use yral_onboarding_hello_wo.Client.{Web, new_client, hello, health}
use yral_onboarding_hello_wo.Server.State.{Process}
use yral_onboarding_hello_wo.TestSupport.Harness.{Os, Lab}
use yral_onboarding_hello_wo.TestSupport.TestApp.{
  Host, TestApp, test_node, spawn_plain, spawn_counter_memory, spawn_counter_postgres, run_test,
}

-- What one of the tests calls of `reqwest` itself.
pub record Reqwest (P Response ReqwestError : Type 0) : Type 0 where
  -- `reqwest::get(…)`.
  pub get : Text → Program P ReqwestError Response
  -- Whether `response.headers().get(name)` is the value of this text.
  pub has_header : Text → Text → Response → Bool

module _ {W Client Connection Row Failure Response HeaderValue : Type 0}
    {Listener Sender Receiver Handle Url ParseError ReqwestError : Type 0}
    (driver : Driver W Client Connection Row Failure) (os : Os W) (checks : Bool)
    (axum : Axum Response HeaderValue)
    (host : Host
      (Process (Lab W))
      (Router (Process (Lab W)) HeaderValue)
      Listener
      Sender
      Receiver
      Handle)
    (web : Web (Process (Lab W)) Url ParseError Response ReqwestError) where
  abbrev pub Body : Type 0
  Body = TestApp Sender Handle → Program (Process (Lab W)) Text (Unit {0})

  -- Between the start of the application and its drop.
  pub greets_twice : Body
  greets_twice app = do
    client ← lift (or_panic (new_client web app.base_url))
    first ← expect_ok (hello web client)
    second ← expect_ok (hello web client)
    assert_eq first (codes "Hello visitor. You are the 1'th visitor to this page")
    assert_eq second (codes "Hello visitor. You are the 2'th visitor to this page")

  pub greets_plainly : Body
  greets_plainly app = do
    client ← lift (or_panic (new_client web app.base_url))
    response ← expect_ok (hello web client)
    assert_eq response (codes "Hello World")

  pub reports_memory : Body
  reports_memory app = do
    client ← lift (or_panic (new_client web app.base_url))
    response ← expect_ok (health web client)
    assert_eq response.status (codes "ok")
    assert_eq response.storage (codes "memory")

  pub counter_mode_returns_incrementing_counts : Program (Process (Lab W)) Text (Unit {0})
  counter_mode_returns_incrementing_counts =
      run_test driver os checks axum host (spawn_counter_memory driver os checks axum host)
        greets_twice

  pub counter_mode_postgres_persists_incrementing_counts : Program (Process (Lab W)) Text (Unit {0})
  counter_mode_postgres_persists_incrementing_counts =
      run_test driver os checks axum host (spawn_counter_postgres driver os checks axum host)
        greets_twice

  pub plain_mode_returns_plain_hello_world : Program (Process (Lab W)) Text (Unit {0})
  plain_mode_returns_plain_hello_world =
      run_test driver os checks axum host (spawn_plain driver os checks axum host) greets_plainly

  pub plain_mode_health_reports_memory_storage : Program (Process (Lab W)) Text (Unit {0})
  plain_mode_health_reports_memory_storage =
      run_test driver os checks axum host (spawn_plain driver os checks axum host) reports_memory

  module _ (reqwest : Reqwest (Process (Lab W)) Response ReqwestError) where
    pub shows_node : Body
    shows_node app = do
      response ← expect_ok (reqwest.get (app.base_url ++ codes "/"))
      assert (web.status response == 200)
      assert (reqwest.has_header (codes "x-served-by") test_node response)

    pub plain_mode_exposes_serving_node_header : Program (Process (Lab W)) Text (Unit {0})
    plain_mode_exposes_serving_node_header =
        run_test driver os checks axum host (spawn_plain driver os checks axum host) shows_node
