-- ===== src/TestSupport/TestApp/Lifetime.antt =====
-- The containers that the tests start, from the start of an application to its end.
use yral_onboarding_hello_wo.Prelude.{
  ◌≡◌, refl, ◌∙◌, inl, inr, Bool, none, Text, Outcome, Outcome-cases, ok, err, panicked, Program,
  and_then, or_panic,
}
use yral_onboarding_hello_wo.Application.{GreetingMode, plain, counter}
use yral_onboarding_hello_wo.Postgres.{Driver}
use yral_onboarding_hello_wo.Postgres.Growth.{Along}
use yral_onboarding_hello_wo.Http.{Router}
use yral_onboarding_hello_wo.Http.Framework.{Axum}
use yral_onboarding_hello_wo.Server.State.{Process}
use yral_onboarding_hello_wo.TestSupport.Harness.{Os, Lab, dropping}
use yral_onboarding_hello_wo.TestSupport.Harness.Containers.{
  Sent, Watched, Tidy, untouched, watched_driver, watched_os,
}
use yral_onboarding_hello_wo.TestSupport.TestApp.{
  Host, TestApp, start_router, spawn_router, spawn_memory, spawn_plain, spawn_counter_memory,
  spawn_counter_postgres, drop_app, ending, run_test,
}
use yral_onboarding_hello_wo.TestSupport.TestApp.Watched.{Seen, sent_of, Quietly, watched_host}
use yral_onboarding_hello_wo.TestSupport.TestApp.Ownership.{
  start_router-Quietly, start_router-harness, drop_app-Quietly, run_test-Tidy_postgres,
}

module _ {W Client Connection Row Failure Response HeaderValue : Type 0}
    {Listener Sender Receiver Handle : Type 0} (driver : Driver W Client Connection Row Failure)
    (os : Os W) (checks : Bool) (axum : Axum Response HeaderValue)
    (host : Host
      (Process (Lab W))
      (Router (Seen W) HeaderValue)
      Listener
      Sender
      Receiver
      Handle) where
  abbrev D : Driver (Watched W) Client Connection Row Failure
  D = watched_driver driver os

  abbrev O : Os (Watched W)
  O = watched_os driver os

  abbrev H : Host (Seen W) (Router (Seen W) HeaderValue) Listener Sender Receiver Handle
  H = watched_host host

  -- An application without a harness, and a start that sends no command.
  MemoryApp : Sent → Outcome Text (TestApp Sender Handle) × Seen W → Type 0
  MemoryApp old (ok app, p) = (app.postgres_harness ≡ none) × (sent_of p ≡ old)
  MemoryApp old (err e, p) = sent_of p ≡ old
  MemoryApp old (panicked, p) = sent_of p ≡ old

  spawn_router-MemoryApp :
      (app : Router (Seen W) HeaderValue) (p : Seen W)
      → MemoryApp (sent_of p) (spawn_router D O checks axum H app none p)
  unfolding spawn_router MemoryApp
  spawn_router-MemoryApp app p =
      let quiet = (start_router-Quietly driver os checks axum host app none).apply p in
      elim (Outcome-cases (start_router D O checks axum H app none p).0) [
        | inl (t, q) ↦
            rw (q, dropping) (start_router-harness driver os checks axum host app none p t q, quiet)
        | inr (inl (e, q)) ↦ rw (q, dropping) quiet
        | inr (inr q) ↦ rw (q, dropping) quiet
      ]

  after_build :
      (r : Outcome Text (Router (Seen W) HeaderValue)) (p : Seen W)
      → MemoryApp (sent_of p) (and_then (r, p) (λ app. spawn_router D O checks axum H app none))
  unfolding MemoryApp
  after_build (ok app) p = spawn_router-MemoryApp app p
  after_build (err e) p = refl
  after_build panicked p = refl

  spawn_memory-MemoryApp :
      (mode : GreetingMode) (p : Seen W)
      → MemoryApp (sent_of p) (spawn_memory D O checks axum H mode p)
  unfolding spawn_memory
  spawn_memory-MemoryApp mode p = after_build _ _

  run_test-Tidy_memory :
      (mode : GreetingMode) (body : TestApp Sender Handle → Program (Seen W) Text (Unit {0}))
      (p : Seen W)
      → ((app : TestApp Sender Handle) → Along Quietly (body app))
      → Tidy
          (sent_of p)
          (sent_of (run_test D O checks axum H (spawn_memory D O checks axum H mode) body p).1)
  unfolding run_test MemoryApp
  run_test-Tidy_memory mode body p quiet = untouched (after_spawn _ (spawn_memory-MemoryApp mode p))
    where
      after_spawn :
          (r : Outcome Text (TestApp Sender Handle) × Seen W)
          → MemoryApp (sent_of p) r
          → sent_of
              (and_then
                (or_panic {E' = Text} r.0, r.1)
                (λ app q. ending D O checks axum H (drop_app D O checks axum H app) (body app q))).1
            ≡ sent_of p
      after_spawn (ok app, q) (has, same) =
          drop_app-Quietly driver os checks axum host app (body app q).1 has
          ∙ (quiet app).apply q
          ∙ same
      after_spawn (err e, q) same = same
      after_spawn (panicked, q) same = same

  -- Whatever the operating system, `docker`, the database, the network and the web framework do: where
  -- the body of a test sends no `docker` command, a test over each of the three applications sends
  -- none, or one `docker run` that does not succeed, or one that does and then one `docker rm --force`
  -- with the name of that container; so also where the start or the body fails or panics.
  pub run_test-Tidy :
      (body : TestApp Sender Handle → Program (Seen W) Text (Unit {0})) (p : Seen W)
      → ((app : TestApp Sender Handle) → Along Quietly (body app))
      → Tidy
          (sent_of p)
          (sent_of (run_test D O checks axum H (spawn_plain D O checks axum H) body p).1)
        × Tidy
            (sent_of p)
            (sent_of (run_test D O checks axum H (spawn_counter_memory D O checks axum H) body p).1)
        × Tidy (sent_of p) (
            sent_of
              (run_test D O checks axum H (spawn_counter_postgres D O checks axum H) body p).1)
  unfolding spawn_plain spawn_counter_memory
  run_test-Tidy body p quiet = (
    run_test-Tidy_memory plain body p quiet,
    run_test-Tidy_memory counter body p quiet,
    run_test-Tidy_postgres driver os checks axum host body p quiet,
  )
