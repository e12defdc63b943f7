-- ===== src/TestSupport/TestApp/Ownership.antt =====
-- Which value owns a container that the start of an application has started.
use yral_onboarding_hello_wo.Prelude.{
  ◌≡◌, refl, ap, sym, ◌∙◌, inl, inr, Bool, Option, none, some, ◌∷◌, Text, Outcome, Outcome-cases,
  ok, err, panicked, Program, and_then, or_panic,
}
use yral_onboarding_hello_wo.Postgres.{Driver, PostgresCounterStoreConfig, connect_store}
use yral_onboarding_hello_wo.Postgres.Growth.{Along}
use yral_onboarding_hello_wo.Http.{Router}
use yral_onboarding_hello_wo.Http.Framework.{Axum}
use yral_onboarding_hello_wo.Server.State.{Process, on_world}
use yral_onboarding_hello_wo.TestSupport.Harness.{
  Os, Lab, PostgresHarness, rm_args, drop_harness, dropping, or_drop, spawn,
}
use yral_onboarding_hello_wo.TestSupport.Harness.Containers.{
  Sent, Watched, Tidy, removed, Started, watched_driver, watched_os, connect_store-Silent,
  spawn-Spawned,
}
use yral_onboarding_hello_wo.TestSupport.TestApp.{
  Host, TestApp, send_shutdown, start_router, spawn_router, postgres_router, spawn_counter_postgres,
  drop_app, ending, run_test,
}
use yral_onboarding_hello_wo.TestSupport.TestApp.Watched.{
  Seen, sent_of, forget, recall, Quietly, watched_host,
}

-- What a value that owns the harness leaves: the container as long as the value lives, and else none.
abbrev pub Owned :
    {W A : Type 0} → PostgresHarness → (A → Type 0) → Sent → Outcome Text A × Seen W → Type 0
Owned harness Has old (ok a, p) = Has a × Started harness old (sent_of p)
Owned harness Has old (err e, p) = Tidy old (sent_of p)
Owned harness Has old (panicked, p) = Tidy old (sent_of p)

module _ {W Client Connection Row Failure Response HeaderValue : Type 0}
    {Listener Sender Receiver Handle : Type 0} (driver : Driver W Client Connection Row Failure)
    (os : Os W) (checks : Bool) (axum : Axum Response HeaderValue)
    (host : Host
      (Process (Lab W))
      (Router (Seen W) HeaderValue)
      Listener
      Sender
      Receiver
      Handle) where
  abbrev D : Driver (Watched W) Client Connection Row Failure
  D = watched_driver driver os

  abbrev O : Os (Watched W)
  O = watched_os driver os

  abbrev H : Host (Seen W) (Router (Seen W) HeaderValue) Listener Sender Receiver Handle
  H = watched_host host

  pub start_router-Quietly :
      (app : Router (Seen W) HeaderValue) (harness : Option PostgresHarness)
      → Along Quietly (start_router D O checks axum H app harness)
  unfolding start_router
  start_router-Quietly app harness = record {
    apply = λ p. elim (Outcome-cases (host.bind_any (forget p)).0) [
      | inl (listener, b) ↦
          elim (Outcome-cases (host.local_addr listener (host.bind_any (forget p)).1).0) [
            | inl (address, a) ↦ rw b (rw a refl)
            | inr (inl (e, a)) ↦ rw b (rw a refl)
            | inr (inr a) ↦ rw b (rw a refl)
          ]
      | inr (inl (e, b)) ↦ rw b refl
      | inr (inr b) ↦ rw b refl
    ];
  }

  pub start_router-harness :
      (app : Router (Seen W) HeaderValue) (harness : Option PostgresHarness) (p : Seen W)
      (t : TestApp Sender Handle)
      → (start_router D O checks axum H app harness p).0 ≡ ok t
      → t.postgres_harness ≡ harness
  unfolding start_router
  start_router-harness app harness p t e = elim (Outcome-cases (host.bind_any (forget p)).0) [
    | inl (listener, b) ↦
        elim (Outcome-cases (host.local_addr listener (host.bind_any (forget p)).1).0) [
          | inl (address, a) ↦ sym (ap harness_of (rw a at (rw b at e)))
          | inr (inl (x, a)) ↦ absurd (cc (rw a at (rw b at e)))
          | inr (inr a) ↦ absurd (cc (rw a at (rw b at e)))
        ]
    | inr (inl (x, b)) ↦ absurd (cc (rw b at e))
    | inr (inr b) ↦ absurd (cc (rw b at e))
  ]
    where
      harness_of : Outcome Text (TestApp Sender Handle) → Option PostgresHarness
      harness_of (ok x) = x.postgres_harness
      harness_of _ = harness

  postgres_router-Quietly :
      (harness : PostgresHarness) → Along Quietly (postgres_router D O checks axum H harness)
  unfolding postgres_router
  postgres_router-Quietly harness = record {
    apply = λ p.
        let config : PostgresCounterStoreConfig = record {
          connection_string = harness.connection_string;
        } in
        let silent = (connect_store-Silent driver os config).apply p.world.world in
        elim (Outcome-cases (connect_store D config p.world.world).0) [
          | inl (store, c) ↦ rw c silent
          | inr (inl (e, c)) ↦ rw c silent
          | inr (inr c) ↦ rw c silent
        ];
  }

  -- A dropped harness removes its container.
  drop_harness-Tidy :
      (harness : PostgresHarness) (old : Sent) (p : Seen W)
      → Started harness old (sent_of p)
      → Tidy old (sent_of (on_world (drop_harness D O harness) p).1)
  unfolding drop_harness
  drop_harness-Tidy harness old p (port, _, started) =
      let removal : Outcome Text Bool =
        (os.docker (rm_args harness.container_name) p.world.world.world).0 in
      removed harness.container_name port removal
        (ap (λ sent. (rm_args harness.container_name, removal) ∷ sent) started)

  or_drop-Owned :
      {A : Type 0} (Has : A → Type 0) (harness : PostgresHarness) (old : Sent)
      (m : Program (Seen W) Text A) (p : Seen W)
      → Along Quietly m
      → ((a : A) → (m p).0 ≡ ok a → Has a)
      → Started harness old (sent_of p)
      → Owned harness Has old (or_drop (on_world (drop_harness D O harness)) m p)
  or_drop-Owned Has harness old m p quiet has (port, url, started) =
      let kept : Started harness old (sent_of (m p).1) = (port, url, quiet.apply p ∙ started) in
      elim (Outcome-cases (m p).0) [
        | inl (a, q) ↦ rw (q, dropping) (has a q, kept)
        | inr (inl (e, q)) ↦ rw (q, dropping) (drop_harness-Tidy harness old (m p).1 kept)
        | inr (inr q) ↦ rw (q, dropping) (drop_harness-Tidy harness old (m p).1 kept)
      ]

  abbrev HasHarness : PostgresHarness → TestApp Sender Handle → Type 0
  HasHarness harness app = app.postgres_harness ≡ some harness

  spawn_router-Owned :
      (app : Router (Seen W) HeaderValue) (harness : PostgresHarness) (old : Sent) (p : Seen W)
      → Started harness old (sent_of p)
      → Owned harness (HasHarness harness) old (spawn_router D O checks axum H app (some harness) p)
  unfolding spawn_router
  spawn_router-Owned app harness old p started =
      or_drop-Owned (HasHarness harness) harness old _ p (start_router-Quietly app (some harness))
        (λ t e. start_router-harness app (some harness) p t e) started

  -- What a started application owns.
  abbrev AppOwned : Sent → Outcome Text (TestApp Sender Handle) × Seen W → Type 0
  AppOwned old (ok app, p) =
      (harness : PostgresHarness) × HasHarness harness app × Started harness old (sent_of p)
  AppOwned old (err e, p) = Tidy old (sent_of p)
  AppOwned old (panicked, p) = Tidy old (sent_of p)

  Owned-AppOwned :
      (harness : PostgresHarness) (old : Sent) (r : Outcome Text (TestApp Sender Handle) × Seen W)
      → Owned harness (HasHarness harness) old r
      → AppOwned old r
  Owned-AppOwned harness old (ok app, p) (has, started) = (harness, has, started)
  Owned-AppOwned harness old (err e, p) tidy = tidy
  Owned-AppOwned harness old (panicked, p) tidy = tidy

  after_router :
      (harness : PostgresHarness) (old : Sent)
      (r : Outcome Text (Router (Seen W) HeaderValue) × Seen W)
      → Owned harness (λ _. Unit {0}) old r
      → AppOwned old (and_then r (λ app. spawn_router D O checks axum H app (some harness)))
  after_router harness old (ok app, p) (_, started) =
      Owned-AppOwned harness old _ (spawn_router-Owned app harness old p started)
  after_router harness old (err e, p) tidy = tidy
  after_router harness old (panicked, p) tidy = tidy

  spawn_counter_postgres-AppOwned :
      (p : Seen W) → AppOwned (sent_of p) (spawn_counter_postgres D O checks axum H p)
  unfolding spawn_counter_postgres
  spawn_counter_postgres-AppOwned p =
      let spawned = spawn-Spawned driver os p.world in
      elim (Outcome-cases (spawn D O p.world).0) [
        | inl (harness, s) ↦ rw s (
            after_router harness (sent_of p) _ (
              or_drop-Owned (λ _. Unit {0}) harness (sent_of p)
                (postgres_router D O checks axum H harness) _ (postgres_router-Quietly harness)
                (λ a e. tt) (rw s at spawned)))
        | inr (inl (e, s)) ↦ let tidy = rw s at spawned in rw s tidy
        | inr (inr s) ↦ let tidy = rw s at spawned in rw s tidy
      ]

  send_shutdown-Quietly :
      (shutdown : Option Sender) (p : Seen W)
      → sent_of (send_shutdown D O checks axum H shutdown p) ≡ sent_of p
  send_shutdown-Quietly none p = refl
  send_shutdown-Quietly (some sender) p = refl

  drop_app-Tidy :
      (app : TestApp Sender Handle) (harness : PostgresHarness) (old : Sent) (p : Seen W)
      → HasHarness harness app
      → Started harness old (sent_of p)
      → Tidy old (sent_of (drop_app D O checks axum H app p).1)
  unfolding drop_app
  drop_app-Tidy app harness old p has (port, url, started) =
      let q : Seen W = send_shutdown D O checks axum H app.shutdown p in
      let aborted : Seen W = recall (sent_of q) (host.abort app.server_handle (forget q)) in
      rw has (
        drop_harness-Tidy harness old aborted
          (port, url, send_shutdown-Quietly app.shutdown p ∙ started))

  pub drop_app-Quietly :
      (app : TestApp Sender Handle) (p : Seen W)
      → app.postgres_harness ≡ none
      → sent_of (drop_app D O checks axum H app p).1 ≡ sent_of p
  unfolding drop_app
  drop_app-Quietly app p has = rw has (send_shutdown-Quietly app.shutdown p)

  pub run_test-Tidy_postgres :
      (body : TestApp Sender Handle → Program (Seen W) Text (Unit {0})) (p : Seen W)
      → ((app : TestApp Sender Handle) → Along Quietly (body app))
      → Tidy
          (sent_of p)
          (sent_of (run_test D O checks axum H (spawn_counter_postgres D O checks axum H) body p).1)
  unfolding run_test
  run_test-Tidy_postgres body p quiet = after_spawn _ (spawn_counter_postgres-AppOwned p)
    where
      after_spawn :
          (r : Outcome Text (TestApp Sender Handle) × Seen W)
          → AppOwned (sent_of p) r
          → Tidy (sent_of p) (
              sent_of
                (and_then
                  (or_panic {E' = Text} r.0, r.1)
                  (λ app q.
                    ending D O checks axum H (drop_app D O checks axum H app) (body app q))).1)
      after_spawn (ok app, q) (harness, has, (port, url, started)) =
          drop_app-Tidy app harness (sent_of p) (body app q).1 has
            (port, url, (quiet app).apply q ∙ started)
      after_spawn (err e, q) tidy = tidy
      after_spawn (panicked, q) tidy = tidy
