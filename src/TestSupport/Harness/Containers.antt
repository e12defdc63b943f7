-- ===== src/TestSupport/Harness/Containers.antt =====
-- The containers that a harness starts and removes, over every driver and operating system: these are
-- run with a record of the `docker` commands.
use yral_onboarding_hello_wo.Prelude.{
  ℕ, zero, suc, ◌≡◌, ◌≢◌, refl, ap, ◌∙◌, inl, inr, Bool, true, false, List, ◌∷◌, Text, Outcome,
  Outcome-cases, ok, err, panicked, Program,
}
use yral_onboarding_hello_wo.Postgres.{
  Driver, PostgresCounterStoreConfig, connect_client, connect_store,
}
use yral_onboarding_hello_wo.Postgres.Growth.{Along, IsPreorder, growth}
use yral_onboarding_hello_wo.TestSupport.Harness.{
  Os, Lab, PostgresHarness, container_name_of, connection_string_of, run_args, rm_args, on_connect,
  wait_loop, wait_until_ready, drop_harness, spawn_container, spawn,
}

-- The commands that were sent, the latest first, each with its result.
abbrev pub Sent : Type 0
Sent = List (List Text × Outcome Text Bool)

pub record Watched (W : Type 0) : Type 0 where
  pub world : W
  pub sent : Sent

abbrev pub unseen : {W E A : Type 0} → Program W E A → Program (Watched W) E A
unseen m l = let (r, w) = m l.world in (r, record l { world = w })

-- The commands stay as they are.
abbrev pub Silent : {W : Type 0} → Watched W → Watched W → Type 0
Silent l l' = l'.sent ≡ l.sent

Silent-IsPreorder : {W : Type 0} → IsPreorder (Silent {W = W})
Silent-IsPreorder = record { stays = λ l. refl; follows = λ u v l h k. k ∙ h }

unseen-Silent : {W E A : Type 0} (m : Program W E A) → Along Silent (unseen m)
unseen-Silent m = record { apply = λ l. refl }

-- No command, one `run` that did not succeed, or one that did with the `rm` of its container behind it.
pub data Tidy (old new : Sent) : Type 0 where
  untouched : new ≡ old → Tidy old new
  not_started :
      (name : Text) (port : ℕ) (r : Outcome Text Bool)
      → r ≢ ok true
      → new ≡ (run_args name port, r) ∷ old
      → Tidy old new
  removed :
      (name : Text) (port : ℕ) (r : Outcome Text Bool)
      → new ≡ (rm_args name, r) ∷ (run_args name port, ok true) ∷ old
      → Tidy old new

-- One `run` that succeeded, and the harness knows its name and its port.
abbrev pub Started : PostgresHarness → Sent → Sent → Type 0
Started harness old new =
    (port : ℕ) × (harness.connection_string ≡ connection_string_of port)
    × (new ≡ (run_args harness.container_name port, ok true) ∷ old)

abbrev pub Spawned : Outcome Text PostgresHarness → Sent → Sent → Type 0
Spawned (ok harness) old new = Started harness old new
Spawned (err e) old new = Tidy old new
Spawned panicked old new = Tidy old new

module _ {W Client Connection Row Failure : Type 0}
    (driver : Driver W Client Connection Row Failure) (os : Os W) where
  abbrev pub watched_driver : Driver (Watched W) Client Connection Row Failure
  watched_driver = record {
    connect = λ s. unseen (driver.connect s);
    spawn = λ c l. record l { world = driver.spawn c l.world };
    batch_execute = λ c sql. unseen (driver.batch_execute c sql);
    query_one = λ c sql. unseen (driver.query_one c sql);
    get_i64 = driver.get_i64;
    describe = driver.describe;
    sleep = λ ms l. record l { world = driver.sleep ms l.world };
  }

  abbrev pub watched_os : Os (Watched W)
  watched_os = record {
    free_port = unseen os.free_port;
    process_id = os.process_id;
    docker = λ args l.
        let (r, w) = os.docker args l.world in (r, record { world = w; sent = (args, r) ∷ l.sent });
  }

  spawn-Silent : (c : Connection) (l : Watched W) → Silent l (watched_driver.spawn c l)
  spawn-Silent c l = refl

  pub connect_store-Silent :
      (config : PostgresCounterStoreConfig) → Along Silent (connect_store watched_driver config)
  unfolding connect_store connect_client
  connect_store-Silent config =
      search (growth, Silent-IsPreorder, unseen-Silent, spawn-Silent) depth 10

  wait_loop-Silent :
      (config : PostgresCounterStoreConfig) (rounds : ℕ)
      → Along Silent (wait_loop watched_driver config rounds)
  unfolding wait_loop
  wait_loop-Silent config zero = record { apply = λ l. refl }
  wait_loop-Silent config (suc rounds) = record {
    apply = λ l.
        let connected = (connect_store-Silent config).apply l in
        elim (Outcome-cases (connect_store watched_driver config l).0) [
          | inl (store, p) ↦ rw (p, on_connect) connected
          | inr (inl (e, p)) ↦
              rw (p, on_connect) ((wait_loop-Silent config rounds).apply _ ∙ connected)
          | inr (inr p) ↦ rw (p, on_connect) connected
        ];
  }

  wait_until_ready-Silent :
      (harness : PostgresHarness) → Along Silent (wait_until_ready watched_driver harness)
  unfolding wait_until_ready
  wait_until_ready-Silent harness = wait_loop-Silent _ 30

  spawn_container-Spawned :
      (name : Text) (port : ℕ) (l : Lab (Watched W))
      → Spawned
          (spawn_container watched_driver watched_os name port l).0
          l.world.sent
          (spawn_container watched_driver watched_os name port l).1.world.sent
  unfolding spawn_container drop_harness
  spawn_container-Spawned name port l =
      elim (Outcome-cases (os.docker (run_args name port) l.world.world).0) [
        | inl (true, p) ↦
            let harness : PostgresHarness = record {
              container_name = name;
              connection_string = connection_string_of port;
            } in
            let running : Watched W = record {
              world = (os.docker (run_args name port) l.world.world).1;
              sent = (run_args name port, ok true) ∷ l.world.sent;
            } in
            let left : Watched W = (wait_until_ready watched_driver harness running).1 in
            let removal : Outcome Text Bool = (os.docker (rm_args name) left.world).0 in
            let silent = (wait_until_ready-Silent harness).apply running in
            elim (Outcome-cases (wait_until_ready watched_driver harness running).0) [
              | inl (u, q) ↦ rw p (rw q (port, refl, silent))
              | inr (inl (e, q)) ↦ rw p (
                  rw q (
                    removed name port removal (ap (λ sent. (rm_args name, removal) ∷ sent) silent)))
              | inr (inr q) ↦ rw p (
                  rw q (
                    removed name port removal (ap (λ sent. (rm_args name, removal) ∷ sent) silent)))
            ]
        | inl (false, p) ↦ rw p (not_started name port (ok false) (λ e. cc) refl)
        | inr (inl (e, p)) ↦ rw p (not_started name port (err e) (λ e. cc) refl)
        | inr (inr p) ↦ rw p (not_started name port panicked (λ e. cc) refl)
      ]

  -- Whatever the operating system, `docker` and the database do: a harness that is returned has sent
  -- one `docker run` that succeeded, with its name and with the port of its connection string, and no
  -- other command; where none is returned, by an error or a panic, a `docker run` that succeeded is
  -- followed by a `docker rm --force` with the same name, and nothing else was started.
  pub spawn-Spawned :
      (l : Lab (Watched W))
      → Spawned
          (spawn watched_driver watched_os l).0
          l.world.sent
          (spawn watched_driver watched_os l).1.world.sent
  unfolding spawn
  spawn-Spawned l = elim (Outcome-cases (os.free_port l.world.world).0) [
    | inl (port, p) ↦
        rw p (spawn_container-Spawned (container_name_of os.process_id l.harness_counter) port _)
    | inr (inl (e, p)) ↦ rw p (untouched refl)
    | inr (inr p) ↦ rw p (untouched refl)
  ]
