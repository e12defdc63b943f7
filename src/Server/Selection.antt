-- ===== src/Server/Selection.antt =====
-- Which store the server runs on.
use yral_onboarding_hello_wo.Prelude.{
  ◌≡◌, ◌↔◌, refl, sym, ap, ◌∙◌, inl, inr, Bool, true, false, Text, Outcome, Outcome-cases, ok,
  ok_inj, err, arith,
}
use yral_onboarding_hello_wo.Application.{GreetingMode, HelloWorldService}
use yral_onboarding_hello_wo.Memory.{memory_store, default_counter}
use yral_onboarding_hello_wo.Postgres.{
  Driver, PostgresAdapterError, PostgresCounterStore, connect_store, postgres_store,
}
use yral_onboarding_hello_wo.Config.{AppConfig, CounterStoreConfig, memory, postgres}
use yral_onboarding_hello_wo.Server.{
  Features, memory_service, postgres_service, build_for, build_service,
}
use yral_onboarding_hello_wo.Server.State.{Process, counter_store_of, world_store_of}

-- Whether the binary is built with the store that is configured.
abbrev pub enabled : Features → CounterStoreConfig → Bool
enabled features memory = features.memory_store
enabled features (postgres url) = features.postgres_store

guarded : {P Q : Type 0} → P ↔ Q → P ↔ ((true ≡ true) × Q)
guarded (to, from) = ((λ p. (refl, to p)), λ q. from q.1)

refused :
    {E A Q : Type 0} {e : E} {a : A} → ◌≡◌ {A = Outcome E A} (err e) (ok a) ↔ ((false ≡ true) × Q)
refused = ((λ p. cc), λ q. cc)

module _ {W Client Connection Row Failure : Type 0}
    (driver : Driver W Client Connection Row Failure) (checks : Bool) where
  -- The service that a configuration asks for.
  abbrev pub service_for : GreetingMode → CounterStoreConfig → HelloWorldService (Process W)
  service_for mode memory = record {
    mode = mode;
    counter_store = counter_store_of (memory_store checks);
  }
  service_for mode (postgres url) = record {
    mode = mode;
    counter_store = world_store_of (postgres_store driver (record { connection_string = url }));
  }

  -- The database is reached and its table created, if the configuration asks for one.
  abbrev pub Reached : CounterStoreConfig → Process W → Type 0
  Reached memory p = Unit
  Reached (postgres url) p =
      (connect_store driver (record { connection_string = url }) p.world).0
      ≡ ok (record { connection_string = url })

  -- What setting the service up does to the state.
  abbrev pub set_up : CounterStoreConfig → Process W → Process W
  set_up memory p = record p { counter = default_counter }
  set_up (postgres url) p = record p {
    world = (connect_store driver (record { connection_string = url }) p.world).1;
  }

  -- A store that is connected keeps the address that it was given.
  connect_store-ok :
      (url : Text) (w : W) (store : PostgresCounterStore)
      → (connect_store driver (record { connection_string = url }) w).0 ≡ ok store
      → store ≡ record { connection_string = url }
  unfolding connect_store
  connect_store-ok url w store e = ground arith

  -- What is known of a service that was built.
  abbrev pub Built :
      GreetingMode
      → CounterStoreConfig
      → Process W
      → Outcome Text (HelloWorldService (Process W)) × Process W
      → HelloWorldService (Process W)
      → Type 0
  Built mode store p built service =
      Reached store p × (service ≡ service_for mode store) × (built.1 ≡ set_up store p)

  memory_service_iff :
      (mode : GreetingMode) (p : Process W) (service : HelloWorldService (Process W))
      → ((memory_service driver checks mode p).0 ≡ ok service)
        ↔ Built mode memory p (memory_service driver checks mode p) service
  unfolding memory_service
  memory_service_iff mode p service = ((λ e. (tt, sym (ok_inj _ _ e), refl)), λ b. ap ok (sym b.1))

  postgres_service_iff :
      (mode : GreetingMode) (url : Text) (p : Process W) (service : HelloWorldService (Process W))
      → ((postgres_service driver checks mode url p).0 ≡ ok service)
        ↔ Built mode (postgres url) p (postgres_service driver checks mode url p) service
  unfolding postgres_service
  postgres_service_iff mode url p service = (to, from)
    where
      connected : Outcome (PostgresAdapterError Failure) PostgresCounterStore × W
      connected = connect_store driver (record { connection_string = url }) p.world

      to :
          (postgres_service driver checks mode url p).0 ≡ ok service
          → Built mode (postgres url) p (postgres_service driver checks mode url p) service
      to e = elim (Outcome-cases connected.0) [
        | inl (st, q) ↦
            let here = q ∙ ap ok (connect_store-ok url p.world st q) in
            (here, sym (ok_inj _ _ (rw here at e)), rw here)
        | inr (inl (x, q)) ↦ absurd (ground arith)
        | inr (inr q) ↦ absurd (ground arith)
      ]

      from :
          Built mode (postgres url) p (postgres_service driver checks mode url p) service
          → (postgres_service driver checks mode url p).0 ≡ ok service
      from (q, same, _) = rw q (ap ok (sym same))

  build_for_iff :
      (a b : Bool) (mode : GreetingMode) (store : CounterStoreConfig) (p : Process W)
      (service : HelloWorldService (Process W))
      → ((build_for driver checks a b mode store p).0 ≡ ok service) ↔ (
          (enabled (record { memory_store = a; postgres_store = b }) store ≡ true)
          × Built mode store p (build_for driver checks a b mode store p) service)
  build_for_iff true false mode memory p service = guarded (memory_service_iff mode p service)
  build_for_iff true true mode memory p service = guarded (memory_service_iff mode p service)
  build_for_iff false true mode memory p service = refused
  build_for_iff false false mode memory p service = refused
  build_for_iff true false mode (postgres url) p service = refused
  build_for_iff false true mode (postgres url) p service =
      guarded (postgres_service_iff mode url p service)
  build_for_iff true true mode (postgres url) p service =
      guarded (postgres_service_iff mode url p service)
  build_for_iff false false mode (postgres url) p service = refused

  -- The server is given a service exactly if its binary has the configured store and, for Postgres,
  -- the database is reached and initialised; the service has the configured mode and that very
  -- store, and a memory store starts at zero. No other store stands in for it.
  pub build_service-ok_iff :
      (features : Features) (config : AppConfig) (p : Process W)
      (service : HelloWorldService (Process W))
      → ((build_service driver checks features config p).0 ≡ ok service) ↔ (
          (enabled features config.counter_store ≡ true)
          × Built config.greeting_mode config.counter_store p
              (build_service driver checks features config p)
              service)
  unfolding build_service
  build_service-ok_iff features config p service =
      build_for_iff features.memory_store features.postgres_store config.greeting_mode
        config.counter_store p service
