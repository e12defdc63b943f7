-- ===== src/Server/Tests.antt =====
-- The server over the simulated database and the sample framework, and the theorems at it.
use yral_onboarding_hello_wo.Prelude.{
  ◌≡◌, ◌↔◌, refl, arith, true, false, List, [], ◌∷◌, none, some, Text, codes, text_eq, ok, err,
  return, throw, inl,
}
use yral_onboarding_hello_wo.Application.{counter, HelloWorldService}
use yral_onboarding_hello_wo.Application.Contract.{visit, check}
use yral_onboarding_hello_wo.Decimal.{display}
use yral_onboarding_hello_wo.Postgres.{Driver, connect_store, connect_client, init_sql}
use yral_onboarding_hello_wo.Postgres.Simulation.{
  Sim, sim_driver, sim_stored, sim-IsDatabase, lost, works,
}
use yral_onboarding_hello_wo.Config.{
  AppConfig, memory, postgres, from_env, from_pairs, from_values, collect, collect_from, get,
  parse_port, parse_greeting_mode, parse_counter_store,
}
use yral_onboarding_hello_wo.Http.{Router, build_router}
use yral_onboarding_hello_wo.Http.Framework.{hello_endpoint, health_endpoint}
use yral_onboarding_hello_wo.Http.Bodies.{Distinct, root_bodies, greet}
use yral_onboarding_hello_wo.Http.Sample.{sample_axum, sample-IsAxum}
use yral_onboarding_hello_wo.Server.{
  Features, Network, build_service, memory_service, postgres_service, main, observed_main,
}
use yral_onboarding_hello_wo.Observability.{Tracing}
use yral_onboarding_hello_wo.Server.Guarded.{rest, Guarded, observed_main-Guarded}
use yral_onboarding_hello_wo.Server.State.{Process}
use yral_onboarding_hello_wo.Server.Selection.{enabled, Built, build_service-ok_iff, service_for}
use yral_onboarding_hello_wo.Server.Startup.{server_bodies-Distinct, server_bodies-consecutive}
use yral_onboarding_hello_wo.Server.Run.{Serves, main-ok, main_refuses}

-- The features of the released image.
abbrev both : Features
both = record { memory_store = true; postgres_store = true }

abbrev counting_memory : AppConfig
counting_memory = record {
  host = codes "127.0.0.1";
  port = 3000;
  server_label = codes "server_1";
  greeting_mode = counter;
  counter_store = memory;
}

abbrev counting_postgres : AppConfig
counting_postgres = record counting_memory { counter_store = postgres (codes "postgres://db") }

abbrev before : Process Sim
before = record { counter = 5; world = record { value = none; plan = lost ∷ works ∷ [] } }

abbrev after_memory : Process Sim
after_memory = record before { counter = 0 }

abbrev after_postgres : Process Sim
after_postgres = record before { world = record { value = some 0; plan = lost ∷ works ∷ [] } }

memory_built :
    build_service sim_driver false both counting_memory before
    ≡ (ok (service_for sim_driver false counter memory), after_memory)
unfolding build_service memory_service
memory_built = refl

postgres_built :
    build_service sim_driver false both counting_postgres before
    ≡ (ok (service_for sim_driver false counter (postgres (codes "postgres://db"))), after_postgres)
unfolding build_service postgres_service connect_store connect_client init_sql text_eq
postgres_built = refl

abbrev routed : HelloWorldService (Process Sim) → Router (Process Sim) Text
routed service = record {
  routes = (codes "/", hello_endpoint) ∷ (codes "/health", health_endpoint) ∷ [];
  state = record { service = service; server_label = codes "server_1" };
}

router_built :
    (service : HelloWorldService (Process Sim))
    → build_router sample_axum {E = Text} service (codes "server_1") ≡ ok (routed service)
unfolding build_router
router_built service = refl

server_bodies-Distinct_example : Distinct (
    root_bodies sample_axum
      (routed (service_for sim_driver false counter (postgres (codes "postgres://db"))))
      (visit ∷ check ∷ visit ∷ [])
      after_postgres)
server_bodies-Distinct_example =
    server_bodies-Distinct sim_driver sample-IsAxum false both counting_postgres before
      after_postgres (service_for sim_driver false counter (postgres (codes "postgres://db"))) _
      refl postgres_built (router_built _) sim_stored sim-IsDatabase (visit ∷ check ∷ visit ∷ []) tt

server_bodies-consecutive_example :
    root_bodies sample_axum
      (routed (service_for sim_driver false counter memory))
      (visit ∷ check ∷ visit ∷ [])
      after_memory
    ≡ greet 1 ∷ greet 2 ∷ []
server_bodies-consecutive_example =
    server_bodies-consecutive sim_driver sample-IsAxum false both counting_memory before
      after_memory (service_for sim_driver false counter memory) _ refl memory_built
      (router_built _) refl (visit ∷ check ∷ visit ∷ []) (omega arith)

build_service-ok_iff_example :
    ((build_service sim_driver false both counting_memory before).0
      ≡ ok (service_for sim_driver false counter memory))
    ↔ ((enabled both memory ≡ true)
        × Built sim_driver false counter memory before
            (build_service sim_driver false both counting_memory before)
            (service_for sim_driver false counter memory))
build_service-ok_iff_example =
    build_service-ok_iff sim_driver false both counting_memory before
      (service_for sim_driver false counter memory)

-- A network on which every address can be bound and serving ends at once.
abbrev quiet : Network (Process Sim) Text (Unit {0}) (Router (Process Sim) Text)
quiet = record {
  parse_address = λ text. ok text;
  bind = λ address. return tt;
  display_address = λ address. address;
  info = λ text p. p;
  run = λ listener router. return tt;
}

main_runs : (main sim_driver false sample_axum quiet both (some []) before).0 ≡ ok tt
unfolding main build_service memory_service build_router from_env from_pairs from_values collect
    collect_from get parse_port parse_greeting_mode parse_counter_store
main_runs = refl

main-ok_example : Serves sim_driver false sample_axum quiet both (some []) before
main-ok_example = main-ok sim_driver false sample_axum quiet both (some []) before main_runs

abbrev bad_mode : List (Text × Text)
bad_mode = (codes "GREETING_MODE", codes "weird") ∷ []

bad_mode_rejected : from_env (some bad_mode) ≡ err (codes "invalid GREETING_MODE: weird")
unfolding from_env from_pairs from_values collect collect_from get parse_port parse_greeting_mode
    parse_counter_store text_eq
bad_mode_rejected = refl

main_refuses_example :
    (e : Text) × (main sim_driver false sample_axum quiet both (some bad_mode) before
      ≡ (err e, before))
main_refuses_example =
    main_refuses sim_driver false sample_axum quiet both (some bad_mode) before
      (inl (_, bad_mode_rejected))

-- Here the world is the list of the pending events, and no database answers.
abbrev no_database : Driver (List Text) (Unit {0}) (Unit {0}) (Unit {0}) (Unit {0})
no_database = record {
  connect = λ s w. (err tt, w);
  spawn = λ c w. w;
  batch_execute = λ c sql w. (err tt, w);
  query_one = λ c sql w. (err tt, w);
  get_i64 = λ row. none;
  describe = λ e. [];
  sleep = λ ms w. w;
}

abbrev note : Text → Process (List Text) → Process (List Text)
note text p = record p { world = text ∷ p.world }

-- A network that is shut down by an error of the listener, behind the event of `info!`.
abbrev closing : Network (Process (List Text)) Text (Unit {0}) (Router (Process (List Text)) Text)
closing = record {
  parse_address = λ text. ok text;
  bind = λ address. return tt;
  display_address = λ address. address;
  info = note;
  run = λ listener router. throw (codes "closed");
}

-- A subscriber and a Sentry client that keep the events until they are flushed.
abbrev noted : Tracing (Process (List Text)) Text Text (Unit {0})
noted = record {
  try_from_default_env = λ p. (err (codes "no RUST_LOG"), p);
  new_filter = λ text. text;
  try_init = λ layers p. (err (codes "installed already"), p);
  sentry_init = λ options p. (some tt, p);
  release_name = some (codes "bin-server@0.1.0");
  flush = λ guard p. record p { world = [] };
  panic_hook = note (codes "panicked");
}

abbrev silent : Process (List Text)
silent = record { counter = 5; world = [] }

-- The event of `info!` is pending where `main` ends by the error.
main_notes : main no_database false sample_axum closing both (some []) silent ≡ (
  err (codes "closed"),
  note (codes "listening on 127.0.0.1:3000") (record silent { counter = 0 }),
)
unfolding main build_service memory_service build_router from_env from_pairs from_values collect
    collect_from get parse_port parse_greeting_mode parse_counter_store display
main_notes = refl

observed_main-Guarded_example :
    (observed_main no_database false sample_axum closing noted false none both (some []) silent
      ≡ rest no_database false sample_axum closing noted both (some []) none silent)
    × Guarded no_database false sample_axum closing noted both
        (some [])
        none
        (λ p. p.world)
        (observed_main no_database false sample_axum closing noted true none both (some []) silent)
        (some tt, silent)
observed_main-Guarded_example =
    observed_main-Guarded no_database false sample_axum closing noted both (some []) none
      (λ p. p.world) (λ client p. refl) (λ p e. absurd (cc)) (λ ls p e. absurd (cc)) silent
