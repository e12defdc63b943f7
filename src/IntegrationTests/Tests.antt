-- ===== src/IntegrationTests/Tests.antt =====
-- A host with one listener, which remembers the mode and the label of the router that it serves, and
-- the theorem at it.
use yral_onboarding_hello_wo.Prelude.{
  ◌≡◌, ◌++◌, refl, ap, ◌∙◌, Bool, false, ◌&&◌, leb, ltb, Option, none, some, [], ◌∷◌, Text, codes,
  text_eq, text_eq_refl, ok, err, Program, ok_inj, return,
}
use yral_onboarding_hello_wo.Application.{GreetingMode}
use yral_onboarding_hello_wo.Memory.{memory_store}
use yral_onboarding_hello_wo.Postgres.{Driver}
use yral_onboarding_hello_wo.Http.{Router, serve}
use yral_onboarding_hello_wo.Http.Framework.{hello_endpoint, health_endpoint}
use yral_onboarding_hello_wo.Http.Answers.{build_router-eq-ok}
use yral_onboarding_hello_wo.Http.Sample.{
  Page, sample_axum, sample-IsAxum, unrender, unrender-render, from_str_same,
}
use yral_onboarding_hello_wo.Client.{Web}
use yral_onboarding_hello_wo.Client.Wire.{received}
use yral_onboarding_hello_wo.Server.State.{Process, counter_store_of}
use yral_onboarding_hello_wo.TestSupport.Harness.{Os, Lab}
use yral_onboarding_hello_wo.TestSupport.TestApp.{Host, test_node}
use yral_onboarding_hello_wo.IntegrationTests.{
  Reqwest, counter_mode_returns_incrementing_counts, plain_mode_returns_plain_hello_world,
  plain_mode_health_reports_memory_storage, plain_mode_exposes_serving_node_header,
}
use yral_onboarding_hello_wo.IntegrationTests.Network.{IsReached}
use yral_onboarding_hello_wo.IntegrationTests.Passing.{memory_tests_pass}

-- What is served.
abbrev Served : Type 0
Served = Option (GreetingMode × Text)

abbrev P : Type 0
P = Process (Lab Served)

-- No database and no `docker`.
abbrev no_driver : Driver Served (Unit {0}) (Unit {0}) (Unit {0}) (Unit {0})
no_driver = record {
  connect = λ s w. (err tt, w);
  spawn = λ c w. w;
  batch_execute = λ c sql w. (err tt, w);
  query_one = λ c sql w. (err tt, w);
  get_i64 = λ row. none;
  describe = λ e. [];
  sleep = λ ms w. w;
}

abbrev no_docker : Os Served
no_docker = record {
  free_port = λ w. (err (codes "no port"), w);
  process_id = 1;
  docker = λ args w. (err (codes "no docker"), w);
}

abbrev serving : Served → P → P
serving served p = record p { world = record p.world { world = served } }

abbrev local : Host P (Router P Text) (Unit {0}) (Unit {0}) (Unit {0}) (Unit {0})
local = record {
  bind_any = return tt;
  local_addr = λ listener. return (codes "127.0.0.1:4000");
  channel = λ p. ((tt, tt), p);
  serve = λ listener app receiver p.
      (tt, serving (some (app.state.service.mode, app.state.server_label)) p);
  send = λ sender p. p;
  abort = λ handle p. serving none p;
}

abbrev router_at : GreetingMode → Text → Router P Text
router_at mode label = record {
  routes = (codes "/", hello_endpoint) ∷ (codes "/health", health_endpoint) ∷ [];
  state = record {
    service = record { mode = mode; counter_store = counter_store_of (memory_store false) };
    server_label = label;
  };
}

-- An address is its path; that of the listener, with or without a slash, has the path `/`.
abbrev send_to : Served → Text → Program P (Unit {0}) Page
send_to none url p = (err tt, p)
send_to (some (mode, label)) url p =
    received tt (serve sample_axum (router_at mode label) (codes "GET") url p)

abbrev wire : Web P Text (Unit {0}) Page (Unit {0})
wire = record {
  parse = λ t. ok (codes "/");
  path = λ url. url;
  set_path = λ path url. path;
  join = λ url path. ok (codes "/" ++ path);
  send = λ url p. send_to p.world.world url p;
  status = λ r. r.status;
  is_success = λ s. leb 200 s && ltb s 300;
  text = λ r p. (ok r.body, p);
  json = λ r p. (ok (unrender r.body), p);
  error_status = λ e. none;
}

abbrev is_text : Option Text → Text → Bool
is_text none t = false
is_text (some v) t = text_eq v t

abbrev plain_reqwest : Reqwest P Page (Unit {0})
plain_reqwest = record {
  get = λ t. wire.send (codes "/");
  has_header = λ name t r. is_text (sample_axum.header name r) t;
}

abbrev Reached : Router P Text → Text → P → Type 0
Reached r url p =
    (mode : GreetingMode) × (label : Text) × (p.world.world ≡ some (mode, label))
    × (r ≡ router_at mode label)

local-IsReached : IsReached local wire plain_reqwest sample_axum tt false Reached
local-IsReached = record {
  bind_keeps = λ p. refl;
  address_keeps = λ l p. refl;
  channel_keeps = λ p. refl;
  serve_keeps = λ l r receiver p. refl;
  addressed = λ l p address named. record {
    base = codes "/";
    root = codes "/";
    health = codes "/health";
    parsed = refl;
    parsed_root = refl;
    base_path = refl;
    root_path = refl;
    health_path = refl;
    join_root = refl;
    join_health = refl;
  };
  serves = λ l p q address named r receiver mode label built.
      let (v, found, same) = build_router-eq-ok sample_axum _ label r built in
      let here : Reached r (codes "/") (local.serve l r receiver q).1 =
        (mode, v, ap (λ r. some (r.state.service.mode, r.state.server_label)) same, same) in
      (here, here);
  stays = λ r url p n here. here;
  connected = λ r. record {
    sends = λ url p (mode, label, stored, same). rw (stored, same) refl;
    status = λ r. refl;
    reads = λ r p. refl;
    decodes = λ r h p same. rw (same, unrender-render h) refl;
    success_200 = refl;
    success_500 = refl;
    success_503 = refl;
  };
  gets = λ t url parsed. ap wire.send (ok_inj (codes "/") url parsed);
  reads_header = λ name t v r valued seen.
      ap (λ o. is_text o t) seen
      ∙ ap (λ u. text_eq u t) (from_str_same t v valued)
      ∙ text_eq_refl t;
}

abbrev idle : P
idle = record { counter = 9; world = record { harness_counter = 0; world = none } }

memory_tests_pass_example :
    ((counter_mode_returns_incrementing_counts no_driver no_docker false sample_axum local wire
        idle).0
      ≡ ok tt)
    × ((plain_mode_returns_plain_hello_world no_driver no_docker false sample_axum local wire
          idle).0
        ≡ ok tt)
    × ((plain_mode_health_reports_memory_storage no_driver no_docker false sample_axum local wire
          idle).0
        ≡ ok tt)
    × ((plain_mode_exposes_serving_node_header no_driver no_docker false sample_axum local wire
          plain_reqwest idle).0
        ≡ ok tt)
memory_tests_pass_example =
    memory_tests_pass no_driver no_docker false sample-IsAxum local-IsReached test_node idle refl
      (record { listener = tt; address = codes "127.0.0.1:4000"; bound = refl; named = refl })
