-- ===== src/Client/WireTests.antt =====
-- A client of a router over the memory store, on the sample framework, and the theorems at it.
use yral_onboarding_hello_wo.Prelude.{
  ℕ, ◌≡◌, refl, [], ◌∷◌, false, ◌&&◌, ◌++◌, leb, ltb, none, Text, codes, ok,
}
use yral_onboarding_hello_wo.Application.{counter}
use yral_onboarding_hello_wo.Memory.{memory_store}
use yral_onboarding_hello_wo.Http.{Router, build_router, serve}
use yral_onboarding_hello_wo.Http.Framework.{hello_endpoint, health_endpoint}
use yral_onboarding_hello_wo.Http.Sample.{
  Page, sample_axum, sample-IsAxum, unrender, unrender-render,
}
use yral_onboarding_hello_wo.Client.{Web, hello, health}
use yral_onboarding_hello_wo.Client.Reports.{reported, health-reported}
use yral_onboarding_hello_wo.Client.Wire.{received, IsConnected, greeted, hello-greeted}

abbrev router : Router ℕ Text
router = record {
  routes = (codes "/", hello_endpoint) ∷ (codes "/health", health_endpoint) ∷ [];
  state = record {
    service = record { mode = counter; counter_store = memory_store false };
    server_label = codes "server_1";
  };
}

router-built :
    build_router sample_axum {E = Text}
      (record { mode = counter; counter_store = memory_store false })
      (codes "server_1")
    ≡ ok router
unfolding build_router
router-built = refl

-- Every address is joined to a path behind the root.
abbrev wire : Web ℕ Text (Unit {0}) Page (Unit {0})
wire = record {
  parse = λ t. ok t;
  path = λ url. url;
  set_path = λ path url. path;
  join = λ url path. ok (codes "/" ++ path);
  send = λ url w. received tt (serve sample_axum router (codes "GET") url w);
  status = λ r. r.status;
  is_success = λ s. leb 200 s && ltb s 300;
  text = λ r w. (ok r.body, w);
  json = λ r w. (ok (unrender r.body), w);
  error_status = λ e. none;
}

wire-IsConnected : IsConnected wire sample_axum router tt (λ url w. Unit {0})
wire-IsConnected = record {
  sends = λ url w reached. refl;
  status = λ r. refl;
  reads = λ r w. refl;
  decodes = λ r h w same. rw (same, unrender-render h) refl;
  success_200 = refl;
  success_500 = refl;
  success_503 = refl;
}

hello-greeted_example : hello wire (record { base_url = codes "/" }) 7 ≡ (
  greeted tt ((memory_store false).next_visitor_count 7).0,
  ((memory_store false).next_visitor_count 7).1,
)
hello-greeted_example =
    hello-greeted wire-IsConnected sample-IsAxum (memory_store false) (codes "server_1")
      (record { base_url = codes "/" }) (codes "/") 7 tt router-built refl refl

health-reported_example :
    health wire (record { base_url = codes "/" }) 7 ≡ (reported tt (codes "memory") (ok tt), 7)
health-reported_example =
    health-reported wire-IsConnected sample-IsAxum counter (memory_store false) (codes "server_1")
      (record { base_url = codes "/" }) (codes "/health") 7 tt router-built refl refl
