-- ===== src/IntegrationTests/Startup.antt =====
-- An application of the tests over a memory store, from its start to its body.
use yral_onboarding_hello_wo.Prelude.{
  ◌≡◌, ◌++◌, [], ◌∷◌, refl, ap, ◌∙◌, none, some, Bool, Text, codes, ok, Program,
}
use yral_onboarding_hello_wo.Application.{GreetingMode}
use yral_onboarding_hello_wo.Memory.{memory_store, default_counter}
use yral_onboarding_hello_wo.Postgres.{Driver}
use yral_onboarding_hello_wo.Http.{Router, build_router}
use yral_onboarding_hello_wo.Http.Framework.{Axum, IsAxum, hello_endpoint, health_endpoint}
use yral_onboarding_hello_wo.Client.BaseUrl.{new_client-root}
use yral_onboarding_hello_wo.Client.{Web, new_client}
use yral_onboarding_hello_wo.Server.State.{Process, counter_store_of}
use yral_onboarding_hello_wo.TestSupport.Harness.{Os, Lab, dropping}
use yral_onboarding_hello_wo.TestSupport.TestApp.{Host, TestApp, test_node, spawn_memory, run_test}
use yral_onboarding_hello_wo.IntegrationTests.{Reqwest}
use yral_onboarding_hello_wo.IntegrationTests.Network.{Addressed, IsReached}

module _ {W Client Connection Row Failure Response HeaderValue : Type 0}
    {Listener Sender Receiver Handle Url ParseError ReqwestError : Type 0}
    (driver : Driver W Client Connection Row Failure) (os : Os W) (checks : Bool)
    {axum : Axum Response HeaderValue}
    {host : Host
      (Process (Lab W))
      (Router (Process (Lab W)) HeaderValue)
      Listener
      Sender
      Receiver
      Handle}
    {web : Web (Process (Lab W)) Url ParseError Response ReqwestError}
    {reqwest : Reqwest (Process (Lab W)) Response ReqwestError} {closed : ReqwestError}
    {Reached : Router (Process (Lab W)) HeaderValue → Url → Process (Lab W) → Type 0}
    (laws : IsAxum axum) (reached : IsReached host web reqwest axum closed checks Reached) where
  -- A port is free on the host, and it has an address.
  pub record Bound (p : Process (Lab W)) : Type 0 where
    pub listener : Listener
    pub address : Text
    pub bound : (host.bind_any p).0 ≡ ok listener
    pub named : (host.local_addr listener (host.bind_any p).1).0 ≡ ok address

  abbrev pub router_of : GreetingMode → HeaderValue → Router (Process (Lab W)) HeaderValue
  router_of mode node = record {
    routes = (codes "/", hello_endpoint) ∷ (codes "/health", health_endpoint) ∷ [];
    state = record {
      service = record { mode = mode; counter_store = counter_store_of (memory_store checks) };
      server_label = node;
    };
  }

  -- An application that is up, with its counter at zero.
  pub record Up (mode : GreetingMode) (node : HeaderValue) (app : TestApp Sender Handle)
      (q : Process (Lab W)) : Type 0 where
    pub address : Text
    pub addresses : Addressed web address
    pub at_address : app.base_url ≡ codes "http://" ++ address
    pub root_reached : Reached (router_of mode node) addresses.root q
    pub health_reached : Reached (router_of mode node) addresses.health q
    pub unvisited : q.counter ≡ 0

  pub built :
      (mode : GreetingMode) (node : HeaderValue)
      → axum.from_str test_node ≡ some node
      → build_router axum {E = Text}
          (record { mode = mode; counter_store = counter_store_of (memory_store checks) })
          test_node
        ≡ ok (router_of mode node)
  unfolding build_router
  built mode node labelled = rw (labelled, build_router) refl

  spawn_memory-Up :
      (mode : GreetingMode) (node : HeaderValue) (p : Process (Lab W))
      → axum.from_str test_node ≡ some node
      → Bound (record p { counter = default_counter })
      → (app : TestApp Sender Handle) × (q : Process (Lab W)) × (spawn_memory driver os checks axum
            host mode p
          ≡ (ok app, q))
        × Up mode node app q
  unfolding spawn_memory
  spawn_memory-Up mode node p labelled b =
      let p₀ : Process (Lab W) = record p { counter = default_counter } in
      let p₁ : Process (Lab W) = (host.bind_any p₀).1 in
      let p₂ : Process (Lab W) = (host.local_addr b.listener p₁).1 in
      let p₃ : Process (Lab W) = (host.channel p₂).1 in
      let ends : Sender × Receiver = (host.channel p₂).0 in
      let router : Router (Process (Lab W)) HeaderValue = router_of mode node in
      let app : TestApp Sender Handle = record {
        base_url = codes "http://" ++ b.address;
        postgres_harness = none;
        shutdown = some ends.0;
        server_handle = (host.serve b.listener router ends.1 p₃).0;
      } in
      let served =
        reached.serves b.listener p₁ p₃ b.address b.named router ends.1 mode test_node
          (built mode node labelled) in
      let up : Up mode node app (host.serve b.listener router ends.1 p₃).1 = record {
        address = b.address;
        addresses = reached.addressed b.listener p₁ b.address b.named;
        at_address = refl;
        root_reached = served.0;
        health_reached = served.1;
        unvisited =
            reached.serve_keeps b.listener router ends.1 p₃
            ∙ reached.channel_keeps p₂
            ∙ reached.address_keeps b.listener p₁
            ∙ reached.bind_keeps p₀;
      } in
      (
        app,
        _,
        rw (built mode node labelled) (rw (b.bound, dropping) (rw (b.named, dropping) refl)),
        up,
      )

  pub passes :
      (mode : GreetingMode) (node : HeaderValue)
      (body : TestApp Sender Handle → Program (Process (Lab W)) Text (Unit {0}))
      (p : Process (Lab W))
      → axum.from_str test_node ≡ some node
      → Bound (record p { counter = default_counter })
      → ((app : TestApp Sender Handle) (q : Process (Lab W))
          → Up mode node app q
          → (body app q).0 ≡ ok tt)
      → (run_test driver os checks axum host
          (spawn_memory driver os checks axum host mode)
          body
          p).0
        ≡ ok tt
  unfolding run_test
  passes mode node body p labelled b runs =
      let (app, q, spawned, up) = spawn_memory-Up mode node p labelled b in
      rw spawned (runs app q up)

  pub new_client-base :
      (mode : GreetingMode) (node : HeaderValue) (app : TestApp Sender Handle) (q : Process (Lab W))
      (up : Up mode node app q)
      → new_client web app.base_url ≡ ok (record { base_url = up.addresses.base })
  new_client-base mode node app q up =
      ap (new_client web) up.at_address
      ∙ new_client-root web _ up.addresses.base up.addresses.parsed up.addresses.base_path
