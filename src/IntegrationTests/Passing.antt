-- ===== src/IntegrationTests/Passing.antt =====
-- When the integration tests over a memory store pass.
use yral_onboarding_hello_wo.Prelude.{
  ℕ, ◌≡◌, ◌++◌, ◌+◌, refl, ap, ◌∙◌, none, some, Option, Option-cases, inl, inr, Bool, Text, codes,
  text_eq, ok, ◌<◌, ◌==◌, false, arith,
}
use yral_onboarding_hello_wo.Domain.{u64_mod, message, numbered}
use yral_onboarding_hello_wo.Application.{plain, counter}
use yral_onboarding_hello_wo.Memory.{memory_store, default_counter, increment}
use yral_onboarding_hello_wo.Decimal.{display}
use yral_onboarding_hello_wo.Memory.Numbering.{increment_fits}
use yral_onboarding_hello_wo.Postgres.{Driver}
use yral_onboarding_hello_wo.Http.{Router, serve}
use yral_onboarding_hello_wo.Http.Framework.{Axum, IsAxum}
use yral_onboarding_hello_wo.Client.Wire.{received, seen_status, hello-greeted}
use yral_onboarding_hello_wo.Http.Plain.{root_plain_answers}
use yral_onboarding_hello_wo.Client.Reports.{hello-plain, health-reported}
use yral_onboarding_hello_wo.Client.{Web, HelloWorldClient, hello}
use yral_onboarding_hello_wo.Server.State.{Process, counter_store_of}
use yral_onboarding_hello_wo.TestSupport.Harness.{Os, Lab}
use yral_onboarding_hello_wo.TestSupport.TestApp.{
  Host, TestApp, test_node, spawn_plain, spawn_counter_memory,
}
use yral_onboarding_hello_wo.IntegrationTests.{
  Reqwest, greets_twice, greets_plainly, reports_memory, shows_node,
  counter_mode_returns_incrementing_counts, plain_mode_returns_plain_hello_world,
  plain_mode_health_reports_memory_storage, plain_mode_exposes_serving_node_header,
}
use yral_onboarding_hello_wo.IntegrationTests.Network.{Addressed, IsReached}
use yral_onboarding_hello_wo.IntegrationTests.Startup.{
  Bound, router_of, Up, built, passes, new_client-base,
}
use yral_onboarding_hello_wo.Http.Answers.{Seen}

module _ {W Client Connection Row Failure Response HeaderValue : Type 0}
    {Listener Sender Receiver Handle Url ParseError ReqwestError : Type 0}
    (driver : Driver W Client Connection Row Failure) (os : Os W) (checks : Bool)
    {axum : Axum Response HeaderValue}
    {host : Host
      (Process (Lab W))
      (Router (Process (Lab W)) HeaderValue)
      Listener
      Sender
      Receiver
      Handle}
    {web : Web (Process (Lab W)) Url ParseError Response ReqwestError}
    {reqwest : Reqwest (Process (Lab W)) Response ReqwestError} {closed : ReqwestError}
    {Reached : Router (Process (Lab W)) HeaderValue → Url → Process (Lab W) → Type 0}
    (laws : IsAxum axum) (reached : IsReached host web reqwest axum closed checks Reached) where
  hello-counting :
      (node : HeaderValue) (address : Text) (addresses : Addressed web address)
      (q : Process (Lab W)) (n : ℕ)
      → axum.from_str test_node ≡ some node
      → Reached (router_of driver os checks laws reached counter node) addresses.root q
      → q.counter ≡ n
      → n + 1 < u64_mod
      → hello web (record { base_url = addresses.base }) q
        ≡ (ok (message (numbered (record { value = n + 1 }))), record q { counter = n + 1 })
  hello-counting node address addresses q n labelled here count fits =
      let client : HelloWorldClient Url = record { base_url = addresses.base } in
      let given : increment checks q.counter ≡ (ok (n + 1), n + 1) =
        ap (increment checks) count ∙ increment_fits checks n fits in
      let positive : (n + 1 == 0) ≡ false = ground arith in
      hello-greeted (reached.connected (router_of driver os checks laws reached counter node)) laws
        (counter_store_of (memory_store checks)) test_node client addresses.root q here
        (built driver os checks laws reached counter node labelled) addresses.join_root
        addresses.root_path
      ∙ rw given (rw positive refl)

  greets_twice-passes :
      (node : HeaderValue) (app : TestApp Sender Handle) (q : Process (Lab W))
      → axum.from_str test_node ≡ some node
      → Up driver os checks laws reached counter node app q
      → (greets_twice driver os checks axum host web app q).0 ≡ ok tt
  unfolding greets_twice text_eq message display
  greets_twice-passes node app q labelled up =
      let after_first : Process (Lab W) = record q { counter = 1 } in
      let first =
        hello-counting node up.address up.addresses q 0 labelled up.root_reached up.unvisited
          (omega arith) in
      let here =
        reached.stays (router_of driver os checks laws reached counter node) up.addresses.root q 1
          up.root_reached in
      let second =
        hello-counting node up.address up.addresses after_first 1 labelled here refl
          (omega arith) in
      rw (new_client-base driver os checks laws reached counter node app q up, first, second) refl

  greets_plainly-passes :
      (node : HeaderValue) (app : TestApp Sender Handle) (q : Process (Lab W))
      → axum.from_str test_node ≡ some node
      → Up driver os checks laws reached plain node app q
      → (greets_plainly driver os checks axum host web app q).0 ≡ ok tt
  unfolding greets_plainly text_eq
  greets_plainly-passes node app q labelled up =
      let client : HelloWorldClient Url = record { base_url = up.addresses.base } in
      let answer =
        hello-plain (reached.connected (router_of driver os checks laws reached plain node)) laws
          (counter_store_of (memory_store checks)) test_node client up.addresses.root q
          up.root_reached (built driver os checks laws reached plain node labelled)
          up.addresses.join_root up.addresses.root_path in
      rw (new_client-base driver os checks laws reached plain node app q up, answer) refl

  reports_memory-passes :
      (node : HeaderValue) (app : TestApp Sender Handle) (q : Process (Lab W))
      → axum.from_str test_node ≡ some node
      → Up driver os checks laws reached plain node app q
      → (reports_memory driver os checks axum host web app q).0 ≡ ok tt
  unfolding reports_memory text_eq
  reports_memory-passes node app q labelled up =
      let client : HelloWorldClient Url = record { base_url = up.addresses.base } in
      let answer =
        health-reported (reached.connected (router_of driver os checks laws reached plain node))
          laws plain (counter_store_of (memory_store checks)) test_node client up.addresses.health q
          up.health_reached (built driver os checks laws reached plain node labelled)
          up.addresses.join_health up.addresses.health_path in
      rw (new_client-base driver os checks laws reached plain node app q up, answer) refl

  seen_label : Option (Seen HeaderValue) → Option HeaderValue
  seen_label none = none
  seen_label (some s) = s.served_by

  shows_node-passes :
      (node : HeaderValue) (app : TestApp Sender Handle) (q : Process (Lab W))
      → axum.from_str test_node ≡ some node
      → Up driver os checks laws reached plain node app q
      → (shows_node driver os checks axum host web reqwest app q).0 ≡ ok tt
  unfolding shows_node seen_label
  shows_node-passes node app q labelled up =
      let root = up.addresses.root in
      let served =
        serve axum (router_of driver os checks laws reached plain node) (codes "GET") (codes "/")
          q in
      let (answer, same) =
        root_plain_answers laws (counter_store_of (memory_store checks)) test_node
          (router_of driver os checks laws reached plain node) q
          (built driver os checks laws reached plain node labelled) in
      elim (Option-cases served.0) [
        | inl silent ↦ absurd (cc (rw silent at answer))
        | inr (r, answered) ↦
            let seen = rw answered at answer in
            let sent : web.send root q ≡ (ok r, q) =
              (reached.connected (router_of driver os checks laws reached plain node)).sends root q
                up.root_reached
              ∙ ap
                  (λ path. received closed (
                    serve axum (router_of driver os checks laws reached plain node) (codes "GET")
                      path q))
                  up.addresses.root_path
              ∙ (λ i. received closed (answered i, same i)) in
            let got : reqwest.get (app.base_url ++ codes "/") ≡ web.send root =
              reached.gets _ root (
                ap (λ base. web.parse (base ++ codes "/")) up.at_address
                ∙ up.addresses.parsed_root) in
            let is_200 : web.status r ≡ 200 =
              (reached.connected (router_of driver os checks laws reached plain node)).status r
              ∙ ap seen_status seen in
            let labels =
              reached.reads_header (codes "x-served-by") test_node node r labelled
                (ap seen_label seen ∙ labelled) in
            rw got (rw (sent, is_200, labels) refl)
      ]

  -- Where a port can be bound, and with a web framework, a network and a client's library that behave
  -- as documented, the four tests over a memory store pass: a test that comes first or after others
  -- gets the first and the second greeting from an application that was just started, the plain
  -- greeting, a good health report with the name of the store, and the label of the server.
  pub memory_tests_pass :
      (node : HeaderValue) (p : Process (Lab W))
      → axum.from_str test_node ≡ some node
      → Bound driver os checks laws reached (record p { counter = default_counter })
      → ((counter_mode_returns_incrementing_counts driver os checks axum host web p).0 ≡ ok tt)
        × ((plain_mode_returns_plain_hello_world driver os checks axum host web p).0 ≡ ok tt)
        × ((plain_mode_health_reports_memory_storage driver os checks axum host web p).0 ≡ ok tt)
        × ((plain_mode_exposes_serving_node_header driver os checks axum host web reqwest p).0
            ≡ ok tt)
  unfolding counter_mode_returns_incrementing_counts plain_mode_returns_plain_hello_world
      plain_mode_health_reports_memory_storage plain_mode_exposes_serving_node_header spawn_plain
      spawn_counter_memory
  memory_tests_pass node p labelled b = (
    passes driver os checks laws reached counter node _ p labelled b
        (λ app q up. greets_twice-passes node app q labelled up),
    passes driver os checks laws reached plain node _ p labelled b
        (λ app q up. greets_plainly-passes node app q labelled up),
    passes driver os checks laws reached plain node _ p labelled b
        (λ app q up. reports_memory-passes node app q labelled up),
    passes driver os checks laws reached plain node _ p labelled b
        (λ app q up. shows_node-passes node app q labelled up),
  )
