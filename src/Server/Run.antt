-- ===== src/Server/Run.antt =====
-- When the server comes to serve.
use yral_onboarding_hello_wo.Prelude.{
  ◌≡◌, ◌⊎◌, inl, inr, refl, Bool, false, Option, List, Text, codes, ◌++◌, lift, ◌∙◌, true, >>=-run,
  >>=-eq-ok, ok, err,
}
use yral_onboarding_hello_wo.Decimal.{display}
use yral_onboarding_hello_wo.Application.{HelloWorldService, GreetingMode}
use yral_onboarding_hello_wo.Postgres.{Driver}
use yral_onboarding_hello_wo.Config.{AppConfig, CounterStoreConfig, memory, postgres, from_env}
use yral_onboarding_hello_wo.Http.{Router, build_router}
use yral_onboarding_hello_wo.Http.Framework.{Axum}
use yral_onboarding_hello_wo.Server.{Features, Network, build_service, build_for, main}
use yral_onboarding_hello_wo.Server.State.{Process}
use yral_onboarding_hello_wo.Server.Selection.{enabled}

module _ {W Client Connection Row Failure Response HeaderValue Address Listener : Type 0}
    (driver : Driver W Client Connection Row Failure) (checks : Bool)
    (axum : Axum Response HeaderValue)
    (network : Network (Process W) Address Listener (Router (Process W) HeaderValue))
    (features : Features) (env : Option (List (Text × Text))) (p : Process W) where
  build_for-lacks :
      (a b : Bool) (mode : GreetingMode) (store : CounterStoreConfig)
      → enabled (record { memory_store = a; postgres_store = b }) store ≡ false
      → (e : Text) × (build_for driver checks a b mode store p ≡ (err e, p))
  build_for-lacks true false mode memory h = absurd (cc)
  build_for-lacks true true mode memory h = absurd (cc)
  build_for-lacks false true mode memory h = (_, refl)
  build_for-lacks false false mode memory h = (_, refl)
  build_for-lacks true false mode (postgres url) h = (_, refl)
  build_for-lacks false true mode (postgres url) h = absurd (cc)
  build_for-lacks true true mode (postgres url) h = absurd (cc)
  build_for-lacks false false mode (postgres url) h = (_, refl)

  -- All that has to succeed before requests are served.
  pub record Serves : Type 0 where
    pub config : AppConfig
    pub service : HelloWorldService (Process W)
    pub router : Router (Process W) HeaderValue
    pub address : Address
    pub listener : Listener
    pub configured : from_env env ≡ ok config
    pub built : (build_service driver checks features config p).0 ≡ ok service
    pub routed : build_router axum {E = Text} service config.server_label ≡ ok router
    pub addressed :
        network.parse_address (config.host ++ (codes ":" ++ display config.port)) ≡ ok address
    pub bound :
        (network.bind address (build_service driver checks features config p).1).0 ≡ ok listener
    pub served :
        main driver checks axum network features env p
        ≡ network.run listener router (
            network.info
              (codes "listening on " ++ network.display_address address)
              (network.bind address (build_service driver checks features config p).1).1)

  -- If `main` ends well, it served: the environment was accepted, the configured store set up, the
  -- router built with the configured label, and the configured address bound, in this order.
  pub main-ok : (main driver checks axum network features env p).0 ≡ ok tt → Serves
  unfolding main
  main-ok e =
      let (config, c, e₁) = >>=-eq-ok (lift (from_env env)) _ p e in
      let (service, s, e₂) = >>=-eq-ok (build_service driver checks features config) _ p e₁ in
      let p' = (build_service driver checks features config p).1 in
      let (router, r, e₃) =
        >>=-eq-ok (lift (build_router axum service config.server_label)) _ p' e₂ in
      let (address, a, e₄) =
        >>=-eq-ok (lift (network.parse_address (config.host ++ (codes ":" ++ display config.port))))
          _ p' e₃ in
      let (listener, b, _) = >>=-eq-ok (network.bind address) _ p' e₄ in
      record {
        config = config;
        service = service;
        router = router;
        address = address;
        listener = listener;
        configured = c;
        built = s;
        routed = r;
        addressed = a;
        bound = b;
        served =
            >>=-run (lift (from_env env)) _ p c
            ∙ >>=-run (build_service driver checks features config) _ p s
            ∙ >>=-run (lift (build_router axum service config.server_label)) _ p' r
            ∙ >>=-run
                (lift (network.parse_address (config.host ++ (codes ":" ++ display config.port)))) _
                p' a
            ∙ >>=-run (network.bind address) _ p' b;
      }

  -- An environment that is rejected, or that asks for a store which the binary does not have, ends
  -- the server with an error before anything is touched: no database, no listener.
  pub main_refuses :
      ((e : Text) × (from_env env ≡ err e))
        ⊎ ((config : AppConfig) × (from_env env ≡ ok config)
            × (enabled features config.counter_store ≡ false))
      → (e : Text) × (main driver checks axum network features env p ≡ (err e, p))
  unfolding main build_service
  main_refuses (inl (e, rejected)) = (e, rw rejected)
  main_refuses (inr (config, accepted, lacks)) =
      let (e, stopped) =
        build_for-lacks features.memory_store features.postgres_store config.greeting_mode
          config.counter_store lacks in
      (e, rw accepted (rw stopped))
