-- ===== src/Server/Startup.antt =====
-- The server from its configuration to the greetings that it sends.
use yral_onboarding_hello_wo.Prelude.{
  ℕ, ◌<◌, ◌≡◌, sym, ap, ◌∙◌, Bool, List, map, length, Text, ok, arith,
}
use yral_onboarding_hello_wo.Domain.{u64_mod}
use yral_onboarding_hello_wo.Application.{counter, HelloWorldService}
use yral_onboarding_hello_wo.Application.Contract.{Call}
use yral_onboarding_hello_wo.Memory.{memory_store}
use yral_onboarding_hello_wo.Memory.Numbering.{
  memory_store-IsCounter, consecutive, visits-consecutive,
}
use yral_onboarding_hello_wo.Postgres.{Driver}
use yral_onboarding_hello_wo.Postgres.Database.{IsDatabase, postgres_store-IsCounter}
use yral_onboarding_hello_wo.Config.{AppConfig, CounterStoreConfig, memory, postgres}
use yral_onboarding_hello_wo.Http.{Router, build_router}
use yral_onboarding_hello_wo.Http.Framework.{Axum, IsAxum}
use yral_onboarding_hello_wo.Http.Bodies.{
  greet, root_bodies, root_bodies-visits, root_bodies-Distinct, Distinct,
}
use yral_onboarding_hello_wo.Server.Zoom.{
  counter_store_of-IsCounter, world_store_of-IsCounter, visits_zoom,
}
use yral_onboarding_hello_wo.Server.{Features, build_service}
use yral_onboarding_hello_wo.Server.State.{Process, counter_store_of}
use yral_onboarding_hello_wo.Server.Selection.{service_for, set_up, build_service-ok_iff}

-- How many requests a configured store is ready for when it is set up.
abbrev pub Room : CounterStoreConfig → ℕ → Type 0
Room memory k = k < u64_mod
Room (postgres url) k = Unit

module _ {W Client Connection Row Failure Response HeaderValue : Type 0}
    (driver : Driver W Client Connection Row Failure) {axum : Axum Response HeaderValue}
    (laws : IsAxum axum) (checks : Bool) (label : Text) where
  -- Memory: the bodies are the greetings of one, two, three, ….
  memory_bodies :
      (p : Process W) (router : Router (Process W) HeaderValue)
      → build_router axum {E = Text} (service_for driver checks counter memory) label ≡ ok router
      → (calls : List Call) → length calls < u64_mod
      → root_bodies axum router calls (set_up driver checks memory p)
        ≡ map greet (consecutive 0 calls)
  memory_bodies p router routed calls fits =
      root_bodies-visits laws (counter_store_of (memory_store checks)) label router routed calls _
      ∙ ap (map greet) (visits_zoom (memory_store checks) calls (set_up driver checks memory p))
      ∙ ap (map greet) (visits-consecutive checks 0 calls (omega arith))

  configured_bodies-Distinct :
      (stored : W → ℕ)
      → IsDatabase driver stored
      → (store : CounterStoreConfig) (p : Process W) (router : Router (Process W) HeaderValue)
      → build_router axum {E = Text} (service_for driver checks counter store) label ≡ ok router
      → (calls : List Call) → Room store (length calls)
      → Distinct (root_bodies axum router calls (set_up driver checks store p))
  configured_bodies-Distinct stored db memory p router routed calls room =
      root_bodies-Distinct laws _ label router routed _ _
        (counter_store_of-IsCounter (memory_store-IsCounter checks)) calls _ (omega arith)
  configured_bodies-Distinct stored db (postgres url) p router routed calls room =
      root_bodies-Distinct laws _ label router routed _ _
        (world_store_of-IsCounter (postgres_store-IsCounter db _)) calls _ tt

module _ {W Client Connection Row Failure Response HeaderValue : Type 0}
    (driver : Driver W Client Connection Row Failure) {axum : Axum Response HeaderValue}
    (laws : IsAxum axum) (checks : Bool) (features : Features) (config : AppConfig)
    (p p' : Process W) (service : HelloWorldService (Process W))
    (router : Router (Process W) HeaderValue) (counting : config.greeting_mode ≡ counter)
    (ready : build_service driver checks features config p ≡ (ok service, p'))
    (routed : build_router axum {E = Text} service config.server_label ≡ ok router) where
  same_service : service ≡ service_for driver checks counter config.counter_store
  same_service =
      rw counting at
        ((build_service-ok_iff driver checks features config p service).0 (ap (λ r. r.0) ready)).1.1

  same_state : p' ≡ set_up driver checks config.counter_store p
  same_state =
      sym (ap (λ r. r.1) ready)
      ∙ ((build_service-ok_iff driver checks features config p service).0 (ap (λ r. r.0) ready)).1.2

  -- A server in counter mode, set up with the configured store, greets no two visitors alike, whatever
  -- requests come and whichever of them fail: with Postgres for any number of requests, if the
  -- database behaves as documented, and with the memory store for fewer than 2 ^ 64. The web framework
  -- is to behave as documented.
  pub server_bodies-Distinct :
      (stored : W → ℕ)
      → IsDatabase driver stored
      → (calls : List Call) → Room config.counter_store (length calls)
      → Distinct (root_bodies axum router calls p')
  server_bodies-Distinct stored db calls room = rw same_state (
      configured_bodies-Distinct driver laws checks config.server_label stored db
        config.counter_store p router (rw same_service at routed) calls room)

  -- A server in counter mode with a memory store greets its visitors with the numbers from one on,
  -- none left out, and health checks between the visits change nothing, for fewer than 2 ^ 64
  -- requests, if the web framework behaves as documented.
  pub server_bodies-consecutive :
      config.counter_store ≡ memory
      → (calls : List Call) → length calls < u64_mod
      → root_bodies axum router calls p' ≡ map greet (consecutive 0 calls)
  server_bodies-consecutive in_memory calls fits =
      rw (same_state, in_memory)
        (memory_bodies driver laws checks config.server_label p router
          (rw in_memory at (rw same_service at routed)) calls fits)
