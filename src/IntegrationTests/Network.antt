-- ===== src/IntegrationTests/Network.antt =====
-- What the integration tests rely on: an application that is served at an address is reached there, and
-- nothing but the application itself touches the counter of its store.
use yral_onboarding_hello_wo.Prelude.{ℕ, ◌≡◌, ◌++◌, Bool, true, some, Text, codes, ok}
use yral_onboarding_hello_wo.Application.{GreetingMode}
use yral_onboarding_hello_wo.Memory.{memory_store}
use yral_onboarding_hello_wo.Http.{Router, build_router}
use yral_onboarding_hello_wo.Http.Framework.{Axum}
use yral_onboarding_hello_wo.Client.{Web}
use yral_onboarding_hello_wo.Client.Wire.{IsConnected}
use yral_onboarding_hello_wo.Server.State.{Process, counter_store_of}
use yral_onboarding_hello_wo.TestSupport.TestApp.{Host}
use yral_onboarding_hello_wo.IntegrationTests.{Reqwest}

-- The addresses that a test comes to use, by the text of the listener's: behind `http://`, with the
-- path `/`, and joined to the two paths of the client.
pub record Addressed {W Url ParseError Response ReqwestError : Type 0}
    (web : Web W Url ParseError Response ReqwestError) (address : Text) : Type 0 where
  pub base : Url
  pub root : Url
  pub health : Url
  pub parsed : web.parse (codes "http://" ++ address) ≡ ok base
  pub parsed_root : web.parse ((codes "http://" ++ address) ++ codes "/") ≡ ok root
  pub base_path : web.path base ≡ codes "/"
  pub root_path : web.path root ≡ codes "/"
  pub health_path : web.path health ≡ codes "/health"
  pub join_root : web.join base (codes "") ≡ ok root
  pub join_health : web.join base (codes "health") ≡ ok health

pub record IsReached
    {W Url ParseError Response ReqwestError HeaderValue Listener Sender Receiver Handle : Type 0}
    (host : Host (Process W) (Router (Process W) HeaderValue) Listener Sender Receiver Handle)
    (web : Web (Process W) Url ParseError Response ReqwestError)
    (reqwest : Reqwest (Process W) Response ReqwestError) (axum : Axum Response HeaderValue)
    (closed : ReqwestError) (checks : Bool)
    (Reached : Router (Process W) HeaderValue → Url → Process W → Type 0) : Type 0 where
  pub bind_keeps : (p : Process W) → (host.bind_any p).1.counter ≡ p.counter
  pub address_keeps : (l : Listener) (p : Process W) → (host.local_addr l p).1.counter ≡ p.counter
  pub channel_keeps : (p : Process W) → (host.channel p).1.counter ≡ p.counter
  pub serve_keeps :
      (l : Listener) (r : Router (Process W) HeaderValue) (receiver : Receiver) (p : Process W)
      → (host.serve l r receiver p).1.counter ≡ p.counter
  pub addressed :
      (l : Listener) (p : Process W) (address : Text)
      → (host.local_addr l p).0 ≡ ok address
      → Addressed web address
  -- A router over a memory store that is served is reached at the addresses of its listener, as long
  -- as it runs.
  pub serves :
      (l : Listener) (p q : Process W) (address : Text)
      (named : (host.local_addr l p).0 ≡ ok address) (r : Router (Process W) HeaderValue)
      (receiver : Receiver) (mode : GreetingMode) (label : Text)
      → build_router axum {E = Text}
          (record { mode = mode; counter_store = counter_store_of (memory_store checks) })
          label
        ≡ ok r
      → Reached r (addressed l p address named).root (host.serve l r receiver q).1
        × Reached r (addressed l p address named).health (host.serve l r receiver q).1
  pub stays :
      (r : Router (Process W) HeaderValue) (url : Url) (p : Process W) (n : ℕ)
      → Reached r url p
      → Reached r url (record p { counter = n })
  pub connected : (r : Router (Process W) HeaderValue) → IsConnected web axum r closed (Reached r)
  pub gets : (t : Text) (url : Url) → web.parse t ≡ ok url → reqwest.get t ≡ web.send url
  pub reads_header :
      (name t : Text) (v : HeaderValue) (r : Response)
      → axum.from_str t ≡ some v
      → axum.header name r ≡ some v
      → reqwest.has_header name t r ≡ true
