-- ===== src/Http.antt =====
-- crates/adapter-http-axum: the handlers, the error response and the router. The crates `axum` and
-- `http` are the parameter `Axum`.
pub mod Framework
pub mod Sample
pub mod Answers
pub mod Plain
pub mod Bodies
pub mod RouterTests
mod Tests
use yral_onboarding_hello_wo.Prelude.{
  none, some, [], ◌∷◌, Option, Text, codes, Outcome, ok, err, panicked, Program, ◌>>=◌, return,
  rethrow, expect,
}
use yral_onboarding_hello_wo.Domain.{HealthResponse}
use yral_onboarding_hello_wo.Application.{
  ApplicationError, counter_store, greeting, HelloWorldService, hello, health,
}
use Framework.{Axum, Endpoint, hello_endpoint, health_endpoint, matched, unmatched, Headers, Routes}

abbrev pub x_served_by : Text
x_served_by = codes "x-served-by"

pub record AppState (W HeaderValue : Type 0) : Type 0 where
  pub service : HelloWorldService W
  pub server_label : HeaderValue

-- The tuple struct around the error; `From::from` is its constructor.
pub data AppHttpError : Type 0 where
  app_http_error : ApplicationError → AppHttpError

-- The handlers.
module _ {W HeaderValue : Type 0} where
  pub get_hello : AppState W HeaderValue → Program W AppHttpError (Headers HeaderValue × Text)
  get_hello state = do
    response ← rethrow app_http_error (hello state.service)
    return ((x_served_by, state.server_label) ∷ [], response.message)

  pub get_health :
      AppState W HeaderValue → Program W AppHttpError (Headers HeaderValue × HealthResponse)
  get_health state = do
    response ← rethrow app_http_error (health state.service)
    return ((x_served_by, state.server_label) ∷ [], response)

pub record Router (W HeaderValue : Type 0) : Type 0 where
  pub routes : Routes
  pub state : AppState W HeaderValue

module _ {Response HeaderValue : Type 0} (axum : Axum Response HeaderValue) where
  pub error_response : AppHttpError → Response
  error_response (app_http_error (counter_store e)) =
      axum.with_status 503 (axum.text_response (codes "counter store unavailable"))
  error_response (app_http_error (greeting e)) =
      axum.with_status 500 (axum.text_response (codes "invalid greeting state"))

  -- A label that is no header value is a panic.
  unfoldable pub build_router :
      {W E : Type 0} → HelloWorldService W → Text → Outcome E (Router W HeaderValue)
  build_router service server_label = elim (axum.from_str server_label) [
    | none ↦ panicked
    | some label ↦ ok (record {
      routes = (codes "/", hello_endpoint) ∷ (codes "/health", health_endpoint) ∷ [];
      state = record { service = service; server_label = label };
    })
  ]

  -- `into_response` of a handler's result; a panic leaves no response.
  abbrev pub respond :
      {A : Type 0}
      → (A → Response)
      → Outcome AppHttpError (Headers HeaderValue × A)
      → Option Response
  respond render (ok (headers, body)) = some (axum.with_headers headers (render body))
  respond render (err e) = some (error_response e)
  respond render panicked = none

  pub handle : {W : Type 0} → Endpoint → AppState W HeaderValue → W → Option Response × W
  handle hello_endpoint state w =
      let (r, w') = get_hello state w in (respond axum.text_response r, w')
  handle health_endpoint state w =
      let (r, w') = get_health state w in (respond axum.json_response r, w')

  -- One request to the router.
  unfoldable pub serve : {W : Type 0} → Router W HeaderValue → Text → Text → W → Option Response × W
  serve router method path w = elim (axum.dispatch router.routes method path) [
    | matched endpoint ↦ handle endpoint router.state w
    | unmatched response ↦ (some response, w)
  ]
