-- ===== src/Http/Framework.antt =====
-- What the adapter uses of `axum` and `http`, and what these crates document of it.
use yral_onboarding_hello_wo.Prelude.{
  ℕ, ◌≡◌, none, some, List, [], ◌∷◌, Option, Text, codes, text_eq, if◌then◌else◌,
}
use yral_onboarding_hello_wo.Domain.{HealthResponse}

-- The two handlers that the router registers with `get`.
pub data Endpoint : Type 0 where
  hello_endpoint health_endpoint : Endpoint

abbrev pub Routes : Type 0
Routes = List (Text × Endpoint)

abbrev pub Headers : Type 0 → Type 0
Headers HeaderValue = List (Text × HeaderValue)

-- What the router makes of a method and a path: a registered handler, or a response of its own.
pub data Dispatch (Response : Type 0) : Type 0 where
  matched : Endpoint → Dispatch Response
  unmatched : Response → Dispatch Response

pub record Axum (Response HeaderValue : Type 0) : Type 0 where
  -- `HeaderValue::from_str`.
  pub from_str : Text → Option HeaderValue
  -- `into_response` of a `String` or a `&str`, and of `Json`.
  pub text_response : Text → Response
  pub json_response : HealthResponse → Response
  -- `into_response` of a pair: its first part changes the response of the second.
  pub with_headers : Headers HeaderValue → Response → Response
  pub with_status : ℕ → Response → Response
  -- Dispatch over the routes that `Router::route` has been given with `get`.
  pub dispatch : Routes → Text → Text → Dispatch Response
  -- What a client sees of a response.
  pub status : Response → ℕ
  pub header : Text → Response → Option HeaderValue
  pub body : Response → Text

abbrev pub find_route : Text → Routes → Option Endpoint
find_route path [] = none
find_route path ((p, e) ∷ routes) = if text_eq p path then some e else find_route path routes

-- The documented behaviour: text and JSON answer 200; a status or a header that is put in front
-- changes that alone; a `GET` of a registered path reaches its handler.
pub record IsAxum {Response HeaderValue : Type 0} (axum : Axum Response HeaderValue) : Type 0 where
  pub text_status : (t : Text) → axum.status (axum.text_response t) ≡ 200
  pub text_body : (t : Text) → axum.body (axum.text_response t) ≡ t
  pub text_header : (t : Text) → axum.header (codes "x-served-by") (axum.text_response t) ≡ none
  pub json_status : (h : HealthResponse) → axum.status (axum.json_response h) ≡ 200
  pub with_status_status : (n : ℕ) (r : Response) → axum.status (axum.with_status n r) ≡ n
  pub with_status_body : (n : ℕ) (r : Response) → axum.body (axum.with_status n r) ≡ axum.body r
  pub with_status_header :
      (n : ℕ) (name : Text) (r : Response)
      → axum.header name (axum.with_status n r) ≡ axum.header name r
  pub with_headers_status :
      (hs : Headers HeaderValue) (r : Response)
      → axum.status (axum.with_headers hs r) ≡ axum.status r
  pub with_headers_body :
      (hs : Headers HeaderValue) (r : Response) → axum.body (axum.with_headers hs r) ≡ axum.body r
  pub with_headers_header :
      (name : Text) (v : HeaderValue) (r : Response)
      → axum.header name (axum.with_headers ((name, v) ∷ []) r) ≡ some v
  pub dispatch_get :
      (routes : Routes) (path : Text) (e : Endpoint)
      → find_route path routes ≡ some e
      → axum.dispatch routes (codes "GET") path ≡ matched e
