-- ===== src/Client.antt =====
-- crates/client-rust: the HTTP client. The crates `url` and `reqwest` are the parameter `Web`.
pub mod BaseUrl
pub mod Responses
pub mod Failures
pub mod Wire
pub mod Reports
pub mod ClientTests
mod Tests
mod WireTests
use yral_onboarding_hello_wo.Prelude.{
  ℕ, ◌++◌, [], ◌∷◌, Bool, false, ◌==◌, if◌then◌else◌, Option, none, some, Text, codes, Outcome, ok,
  err, panicked, map_err, Program, ◌>>=◌, lift, return, throw, rethrow,
}
use yral_onboarding_hello_wo.Domain.{HealthResponse}

-- What the client calls of `url` and `reqwest`. A status code is its number.
pub record Web (W Url ParseError Response ReqwestError : Type 0) : Type 0 where
  pub parse : Text → Outcome ParseError Url
  pub path : Url → Text
  pub set_path : Text → Url → Url
  pub join : Url → Text → Outcome ParseError Url
  -- `http_client.get(url).send()`.
  pub send : Url → Program W ReqwestError Response
  pub status : Response → ℕ
  pub is_success : ℕ → Bool
  pub text : Response → Program W ReqwestError Text
  -- `response.json::<HealthResponse>()`.
  pub json : Response → Program W ReqwestError HealthResponse
  pub error_status : ReqwestError → Option ℕ

pub data ClientError (ParseError ReqwestError : Type 0) : Type 0 where
  invalid_base_url : ParseError → ClientError ParseError ReqwestError
  request : ReqwestError → ClientError ParseError ReqwestError
  unexpected_status : ℕ → Text → ClientError ParseError ReqwestError

-- `ends_with('/')` and `trim_end_matches('/')` of `str`.
pub ends_with_slash : Text → Bool
ends_with_slash [] = false
ends_with_slash (c ∷ []) = c == b'/'
ends_with_slash (c ∷ d ∷ s) = ends_with_slash (d ∷ s)

abbrev keep_last : ℕ → Text → Text
keep_last c [] = if c == b'/' then [] else c ∷ []
keep_last c (d ∷ s) = c ∷ d ∷ s

pub trim_end_slashes : Text → Text
trim_end_slashes [] = []
trim_end_slashes (c ∷ s) = keep_last c (trim_end_slashes s)

-- The `reqwest::Client` beside the address holds no state that the program reads.
pub record HelloWorldClient (Url : Type 0) : Type 0 where
  pub base_url : Url

module _ {W Url ParseError Response ReqwestError : Type 0}
    (web : Web W Url ParseError Response ReqwestError) where
  abbrev pub Error : Type 0
  Error = ClientError ParseError ReqwestError

  pub error_status : Error → Option ℕ
  error_status (invalid_base_url e) = none
  error_status (request e) = web.error_status e
  error_status (unexpected_status status body) = some status

  -- The address with a path that ends in a slash.
  pub with_slash : Url → Url
  with_slash base_url =
      if ends_with_slash (web.path base_url)
      then base_url
      else web.set_path (trim_end_slashes (web.path base_url) ++ codes "/") base_url

  pub new_client : Text → Outcome Error (HelloWorldClient Url)
  new_client base_url = elim (web.parse base_url) [
    | ok url ↦ ok (record { base_url = with_slash url })
    | err e ↦ err (invalid_base_url e)
    | panicked ↦ panicked
  ]

  pub endpoint : HelloWorldClient Url → Text → Outcome Error Url
  endpoint client path = map_err invalid_base_url (web.join client.base_url path)

  -- `response.text().await.unwrap_or_default()`.
  abbrev pub text_or_default : Response → Program W Error Text
  text_or_default response w =
      let (r, w') = web.text response w in
      (elim r [ ok t ↦ ok t | err _ ↦ ok [] | panicked ↦ panicked ], w')

  pub unexpected : {T : Type 0} → Response → Program W Error T
  unexpected response = do
    body ← text_or_default response
    throw (unexpected_status (web.status response) body)

  pub parse_json_response : Response → Program W Error HealthResponse
  parse_json_response response =
      if web.is_success (web.status response)
      then rethrow request (web.json response)
      else unexpected response

  pub parse_text_response : Response → Program W Error Text
  parse_text_response response =
      if web.is_success (web.status response)
      then rethrow request (web.text response)
      else unexpected response

  pub hello : HelloWorldClient Url → Program W Error Text
  hello client = do
    url ← lift (endpoint client (codes ""))
    response ← rethrow request (web.send url)
    parse_text_response response

  pub health : HelloWorldClient Url → Program W Error HealthResponse
  health client = do
    url ← lift (endpoint client (codes "health"))
    response ← rethrow request (web.send url)
    parse_json_response response
