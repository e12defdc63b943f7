-- ===== src/Client/ClientTests.antt =====
-- crates/client-rust/src/lib.rs: its tests, against a server with a fixed response for each path, and
-- run on a host that remembers what it serves.
use yral_onboarding_hello_wo.Prelude.{
  ◌≡◌, ◌++◌, ◌==◌, refl, Bool, true, false, ◌&&◌, leb, ltb, if◌then◌else◌, List, [], ◌∷◌, Option,
  none, some, ℕ, Text, codes, text_eq, Outcome, ok, err, Program, or_panic, or_panic_err, expect_ok,
  assert, assert_eq, modify, ◌>>=◌, ◌>>◌, lift, return,
}
use yral_onboarding_hello_wo.Http.Framework.{Axum}
use yral_onboarding_hello_wo.Http.Sample.{Page, sample_axum, unrender}
use yral_onboarding_hello_wo.Client.{
  Web, ClientError, invalid_base_url, request, unexpected_status, new_client, with_slash,
  ends_with_slash, trim_end_slashes, hello, health, endpoint, parse_text_response,
  parse_json_response, unexpected, error_status,
}

-- The routes of a server, each with the response of its `GET`.
abbrev pub Pages : Type 0 → Type 0
Pages Response = List (Text × Response)

-- What `spawn_app` calls of `tokio` and `axum`.
pub record PageHost (W Response Listener : Type 0) : Type 0 where
  pub bind_any : Program W Text Listener
  pub local_addr : Listener → Program W Text Text
  pub serve : Listener → Pages Response → W → W

-- `.expect_err(…)` on what a program returns.
abbrev expect_err : {W E E' A : Type 0} → Program W E A → Program W E' E
expect_err m w = let (r, w') = m w in (or_panic_err r, w')

abbrev is_invalid_base_url : {A B : Type 0} → ClientError A B → Bool
is_invalid_base_url (invalid_base_url e) = true
is_invalid_base_url (request e) = false
is_invalid_base_url (unexpected_status status body) = false

abbrev is_status : Option ℕ → ℕ → Bool
is_status none n = false
is_status (some m) n = m == n

module _ {W Url ParseError Response ReqwestError HeaderValue Listener : Type 0}
    (web : Web W Url ParseError Response ReqwestError) (axum : Axum Response HeaderValue)
    (host : PageHost W Response Listener) where
  abbrev Test : Type 0
  Test = Program W Text (Unit {0})

  pub spawn_app : Pages Response → Program W Text Text
  spawn_app app = do
    listener ← expect_ok host.bind_any
    address ← expect_ok (host.local_addr listener)
    modify (host.serve listener app)
    return address

  pub invalid_base_url_is_rejected : Test
  invalid_base_url_is_rejected = do
    error ← lift (or_panic_err (new_client web (codes "not a valid url")))
    assert (is_invalid_base_url error)

  pub hello_and_health_work_without_trailing_slash : Test
  hello_and_health_work_without_trailing_slash = do
    address ← spawn_app (
        (codes "/", axum.text_response (codes "Hello World"))
        ∷ (
          codes "/health",
          axum.json_response (record { status = codes "ok"; storage = codes "memory" }),
        )
        ∷ [])
    client ← lift (or_panic (new_client web (codes "http://" ++ address)))
    greeting ← expect_ok (hello web client)
    report ← expect_ok (health web client)
    assert_eq greeting (codes "Hello World")
    assert_eq report.storage (codes "memory")

  pub error_status_is_preserved : Test
  error_status_is_preserved = do
    address ←
        spawn_app
          ((codes "/", axum.with_status 503 (axum.text_response (codes "unavailable"))) ∷ [])
    client ← lift (or_panic (new_client web (codes "http://" ++ address)))
    error ← expect_err (hello web client)
    assert (is_status (error_status web error) 503)

-- An address is the text of its path; what is served is the state.
abbrev find_page : Text → Pages Page → Option Page
find_page path [] = none
find_page path ((p, r) ∷ pages) = if text_eq p path then some r else find_page path pages

abbrev local : PageHost (Pages Page) Page (Unit {0})
local = record {
  bind_any = return tt;
  local_addr = λ listener. return (codes "127.0.0.1:4000");
  serve = λ listener app w. app;
}

abbrev wire : Web (Pages Page) Text Text Page (Unit {0})
wire = record {
  parse = λ t.
      if text_eq t (codes "http://127.0.0.1:4000")
      then ok (codes "/")
      else err (codes "relative URL without a base");
  path = λ url. url;
  set_path = λ path url. path;
  join = λ url path. ok (url ++ path);
  send = λ url w. elim (find_page url w) [ none ↦ (err tt, w) | some r ↦ (ok r, w) ];
  status = λ r. r.status;
  is_success = λ s. leb 200 s && ltb s 300;
  text = λ r w. (ok r.body, w);
  json = λ r w. (ok (unrender r.body), w);
  error_status = λ e. none;
}

abbrev result : Program (Pages Page) Text (Unit {0}) → Outcome Text (Unit {0})
result test = (test []).0

client_passes :
    (result (invalid_base_url_is_rejected wire sample_axum local) ≡ ok tt)
    × (result (hello_and_health_work_without_trailing_slash wire sample_axum local) ≡ ok tt)
    × (result (error_status_is_preserved wire sample_axum local) ≡ ok tt)
unfolding invalid_base_url_is_rejected hello_and_health_work_without_trailing_slash
    error_status_is_preserved spawn_app new_client with_slash ends_with_slash trim_end_slashes hello
    health endpoint parse_text_response parse_json_response unexpected error_status text_eq
client_passes = (refl, refl, refl)
