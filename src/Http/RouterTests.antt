-- ===== src/Http/RouterTests.antt =====
-- crates/adapter-http-axum/src/router.rs: its tests, over any web framework, and run on the sample.
use yral_onboarding_hello_wo.Prelude.{
  ◌≡◌, refl, ◌==◌, Bool, false, none, some, Text, codes, text_eq, Outcome, ok, Program, expect,
  or_panic, assert, assert_eq, ◌>>=◌, ◌>>◌, lift,
}
use yral_onboarding_hello_wo.Domain.{HealthResponse, message}
use yral_onboarding_hello_wo.Application.{plain, hello, health}
use yral_onboarding_hello_wo.Http.{Router, build_router, serve, handle, get_hello, get_health}
use yral_onboarding_hello_wo.Http.Framework.{Axum}
use yral_onboarding_hello_wo.Http.Sample.{sample_axum, unrender}
use yral_onboarding_hello_wo.UnitTests.Service.{fake_service}

-- `from_static` compared with a header value, and `serde_json::from_slice`.
module _ {Response HeaderValue : Type 0} (axum : Axum Response HeaderValue)
    (is_static : HeaderValue → Text → Bool) (from_slice : Text → Outcome Text HealthResponse) where
  abbrev Test : Type 0
  Test = Program (Unit {0}) Text (Unit {0})

  -- `app.oneshot(…)` of a `GET` request; a handler that panics is no response.
  abbrev oneshot : Router (Unit {0}) HeaderValue → Text → Program (Unit {0}) Text Response
  oneshot app uri w = let (r, w') = serve axum app (codes "GET") uri w in (expect r, w')

  abbrev has_header : Text → Text → Response → Bool
  has_header name value response = elim (axum.header name response) [
    | none ↦ false
    | some v ↦ is_static v value
  ]

  pub get_root_returns_hello_response : Test
  get_root_returns_hello_response = do
    app ← lift (build_router axum (fake_service plain 1 (codes "memory")) (codes "server_1"))
    response ← oneshot app (codes "/")
    assert (axum.status response == 200)
    assert (has_header (codes "content-type") (codes "text/plain; charset=utf-8") response)
    assert (has_header (codes "x-served-by") (codes "server_1") response)
    assert_eq (axum.body response) (codes "Hello World")

  pub get_health_returns_health_response : Test
  get_health_returns_health_response = do
    app ← lift (build_router axum (fake_service plain 1 (codes "memory")) (codes "server_2"))
    response ← oneshot app (codes "/health")
    assert (axum.status response == 200)
    assert (has_header (codes "x-served-by") (codes "server_2") response)
    body ← lift (or_panic (from_slice (axum.body response)))
    assert_eq body.status (codes "ok")
    assert_eq body.storage (codes "memory")

routes_pass :
    (get_root_returns_hello_response sample_axum text_eq (λ t. ok (unrender t)) tt ≡ (ok tt, tt))
    × (get_health_returns_health_response sample_axum text_eq (λ t. ok (unrender t)) tt
        ≡ (ok tt, tt))
unfolding get_root_returns_hello_response get_health_returns_health_response build_router serve
    hello health message text_eq handle get_hello get_health
routes_pass = (refl, refl)
