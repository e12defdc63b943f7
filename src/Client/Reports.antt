-- ===== src/Client/Reports.antt =====
-- The client against the router of crates/adapter-http-axum, for the plain greeting and for the
-- health report.
use yral_onboarding_hello_wo.Prelude.{
  ◌≡◌, refl, ap, sym, ◌∙◌, none, some, Option, Option-cases, inl, inr, Text, codes, Outcome, true,
  ok, err, panicked,
}
use yral_onboarding_hello_wo.Domain.{HealthResponse}
use yral_onboarding_hello_wo.Application.{CounterStore, CounterStoreError, GreetingMode, plain}
use yral_onboarding_hello_wo.Http.{Router, build_router, serve}
use yral_onboarding_hello_wo.Http.Framework.{Axum, IsAxum}
use yral_onboarding_hello_wo.Http.Answers.{see, health_answer, health_answers}
use yral_onboarding_hello_wo.Http.Plain.{root_plain_answers}
use yral_onboarding_hello_wo.Client.{
  Web, ClientError, request, unexpected_status, HelloWorldClient, hello, health, endpoint,
  parse_json_response, unexpected,
}
use yral_onboarding_hello_wo.Client.Wire.{
  received, IsConnected, seen_status, seen_body, parse_text_response-good, hello-parse,
}

module _ {ParseError ReqwestError : Type 0} (closed : ReqwestError) (storage : Text) where
  -- What the caller gets, by what the store answered to the health check.
  abbrev pub reported :
      Outcome CounterStoreError (Unit {0})
      → Outcome (ClientError ParseError ReqwestError) HealthResponse
  reported (ok u) = ok (record { status = codes "ok"; storage = storage })
  reported (err e) = err (unexpected_status 503 (codes "counter store unavailable"))
  reported panicked = err (request closed)

module _ {W Url ParseError Response ReqwestError HeaderValue : Type 0}
    {web : Web W Url ParseError Response ReqwestError} {axum : Axum Response HeaderValue}
    {router : Router W HeaderValue} {closed : ReqwestError} {Open : Url → W → Type 0}
    (connected : IsConnected web axum router closed Open) where
  open connected use {sends, status, reads, decodes, success_200, success_503}

  health-parse :
      (client : HelloWorldClient Url) (url : Url) (w w' : W) (r : Response)
      → Open url w
      → web.join client.base_url (codes "health") ≡ ok url
      → serve axum router (codes "GET") (web.path url) w ≡ (some r, w')
      → health web client w ≡ parse_json_response web r w'
  unfolding health endpoint
  health-parse client url w w' r reached joined served =
      let sent : web.send url w ≡ (ok r, w') = sends url w reached ∙ ap (received closed) served in
      rw (joined, sent) refl

  health-closed :
      (client : HelloWorldClient Url) (url : Url) (w w' : W)
      → Open url w
      → web.join client.base_url (codes "health") ≡ ok url
      → serve axum router (codes "GET") (web.path url) w ≡ (none, w')
      → health web client w ≡ (err (request closed), w')
  unfolding health endpoint
  health-closed client url w w' reached joined served =
      let sent : web.send url w ≡ (err closed, w') =
        sends url w reached ∙ ap (received closed) served in
      rw (joined, sent) refl

  parse_json_response-reported :
      (label : Option HeaderValue) (storage : Text) (r : Response) (w : W)
      (given : Outcome CounterStoreError (Unit {0}))
      → some (see axum r)
        ≡ health_answer label
            (axum.body (axum.json_response (record { status = codes "ok"; storage = storage })))
            given
      → parse_json_response web r w ≡ (reported closed storage given, w)
  unfolding parse_json_response unexpected
  parse_json_response-reported label storage r w (ok u) h =
      let good : web.is_success (web.status r) ≡ true =
        ap web.is_success (status r ∙ ap seen_status h) ∙ success_200 in
      rw (good, decodes r _ w (ap seen_body h)) refl
  parse_json_response-reported label storage r w (err e) h =
      let is_503 = status r ∙ ap seen_status h in
      rw (is_503, success_503, reads r w, ap seen_body h) refl
  parse_json_response-reported label storage r w panicked h = absurd (cc)

  unreported-panicked :
      (label : Option HeaderValue) (body : Text) (given : Outcome CounterStoreError (Unit {0}))
      → none ≡ health_answer label body given
      → given ≡ panicked
  unreported-panicked label body (ok u) h = absurd (cc)
  unreported-panicked label body (err e) h = absurd (cc)
  unreported-panicked label body panicked h = refl

  -- Over a network that brings requests and responses over unchanged, and a web framework that behaves
  -- as documented, a call of the client for the health report, joined to the path `/health` of a
  -- router that was built in either mode and that the address leads to, returns the status `ok` with
  -- the name of the store if the store is healthy; it is the error with status 503 if the store is unavailable, and a
  -- failed request if the store panics. The state is the one that the store leaves.
  pub health-reported :
      (laws : IsAxum axum) (mode : GreetingMode) (store : CounterStore W) (label : Text)
      (client : HelloWorldClient Url) (url : Url) (w : W)
      → Open url w
      → build_router axum {E = Text} (record { mode = mode; counter_store = store }) label
        ≡ ok router
      → web.join client.base_url (codes "health") ≡ ok url
      → web.path url ≡ codes "/health"
      → health web client w
        ≡ (reported closed store.storage_name (store.health w).0, (store.health w).1)
  health-reported laws mode store label client url w reached built joined path =
      let (answer, state) = health_answers laws store mode label router w built in
      elim (Option-cases (serve axum router (codes "GET") (codes "/health") w).0) [
        | inl silent ↦
            let gave = unreported-panicked _ _ (store.health w).0 (rw silent at answer) in
            let served : serve axum router (codes "GET") (web.path url) w
                ≡ (none, (store.health w).1) =
              rw path (λ i. (silent i, state i)) in
            health-closed client url w _ reached joined served
            ∙ ap (λ g. (reported closed store.storage_name g, (store.health w).1)) (sym gave)
        | inr (r, answered) ↦
            let served : serve axum router (codes "GET") (web.path url) w
                ≡ (some r, (store.health w).1) =
              rw path (λ i. (answered i, state i)) in
            health-parse client url w _ r reached joined served
            ∙ parse_json_response-reported _ store.storage_name r _ (store.health w).0
                (rw answered at answer)
      ]

  pub hello-plain :
      (laws : IsAxum axum) (store : CounterStore W) (label : Text) (client : HelloWorldClient Url)
      (url : Url) (w : W)
      → Open url w
      → build_router axum {E = Text} (record { mode = plain; counter_store = store }) label
        ≡ ok router
      → web.join client.base_url (codes "") ≡ ok url
      → web.path url ≡ codes "/"
      → hello web client w ≡ (ok (codes "Hello World"), w)
  hello-plain laws store label client url w reached built joined root =
      let (answer, state) = root_plain_answers laws store label router w built in
      elim (Option-cases (serve axum router (codes "GET") (codes "/") w).0) [
        | inl silent ↦ absurd (cc (rw silent at answer))
        | inr (r, answered) ↦
            let seen = rw answered at answer in
            let served : serve axum router (codes "GET") (web.path url) w ≡ (some r, w) =
              rw root (λ i. (answered i, state i)) in
            hello-parse connected client url w _ r reached joined served
            ∙ parse_text_response-good connected r w (ap seen_status seen)
            ∙ ap (λ b. (ok b, w)) (ap seen_body seen)
      ]
