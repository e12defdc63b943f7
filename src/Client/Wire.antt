-- ===== src/Client/Wire.antt =====
-- The client of crates/client-rust talking to the router of crates/adapter-http-axum: what a call
-- returns, from the counter store to the caller.
use yral_onboarding_hello_wo.Prelude.{
  ℕ, ◌≡◌, refl, ap, sym, ◌∙◌, ◌==◌, if◌then◌else◌, true, false, none, some, Option, Option-cases,
  inl, inr, Text, codes, Outcome, Bool-cases, ok, err, panicked, arith,
}
use yral_onboarding_hello_wo.Domain.{HealthResponse, message, numbered}
use yral_onboarding_hello_wo.Application.{CounterStore, CounterStoreError, counter}
use yral_onboarding_hello_wo.Http.{Router, build_router, serve}
use yral_onboarding_hello_wo.Http.Framework.{Axum, IsAxum}
use yral_onboarding_hello_wo.Http.Answers.{Seen, see, root_answer, root_answers}
use yral_onboarding_hello_wo.Client.{
  Web, ClientError, request, unexpected_status, HelloWorldClient, hello, endpoint,
  parse_text_response, unexpected,
}

-- What a request brings back: a handler that panics closes the connection, which is the error `closed`.
abbrev pub received :
    {W Response ReqwestError : Type 0}
    → ReqwestError
    → Option Response × W
    → Outcome ReqwestError Response × W
received closed (some r, w) = (ok r, w)
received closed (none, w) = (err closed, w)

-- A network that brings the requests to the router and its responses back as they are, in the states
-- in which the address leads to the router (`Open`); the client's library decodes what the framework
-- renders of a health report, and of the status codes it takes 200 for a success, and 500 and 503 for
-- none.
pub record IsConnected {W Url ParseError Response ReqwestError HeaderValue : Type 0}
    (web : Web W Url ParseError Response ReqwestError) (axum : Axum Response HeaderValue)
    (router : Router W HeaderValue) (closed : ReqwestError) (Open : Url → W → Type 0) : Type 0 where
  pub sends :
      (url : Url) (w : W)
      → Open url w
      → web.send url w ≡ received closed (serve axum router (codes "GET") (web.path url) w)
  pub status : (r : Response) → web.status r ≡ axum.status r
  pub reads : (r : Response) (w : W) → web.text r w ≡ (ok (axum.body r), w)
  pub decodes :
      (r : Response) (h : HealthResponse) (w : W)
      → axum.body r ≡ axum.body (axum.json_response h)
      → web.json r w ≡ (ok h, w)
  pub success_200 : web.is_success 200 ≡ true
  pub success_500 : web.is_success 500 ≡ false
  pub success_503 : web.is_success 503 ≡ false

-- The parts of an answer that the client reads.
abbrev pub seen_status : {HeaderValue : Type 0} → Option (Seen HeaderValue) → ℕ
seen_status none = 0
seen_status (some s) = s.status

abbrev pub seen_body : {HeaderValue : Type 0} → Option (Seen HeaderValue) → Text
seen_body none = codes ""
seen_body (some s) = s.body

module _ {ParseError ReqwestError : Type 0} (closed : ReqwestError) where
  -- What the caller gets, by what the store returned.
  abbrev pub greeted :
      Outcome CounterStoreError ℕ → Outcome (ClientError ParseError ReqwestError) Text
  greeted (ok n) =
      if n == 0
      then err (unexpected_status 500 (codes "invalid greeting state"))
      else ok (message (numbered (record { value = n })))
  greeted (err e) = err (unexpected_status 503 (codes "counter store unavailable"))
  greeted panicked = err (request closed)

module _ {W Url ParseError Response ReqwestError HeaderValue : Type 0}
    {web : Web W Url ParseError Response ReqwestError} {axum : Axum Response HeaderValue}
    {router : Router W HeaderValue} {closed : ReqwestError} {Open : Url → W → Type 0}
    (connected : IsConnected web axum router closed Open) where
  open connected use {sends, status, reads, success_200, success_500, success_503}

  pub parse_text_response-good :
      (r : Response) (w : W)
      → axum.status r ≡ 200
      → parse_text_response web r w ≡ (ok (axum.body r), w)
  unfolding parse_text_response
  parse_text_response-good r w e =
      let good : web.is_success (web.status r) ≡ true =
        ap web.is_success (status r ∙ e) ∙ success_200 in
      rw (good, reads r w)

  pub parse_text_response-bad :
      (r : Response) (w : W) (n : ℕ)
      → axum.status r ≡ n
      → web.is_success n ≡ false
      → parse_text_response web r w ≡ (err (unexpected_status n (axum.body r)), w)
  unfolding parse_text_response unexpected
  parse_text_response-bad r w n e fails =
      let bad : web.is_success (web.status r) ≡ false = ap web.is_success (status r ∙ e) ∙ fails in
      rw (bad, reads r w, status r, e)

  pub hello-parse :
      (client : HelloWorldClient Url) (url : Url) (w w' : W) (r : Response)
      → Open url w
      → web.join client.base_url (codes "") ≡ ok url
      → serve axum router (codes "GET") (web.path url) w ≡ (some r, w')
      → hello web client w ≡ parse_text_response web r w'
  unfolding hello endpoint
  hello-parse client url w w' r reached joined served =
      let sent : web.send url w ≡ (ok r, w') = sends url w reached ∙ ap (received closed) served in
      rw (joined, sent) refl

  pub hello-closed :
      (client : HelloWorldClient Url) (url : Url) (w w' : W)
      → Open url w
      → web.join client.base_url (codes "") ≡ ok url
      → serve axum router (codes "GET") (web.path url) w ≡ (none, w')
      → hello web client w ≡ (err (request closed), w')
  unfolding hello endpoint
  hello-closed client url w w' reached joined served =
      let sent : web.send url w ≡ (err closed, w') =
        sends url w reached ∙ ap (received closed) served in
      rw (joined, sent) refl

  parse-greeted_bad :
      (r : Response) (w : W) (n : ℕ) (t : Text)
      → some (see axum r) ≡ some (record { status = n; served_by = none; body = t })
      → web.is_success n ≡ false
      → parse_text_response web r w ≡ (err (unexpected_status n t), w)
  parse-greeted_bad r w n t h fails =
      parse_text_response-bad r w n (ap seen_status h) fails
      ∙ ap (λ b. (err (unexpected_status n b), w)) (ap seen_body h)

  parse-greeted :
      (label : Option HeaderValue) (r : Response) (w : W) (given : Outcome CounterStoreError ℕ)
      → some (see axum r) ≡ root_answer label given
      → parse_text_response web r w ≡ (greeted closed given, w)
  parse-greeted label r w (ok n) h = elim (Bool-cases (n == 0)) [
    | inl no_number ↦ rw no_number (parse-greeted_bad r w 500 _ (rw no_number at h) success_500)
    | inr number ↦
        let here = rw number at h in
        rw number (
          parse_text_response-good r w (ap seen_status here)
          ∙ ap (λ b. (ok b, w)) (ap seen_body here))
  ]
  parse-greeted label r w (err e) h = parse-greeted_bad r w 503 _ h success_503
  parse-greeted label r w panicked h = absurd (cc)

  unanswered-panicked :
      (label : Option HeaderValue) (given : Outcome CounterStoreError ℕ)
      → none ≡ root_answer label given
      → given ≡ panicked
  unanswered-panicked label (ok n) h = elim (Bool-cases (n == 0)) [
    | inl no_number ↦ absurd (ground arith)
    | inr number ↦ absurd (ground arith)
  ]
  unanswered-panicked label (err e) h = absurd (cc)
  unanswered-panicked label panicked h = refl

  -- Over a network that brings requests and responses over unchanged, and a web framework that behaves
  -- as documented, a call of the client for the greeting, joined to the path `/` of a router that was
  -- built in counter mode and that the address leads to, returns the numbered
  -- greeting of the number that the store gives; it is the error with status 503 if the store is
  -- unavailable, with status 500 for the number zero, and a failed request if the store panics. The
  -- state is the one that the store leaves.
  pub hello-greeted :
      (laws : IsAxum axum) (store : CounterStore W) (label : Text) (client : HelloWorldClient Url)
      (url : Url) (w : W)
      → Open url w
      → build_router axum {E = Text} (record { mode = counter; counter_store = store }) label
        ≡ ok router
      → web.join client.base_url (codes "") ≡ ok url
      → web.path url ≡ codes "/"
      → hello web client w
        ≡ (greeted closed (store.next_visitor_count w).0, (store.next_visitor_count w).1)
  hello-greeted laws store label client url w reached built joined root =
      let (answer, state) = root_answers laws store label router w built in
      elim (Option-cases (serve axum router (codes "GET") (codes "/") w).0) [
        | inl silent ↦
            let gave = unanswered-panicked _ (store.next_visitor_count w).0 (rw silent at answer) in
            let served : serve axum router (codes "GET") (web.path url) w
                ≡ (none, (store.next_visitor_count w).1) =
              rw root (λ i. (silent i, state i)) in
            hello-closed client url w _ reached joined served
            ∙ ap (λ g. (greeted closed g, (store.next_visitor_count w).1)) (sym gave)
        | inr (r, answered) ↦
            let served : serve axum router (codes "GET") (web.path url) w
                ≡ (some r, (store.next_visitor_count w).1) =
              rw root (λ i. (answered i, state i)) in
            hello-parse client url w _ r reached joined served
            ∙ parse-greeted _ r _ (store.next_visitor_count w).0 (rw answered at answer)
      ]
