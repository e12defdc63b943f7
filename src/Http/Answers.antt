-- ===== src/Http/Answers.antt =====
-- What a client sees of each answer, on every branch.
use yral_onboarding_hello_wo.Prelude.{
  ℕ, ◌≡◌, refl, ap, ◌∙◌, ◌==◌, if◌then◌else◌, inl, inr, none, some, [], ◌∷◌, Option, Option-cases,
  Text, codes, text_eq, Outcome, Outcome-cases, Bool-cases, ok, err, panicked, arith,
}
use mathlib.Core.Option
use yral_onboarding_hello_wo.Domain.{HealthResponse, message, numbered, new_visitor_count}
use yral_onboarding_hello_wo.Application.{
  CounterStore, CounterStoreError, GreetingMode, counter, HelloWorldService, hello, health,
}
use yral_onboarding_hello_wo.Application.Service.{hello_counter_state}
use yral_onboarding_hello_wo.Http.{
  x_served_by, Router, build_router, serve, handle, get_hello, get_health, error_response,
}
use yral_onboarding_hello_wo.Http.Framework.{Axum, IsAxum, hello_endpoint, health_endpoint, Headers}

-- The parts of a response that the adapter decides.
pub record Seen (HeaderValue : Type 0) : Type 0 where
  pub status : ℕ
  pub served_by : Option HeaderValue
  pub body : Text

module _ {HeaderValue : Type 0} where
  -- The answer to `GET /` in counter mode, by what the store returned.
  abbrev pub root_answer :
      Option HeaderValue → Outcome CounterStoreError ℕ → Option (Seen HeaderValue)
  root_answer label (ok n) =
      if n == 0
      then some (record { status = 500; served_by = none; body = codes "invalid greeting state" })
      else some (record {
        status = 200;
        served_by = label;
        body = message (numbered (record { value = n }));
      })
  root_answer label (err e) =
      some (record { status = 503; served_by = none; body = codes "counter store unavailable" })
  root_answer label panicked = none

  -- The answer to `GET /health`, by what the store returned; `report` renders the health report.
  abbrev pub health_answer :
      Option HeaderValue → Text → Outcome CounterStoreError (Unit {0}) → Option (Seen HeaderValue)
  health_answer label report (ok u) =
      some (record { status = 200; served_by = label; body = report })
  health_answer label report (err e) =
      some (record { status = 503; served_by = none; body = codes "counter store unavailable" })
  health_answer label report panicked = none

module _ {Response HeaderValue : Type 0} (axum : Axum Response HeaderValue) where
  abbrev pub see : Response → Seen HeaderValue
  see r = record {
    status = axum.status r;
    served_by = axum.header x_served_by r;
    body = axum.body r;
  }

  -- A router that is built has the two routes, and its label is the header value of the text.
  pub build_router-eq-ok :
      {W : Type 0} (service : HelloWorldService W) (label : Text) (router : Router W HeaderValue)
      → build_router axum {E = Text} service label ≡ ok router
      → (v : HeaderValue) × (axum.from_str label ≡ some v)
        × (router ≡ record {
          routes = (codes "/", hello_endpoint) ∷ (codes "/health", health_endpoint) ∷ [];
          state = record { service = service; server_label = v };
        })
  unfolding build_router
  build_router-eq-ok service label router h = elim (Option-cases (axum.from_str label)) [
    | inl missing ↦ absurd (ground arith)
    | inr (v, found) ↦ (v, found, ground arith)
  ]

module _ {Response HeaderValue : Type 0} {axum : Axum Response HeaderValue}
    (laws : IsAxum axum) where
  see_error :
      (n : ℕ) (t : Text)
      → see axum (axum.with_status n (axum.text_response t))
        ≡ record { status = n; served_by = none; body = t }
  see_error n t = λ i. record {
    status = laws.with_status_status n (axum.text_response t) i;
    served_by =
        (laws.with_status_header n x_served_by (axum.text_response t) ∙ laws.text_header t) i;
    body = (laws.with_status_body n (axum.text_response t) ∙ laws.text_body t) i;
  }

  pub see_text :
      (v : HeaderValue) (t : Text)
      → see axum (axum.with_headers ((x_served_by, v) ∷ []) (axum.text_response t))
        ≡ record { status = 200; served_by = some v; body = t }
  see_text v t =
      let hs : Headers HeaderValue = (x_served_by, v) ∷ [] in
      λ i. record {
        status = (laws.with_headers_status hs (axum.text_response t) ∙ laws.text_status t) i;
        served_by = laws.with_headers_header x_served_by v (axum.text_response t) i;
        body = (laws.with_headers_body hs (axum.text_response t) ∙ laws.text_body t) i;
      }

  see_json :
      (v : HeaderValue) (h : HealthResponse)
      → see axum (axum.with_headers ((x_served_by, v) ∷ []) (axum.json_response h))
        ≡ record { status = 200; served_by = some v; body = axum.body (axum.json_response h) }
  see_json v h =
      let hs : Headers HeaderValue = (x_served_by, v) ∷ [] in
      λ i. record {
        status = (laws.with_headers_status hs (axum.json_response h) ∙ laws.json_status h) i;
        served_by = laws.with_headers_header x_served_by v (axum.json_response h) i;
        body = laws.with_headers_body hs (axum.json_response h) i;
      }

  module _ {W : Type 0} (store : CounterStore W) where
    handle_hello :
        (v : HeaderValue) (w : W)
        → Option.map
            (see axum)
            (handle axum hello_endpoint
              (record {
                service = record { mode = counter; counter_store = store };
                server_label = v;
              })
              w).0
          ≡ root_answer (some v) (store.next_visitor_count w).0
    unfolding handle get_hello hello new_visitor_count error_response
    handle_hello v w = elim (Outcome-cases (store.next_visitor_count w).0) [
      | inl (n, p) ↦ elim (Bool-cases (n == 0)) [
        | inl none_left ↦ rw p (rw none_left (ap some (see_error 500 _)))
        | inr more ↦ rw p (rw more (ap some (see_text v _)))
      ]
      | inr (inl (e, p)) ↦ rw p (ap some (see_error 503 _))
      | inr (inr p) ↦ rw p
    ]

    handle-hello_state :
        (mode : GreetingMode) (v : HeaderValue) (w : W)
        → (handle axum hello_endpoint
            (record { service = record { mode = mode; counter_store = store }; server_label = v })
            w).1
          ≡ (hello (record { mode = mode; counter_store = store }) w).1
    unfolding handle get_hello
    handle-hello_state mode v w = ground arith

    handle_health :
        (mode : GreetingMode) (v : HeaderValue) (w : W)
        → Option.map
            (see axum)
            (handle axum health_endpoint
              (record { service = record { mode = mode; counter_store = store }; server_label = v })
              w).0
          ≡ health_answer
              (some v)
              (axum.body
                (axum.json_response (record { status = codes "ok"; storage = store.storage_name })))
              (store.health w).0
    unfolding handle get_health health error_response
    handle_health mode v w = elim (Outcome-cases (store.health w).0) [
      | inl (u, p) ↦ rw p (ap some (see_json v _))
      | inr (inl (e, p)) ↦ rw p (ap some (see_error 503 _))
      | inr (inr p) ↦ rw p
    ]

    handle-health_state :
        (mode : GreetingMode) (v : HeaderValue) (w : W)
        → (handle axum health_endpoint
            (record { service = record { mode = mode; counter_store = store }; server_label = v })
            w).1
          ≡ (store.health w).1
    unfolding handle get_health health
    handle-health_state mode v w = ground arith

    -- The answer to `GET /` of a router that was built in counter mode, if the web framework behaves
    -- as documented, whatever the store returns: the numbered greeting with
    -- the server's label, 500 for the number zero and 503 for a store that is unavailable, both with
    -- no label, and no answer if the store panics. The state is the one that the store leaves.
    pub root_answers :
        (label : Text) (router : Router W HeaderValue) (w : W)
        → build_router axum {E = Text} (record { mode = counter; counter_store = store }) label
          ≡ ok router
        → (Option.map (see axum) (serve axum router (codes "GET") (codes "/") w).0
            ≡ root_answer (axum.from_str label) (store.next_visitor_count w).0)
          × ((serve axum router (codes "GET") (codes "/") w).1 ≡ (store.next_visitor_count w).1)
    unfolding serve text_eq
    root_answers label router w built =
        let (v, found, same) = build_router-eq-ok axum _ label router built in
        let reached =
          laws.dispatch_get ((codes "/", hello_endpoint) ∷ (codes "/health", health_endpoint) ∷ [])
            (codes "/") hello_endpoint refl in
        rw (same, found)
          (rw (reached, serve)
            (handle_hello v w, handle-hello_state counter v w ∙ hello_counter_state store w))

    -- The answer to `GET /health` of a router that was built in either mode, if the web framework
    -- behaves as documented, whatever the store returns: the report with the
    -- server's label, 503 with no label for a store that is unavailable, and no answer if it panics.
    -- The state is the one that the store leaves.
    pub health_answers :
        (mode : GreetingMode) (label : Text) (router : Router W HeaderValue) (w : W)
        → build_router axum {E = Text} (record { mode = mode; counter_store = store }) label
          ≡ ok router
        → (Option.map (see axum) (serve axum router (codes "GET") (codes "/health") w).0
            ≡ health_answer
                (axum.from_str label)
                (axum.body (
                  axum.json_response
                    (record { status = codes "ok"; storage = store.storage_name })))
                (store.health w).0)
          × ((serve axum router (codes "GET") (codes "/health") w).1 ≡ (store.health w).1)
    unfolding serve text_eq
    health_answers mode label router w built =
        let (v, found, same) = build_router-eq-ok axum _ label router built in
        let reached =
          laws.dispatch_get ((codes "/", hello_endpoint) ∷ (codes "/health", health_endpoint) ∷ [])
            (codes "/health") health_endpoint refl in
        rw (same, found)
          (rw (reached, serve) (handle_health mode v w, handle-health_state mode v w))
