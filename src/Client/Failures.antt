-- ===== src/Client/Failures.antt =====
-- All that makes a call of the client fail, and with which error.
use yral_onboarding_hello_wo.Prelude.{
  ◌≡◌, ◌≢◌, ◌↔◌, inl, inr, [], true, false, Bool, Bool-cases, arith, if◌then◌else◌, Text, codes,
  Outcome, Outcome-cases, ok, err, panicked, Program, ◌>>=◌, lift, rethrow,
}
use yral_onboarding_hello_wo.Domain.{HealthResponse}
use yral_onboarding_hello_wo.Client.{
  Web, HelloWorldClient, Error, invalid_base_url, request, unexpected_status, endpoint, unexpected,
  parse_text_response, parse_json_response, hello, health,
}

-- The body of an error response, as far as it can be read.
abbrev pub body_seen : {E : Type 0} → Outcome E Text → Text
body_seen (ok t) = t
body_seen _ = []

module _ {W Url ParseError Response ReqwestError : Type 0}
    (web : Web W Url ParseError Response ReqwestError) (client : HelloWorldClient Url) where
  -- A response comes for the path, with a status that is a success or not.
  pub record Responds (path : Text) (w : W) (good : Bool) : Type 0 where
    pub url : Url
    pub response : Response
    pub joined : web.join client.base_url path ≡ ok url
    pub sent : (web.send url w).0 ≡ ok response
    pub status : web.is_success (web.status response) ≡ good

  module _ {A : Type 0} (read : Response → Program W ReqwestError A) (path : Text) (w : W) where
    pub data Fails (e : Error web) : Type 0 where
      -- The address of the endpoint is not well formed.
      unjoined :
          (x : ParseError)
          → web.join client.base_url path ≡ err x
          → e ≡ invalid_base_url x
          → Fails e
      -- No response comes.
      unsent :
          (url : Url) (x : ReqwestError)
          → web.join client.base_url path ≡ ok url
          → (web.send url w).0 ≡ err x
          → e ≡ request x
          → Fails e
      -- The body of a good response cannot be read as the result.
      unread :
          (r : Responds path w true) (x : ReqwestError)
          → (read r.response (web.send r.url w).1).0 ≡ err x
          → e ≡ request x
          → Fails e
      -- Another status, which is kept with the body, empty where reading it fails.
      refused :
          (r : Responds path w false)
          → (web.text r.response (web.send r.url w).1).0 ≢ panicked
          → e
            ≡ unexpected_status
                (web.status r.response)
                (body_seen (web.text r.response (web.send r.url w).1).0)
          → Fails e

    -- What the two calls have in common.
    abbrev parse : Response → Program W (Error web) A
    parse response =
        if web.is_success (web.status response)
        then rethrow request (read response)
        else unexpected web response

    abbrev call : Program W (Error web) A
    call = do
      url ← lift (endpoint web client path)
      response ← rethrow request (web.send url)
      parse response

    call-Fails : (e : Error web) → (call w).0 ≡ err e → Fails e
    unfolding endpoint unexpected
    call-Fails e h = elim (Outcome-cases (web.join client.base_url path)) [
      | inl (url, joined) ↦ elim (Outcome-cases (web.send url w).0) [
        | inl (response, sent) ↦ elim (Bool-cases (web.is_success (web.status response))) [
          | inl good ↦
              let r : Responds path w true = record {
                url = url;
                response = response;
                joined = joined;
                sent = sent;
                status = good;
              } in
              elim (Outcome-cases (read response (web.send url w).1).0) [
                | inl (a, p) ↦ absurd (ground arith)
                | inr (inl (x, p)) ↦ unread r x p (ground arith)
                | inr (inr p) ↦ absurd (ground arith)
              ]
          | inr bad ↦
              let r : Responds path w false = record {
                url = url;
                response = response;
                joined = joined;
                sent = sent;
                status = bad;
              } in
              elim (Outcome-cases (web.text response (web.send url w).1).0) [
                | inl (t, p) ↦ refused r (λ q. ground arith) (ground arith)
                | inr (inl (x, p)) ↦ refused r (λ q. ground arith) (ground arith)
                | inr (inr p) ↦ absurd (ground arith)
              ]
        ]
        | inr (inl (x, sent)) ↦ unsent url x joined sent (ground arith)
        | inr (inr sent) ↦ absurd (ground arith)
      ]
      | inr (inl (x, joined)) ↦ unjoined x joined (ground arith)
      | inr (inr joined) ↦ absurd (ground arith)
    ]

    Fails-call : (e : Error web) → Fails e → (call w).0 ≡ err e
    unfolding endpoint unexpected
    Fails-call e (unjoined x joined q) = ground arith
    Fails-call e (unsent url x joined sent q) = ground arith
    Fails-call e (unread r x p q) =
        let joined = r.joined in let sent = r.sent in let good = r.status in ground arith
    Fails-call e (refused r readable q) =
        let joined = r.joined in
        let sent = r.sent in
        let bad = r.status in
        elim (Outcome-cases (web.text r.response (web.send r.url w).1).0) [
          | inl (t, p) ↦ ground arith
          | inr (inl (x, p)) ↦ ground arith
          | inr (inr p) ↦ absurd (readable p)
        ]

    call-Responds :
        (a : A)
        → (call w).0 ≡ ok a
        → (r : Responds path w true) × ((read r.response (web.send r.url w).1).0 ≡ ok a)
    unfolding endpoint unexpected
    call-Responds a h = elim (Outcome-cases (web.join client.base_url path)) [
      | inl (url, joined) ↦ elim (Outcome-cases (web.send url w).0) [
        | inl (response, sent) ↦ elim (Bool-cases (web.is_success (web.status response))) [
          | inl good ↦ (
            record { url = url; response = response; joined = joined; sent = sent; status = good },
            elim (Outcome-cases (read response (web.send url w).1).0) [
              | inl (b, p) ↦ ground arith
              | inr (inl (x, p)) ↦ absurd (ground arith)
              | inr (inr p) ↦ absurd (ground arith)
            ],
          )
          | inr bad ↦ elim (Outcome-cases (web.text response (web.send url w).1).0) [
            | inl (t, p) ↦ absurd (ground arith)
            | inr (inl (x, p)) ↦ absurd (ground arith)
            | inr (inr p) ↦ absurd (ground arith)
          ]
        ]
        | inr (inl (x, sent)) ↦ absurd (ground arith)
        | inr (inr sent) ↦ absurd (ground arith)
      ]
      | inr (inl (x, joined)) ↦ absurd (ground arith)
      | inr (inr joined) ↦ absurd (ground arith)
    ]

    Responds-call :
        (a : A) (r : Responds path w true)
        → (read r.response (web.send r.url w).1).0 ≡ ok a
        → (call w).0 ≡ ok a
    unfolding endpoint
    Responds-call a r p =
        let joined = r.joined in let sent = r.sent in let good = r.status in ground arith

  -- The call for the greeting ends with an error exactly in these ways, each with its own error: the
  -- address of the endpoint is not well formed, the request fails, the body of a success cannot be
  -- read, or the status is no success, which the error keeps, with the body, or an empty text where
  -- reading the body fails with an error.
  pub hello-err_iff :
      (w : W) (e : Error web) → ((hello web client w).0 ≡ err e) ↔ Fails web.text (codes "") w e
  unfolding hello parse_text_response
  hello-err_iff w e = (call-Fails web.text (codes "") w e, Fails-call web.text (codes "") w e)

  -- The call for the health report returns a report exactly if the address of the endpoint is well
  -- formed, a response with a success status comes, and its body decodes to the report; it ends with
  -- an error exactly in the ways of the call for the greeting, where decoding takes the place of
  -- reading the body of a success.
  pub health_iff :
      (w : W)
      → ((h : HealthResponse)
          → ((health web client w).0 ≡ ok h) ↔ (
              (r : Responds (codes "health") w true) × ((web.json r.response (web.send r.url w).1).0
                ≡ ok h)))
        × ((e : Error web)
            → ((health web client w).0 ≡ err e) ↔ Fails web.json (codes "health") w e)
  unfolding health parse_json_response
  health_iff w = (
    (λ h. (
      call-Responds web.json (codes "health") w h,
      λ (r, p). Responds-call web.json (codes "health") w h r p,
    )),
    (λ e. (call-Fails web.json (codes "health") w e, Fails-call web.json (codes "health") w e)),
  )
