-- ===== src/Client/Responses.antt =====
-- What the client's calls return for each response.
use yral_onboarding_hello_wo.Prelude.{
  ◌≡◌, ◌↔◌, inl, inr, true, Text, codes, Outcome-cases, ok, arith,
}
use yral_onboarding_hello_wo.Client.{
  Web, HelloWorldClient, endpoint, unexpected, parse_text_response, hello,
}

module _ {W Url ParseError Response ReqwestError : Type 0}
    (web : Web W Url ParseError Response ReqwestError) (client : HelloWorldClient Url) where
  -- A text is returned exactly if the address of the endpoint is well formed, a response comes, its
  -- status is a success and its body can be read; the text is the body.
  pub hello-ok_iff :
      (w : W) (t : Text)
      → ((hello web client w).0 ≡ ok t) ↔ (
          (url : Url) × (response : Response) × (web.join client.base_url (codes "") ≡ ok url)
          × ((web.send url w).0 ≡ ok response)
          × (web.is_success (web.status response) ≡ true)
          × ((web.text response (web.send url w).1).0 ≡ ok t))
  unfolding hello endpoint parse_text_response unexpected
  hello-ok_iff w t = (to, λ p. ground arith)
    where
      received :
          (url : Url) (response : Response)
          → web.join client.base_url (codes "") ≡ ok url
          → (web.send url w).0 ≡ ok response
          → (hello web client w).0 ≡ ok t
          → (web.is_success (web.status response) ≡ true)
            × ((web.text response (web.send url w).1).0 ≡ ok t)
      received url response joined sent e =
          elim (Outcome-cases (web.text response (web.send url w).1).0) [
            | inl (u, p) ↦ ground arith
            | inr (inl (x, p)) ↦ ground arith
            | inr (inr p) ↦ ground arith
          ]

      to :
          (hello web client w).0 ≡ ok t
          → (url : Url) × (response : Response) × (web.join client.base_url (codes "") ≡ ok url)
            × ((web.send url w).0 ≡ ok response)
            × (web.is_success (web.status response) ≡ true)
            × ((web.text response (web.send url w).1).0 ≡ ok t)
      to e = elim (Outcome-cases (web.join client.base_url (codes ""))) [
        | inl (url, joined) ↦ elim (Outcome-cases (web.send url w).0) [
          | inl (response, sent) ↦
              let (success, read) = received url response joined sent e in
              (url, response, joined, sent, success, read)
          | inr (inl (x, sent)) ↦ absurd (ground arith)
          | inr (inr sent) ↦ absurd (ground arith)
        ]
        | inr (inl (x, joined)) ↦ absurd (ground arith)
        | inr (inr joined) ↦ absurd (ground arith)
      ]
