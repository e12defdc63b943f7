-- ===== src/Client/Tests.antt =====
-- A client of a server that is healthy and refuses greetings, and the theorems at it.
use yral_onboarding_hello_wo.Prelude.{
  ℕ, ◌≡◌, ◌≢◌, ◌↔◌, refl, [], ◌∷◌, ◌++◌, true, ◌&&◌, leb, ltb, ◌==◌, if◌then◌else◌, none, Text,
  codes, Outcome, ok, err, return,
}
use yral_onboarding_hello_wo.Client.{
  Web, HelloWorldClient, Error, unexpected_status, ends_with_slash, new_client, hello, health,
  endpoint, parse_text_response,
}
use yral_onboarding_hello_wo.Client.BaseUrl.{slashed, new_client-path}
use yral_onboarding_hello_wo.Domain.{HealthResponse}
use yral_onboarding_hello_wo.Client.Failures.{Responds, Fails, hello-err_iff, health_iff}
use yral_onboarding_hello_wo.Client.Responses.{hello-ok_iff}

abbrev path_of : Text → Outcome (Unit {0}) Text
path_of [] = err tt
path_of (c ∷ s) = if c == b'/' then ok (c ∷ s) else err tt

-- An address is its path, and a response is its status.
abbrev web : ℕ → Web (Unit {0}) Text (Unit {0}) ℕ (Unit {0})
web answer = record {
  parse = path_of;
  path = λ url. url;
  set_path = λ path url. path;
  join = λ url path. ok (url ++ path);
  send = λ url. return answer;
  status = λ response. response;
  is_success = λ s. leb 200 s && ltb s 300;
  text = λ response. return (codes "Hello World");
  json = λ response. return (record { status = codes "ok"; storage = codes "memory" });
  error_status = λ e. none;
}

abbrev client : HelloWorldClient Text
client = record { base_url = codes "/api/" }

hello_runs : hello (web 200) client tt ≡ (ok (codes "Hello World"), tt)
unfolding hello endpoint parse_text_response
hello_runs = refl

no_path_is_rejected : (new_client (web 200) (codes "not a valid url")) ≢ ok client
unfolding new_client
no_path_is_rejected h = cc

new_client-path_example :
    (c : HelloWorldClient Text) × (new_client (web 200) (codes "/api") ≡ ok c)
    × ((web 200).path c.base_url ≡ slashed (codes "/api"))
    × (ends_with_slash ((web 200).path c.base_url) ≡ true)
new_client-path_example = new_client-path (web 200) (codes "/api") (codes "/api") refl refl

hello-ok_iff_example : ((hello (web 200) client tt).0 ≡ ok (codes "Hello World")) ↔ (
    (url : Text) × (response : ℕ) × ((web 200).join client.base_url (codes "") ≡ ok url)
    × (((web 200).send url tt).0 ≡ ok response)
    × ((web 200).is_success ((web 200).status response) ≡ true)
    × (((web 200).text response ((web 200).send url tt).1).0 ≡ ok (codes "Hello World")))
hello-ok_iff_example = hello-ok_iff (web 200) client tt (codes "Hello World")

hello-err_iff_example :
    ((hello (web 503) client tt).0 ≡ err (unexpected_status 503 (codes "Hello World")))
    ↔ Fails
        (web 503)
        client
        (web 503).text
        (codes "")
        tt
        (unexpected_status 503 (codes "Hello World"))
hello-err_iff_example =
    hello-err_iff (web 503) client tt (unexpected_status 503 (codes "Hello World"))

health_iff_example :
    ((h : HealthResponse)
      → ((health (web 200) client tt).0 ≡ ok h) ↔ (
          (r : Responds (web 200) client (codes "health") tt true) × (((web 200).json r.response
              ((web 200).send r.url tt).1).0
            ≡ ok h)))
    × ((e : Error (web 200))
        → ((health (web 200) client tt).0 ≡ err e)
          ↔ Fails (web 200) client (web 200).json (codes "health") tt e)
health_iff_example = health_iff (web 200) client tt
