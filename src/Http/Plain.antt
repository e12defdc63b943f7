-- ===== src/Http/Plain.antt =====
-- What a client sees of a greeting in plain mode.
use yral_onboarding_hello_wo.Prelude.{◌≡◌, refl, ap, some, [], ◌∷◌, Text, codes, text_eq, ok}
use mathlib.Core.Option
use yral_onboarding_hello_wo.Domain.{message}
use yral_onboarding_hello_wo.Application.{CounterStore, plain, hello}
use yral_onboarding_hello_wo.Http.{Router, build_router, serve, handle, get_hello}
use yral_onboarding_hello_wo.Http.Framework.{Axum, IsAxum, hello_endpoint, health_endpoint}
use yral_onboarding_hello_wo.Http.Answers.{see, see_text, build_router-eq-ok}

module _ {Response HeaderValue W : Type 0} {axum : Axum Response HeaderValue} (laws : IsAxum axum)
    (store : CounterStore W) where
  handle_plain :
      (v : HeaderValue) (w : W)
      → (Option.map
            (see axum)
            (handle axum hello_endpoint
              (record {
                service = record { mode = plain; counter_store = store };
                server_label = v;
              })
              w).0
          ≡ some (record { status = 200; served_by = some v; body = codes "Hello World" }))
        × ((handle axum hello_endpoint
              (record {
                service = record { mode = plain; counter_store = store };
                server_label = v;
              })
              w).1
            ≡ w)
  unfolding handle get_hello hello message
  handle_plain v w = (ap some (see_text laws v _), refl)

  pub root_plain_answers :
      (label : Text) (router : Router W HeaderValue) (w : W)
      → build_router axum {E = Text} (record { mode = plain; counter_store = store }) label
        ≡ ok router
      → (Option.map (see axum) (serve axum router (codes "GET") (codes "/") w).0
          ≡ some (record {
            status = 200;
            served_by = axum.from_str label;
            body = codes "Hello World";
          }))
        × ((serve axum router (codes "GET") (codes "/") w).1 ≡ w)
  unfolding serve text_eq
  root_plain_answers label router w built =
      let (v, found, same) = build_router-eq-ok axum _ label router built in
      let reached =
        laws.dispatch_get ((codes "/", hello_endpoint) ∷ (codes "/health", health_endpoint) ∷ [])
          (codes "/") hello_endpoint refl in
      rw (same, found) (rw (reached, serve) (handle_plain v w))
