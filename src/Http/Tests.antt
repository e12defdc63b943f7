-- ===== src/Http/Tests.antt =====
-- Runs of the router's tests, and the theorems at concrete inputs.
use yral_onboarding_hello_wo.Prelude.{
  ℕ, ◌+◌, ◌<◌, arith, ◌≡◌, refl, some, [], ◌∷◌, false, codes, ok, text_eq, Text,
}
use mathlib.Core.Option
use yral_onboarding_hello_wo.Domain.{u64_mod, message, new_visitor_count}
use yral_onboarding_hello_wo.Decimal.{display}
use yral_onboarding_hello_wo.Application.{counter, hello}
use yral_onboarding_hello_wo.Application.Contract.{visit, check}
use yral_onboarding_hello_wo.Memory.{memory_store, increment}
use yral_onboarding_hello_wo.Memory.Numbering.{memory_store-IsCounter}
use yral_onboarding_hello_wo.Http.{Router, build_router, serve, handle, get_hello}
use yral_onboarding_hello_wo.Http.Framework.{hello_endpoint, health_endpoint}
use yral_onboarding_hello_wo.Http.Answers.{
  see, root_answer, health_answer, root_answers, health_answers,
}
use yral_onboarding_hello_wo.Http.Bodies.{Distinct, root_bodies, root_bodies-Distinct}
use yral_onboarding_hello_wo.Http.Sample.{render, sample_axum, sample-IsAxum}

abbrev counting : Router ℕ Text
counting = record {
  routes = (codes "/", hello_endpoint) ∷ (codes "/health", health_endpoint) ∷ [];
  state = record {
    service = record { mode = counter; counter_store = memory_store false };
    server_label = codes "server_1";
  };
}

counting-built :
    build_router sample_axum {E = Text}
      (record { mode = counter; counter_store = memory_store false })
      (codes "server_1")
    ≡ ok counting
unfolding build_router
counting-built = refl

-- The second visitor of a memory store.
second_visitor :
    Option.map (see sample_axum) (serve sample_axum counting (codes "GET") (codes "/") 1).0
    ≡ some (record {
      status = 200;
      served_by = some (codes "server_1");
      body = codes "Hello visitor. You are the 2'th visitor to this page";
    })
unfolding serve handle get_hello hello new_visitor_count increment message display text_eq
second_visitor = refl

root_answers_example :
    (Option.map (see sample_axum) (serve sample_axum counting (codes "GET") (codes "/") 7).0
      ≡ root_answer
          (sample_axum.from_str (codes "server_1"))
          ((memory_store false).next_visitor_count 7).0)
    × ((serve sample_axum counting (codes "GET") (codes "/") 7).1
        ≡ ((memory_store false).next_visitor_count 7).1)
root_answers_example =
    root_answers sample-IsAxum (memory_store false) (codes "server_1") counting 7 counting-built

health_answers_example :
    (Option.map (see sample_axum) (serve sample_axum counting (codes "GET") (codes "/health") 7).0
      ≡ health_answer
          (sample_axum.from_str (codes "server_1"))
          (render (record { status = codes "ok"; storage = codes "memory" }))
          (ok tt))
    × ((serve sample_axum counting (codes "GET") (codes "/health") 7).1 ≡ 7)
health_answers_example =
    health_answers sample-IsAxum (memory_store false) counter (codes "server_1") counting 7
      counting-built

root_bodies-Distinct_example :
    Distinct (root_bodies sample_axum counting (visit ∷ check ∷ visit ∷ visit ∷ []) 5)
root_bodies-Distinct_example =
    root_bodies-Distinct sample-IsAxum (memory_store false) (codes "server_1") counting
      counting-built (λ w. w) (λ k w. w + k < u64_mod) (memory_store-IsCounter false)
      (visit ∷ check ∷ visit ∷ visit ∷ []) 5 (omega arith)
