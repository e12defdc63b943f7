-- ===== src/Http/Bodies.antt =====
-- The greetings that a sequence of requests is answered with.
use yral_onboarding_hello_wo.Prelude.{
  ℕ, ◌≡◌, ◌≢◌, ◌<◌, ◌≤◌, refl, ◌==◌, if◌then◌else◌, inl, inr, none, some, List, [], ◌∷◌, ◌++◌, map,
  Option, Text, codes, Outcome-cases, Bool-cases, ok, arith, length, All,
}
use mathlib.Core.Option
use mathlib.Core.List.{map-append}
use yral_onboarding_hello_wo.Domain.{u64_mod, message, numbered, new_visitor_count}
use yral_onboarding_hello_wo.Domain.Message.{message-inj}
use yral_onboarding_hello_wo.Application.{CounterStore, counter, hello}
use yral_onboarding_hello_wo.Application.Service.{hello_counter_state, health_state}
use yral_onboarding_hello_wo.Application.Contract.{
  IsCounter, Call, visit, check, visits, visits-Fresh, Fresh, count_of,
}
use yral_onboarding_hello_wo.Http.{Router, build_router, serve}
use yral_onboarding_hello_wo.Http.Framework.{Axum, IsAxum}
use yral_onboarding_hello_wo.Http.Answers.{Seen, see, root_answer, root_answers, health_answers}

abbrev pub greet : ℕ → Text
greet n = message (numbered (record { value = n }))

-- The body of an answer with status 200.
abbrev pub good_body : {HeaderValue : Type 0} → Option (Seen HeaderValue) → List Text
good_body none = []
good_body (some r) = if r.status == 200 then r.body ∷ [] else []

-- The bodies of the successful answers to `GET /`, in order; a check is a `GET /health`.
pub root_bodies :
    {W Response HeaderValue : Type 0}
    → Axum Response HeaderValue
    → Router W HeaderValue
    → List Call
    → W
    → List Text
root_bodies axum router [] w = []
root_bodies axum router (visit ∷ calls) w =
    let (r, w') = serve axum router (codes "GET") (codes "/") w in
    good_body (Option.map (see axum) r) ++ root_bodies axum router calls w'
root_bodies axum router (check ∷ calls) w =
    root_bodies axum router calls (serve axum router (codes "GET") (codes "/health") w).1

-- No two are equal.
abbrev pub Distinct : List Text → Type 0
Distinct [] = Unit
Distinct (t ∷ ts) = All (λ u. t ≢ u) ts × Distinct ts

greet-ne : (m n : ℕ) → m < u64_mod → n < u64_mod → m < n → greet m ≢ greet n
greet-ne m n hm hn lt e =
    let same =
      message-inj (numbered (record { value = m })) (numbered (record { value = n })) hm hn e in
    absurd (ground arith)

map-greet-All :
    (m n : ℕ) (ns : List ℕ)
    → m < u64_mod
    → m ≤ n
    → Fresh n ns
    → All (λ u. greet m ≢ u) (map greet ns)
map-greet-All m n [] hm lt h = tt
map-greet-All m n (k ∷ ns) hm lt ((above, rest), (fits, all)) =
    (greet-ne m k hm fits (omega arith), map-greet-All m k ns hm (omega arith) (rest, all))

map-greet-Distinct : (n : ℕ) (ns : List ℕ) → Fresh n ns → Distinct (map greet ns)
map-greet-Distinct n [] h = tt
map-greet-Distinct n (k ∷ ns) ((above, rest), (fits, all)) =
    (map-greet-All k k ns fits (omega arith) (rest, all), map-greet-Distinct k ns (rest, all))

module _ {W Response HeaderValue : Type 0} {axum : Axum Response HeaderValue} (laws : IsAxum axum)
    (store : CounterStore W) (label : Text) (router : Router W HeaderValue)
    (built : build_router axum {E = Text} (record { mode = counter; counter_store = store }) label
      ≡ ok router) where
  good_body-count :
      (v : Option HeaderValue) (w : W)
      → good_body (root_answer v (store.next_visitor_count w).0)
        ≡ map greet (count_of (hello (record { mode = counter; counter_store = store }) w).0)
  unfolding hello new_visitor_count
  good_body-count v w = elim (Outcome-cases (store.next_visitor_count w).0) [
    | inl (n, p) ↦ elim (Bool-cases (n == 0)) [
      | inl none_left ↦ rw p (rw none_left)
      | inr more ↦ rw p (rw more)
    ]
    | inr (inl (e, p)) ↦ rw p
    | inr (inr p) ↦ rw p
  ]

  pub root_bodies-visits :
      (calls : List Call) (w : W)
      → root_bodies axum router calls w
        ≡ map greet (visits (record { mode = counter; counter_store = store }) calls w)
  unfolding root_bodies visits
  root_bodies-visits [] w = refl
  root_bodies-visits (visit ∷ calls) w =
      let (answer, state) = root_answers laws store label router w built in
      rw
        (
          answer,
          good_body-count (axum.from_str label) w,
          state,
          hello_counter_state store w,
          map-append,
        )
        (rw (root_bodies-visits calls (store.next_visitor_count w).1))
  root_bodies-visits (check ∷ calls) w =
      let (_, state) = health_answers laws store counter label router w built in
      rw (state, health_state store counter w) (root_bodies-visits calls (store.health w).1)

  -- No two visitors are greeted alike: the bodies of the successful answers to `GET /` are pairwise
  -- different, whatever requests come and whichever of them fail, if the service is in counter mode,
  -- its store keeps the contract and is ready for as many calls, and the web framework behaves as
  -- documented.
  pub root_bodies-Distinct :
      (issued : W → ℕ) (Ready : ℕ → W → Type 0)
      → IsCounter store issued Ready
      → (calls : List Call) (w : W) → Ready (length calls) w
      → Distinct (root_bodies axum router calls w)
  root_bodies-Distinct issued Ready c calls w ready =
      rw (root_bodies-visits calls w)
        (map-greet-Distinct (issued w) _ (visits-Fresh c counter calls w ready))
