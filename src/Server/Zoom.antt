-- ===== src/Server/Zoom.antt =====
-- Stores on a part of the state of the process, against the same stores alone.
use yral_onboarding_hello_wo.Prelude.{ℕ, ◌≡◌, refl, inl, inr, List, [], ◌∷◌, Outcome-cases}
use yral_onboarding_hello_wo.Domain.{new_visitor_count}
use yral_onboarding_hello_wo.Application.{CounterStore, counter, hello}
use yral_onboarding_hello_wo.Application.Service.{hello_counter_state, health_state}
use yral_onboarding_hello_wo.Application.Contract.{IsCounter, Call, visit, check, visits}
use yral_onboarding_hello_wo.Server.State.{Process, counter_store_of, world_store_of}

module _ {W : Type 0} where
  -- A store keeps its contract in the state of the process.
  pub counter_store_of-IsCounter :
      {store : CounterStore ℕ} {issued : ℕ → ℕ} {Ready : ℕ → ℕ → Type 0}
      → IsCounter store issued Ready
      → IsCounter
          (counter_store_of {W = W} store)
          (λ p. issued p.counter)
          (λ k p. Ready k p.counter)
  counter_store_of-IsCounter c = record {
    ready_fewer = λ k p. c.ready_fewer k p.counter;
    next-Ready = λ k p. c.next-Ready k p.counter;
    next_grows = λ k p. c.next_grows k p.counter;
    next_fresh = λ k p. c.next_fresh k p.counter;
    health-Ready = λ k p. c.health-Ready k p.counter;
    health_grows = λ k p. c.health_grows k p.counter;
  }

  pub world_store_of-IsCounter :
      {store : CounterStore W} {issued : W → ℕ} {Ready : ℕ → W → Type 0}
      → IsCounter store issued Ready
      → IsCounter (world_store_of store) (λ p. issued p.world) (λ k p. Ready k p.world)
  world_store_of-IsCounter c = record {
    ready_fewer = λ k p. c.ready_fewer k p.world;
    next-Ready = λ k p. c.next-Ready k p.world;
    next_grows = λ k p. c.next_grows k p.world;
    next_fresh = λ k p. c.next_fresh k p.world;
    health-Ready = λ k p. c.health-Ready k p.world;
    health_grows = λ k p. c.health_grows k p.world;
  }

  module _ (store : CounterStore ℕ) where
    hello_counter_zoom :
        (p : Process W)
        → (hello (record { mode = counter; counter_store = counter_store_of store }) p).0
          ≡ (hello (record { mode = counter; counter_store = store }) p.counter).0
    unfolding hello
    hello_counter_zoom p = elim (Outcome-cases (store.next_visitor_count p.counter).0) [
      | inl (n, q) ↦ elim (Outcome-cases (new_visitor_count n)) [
        | inl (c, r) ↦ rw q (rw r)
        | inr (inl (e, r)) ↦ rw q (rw r)
        | inr (inr r) ↦ rw q (rw r)
      ]
      | inr (inl (e, q)) ↦ rw q
      | inr (inr q) ↦ rw q
    ]

    pub visits_zoom :
        (calls : List Call) (p : Process W)
        → visits (record { mode = counter; counter_store = counter_store_of store }) calls p
          ≡ visits (record { mode = counter; counter_store = store }) calls p.counter
    unfolding visits
    visits_zoom [] p = refl
    visits_zoom (visit ∷ calls) p =
        rw
          (
            hello_counter_zoom p,
            hello_counter_state (counter_store_of store) p,
            hello_counter_state store p.counter,
          )
          (rw (visits_zoom calls (record p { counter = (store.next_visitor_count p.counter).1 })))
    visits_zoom (check ∷ calls) p =
        rw (health_state (counter_store_of store) counter p, health_state store counter p.counter)
          (visits_zoom calls (record p { counter = (store.health p.counter).1 }))
