-- ===== src/Application/Service.antt =====
-- What `HelloWorldService` answers, for every counter store.
use yral_onboarding_hello_wo.Prelude.{
  ℕ, ◌<◌, ◌≡◌, ◌⊎◌, inl, inr, none, some, arith, ok, err, Outcome-cases, codes, ◌↔◌,
}
use yral_onboarding_hello_wo.Domain.{
  message, Greeting, invalid_visitor_count, numbered, new_visitor_count, HelloResponse,
  HealthResponse,
}
use yral_onboarding_hello_wo.Application.{
  CounterStore, GreetingMode, counter, hello, health, greeting, counter_store, ApplicationError,
  CounterStoreError,
}

-- A response that greets: its text is that of the greeting, and it holds the greeting's count.
abbrev pub respond : Greeting → HelloResponse
respond Greeting.plain = record { message = message Greeting.plain; visitor_count = none }
respond (numbered n) = record { message = message (numbered n); visitor_count = some n.value }

module _ {W : Type 0} (store : CounterStore W) where
  -- A call in counter mode leaves the state that the store leaves.
  pub hello_counter_state :
      (w : W)
      → (hello (record { mode = counter; counter_store = store }) w).1
        ≡ (store.next_visitor_count w).1
  unfolding hello new_visitor_count
  hello_counter_state w = ground arith

  pub health_state :
      (mode : GreetingMode) (w : W)
      → (health (record { mode = mode; counter_store = store }) w).1 ≡ (store.health w).1
  unfolding health
  health_state mode w = ground arith

  -- In counter mode a greeting is returned exactly if the store gives a positive number, and it is
  -- the greeting of that number.
  pub hello_counter-ok_iff :
      (w : W) (r : HelloResponse)
      → ((hello (record { mode = counter; counter_store = store }) w).0 ≡ ok r) ↔ (
          (n : ℕ) × ((store.next_visitor_count w).0 ≡ ok n)
          × (0 < n)
          × (r ≡ respond (numbered (record { value = n }))))
  unfolding hello new_visitor_count
  hello_counter-ok_iff w r = (to, λ p. ground arith)
    where
      to :
          (hello (record { mode = counter; counter_store = store }) w).0 ≡ ok r
          → (n : ℕ) × ((store.next_visitor_count w).0 ≡ ok n)
            × (0 < n)
            × (r ≡ respond (numbered (record { value = n })))
      to e = elim (Outcome-cases (store.next_visitor_count w).0) [
        | inl (n, p) ↦ (n, p, ground arith, ground arith)
        | inr (inl (x, p)) ↦ absurd (ground arith)
        | inr (inr p) ↦ absurd (ground arith)
      ]

  -- In counter mode the store's error is passed on, and the only other error is that of the number
  -- zero.
  pub hello_counter-err_iff :
      (w : W) (e : ApplicationError)
      → ((hello (record { mode = counter; counter_store = store }) w).0 ≡ err e) ↔ (
          ((x : CounterStoreError) × ((store.next_visitor_count w).0 ≡ err x)
            × (e ≡ counter_store x))
          ⊎ (((store.next_visitor_count w).0 ≡ ok 0) × (e ≡ greeting invalid_visitor_count)))
  unfolding hello new_visitor_count
  hello_counter-err_iff w e = (to, λ p. ground arith)
    where
      to :
          (hello (record { mode = counter; counter_store = store }) w).0 ≡ err e
          → ((x : CounterStoreError) × ((store.next_visitor_count w).0 ≡ err x)
              × (e ≡ counter_store x))
            ⊎ (((store.next_visitor_count w).0 ≡ ok 0) × (e ≡ greeting invalid_visitor_count))
      to h = elim (Outcome-cases (store.next_visitor_count w).0) [
        | inl (n, p) ↦ inr (ground arith)
        | inr (inl (x, p)) ↦ inl (x, p, ground arith)
        | inr (inr p) ↦ absurd (ground arith)
      ]

  -- The health report is returned exactly if the store is healthy; it says so, with the name of the
  -- store, in either mode.
  pub health-ok_iff :
      (mode : GreetingMode) (w : W) (r : HealthResponse)
      → ((health (record { mode = mode; counter_store = store }) w).0 ≡ ok r) ↔ (
          ((store.health w).0 ≡ ok tt)
          × (r ≡ record { status = codes "ok"; storage = store.storage_name }))
  unfolding health
  health-ok_iff mode w r = ground arith
