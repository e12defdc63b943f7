-- ===== src/Memory/Numbering.antt =====
-- The numbers that the memory store gives out.
use yral_onboarding_hello_wo.Prelude.{
  ℕ, ◌+◌, ◌-◌, ◌<◌, ◌≡◌, refl, ap, ◌∙◌, Bool, true, false, arith, List, [], ◌∷◌, length, ok, err,
  panicked,
}
use yral_onboarding_hello_wo.Domain.{u64_mod, new_visitor_count, numbered, invalid_visitor_count}
use yral_onboarding_hello_wo.Application.{counter, HelloWorldService, hello, health, greeting}
use yral_onboarding_hello_wo.Application.Service.{respond}
use yral_onboarding_hello_wo.Application.Contract.{IsCounter, Call, visit, check, visits}
use yral_onboarding_hello_wo.Memory.{increment, memory_store}

-- The store keeps the contract of a counter for as many calls as there are numbers left, in either
-- build.
pub memory_store-IsCounter :
    (checks : Bool) → IsCounter (memory_store checks) (λ w. w) (λ k w. w + k < u64_mod)
unfolding increment
memory_store-IsCounter checks = record {
  ready_fewer = λ k w h. omega arith;
  next-Ready = λ k w h. ground arith;
  next_grows = λ k w h. ground arith;
  next_fresh = λ k w n h e. ground arith;
  health-Ready = λ k w h. omega arith;
  health_grows = λ k w h. omega arith;
}

-- In a build with overflow checks it keeps the contract for any number of calls.
pub memory_store_checked-IsCounter : IsCounter (memory_store true) (λ w. w) (λ k w. w < u64_mod)
unfolding increment
memory_store_checked-IsCounter = record {
  ready_fewer = λ k w h. omega arith;
  next-Ready = λ k w h. ground arith;
  next_grows = λ k w h. ground arith;
  next_fresh = λ k w n h e. ground arith;
  health-Ready = λ k w h. omega arith;
  health_grows = λ k w h. omega arith;
}

abbrev pub service : Bool → HelloWorldService ℕ
service checks = record { mode = counter; counter_store = memory_store checks }

-- The numbers that the visits among the requests should get, behind the number `w`.
abbrev pub consecutive : ℕ → List Call → List ℕ
consecutive w [] = []
consecutive w (visit ∷ calls) = (w + 1) ∷ consecutive (w + 1) calls
consecutive w (check ∷ calls) = consecutive w calls

pub increment_fits :
    (checks : Bool) (w : ℕ) → w + 1 < u64_mod → increment checks w ≡ (ok (w + 1), w + 1)
unfolding increment
increment_fits checks w h = ground arith

hello_fits :
    (checks : Bool) (w : ℕ)
    → w + 1 < u64_mod
    → hello (service checks) w ≡ (ok (respond (numbered (record { value = w + 1 }))), w + 1)
unfolding hello new_visitor_count
hello_fits checks w h = rw (increment_fits checks w h) (ground arith)

service_visit :
    (checks : Bool) (w : ℕ) (calls : List Call)
    → w + 1 < u64_mod
    → visits (service checks) (visit ∷ calls) w ≡ (w + 1) ∷ visits (service checks) calls (w + 1)
unfolding visits
service_visit checks w calls h = rw (hello_fits checks w h)

service_check :
    (checks : Bool) (w : ℕ) (calls : List Call)
    → visits (service checks) (check ∷ calls) w ≡ visits (service checks) calls w
unfolding visits health
service_check checks w calls = refl

-- From the counter `w` on, visits are numbered one after the other with no gap, and health requests
-- between them change nothing, as long as the numbers fit.
pub visits-consecutive :
    (checks : Bool) (w : ℕ) (calls : List Call)
    → w + length calls < u64_mod
    → visits (service checks) calls w ≡ consecutive w calls
visits-consecutive checks w [] h = unfold visits in refl
visits-consecutive checks w (visit ∷ calls) h =
    service_visit checks w calls (omega arith)
    ∙ ap (λ ns. (w + 1) ∷ ns) (visits-consecutive checks (w + 1) calls (omega arith))
visits-consecutive checks w (check ∷ calls) h =
    service_check checks w calls ∙ visits-consecutive checks w calls (omega arith)

visits_exhausted : (calls : List Call) → visits (service true) calls (u64_mod - 1) ≡ []
unfolding visits hello health increment
visits_exhausted [] = refl
visits_exhausted (visit ∷ calls) = visits_exhausted calls
visits_exhausted (check ∷ calls) = visits_exhausted calls

-- At the largest `u64` the release build answers one visit with the greeting error and starts again
-- at one; the build with overflow checks fails this visit and all that follow, and stays there.
pub hello_exhausted :
    (calls : List Call)
    → ((hello (service false) (u64_mod - 1)).0 ≡ err (greeting invalid_visitor_count))
      × (visits (service false) (visit ∷ calls) (u64_mod - 1) ≡ visits (service false) calls 0)
      × (hello (service true) (u64_mod - 1) ≡ (panicked, u64_mod - 1))
      × (visits (service true) calls (u64_mod - 1) ≡ [])
unfolding hello increment new_visitor_count visits
hello_exhausted calls = (refl, refl, refl, visits_exhausted calls)
