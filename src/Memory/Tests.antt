-- ===== src/Memory/Tests.antt =====
-- Runs of the crate's tests, and the theorems at concrete counters.
use yral_onboarding_hello_wo.Prelude.{
  ℕ, ◌-◌, ◌≡◌, refl, List, map, false, true, [], ◌∷◌, ok, err, panicked, arith,
}
use yral_onboarding_hello_wo.Domain.{u64_mod, invalid_visitor_count}
use yral_onboarding_hello_wo.Application.{greeting, hello}
use yral_onboarding_hello_wo.Application.Contract.{visit, check, visits}
use yral_onboarding_hello_wo.Memory.{default_counter, increment}
use yral_onboarding_hello_wo.Memory.Concurrent.{
  Shared, free, added, add_one, acquire, add, reply, Reach, start, later, serial,
}
use yral_onboarding_hello_wo.Memory.Progress.{Reach-serial, count_down, Reach-numbers}
use yral_onboarding_hello_wo.Memory.Answering.{Answered, Shared-Answered}
use yral_onboarding_hello_wo.Memory.Numbering.{service, visits-consecutive, hello_exhausted}

first_count : increment false default_counter ≡ (ok 1, 1)
unfolding increment
first_count = refl

visits-consecutive_example : visits (service false) (visit ∷ check ∷ visit ∷ []) 7 ≡ 8 ∷ 9 ∷ []
visits-consecutive_example = visits-consecutive false 7 (visit ∷ check ∷ visit ∷ []) (omega arith)

hello_exhausted_example :
    ((hello (service false) (u64_mod - 1)).0 ≡ err (greeting invalid_visitor_count))
    × (visits (service false) (visit ∷ visit ∷ []) (u64_mod - 1)
        ≡ visits (service false) (visit ∷ []) 0)
    × (hello (service true) (u64_mod - 1) ≡ (panicked, u64_mod - 1))
    × (visits (service true) (visit ∷ []) (u64_mod - 1) ≡ [])
hello_exhausted_example = hello_exhausted (visit ∷ [])

-- Task 3 is answered, and task 4 has the lock and has counted.
abbrev between : Shared
between = record { counter = 9; lock = added 4; replies = (3, ok 8) ∷ [] }

between-Reach : Reach false 7 between
unfolding add_one
between-Reach =
    let first = later (later start (acquire _ 3 refl)) (add _ 3 8 refl refl) in
    later (later (later first (reply _ 3 refl)) (acquire _ 4 refl)) (add _ 4 9 refl refl)

abbrev answered : Shared
answered = record { counter = 9; lock = free; replies = (4, ok 9) ∷ (3, ok 8) ∷ [] }

answered-Reach : Reach false 7 answered
answered-Reach = later between-Reach (reply _ 4 refl)

Reach-serial_example : (tasks : List ℕ) × (serial false 7 tasks ≡ (answered.replies, 9))
Reach-serial_example = Reach-serial answered answered-Reach refl

Reach-numbers_example : map (λ r. r.1) between.replies ≡ count_down 7 1
Reach-numbers_example = Reach-numbers between between-Reach (omega arith)

-- Task 5 waits for task 4.
Shared-Answered_example : Answered false 5 between
Shared-Answered_example = Shared-Answered false between 5
