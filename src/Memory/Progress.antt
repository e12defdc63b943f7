-- ===== src/Memory/Progress.antt =====
-- The replies of interleaved calls, against calls one after the other.
use yral_onboarding_hello_wo.Prelude.{
  ℕ, zero, suc, ◌+◌, ◌<◌, ◌≡◌, refl, ap, ap₂, sym, ◌∙◌, Bool, List, [], ◌∷◌, length, map, Outcome,
  ok, arith,
}
use yral_onboarding_hello_wo.Domain.{u64_mod}
use yral_onboarding_hello_wo.Application.{CounterStoreError}
use yral_onboarding_hello_wo.Memory.Numbering.{increment_fits}
use yral_onboarding_hello_wo.Memory.Concurrent.{free, Shared, Reach, serial, Reach-Inv}

-- Calls that interleave in any way give the replies, and leave the counter, of the same calls made
-- one after the other, in the order in which they got the lock.
pub Reach-serial :
    {checks : Bool} {w : ℕ} (s : Shared)
    → Reach checks w s
    → s.lock ≡ free
    → (tasks : List ℕ) × (serial checks w tasks ≡ (s.replies, s.counter))
Reach-serial s r unlocked =
    let inv = Reach-Inv r in
    let same : s.counter ≡ inv.value = rw unlocked at inv.holds in
    (inv.tasks, inv.done ∙ ap (λ v. (s.replies, v)) (sym same))

-- The numbers `w + k`, …, `w + 1`.
abbrev pub count_down : ℕ → ℕ → List (Outcome CounterStoreError ℕ)
count_down w zero = []
count_down w (suc k) = ok (w + suc k) ∷ count_down w k

serial-length :
    (checks : Bool) (w : ℕ) (tasks : List ℕ) → length (serial checks w tasks).0 ≡ length tasks
serial-length checks w [] = refl
serial-length checks w (task ∷ tasks) = ap suc (serial-length checks w tasks)

serial_fits :
    (checks : Bool) (w : ℕ) (tasks : List ℕ)
    → w + length tasks < u64_mod
    → (map (λ r. r.1) (serial checks w tasks).0 ≡ count_down w (length tasks))
      × ((serial checks w tasks).1 ≡ w + length tasks)
serial_fits checks w [] h = (refl, omega arith)
serial_fits checks w (task ∷ tasks) h =
    let (replies, value) = serial_fits checks w tasks (omega arith) in
    let next = increment_fits checks (w + length tasks) (omega arith) in
    let step : w + length tasks + 1 ≡ w + suc (length tasks) = omega arith in
    rw (value, next) (ap₂ (λ n ns. ok n ∷ ns) step replies, step)

-- However the calls interleave, the replies are the numbers behind the one at the start, each once
-- and none left out, as long as they fit.
pub Reach-numbers :
    {checks : Bool} {w : ℕ} (s : Shared)
    → Reach checks w s
    → w + length s.replies < u64_mod
    → map (λ r. r.1) s.replies ≡ count_down w (length s.replies)
Reach-numbers {checks} {w} s r fits =
    let inv = Reach-Inv r in
    let replies : (serial checks w inv.tasks).0 ≡ s.replies = ap (λ p. p.0) inv.done in
    let long : length s.replies ≡ length inv.tasks =
      rw replies at (serial-length checks w inv.tasks) in
    rw long (rw replies at (serial_fits checks w inv.tasks (omega (arith, long, fits))).0)
