-- ===== src/Memory/Concurrent.antt =====
-- Calls of `next_visitor_count` that run at once: the handlers are tasks that share one store, and
-- meet at its `tokio` mutex. A task can be interrupted between any two of its steps; while it holds
-- the lock it awaits nothing, so it is not cancelled there, and a panic drops the guard.
use yral_onboarding_hello_wo.Prelude.{
  ℕ, ◌+◌, ◌%◌, ◌≡◌, refl, Bool, ◌&&◌, leb, if◌then◌else◌, List, [], ◌∷◌, Outcome, ok, panicked,
  arith,
}
use yral_onboarding_hello_wo.Domain.{u64_mod}
use yral_onboarding_hello_wo.Application.{CounterStoreError}
use yral_onboarding_hello_wo.Memory.{increment}

-- The mutex: free, or held by a task before or after its `*counter += 1`.
pub data Lock : Type 0 where
  free : Lock
  held added : ℕ → Lock

-- The store while calls are running, with the replies so far, the latest first.
pub record Shared : Type 0 where
  pub counter : ℕ
  pub lock : Lock
  pub replies : List (ℕ × Outcome CounterStoreError ℕ)

-- `*counter += 1`.
unfoldable pub add_one : Bool → ℕ → Outcome CounterStoreError ℕ
add_one checks value =
    if checks && leb u64_mod (value + 1) then panicked else ok ((value + 1) % u64_mod)

pub data Step (checks : Bool) : Shared → Shared → Type 0 where
  -- `self.counter.lock().await` of any task that waits.
  acquire : (s : Shared) (task : ℕ) → s.lock ≡ free → Step checks s (record s { lock = held task })
  add :
      (s : Shared) (task n : ℕ)
      → s.lock ≡ held task
      → add_one checks s.counter ≡ ok n
      → Step checks s (record s { counter = n; lock = added task })
  overflow :
      (s : Shared) (task : ℕ)
      → s.lock ≡ held task
      → add_one checks s.counter ≡ panicked
      → Step checks s (record s { lock = free; replies = (task, panicked) ∷ s.replies })
  -- `Ok(*counter)`, and the guard is dropped.
  reply :
      (s : Shared) (task : ℕ)
      → s.lock ≡ added task
      → Step checks s (record s { lock = free; replies = (task, ok s.counter) ∷ s.replies })

pub data Reach (checks : Bool) (w : ℕ) : Shared → Type 0 where
  start : Reach checks w (record { counter = w; lock = free; replies = [] })
  later : {s t : Shared} → Reach checks w s → Step checks s t → Reach checks w t

-- The replies and the counter after the calls of these tasks, the latest first, one at a time.
abbrev pub serial : Bool → ℕ → List ℕ → List (ℕ × Outcome CounterStoreError ℕ) × ℕ
serial checks w [] = ([], w)
serial checks w (task ∷ tasks) =
    let (replies, value) = serial checks w tasks in
    let (r, value') = increment checks value in ((task, r) ∷ replies, value')

-- What the holder of the lock has done to the value that it found.
abbrev pub Held : Bool → Lock → ℕ → ℕ → Type 0
Held checks free value counter = counter ≡ value
Held checks (held task) value counter = counter ≡ value
Held checks (added task) value counter = increment checks value ≡ (ok counter, counter)

pub record Inv (checks : Bool) (w : ℕ) (s : Shared) : Type 0 where
  pub tasks : List ℕ
  pub value : ℕ
  pub done : serial checks w tasks ≡ (s.replies, value)
  pub holds : Held checks s.lock value s.counter

pub add_one-ok :
    (checks : Bool) (v n : ℕ) → add_one checks v ≡ ok n → increment checks v ≡ (ok n, n)
unfolding add_one increment
add_one-ok checks v n e = ground arith

pub add_one-panicked :
    (checks : Bool) (v : ℕ) → add_one checks v ≡ panicked → increment checks v ≡ (panicked, v)
unfolding add_one increment
add_one-panicked checks v e = ground arith

Step-Inv :
    {checks : Bool} {w : ℕ} {s t : Shared} → Step checks s t → Inv checks w s → Inv checks w t
Step-Inv (acquire s task e) inv = record {
  tasks = inv.tasks;
  value = inv.value;
  done = inv.done;
  holds = rw e at inv.holds;
}
Step-Inv {checks} (add s task n e q) inv =
    let same : s.counter ≡ inv.value = rw e at inv.holds in
    record {
      tasks = inv.tasks;
      value = inv.value;
      done = inv.done;
      holds = add_one-ok checks inv.value n (rw same at q);
    }
Step-Inv {checks} (overflow s task e q) inv =
    let same : s.counter ≡ inv.value = rw e at inv.holds in
    record {
      tasks = task ∷ inv.tasks;
      value = inv.value;
      done = rw (inv.done, add_one-panicked checks inv.value (rw same at q)) refl;
      holds = same;
    }
Step-Inv {checks} (reply s task e) inv =
    let counted : increment checks inv.value ≡ (ok s.counter, s.counter) = rw e at inv.holds in
    record {
      tasks = task ∷ inv.tasks;
      value = s.counter;
      done = rw (inv.done, counted) refl;
      holds = refl;
    }

pub Reach-Inv : {checks : Bool} {w : ℕ} {s : Shared} → Reach checks w s → Inv checks w s
Reach-Inv {w = w} start = record { tasks = []; value = w; done = refl; holds = refl }
Reach-Inv (later r st) = Step-Inv st (Reach-Inv r)
