-- ===== src/Memory.antt =====
-- crates/adapter-counter-store-memory/src/lib.rs: the counter behind a mutex. A method runs alone,
-- since it holds the lock while it touches the counter.
pub mod Numbering
pub mod Concurrent
pub mod Progress
pub mod Answering
mod Tests
use yral_onboarding_hello_wo.Prelude.{
  ℕ, ◌+◌, ◌%◌, Bool, ◌&&◌, leb, if◌then◌else◌, codes, Outcome, ok, panicked, Program, return,
}
use yral_onboarding_hello_wo.Domain.{u64_mod}
use yral_onboarding_hello_wo.Application.{CounterStore, CounterStoreError}

-- `*counter += 1` on a `u64`, and the value read back: a build with overflow checks panics at the
-- largest number and leaves it; the release build wraps around.
unfoldable pub increment : Bool → ℕ → Outcome CounterStoreError ℕ × ℕ
increment checks value =
    if checks && leb u64_mod (value + 1)
    then (panicked, value)
    else (ok ((value + 1) % u64_mod), (value + 1) % u64_mod)

-- The state is the value behind the mutex; `default` is zero.
abbrev pub default_counter : ℕ
default_counter = 0

abbrev pub memory_store : Bool → CounterStore ℕ
memory_store checks = record {
  next_visitor_count = increment checks;
  health = return tt;
  storage_name = codes "memory";
}
