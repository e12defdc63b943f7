-- ===== src/UnitTests/Counting.antt =====
-- crates/adapter-counter-store-memory/src/lib.rs: its tests, in a build with and without overflow
-- checks. A test starts with a store of its own, so with its counter.
use yral_onboarding_hello_wo.Prelude.{
  ℕ, ◌≡◌, refl, ◌==◌, Bool, true, false, Text, codes, text_eq, ok, Program, expect_ok, assert,
  assert_eq, ◌>>=◌, ◌>>◌,
}
use yral_onboarding_hello_wo.Memory.{memory_store, default_counter, increment}

abbrev Test : Type 0
Test = Program ℕ Text (Unit {0})

module _ (checks : Bool) where
  -- A count that is expected next.
  abbrev counts : ℕ → Test
  counts n = do count ← expect_ok (memory_store checks).next_visitor_count; assert (count == n)

  pub first_count_starts_at_one : Test
  first_count_starts_at_one = counts 1

  pub counts_increment_monotonically : Test
  counts_increment_monotonically = do counts 1; counts 2; counts 3

  pub health_returns_ok : Test
  health_returns_ok = expect_ok (memory_store checks).health

  pub storage_name_is_memory : Test
  storage_name_is_memory = assert_eq (memory_store checks).storage_name (codes "memory")

counting_passes :
    (checks : Bool)
    → (first_count_starts_at_one checks default_counter ≡ (ok tt, 1))
      × (counts_increment_monotonically checks default_counter ≡ (ok tt, 3))
      × (health_returns_ok checks default_counter ≡ (ok tt, 0))
      × (storage_name_is_memory checks default_counter ≡ (ok tt, 0))
unfolding first_count_starts_at_one counts_increment_monotonically health_returns_ok
    storage_name_is_memory increment text_eq
counting_passes true = (refl, refl, refl, refl)
counting_passes false = (refl, refl, refl, refl)
