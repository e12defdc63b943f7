-- ===== src/TestSupport/Harness/Waiting.antt =====
-- How long the harness waits for its database.
use yral_onboarding_hello_wo.Prelude.{
  ℕ, zero, suc, ◌≡◌, ◌<◌, ◌↔◌, refl, ap, inl, inr, Text, codes, Outcome-cases, ok, err, arith,
}
use yral_onboarding_hello_wo.Postgres.{
  Driver, PostgresCounterStoreConfig, PostgresAdapterError, PostgresCounterStore, connect_store,
}
use yral_onboarding_hello_wo.TestSupport.Harness.{
  PostgresHarness, on_connect, wait_loop, wait_until_ready,
}

abbrev pub config_of : PostgresHarness → PostgresCounterStoreConfig
config_of harness = record { connection_string = harness.connection_string }

module _ {W Client Connection Row Failure : Type 0}
    (driver : Driver W Client Connection Row Failure) (config : PostgresCounterStoreConfig) where
  -- From `w` to `w'` lie `k` connections that fail, each with a wait of 250 milliseconds behind it.
  abbrev pub Failures : ℕ → W → W → Type 0
  Failures zero w w' = w ≡ w'
  Failures (suc k) w w' =
      (e : PostgresAdapterError Failure) × ((connect_store driver config w).0 ≡ err e)
      × Failures k (driver.sleep 250 (connect_store driver config w).1) w'

  -- Fewer than `rounds` connections fail, and the next one succeeds and leaves `w'`.
  abbrev pub Succeeds : ℕ → W → W → Type 0
  Succeeds rounds w w' =
      (k : ℕ) × (k < rounds)
      × (v : W) × Failures k w v
      × (store : PostgresCounterStore) × (connect_store driver config v ≡ (ok store, w'))

  wait_loop-ok :
      (rounds : ℕ) (w w' : W)
      → wait_loop driver config rounds w ≡ (ok tt, w')
      → Succeeds rounds w w'
  unfolding wait_loop
  wait_loop-ok zero w w' h = absurd (cc)
  wait_loop-ok (suc rounds) w w' h = elim (Outcome-cases (connect_store driver config w).0) [
    | inl (store, p) ↦
        let here = ap (λ r. r.1) (rw (p, on_connect) at h) in
        (zero, omega arith, w, refl, store, λ i. (p i, here i))
    | inr (inl (e, p)) ↦
        let (k, less, v, failures, store, last) =
          wait_loop-ok rounds _ w' (rw (p, on_connect) at h) in
        (suc k, omega arith, v, (e, p, failures), store, last)
    | inr (inr p) ↦ absurd (cc (rw (p, on_connect) at h))
  ]

  ok-wait_loop :
      (rounds k : ℕ) (w v w' : W) (store : PostgresCounterStore)
      → k < rounds
      → Failures k w v
      → connect_store driver config v ≡ (ok store, w')
      → wait_loop driver config rounds w ≡ (ok tt, w')
  unfolding wait_loop
  ok-wait_loop zero k w v w' store less failures last = absurd (omega arith)
  ok-wait_loop (suc rounds) zero w v w' store less failures last = rw (failures, last) refl
  ok-wait_loop (suc rounds) (suc k) w v w' store less (e, p, failures) last =
      rw (p, on_connect) (ok-wait_loop rounds k _ v w' store (omega arith) failures last)

  wait_loop-err :
      (rounds : ℕ) (w w' : W) (e : Text)
      → wait_loop driver config rounds w ≡ (err e, w')
      → Failures rounds w w' × (e ≡ codes "postgres harness did not become ready in time")
  unfolding wait_loop
  wait_loop-err zero w w' e h = (ap (λ r. r.1) h, cc)
  wait_loop-err (suc rounds) w w' e h = elim (Outcome-cases (connect_store driver config w).0) [
    | inl (store, p) ↦ absurd (cc (rw (p, on_connect) at h))
    | inr (inl (x, p)) ↦
        let (failures, text) = wait_loop-err rounds _ w' e (rw (p, on_connect) at h) in
        ((x, p, failures), text)
    | inr (inr p) ↦ absurd (cc (rw (p, on_connect) at h))
  ]

  err-wait_loop :
      (rounds : ℕ) (w w' : W)
      → Failures rounds w w'
      → wait_loop driver config rounds w
        ≡ (err (codes "postgres harness did not become ready in time"), w')
  unfolding wait_loop
  err-wait_loop zero w w' same = rw same refl
  err-wait_loop (suc rounds) w w' (e, p, failures) =
      rw (p, on_connect) (err-wait_loop rounds _ w' failures)

module _ {W Client Connection Row Failure : Type 0}
    (driver : Driver W Client Connection Row Failure) where
  -- Waiting ends well exactly if one of the first thirty connections succeeds, and with the error
  -- exactly if all thirty fail; a connection that fails is followed by a wait of 250 milliseconds, and
  -- nothing else touches the state.
  pub wait_until_ready_iff :
      (harness : PostgresHarness) (w w' : W)
      → ((wait_until_ready driver harness w ≡ (ok tt, w'))
          ↔ Succeeds driver (config_of harness) 30 w w')
        × ((wait_until_ready driver harness w
              ≡ (err (codes "postgres harness did not become ready in time"), w'))
            ↔ Failures driver (config_of harness) 30 w w')
  unfolding wait_until_ready
  wait_until_ready_iff harness w w' = (
    (
      wait_loop-ok driver (config_of harness) 30 w w',
      λ (k, less, v, failures, store, last).
          ok-wait_loop driver (config_of harness) 30 k w v w' store less failures last,
    ),
    (
      (λ h. (wait_loop-err driver (config_of harness) 30 w w' _ h).0),
      err-wait_loop driver (config_of harness) 30 w w',
    ),
  )
