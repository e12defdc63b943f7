-- ===== src/Postgres/Steps/Refinement.antt =====
-- The steps of one call, with no other calls between them, against the loop.
use yral_onboarding_hello_wo.Prelude.{
  ℕ, zero, suc, ◌*◌, ◌≡◌, ◌≢◌, refl, inl, inr, ap, Program, ◌>>◌, modify, ignore, if_ok, Outcome,
  Outcome-cases, ok, err, panicked,
}
use yral_onboarding_hello_wo.Application.{CounterStoreError}
use yral_onboarding_hello_wo.Postgres.{
  Driver, init_sql, update_sql, PostgresCounterStore, new_client, attempt, read_count, reinitialize,
  retry_loop, next_visitor_count,
}
use yral_onboarding_hello_wo.Postgres.Steps.{
  Pc, connecting, reconnecting, sleeping, done, step, steps,
}

module _ {W Client Connection Row Failure : Type 0}
    (driver : Driver W Client Connection Row Failure) (store : PostgresCounterStore) where
  abbrev finish : Outcome CounterStoreError ℕ × W → Pc Client × W
  finish e = (done e.0, e.1)

  steps-done :
      (k : ℕ) (r : Outcome CounterStoreError ℕ) (w : W)
      → steps driver store k (done r, w) ≡ (done r, w)
  unfolding steps step
  steps-done zero r w = refl
  steps-done (suc k) r w = steps-done k r w

  rounds : ℕ → ℕ
  rounds zero = 2
  rounds (suc retries) = suc (suc (suc (suc (suc (rounds retries)))))

  -- One step more after a call has ended changes nothing.
  steps-suc :
      (k : ℕ) (pc : Pc Client) (w : W) (r : Outcome CounterStoreError ℕ × W)
      → steps driver store k (pc, w) ≡ finish r
      → steps driver store (suc k) (pc, w) ≡ finish r
  unfolding steps step
  steps-suc zero pc w r h = ap (λ (c : Pc Client × W). step driver store c.0 c.1) h
  steps-suc (suc k) pc w r h = steps-suc k (step driver store pc w).0 (step driver store pc w).1 r h

  -- What the loop does behind a failed attempt.
  retry : ℕ → ℕ → Program W CounterStoreError ℕ
  retry retries delay = do
    reinitialize driver store
    modify (driver.sleep delay)
    retry_loop driver store retries (delay * 2)

  Finishes : ℕ → ℕ → Type 0
  Finishes retries delay =
      (w : W)
      → steps driver store (rounds retries) (connecting retries delay, w)
        ≡ finish (retry_loop driver store retries delay w)

  module _ (retries delay : ℕ) (w : W) where
    -- The loop again, from the state that the wait leaves.
    again : W → Outcome CounterStoreError ℕ × W
    again w' = retry_loop driver store retries (delay * 2) (driver.sleep delay w')

    retry-made :
        (c : Client) (r : Outcome Failure (Unit {0}))
        → (new_client driver store w).0 ≡ ok c
        → (driver.batch_execute c init_sql (new_client driver store w).1).0 ≡ r
        → r ≢ panicked
        → retry retries delay w
          ≡ again (driver.batch_execute c init_sql (new_client driver store w).1).1
    unfolding retry reinitialize again
    retry-made c (ok u) p q h = rw (p, if_ok) (rw (q, ignore))
    retry-made c (err e) p q h = rw (p, if_ok) (rw (q, ignore))
    retry-made c panicked p q h = absurd (h refl)

    retry-away :
        (e : CounterStoreError)
        → (new_client driver store w).0 ≡ err e
        → retry retries delay w ≡ again (new_client driver store w).1
    unfolding retry reinitialize again
    retry-away e p = rw (p, if_ok)

    retry-crashed :
        (new_client driver store w).0 ≡ panicked
        → retry retries delay w ≡ (panicked, (new_client driver store w).1)
    unfolding retry reinitialize
    retry-crashed p = rw (p, if_ok)

    retry-crashed_later :
        (c : Client)
        → (new_client driver store w).0 ≡ ok c
        → (driver.batch_execute c init_sql (new_client driver store w).1).0 ≡ panicked
        → retry retries delay w
          ≡ (panicked, (driver.batch_execute c init_sql (new_client driver store w).1).1)
    unfolding retry reinitialize
    retry-crashed_later c p q = rw (p, if_ok) (rw (q, ignore))

  steps-retry :
      (retries delay : ℕ) (w : W)
      → Finishes retries (delay * 2)
      → steps driver store (suc (suc (suc (rounds retries)))) (reconnecting retries delay, w)
        ≡ finish (retry retries delay w)
  unfolding steps step Finishes again
  steps-retry retries delay w h = elim (Outcome-cases (new_client driver store w).0) [
    | inl (c, p) ↦
        elim (Outcome-cases (driver.batch_execute c init_sql (new_client driver store w).1).0) [
          | inl (u, q) ↦
              rw (retry-made retries delay w c (ok u) p q (λ e. cc))
                (rw (p, steps) (rw (q, steps) (h _)))
          | inr (inl (e, q)) ↦
              rw (retry-made retries delay w c (err e) p q (λ e. cc))
                (rw (p, steps) (rw (q, steps) (h _)))
          | inr (inr q) ↦
              rw (retry-crashed_later retries delay w c p q)
                (rw (p, steps) (rw (q, steps) (steps-done (suc (rounds retries)) panicked _)))
        ]
    | inr (inl (e, p)) ↦
        rw (retry-away retries delay w e p)
          (rw (p, steps) (steps-suc (suc (rounds retries)) (sleeping retries delay) _ _ (h _)))
    | inr (inr p) ↦
        rw (retry-crashed retries delay w p)
          (rw (p, steps) (steps-done (suc (suc (rounds retries))) panicked _))
  ]

  steps-retry_loop_zero : (delay : ℕ) → Finishes zero delay
  unfolding retry_loop attempt rounds steps step Finishes
  steps-retry_loop_zero delay w = elim (Outcome-cases (new_client driver store w).0) [
    | inl (c, p) ↦
        elim (Outcome-cases (driver.query_one c update_sql (new_client driver store w).1).0) [
          | inl (row, q) ↦ rw p (rw q refl)
          | inr (inl (e, q)) ↦ rw p (rw q refl)
          | inr (inr q) ↦ rw p (rw q refl)
        ]
    | inr (inl (e, p)) ↦ rw p refl
    | inr (inr p) ↦ rw p refl
  ]

  steps-retry_loop_suc :
      (retries delay : ℕ) → Finishes retries (delay * 2) → Finishes (suc retries) delay
  unfolding retry_loop attempt rounds steps step Finishes retry
  steps-retry_loop_suc retries delay h w = elim (Outcome-cases (new_client driver store w).0) [
    | inl (c, p) ↦
        elim (Outcome-cases (driver.query_one c update_sql (new_client driver store w).1).0) [
          | inl (row, q) ↦
              rw (p, steps)
                (rw (q, steps)
                  (steps-done (suc (suc (suc (rounds retries)))) (read_count driver row) _))
          | inr (inl (e, q)) ↦ rw (p, steps) (rw (q, steps) (steps-retry retries delay _ h))
          | inr (inr q) ↦
              rw (p, steps)
                (rw (q, steps) (steps-done (suc (suc (suc (rounds retries)))) panicked _))
        ]
    | inr (inl (e, p)) ↦
        rw (p, steps)
          (steps-suc (suc (suc (suc (rounds retries)))) (reconnecting retries delay)
            (new_client driver store w).1 _ (steps-retry retries delay _ h))
    | inr (inr p) ↦ rw (p, steps) (steps-done (suc (suc (suc (suc (rounds retries))))) panicked _)
  ]

  steps-retry_loop : (retries delay : ℕ) → Finishes retries delay
  steps-retry_loop zero delay = steps-retry_loop_zero delay
  steps-retry_loop (suc retries) delay =
      steps-retry_loop_suc retries delay (steps-retry_loop retries (delay * 2))

  -- With no other call between them, seventeen steps bring a call to its end, with the result and the
  -- state of the loop, whatever the driver answers.
  pub steps-next_visitor_count :
      (w : W)
      → steps driver store 17 (connecting 3 250, w)
        ≡ (done (next_visitor_count driver store w).0, (next_visitor_count driver store w).1)
  unfolding next_visitor_count rounds Finishes
  steps-next_visitor_count w = steps-retry_loop 3 250 w
