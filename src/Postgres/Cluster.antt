-- ===== src/Postgres/Cluster.antt =====
-- Any number of calls, on any number of servers over one row, interleaved at every await.
use yral_onboarding_hello_wo.Prelude.{
  ℕ, zero, suc, ◌≤◌, ◌<◌, ◌≡◌, ◌≢◌, ◌⊎◌, refl, sym, ap, ◌∙◌, inl, inr, ◌==◌, if◌then◌else◌,
  Bool-cases, arith, Outcome, ok, err, panicked,
}
use yral_onboarding_hello_wo.Application.{CounterStoreError}
use yral_onboarding_hello_wo.Postgres.{Driver, PostgresCounterStore, read_count}
use yral_onboarding_hello_wo.Postgres.Database.{IsDatabase, new_client-Grows, read_count-ok}
use yral_onboarding_hello_wo.Postgres.Steps.{
  Pc, connecting, updating, reconnecting, initializing, sleeping, done, after_error, after_connect,
  after_update, after_reconnect, after_init, step,
}

-- The world that the calls share, and where each call stands.
pub record Cluster (W Client : Type 0) : Type 0 where
  pub world : W
  pub pc : ℕ → Pc Client

abbrev pub update : {A : Type 0} → (ℕ → A) → ℕ → A → ℕ → A
update f i a j = if j == i then a else f j

module _ {W Client Connection Row Failure : Type 0}
    (driver : Driver W Client Connection Row Failure) (store : PostgresCounterStore) where
  -- All calls are about to start.
  abbrev pub waiting : W → Cluster W Client
  waiting w = record { world = w; pc = λ _. connecting 3 250 }

  -- One step of one call.
  abbrev pub move : ℕ → Cluster W Client → Cluster W Client
  move i c =
      let (p, w) = step driver store (c.pc i) c.world in record { world = w; pc = update c.pc i p }

  pub data Reach (w : W) : Cluster W Client → Type 0 where
    start : Reach w (waiting w)
    later : {c : Cluster W Client} → Reach w c → (i : ℕ) → Reach w (move i c)

module _ {W Client Connection Row Failure : Type 0}
    {driver : Driver W Client Connection Row Failure} {stored : W → ℕ}
    (db : IsDatabase driver stored) (store : PostgresCounterStore) where
  open db use {sleep_grows, init_grows, update_grows, update_row}

  step-Grows : (p : Pc Client) (w : W) → stored w ≤ stored (step driver store p w).1
  unfolding step
  step-Grows (connecting retries delay) w = (new_client-Grows db store).apply w
  step-Grows (updating client retries delay) w = (update_grows client).apply w
  step-Grows (reconnecting retries delay) w = (new_client-Grows db store).apply w
  step-Grows (initializing client retries delay) w = (init_grows client).apply w
  step-Grows (sleeping retries delay) w = sleep_grows delay w
  step-Grows (done r) w = omega arith

  after_error-ne :
      (e : CounterStoreError) (retries delay n : ℕ)
      → after_error driver store e retries delay ≢ done (ok n)
  after_error-ne e zero delay n h = cc
  after_error-ne e (suc retries) delay n h = cc

  after_connect-ne :
      (r : Outcome CounterStoreError Client) (retries delay n : ℕ)
      → after_connect driver store r retries delay ≢ done (ok n)
  after_connect-ne (ok client) retries delay n h = cc
  after_connect-ne (err e) retries delay n h = after_error-ne e retries delay n h
  after_connect-ne panicked retries delay n h = cc

  after_reconnect-ne :
      (r : Outcome CounterStoreError Client) (retries delay n : ℕ)
      → after_reconnect driver store r retries delay ≢ done (ok n)
  after_reconnect-ne (ok client) retries delay n h = cc
  after_reconnect-ne (err e) retries delay n h = cc
  after_reconnect-ne panicked retries delay n h = cc

  after_init-ne :
      (r : Outcome Failure (Unit {0})) (retries delay n : ℕ)
      → after_init driver store r retries delay ≢ done (ok n)
  after_init-ne (ok u) retries delay n h = cc
  after_init-ne (err e) retries delay n h = cc
  after_init-ne panicked retries delay n h = cc

  after_update-ok :
      (r : Outcome Failure Row) (retries delay n : ℕ)
      → after_update driver store r retries delay ≡ done (ok n)
      → (row : Row) × (r ≡ ok row) × (read_count driver row ≡ ok n)
  after_update-ok (ok row) retries delay n h = (row, refl, cc)
  after_update-ok (err e) retries delay n h = absurd (after_error-ne _ retries delay n h)
  after_update-ok panicked retries delay n h = absurd (cc)

  -- A call that returns a number in this step returns a new one.
  step-row :
      (p : Pc Client) (w : W) (n : ℕ)
      → (step driver store p w).0 ≡ done (ok n)
      → (p ≡ done (ok n)) ⊎ ((stored w < n) × (n ≤ stored (step driver store p w).1))
  unfolding step
  step-row (connecting retries delay) w n h = absurd (after_connect-ne _ retries delay n h)
  step-row (updating client retries delay) w n h =
      let (row, given, count) = after_update-ok _ retries delay n h in
      let new = update_row client w row n given (read_count-ok driver row n count) in
      inr (new.0, new.1)
  step-row (reconnecting retries delay) w n h = absurd (after_reconnect-ne _ retries delay n h)
  step-row (initializing client retries delay) w n h = absurd (after_init-ne _ retries delay n h)
  step-row (sleeping retries delay) w n h = absurd (cc)
  step-row (done r) w n h = inl h

  -- The numbers returned so far are stored, and no two calls have the same one.
  record Inv (c : Cluster W Client) : Type 0 where
    bounded : (i n : ℕ) → c.pc i ≡ done (ok n) → n ≤ stored c.world
    distinct : (i j n : ℕ) → c.pc i ≡ done (ok n) → c.pc j ≡ done (ok n) → i ≡ j

  -- A call that has returned a number after a move of the call `i` had done so before, or is `i` and
  -- its number is new.
  move-row :
      (c : Cluster W Client) (i j n : ℕ)
      → (move driver store i c).pc j ≡ done (ok n)
      → (c.pc j ≡ done (ok n))
        ⊎ ((j ≡ i) × (stored c.world < n) × (n ≤ stored (move driver store i c).world))
  move-row c i j n h = elim (Bool-cases (j == i)) [
    | inl same ↦
        let here : j ≡ i = ground arith in
        elim (step-row (c.pc i) c.world n (rw same at h)) [
          | inl before ↦ inl (ap c.pc here ∙ before)
          | inr new ↦ inr (here, new.0, new.1)
        ]
    | inr other ↦ inl (rw other at h)
  ]

  move-Inv : (c : Cluster W Client) (i : ℕ) → Inv c → Inv (move driver store i c)
  move-Inv c i inv = record { bounded = bounded'; distinct = distinct' }
    where
      grows : stored c.world ≤ stored (move driver store i c).world
      grows = step-Grows (c.pc i) c.world

      bounded' :
          (j n : ℕ)
          → (move driver store i c).pc j ≡ done (ok n)
          → n ≤ stored (move driver store i c).world
      bounded' j n h = elim (move-row c i j n h) [
        | inl before ↦ omega (arith, grows, inv.bounded j n before)
        | inr new ↦ new.2
      ]

      distinct' :
          (j k n : ℕ)
          → (move driver store i c).pc j ≡ done (ok n)
          → (move driver store i c).pc k ≡ done (ok n)
          → j ≡ k
      distinct' j k n hj hk = elim (move-row c i j n hj) [
        | inl bj ↦ elim (move-row c i k n hk) [
          | inl bk ↦ inv.distinct j k n bj bk
          | inr nk ↦ absurd (omega (arith, inv.bounded j n bj, nk.1))
        ]
        | inr nj ↦ elim (move-row c i k n hk) [
          | inl bk ↦ absurd (omega (arith, inv.bounded k n bk, nj.1))
          | inr nk ↦ nj.0 ∙ sym nk.0
        ]
      ]

  Reach-Inv : {w : W} {c : Cluster W Client} → Reach driver store w c → Inv c
  Reach-Inv start = record { bounded = λ i n h. absurd (cc); distinct = λ i j n h k. absurd (cc) }
  Reach-Inv (later r i) = move-Inv _ i (Reach-Inv r)

  -- If the database behaves as documented, two calls never return the same number, on however many
  -- servers, however their steps interleave and whichever attempts fail.
  pub Reach-unique :
      (w : W) (c : Cluster W Client) (i j m n : ℕ)
      → Reach driver store w c
      → i ≢ j
      → c.pc i ≡ done (ok m)
      → c.pc j ≡ done (ok n)
      → m ≢ n
  Reach-unique w c i j m n r apart hi hj same =
      apart ((Reach-Inv r).distinct i j n (hi ∙ ap (λ k. done (ok k)) same) hj)
