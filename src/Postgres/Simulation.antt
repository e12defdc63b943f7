-- ===== src/Postgres/Simulation.antt =====
-- A concrete driver: one row in memory, and a plan of what goes wrong with each update. It shows
-- that the assumptions on a database can be met, and it runs in the tests.
use yral_onboarding_hello_wo.Prelude.{
  ℕ, ◌+◌, ◌^◌, ◌≤◌, ◌<◌, ◌≡◌, arith, Option, none, some, ltb, if◌then◌else◌, pos, Text, codes,
  text_eq, text_eq_refl, List, [], ◌∷◌, Outcome, ok, err, Bool-cases, inl, inr,
}
use yral_onboarding_hello_wo.Postgres.{Driver, init_sql, update_sql, select_sql}
use yral_onboarding_hello_wo.Postgres.Database.{IsDatabase}
use yral_onboarding_hello_wo.Postgres.Spending.{IsQuiet}

-- An update works, is refused, or is committed with its reply lost.
pub data Fate : Type 0 where
  works refused lost : Fate

pub record Sim : Type 0 where
  pub value : Option ℕ
  pub plan : List Fate

abbrev pub sim_stored : Sim → ℕ
sim_stored s = elim s.value [ none ↦ 0 | some n ↦ n ]

abbrev failure : Text
failure = codes "db error"

abbrev sim_update : List Fate → Option ℕ → Outcome Text ℕ × Sim
sim_update plan none = (err failure, record { value = none; plan = plan })
sim_update (refused ∷ plan) (some n) = (err failure, record { value = some n; plan = plan })
sim_update (lost ∷ plan) (some n) =
    if ltb (n + 1) (2 ^ 63)
    then (err failure, record { value = some (n + 1); plan = plan })
    else (err failure, record { value = some n; plan = plan })
sim_update (works ∷ plan) (some n) =
    if ltb (n + 1) (2 ^ 63)
    then (ok (n + 1), record { value = some (n + 1); plan = plan })
    else (err failure, record { value = some n; plan = plan })
sim_update [] (some n) =
    if ltb (n + 1) (2 ^ 63)
    then (ok (n + 1), record { value = some (n + 1); plan = [] })
    else (err failure, record { value = some n; plan = [] })

abbrev sim_init : Option ℕ → Option ℕ
sim_init none = some 0
sim_init (some n) = some n

abbrev pub sim_driver : Driver Sim (Unit {0}) (Unit {0}) ℕ Text
sim_driver = record {
  connect = λ _ s. (ok (tt, tt), s);
  spawn = λ _ s. s;
  batch_execute = λ _ sql s.
      if text_eq sql init_sql then (ok tt, record s { value = sim_init s.value }) else (ok tt, s);
  query_one = λ _ sql s. if text_eq sql update_sql then sim_update s.plan s.value else (ok 1, s);
  get_i64 = λ row. some (pos row);
  describe = λ text. text;
  sleep = λ _ s. s;
}

sim_update_grows :
    (plan : List Fate) (v : Option ℕ)
    → sim_stored (record { value = v; plan = plan }) ≤ sim_stored (sim_update plan v).1
sim_update_grows plan none = ground arith
sim_update_grows [] (some n) = ground arith
sim_update_grows (works ∷ plan) (some n) = ground arith
sim_update_grows (refused ∷ plan) (some n) = ground arith
sim_update_grows (lost ∷ plan) (some n) = ground arith

sim_update_row :
    (plan : List Fate) (v : Option ℕ) (n : ℕ)
    → (sim_update plan v).0 ≡ ok n
    → (sim_stored (record { value = v; plan = plan }) < n)
      × (n ≤ sim_stored (sim_update plan v).1)
      × (n < 2 ^ 63)
sim_update_row plan none n e = absurd (cc)
sim_update_row [] (some m) n e = ground arith
sim_update_row (works ∷ plan) (some m) n e = ground arith
sim_update_row (refused ∷ plan) (some m) n e = absurd (cc)
sim_update_row (lost ∷ plan) (some m) n e = ground arith

sim_init_grows :
    (plan : List Fate) (v : Option ℕ)
    → sim_stored (record { value = v; plan = plan })
      ≤ sim_stored (record { value = sim_init v; plan = plan })
sim_init_grows plan none = omega arith
sim_init_grows plan (some n) = omega arith

pub sim-IsDatabase : IsDatabase sim_driver sim_stored
sim-IsDatabase = record {
  connect_grows = λ s. record { apply = λ w. omega arith };
  spawn_grows = λ c w. omega arith;
  sleep_grows = λ ms w. omega arith;
  init_grows =
      λ c. record { apply = λ w. rw (text_eq_refl init_sql) (sim_init_grows w.plan w.value) };
  select_grows = λ c. record {
    apply = λ w. elim (Bool-cases (text_eq select_sql update_sql)) [
      | inl same ↦ rw same (sim_update_grows w.plan w.value)
      | inr other ↦ rw other (omega arith)
    ];
  };
  update_grows =
      λ c. record { apply = λ w. rw (text_eq_refl update_sql) (sim_update_grows w.plan w.value) };
  update_row = λ c w row n e q.
      let same : row ≡ n = cc in
      rw (text_eq_refl update_sql)
        (sim_update_row w.plan w.value n (rw (text_eq_refl update_sql, same) at e));
}

sim_update_bounded :
    (plan : List Fate) (v : Option ℕ)
    → sim_stored (sim_update plan v).1 ≤ sim_stored (record { value = v; plan = plan }) + 1
sim_update_bounded plan none = ground arith
sim_update_bounded [] (some n) = ground arith
sim_update_bounded (works ∷ plan) (some n) = ground arith
sim_update_bounded (refused ∷ plan) (some n) = ground arith
sim_update_bounded (lost ∷ plan) (some n) = ground arith

sim_init_keeps :
    (v : Option ℕ) (plan : List Fate)
    → sim_stored (record { value = sim_init v; plan = plan })
      ≡ sim_stored (record { value = v; plan = plan })
sim_init_keeps none plan = omega arith
sim_init_keeps (some n) plan = omega arith

pub sim-IsQuiet : IsQuiet sim_driver sim_stored
sim-IsQuiet = record {
  connect_keeps = λ s. record { apply = λ w. omega arith };
  spawn_keeps = λ c w. omega arith;
  sleep_keeps = λ ms w. omega arith;
  init_keeps =
      λ c. record { apply = λ w. rw (text_eq_refl init_sql) (sim_init_keeps w.value w.plan) };
  update_bounded = λ c w. rw (text_eq_refl update_sql) (sim_update_bounded w.plan w.value);
}
