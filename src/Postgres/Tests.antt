-- ===== src/Postgres/Tests.antt =====
-- Runs over the simulated database, and the theorems at concrete inputs.
use yral_onboarding_hello_wo.Prelude.{
  ◌≡◌, ◌<◌, ◌≤◌, ◌≢◌, ℕ, ap, refl, none, some, [], ◌∷◌, codes, ok, err, text_eq,
}
use yral_onboarding_hello_wo.Domain.{u64_mod}
use yral_onboarding_hello_wo.Application.{counter, unavailable}
use yral_onboarding_hello_wo.Application.Contract.{Fresh, visits, visit, check, visits-Fresh}
use yral_onboarding_hello_wo.Postgres.{
  PostgresCounterStore, init_sql, update_sql, attempt, new_client, connect_client, reinitialize,
  read_count, next_visitor_count, retry_loop, postgres_store,
}
use yral_onboarding_hello_wo.Postgres.Database.{next_visitor_count-fresh, postgres_store-IsCounter}
use yral_onboarding_hello_wo.Postgres.Spending.{next_visitor_count-bounded}
use yral_onboarding_hello_wo.Postgres.Steps.{connecting, done, step, steps}
use yral_onboarding_hello_wo.Postgres.Steps.Refinement.{steps-next_visitor_count}
use yral_onboarding_hello_wo.Postgres.Cluster.{
  Cluster, waiting, move, Reach, start, later, Reach-unique,
}
use yral_onboarding_hello_wo.Postgres.Backoff.{logged, BacksOff, next_visitor_count-BacksOff}
use yral_onboarding_hello_wo.Postgres.Simulation.{
  Sim, works, refused, lost, sim_driver, sim_stored, sim-IsDatabase, sim-IsQuiet,
}

abbrev store : PostgresCounterStore
store = record { connection_string = codes "postgres://counter@db/visitor_counter" }

-- The table is missing: the first attempt fails, and the second finds it created.
recovers :
    next_visitor_count sim_driver store (record { value = none; plan = [] })
    ≡ (ok 1, record { value = some 1; plan = [] })
unfolding next_visitor_count retry_loop attempt new_client connect_client reinitialize read_count
    init_sql update_sql text_eq
recovers = refl

abbrev two_lost : Sim
two_lost = record { value = some 4; plan = lost ∷ refused ∷ works ∷ [] }

-- A lost reply is retried: one visit takes two numbers, and the first is never shown.
skips : next_visitor_count sim_driver store two_lost ≡ (ok 6, record { value = some 6; plan = [] })
unfolding next_visitor_count retry_loop attempt new_client connect_client reinitialize read_count
    init_sql update_sql text_eq
skips = refl

-- Four refusals end the call; a fifth attempt is not made.
gives_up_after_four :
    next_visitor_count sim_driver store
      (record { value = some 4; plan = refused ∷ refused ∷ refused ∷ refused ∷ works ∷ [] })
    ≡ (err (unavailable (codes "db error")), record { value = some 4; plan = works ∷ [] })
unfolding next_visitor_count retry_loop attempt new_client connect_client reinitialize read_count
    init_sql update_sql text_eq
gives_up_after_four = refl

next_visitor_count-fresh_example :
    (4 < 6) × (6 ≤ sim_stored (next_visitor_count sim_driver store two_lost).1) × (6 < u64_mod)
next_visitor_count-fresh_example =
    next_visitor_count-fresh sim-IsDatabase store two_lost 6 (ap (λ r. r.0) skips)

next_visitor_count-BacksOff_example :
    BacksOff sim_driver 3 250
      (record { world = two_lost; slept = []; queries = 0 })
      (next_visitor_count
        (logged sim_driver)
        store
        (record { world = two_lost; slept = []; queries = 0 }))
next_visitor_count-BacksOff_example =
    next_visitor_count-BacksOff sim_driver store
      (record { world = two_lost; slept = []; queries = 0 })

visits-Fresh_example : Fresh 4 (
    visits
      (record { mode = counter; counter_store = postgres_store sim_driver store })
      (visit ∷ check ∷ visit ∷ [])
      two_lost)
visits-Fresh_example =
    visits-Fresh (postgres_store-IsCounter sim-IsDatabase store) counter
      (visit ∷ check ∷ visit ∷ []) two_lost tt

next_visitor_count-bounded_example :
    (4 ≤ sim_stored (next_visitor_count sim_driver store two_lost).1)
    × (sim_stored (next_visitor_count sim_driver store two_lost).1 ≤ 8)
next_visitor_count-bounded_example =
    next_visitor_count-bounded sim-IsQuiet sim-IsDatabase store two_lost

steps-next_visitor_count_example : steps sim_driver store 17 (connecting 3 250, two_lost) ≡ (
  done (next_visitor_count sim_driver store two_lost).0,
  (next_visitor_count sim_driver store two_lost).1,
)
steps-next_visitor_count_example = steps-next_visitor_count sim_driver store two_lost

-- Two calls whose steps alternate, over the row with the value 4.
abbrev quiet_row : Sim
quiet_row = record { value = some 4; plan = [] }

abbrev alternated : Cluster Sim (Unit {0})
alternated = move sim_driver store 1 (
    move sim_driver store 0
      (move sim_driver store 1 (move sim_driver store 0 (waiting sim_driver store quiet_row))))

alternated-Reach : Reach sim_driver store quiet_row alternated
alternated-Reach = later (later (later (later start 0) 1) 0) 1

alternated_first : alternated.pc 0 ≡ done (ok 5)
unfolding step new_client connect_client read_count update_sql text_eq
alternated_first = refl

alternated_second : alternated.pc 1 ≡ done (ok 6)
unfolding step new_client connect_client read_count update_sql text_eq
alternated_second = refl

Reach-unique_example : ◌≢◌ {A = ℕ} 5 6
Reach-unique_example =
    Reach-unique sim-IsDatabase store quiet_row alternated 0 1 5 6 alternated-Reach (λ e. cc)
      alternated_first alternated_second
