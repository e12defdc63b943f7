-- ===== src/Server/State.antt =====
-- The state of the process, and programs and stores that work on a part of it.
use yral_onboarding_hello_wo.Prelude.{ℕ, Program}
use yral_onboarding_hello_wo.Application.{CounterStore}

pub record Process (W : Type 0) : Type 0 where
  pub counter : ℕ
  pub world : W

module _ {W E A : Type 0} where
  abbrev pub on_counter : Program ℕ E A → Program (Process W) E A
  on_counter m p = let (r, n) = m p.counter in (r, record p { counter = n })

  abbrev pub on_world : Program W E A → Program (Process W) E A
  on_world m p = let (r, w) = m p.world in (r, record p { world = w })

module _ {W : Type 0} where
  abbrev pub counter_store_of : CounterStore ℕ → CounterStore (Process W)
  counter_store_of store = record {
    next_visitor_count = on_counter store.next_visitor_count;
    health = on_counter store.health;
    storage_name = store.storage_name;
  }

  abbrev pub world_store_of : CounterStore W → CounterStore (Process W)
  world_store_of store = record {
    next_visitor_count = on_world store.next_visitor_count;
    health = on_world store.health;
    storage_name = store.storage_name;
  }
