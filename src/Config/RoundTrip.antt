-- ===== src/Config/RoundTrip.antt =====
-- Writing a configuration into the environment and reading it back.
use yral_onboarding_hello_wo.Prelude.{
  ℕ, ◌≡◌, ◌≤◌, refl, List, [], ◌∷◌, ◌++◌, some, Text, codes, text_eq, ok,
}
use yral_onboarding_hello_wo.Decimal.{display, max_u16}
use yral_onboarding_hello_wo.Decimal.Laws.{parse_u16-display}
use yral_onboarding_hello_wo.Application.{GreetingMode, plain, counter}
use yral_onboarding_hello_wo.Config.{
  AppConfig, CounterStoreConfig, memory, postgres, Values, get, collect, collect_from, parse_port,
  parse_greeting_mode, parse_counter_store, from_values, from_pairs,
}
use yral_onboarding_hello_wo.Config.Values.{collect-append}

abbrev mode_text : GreetingMode → Text
mode_text plain = codes "plain"
mode_text counter = codes "counter"

abbrev store_pairs : CounterStoreConfig → List (Text × Text)
store_pairs memory = (codes "COUNTER_STORE", codes "memory") ∷ []
store_pairs (postgres url) =
    (codes "COUNTER_STORE", codes "postgres") ∷ (codes "DATABASE_URL", url) ∷ []

-- The variables that set every field.
abbrev pub to_pairs : AppConfig → List (Text × Text)
to_pairs c =
    (codes "APP_HOST", c.host)
    ∷ (codes "APP_PORT", display c.port)
    ∷ (codes "SERVER_LABEL", c.server_label)
    ∷ (codes "GREETING_MODE", mode_text c.greeting_mode)
    ∷ store_pairs c.counter_store

port_lem : (port : ℕ) → port ≤ max_u16 → parse_port (some (display port)) ≡ ok port
unfolding parse_port
port_lem port h = rw (parse_u16-display port h)

mode_lem : (mode : GreetingMode) → parse_greeting_mode (some (mode_text mode)) ≡ ok mode
unfolding parse_greeting_mode text_eq
mode_lem plain = refl
mode_lem counter = refl

from_collected :
    (values : Values) (host label : Text) (port : ℕ) (mode : GreetingMode)
    (store : CounterStoreConfig)
    → port ≤ max_u16
    → from_values (
        collect_from values (
          to_pairs (record {
            host = host;
            port = port;
            server_label = label;
            greeting_mode = mode;
            counter_store = store;
          })))
      ≡ ok (record {
        host = host;
        port = port;
        server_label = label;
        greeting_mode = mode;
        counter_store = store;
      })
unfolding from_values collect_from get parse_counter_store text_eq
from_collected values host label port mode memory h = rw (port_lem port h) (rw (mode_lem mode))
from_collected values host label port mode (postgres url) h =
    rw (port_lem port h) (rw (mode_lem mode))

-- A configuration whose port is a `u16` is read back from the variables that set it, whatever other
-- variables, the same ones included, are set before them.
pub from_pairs-to_pairs :
    (others : List (Text × Text)) (c : AppConfig)
    → c.port ≤ max_u16
    → from_pairs (others ++ to_pairs c) ≡ ok c
unfolding from_pairs
from_pairs-to_pairs others c h =
    rw (collect-append others (to_pairs c)) (
      from_collected (collect others) c.host c.server_label c.port c.greeting_mode c.counter_store
        h)
