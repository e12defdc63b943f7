-- ===== src/Config/Fields.antt =====
-- Which environments are accepted, and the configuration that each gives.
use yral_onboarding_hello_wo.Prelude.{
  ℕ, ◌≡◌, ◌≢◌, ◌≤◌, ◌⊎◌, ◌↔◌, List, [], Option, none, some, Text, codes, text_eq_iff, ok, All,
  arith,
}
use yral_onboarding_hello_wo.Decimal.{max_u16}
use yral_onboarding_hello_wo.Decimal.Laws.{IsDigit, digits_of, value, parse_u16_iff}
use yral_onboarding_hello_wo.Application.{GreetingMode, plain, counter}
use yral_onboarding_hello_wo.Config.{
  AppConfig, CounterStoreConfig, memory, postgres, Values, get, collect, unwrap_or, parse_port,
  parse_greeting_mode, parse_counter_store, from_values, from_pairs,
}

abbrev pub PortOf : Option Text → ℕ → Type 0
PortOf none port = port ≡ 3000
PortOf (some t) port =
    (t ≢ []) × All IsDigit (digits_of t) × (value 0 (digits_of t) ≡ port) × (port ≤ max_u16)

abbrev pub ModeOf : Option Text → GreetingMode → Type 0
ModeOf none mode = mode ≡ plain
ModeOf (some t) mode =
    ((t ≡ codes "plain") × (mode ≡ plain)) ⊎ ((t ≡ codes "counter") × (mode ≡ counter))

abbrev pub StoreOf : Option Text → Option Text → CounterStoreConfig → Type 0
StoreOf none url store = store ≡ memory
StoreOf (some t) url store =
    ((t ≡ codes "memory") × (store ≡ memory))
    ⊎ ((t ≡ codes "postgres") × ((u : Text) × (url ≡ some u) × (store ≡ postgres u)))

-- What each field says of the environment.
pub record Describes (values : Values) (c : AppConfig) : Type 0 where
  pub host : c.host ≡ unwrap_or (get (codes "APP_HOST") values) (codes "127.0.0.1")
  pub port : PortOf (get (codes "APP_PORT") values) c.port
  pub server_label : c.server_label ≡ unwrap_or (get (codes "SERVER_LABEL") values) (codes "local")
  pub greeting_mode : ModeOf (get (codes "GREETING_MODE") values) c.greeting_mode
  pub counter_store :
      StoreOf
        (get (codes "COUNTER_STORE") values)
        (get (codes "DATABASE_URL") values)
        c.counter_store

pub parse_port_iff : (t : Option Text) (port : ℕ) → (parse_port t ≡ ok port) ↔ PortOf t port
unfolding parse_port
parse_port_iff none port = ground arith
parse_port_iff (some t) port = ground (arith, parse_u16_iff t port)

pub parse_greeting_mode_iff :
    (t : Option Text) (mode : GreetingMode) → (parse_greeting_mode t ≡ ok mode) ↔ ModeOf t mode
unfolding parse_greeting_mode
parse_greeting_mode_iff none mode = ground arith
parse_greeting_mode_iff (some t) mode =
    ground (arith, text_eq_iff t (codes "plain"), text_eq_iff t (codes "counter"))

parse_counter_store_iff :
    (t url : Option Text) (store : CounterStoreConfig)
    → (parse_counter_store t url ≡ ok store) ↔ StoreOf t url store
unfolding parse_counter_store
parse_counter_store_iff none url store = ground arith
parse_counter_store_iff (some t) none store =
    ground (arith, text_eq_iff t (codes "memory"), text_eq_iff t (codes "postgres"))
parse_counter_store_iff (some t) (some u) store =
    ground (arith, text_eq_iff t (codes "memory"), text_eq_iff t (codes "postgres"))

-- The three fields that can fail, and the two that cannot.
record Parses (values : Values) (c : AppConfig) : Type 0 where
  host : c.host ≡ unwrap_or (get (codes "APP_HOST") values) (codes "127.0.0.1")
  port : parse_port (get (codes "APP_PORT") values) ≡ ok c.port
  server_label : c.server_label ≡ unwrap_or (get (codes "SERVER_LABEL") values) (codes "local")
  greeting_mode : parse_greeting_mode (get (codes "GREETING_MODE") values) ≡ ok c.greeting_mode
  counter_store :
      parse_counter_store (get (codes "COUNTER_STORE") values) (get (codes "DATABASE_URL") values)
      ≡ ok c.counter_store

from_values-Parses : (values : Values) (c : AppConfig) → from_values values ≡ ok c → Parses values c
unfolding from_values
from_values-Parses values c e = ground arith

Parses-from_values : (values : Values) (c : AppConfig) → Parses values c → from_values values ≡ ok c
unfolding from_values
Parses-from_values values c p = ground arith

-- An environment is accepted exactly with the configuration that it describes, the last pair with a
-- key counting: a port is a decimal number of sixteen bits, the mode and the store are two known
-- words each, a Postgres store has its database address, and what is not set has its default.
pub from_pairs_iff :
    (pairs : List (Text × Text)) (c : AppConfig)
    → (from_pairs pairs ≡ ok c) ↔ Describes (collect pairs) c
unfolding from_pairs
from_pairs_iff pairs c = (to, from)
  where
    values : Values
    values = collect pairs

    to : from_values values ≡ ok c → Describes values c
    to e =
        let p = from_values-Parses values c e in
        record {
          host = p.host;
          port = (parse_port_iff _ _).0 p.port;
          server_label = p.server_label;
          greeting_mode = (parse_greeting_mode_iff _ _).0 p.greeting_mode;
          counter_store = (parse_counter_store_iff _ _ _).0 p.counter_store;
        }

    from : Describes values c → from_values values ≡ ok c
    from d = Parses-from_values values c (record {
      host = d.host;
      port = (parse_port_iff _ _).1 d.port;
      server_label = d.server_label;
      greeting_mode = (parse_greeting_mode_iff _ _).1 d.greeting_mode;
      counter_store = (parse_counter_store_iff _ _ _).1 d.counter_store;
    })
