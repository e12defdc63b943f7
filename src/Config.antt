-- ===== src/Config.antt =====
-- crates/adapter-config-env/src/lib.rs: the configuration read from the environment. Errors are the
-- texts of the `anyhow` errors.
pub mod Values
pub mod Fields
pub mod Errors
pub mod RoundTrip
mod Tests
use yral_onboarding_hello_wo.Prelude.{
  ℕ, ◌++◌, List, [], ◌∷◌, Option, none, some, Text, codes, text_eq, if◌then◌else◌, Outcome, ok, err,
  panicked, map_err, ok_or,
}
use yral_onboarding_hello_wo.Decimal.{parse_u16, display_parse_error}
use yral_onboarding_hello_wo.Application.{GreetingMode, plain, counter}

pub data CounterStoreConfig : Type 0 where
  memory : CounterStoreConfig
  postgres : Text → CounterStoreConfig

pub record AppConfig : Type 0 where
  pub host : Text
  pub port : ℕ
  pub server_label : Text
  pub greeting_mode : GreetingMode
  pub counter_store : CounterStoreConfig

-- A `HashMap` of strings: an insertion stands in front of the entries that it replaces.
abbrev pub Values : Type 0
Values = List (Text × Text)

unfoldable pub get : Text → Values → Option Text
get key [] = none
get key ((k, v) ∷ values) = if text_eq k key then some v else get key values

-- `collect`: the pairs are inserted in order.
unfoldable pub collect_from : Values → List (Text × Text) → Values
collect_from values [] = values
collect_from values ((key, value) ∷ pairs) = collect_from ((key, value) ∷ values) pairs

unfoldable pub collect : List (Text × Text) → Values
collect pairs = collect_from [] pairs

abbrev pub unwrap_or : Option Text → Text → Text
unwrap_or none default = default
unwrap_or (some value) default = value

infixl 5 ◌>>=◌
abbrev ◌>>=◌ : {E A B : Type 0} → Outcome E A → (A → Outcome E B) → Outcome E B
ok a >>= k = k a
err e >>= k = err e
panicked >>= k = panicked

unfoldable pub parse_port : Option Text → Outcome Text ℕ
parse_port none = ok 3000
parse_port (some value) =
    map_err (λ error. codes "invalid APP_PORT: " ++ display_parse_error error) (parse_u16 value)

unfoldable pub parse_greeting_mode : Option Text → Outcome Text GreetingMode
parse_greeting_mode none = ok plain
parse_greeting_mode (some value) =
    if text_eq value (codes "plain")
    then ok plain
    else if text_eq value (codes "counter")
    then ok counter
    else err (codes "invalid GREETING_MODE: " ++ value)

-- The match on `COUNTER_STORE`; the second argument is the value of `DATABASE_URL`.
unfoldable pub parse_counter_store : Option Text → Option Text → Outcome Text CounterStoreConfig
parse_counter_store none url = ok memory
parse_counter_store (some value) url =
    if text_eq value (codes "memory")
    then ok memory
    else if text_eq value (codes "postgres")
    then (do
      database_url ← ok_or url (codes "DATABASE_URL is required when COUNTER_STORE=postgres")
      ok (postgres database_url))
    else err (codes "invalid COUNTER_STORE: " ++ value)

-- `from_pairs`, behind the collection of the pairs.
unfoldable pub from_values : Values → Outcome Text AppConfig
from_values values = do
  let host = unwrap_or (get (codes "APP_HOST") values) (codes "127.0.0.1")
  port ← parse_port (get (codes "APP_PORT") values)
  greeting_mode ← parse_greeting_mode (get (codes "GREETING_MODE") values)
  counter_store ←
      parse_counter_store (get (codes "COUNTER_STORE") values) (get (codes "DATABASE_URL") values)
  ok (record {
    host = host;
    port = port;
    server_label = unwrap_or (get (codes "SERVER_LABEL") values) (codes "local");
    greeting_mode = greeting_mode;
    counter_store = counter_store;
  })

unfoldable pub from_pairs : List (Text × Text) → Outcome Text AppConfig
from_pairs pairs = from_values (collect pairs)

-- The variables are those of `std::env::vars()`, which panics on one that is not Unicode: `none`.
unfoldable pub from_env : Option (List (Text × Text)) → Outcome Text AppConfig
from_env none = panicked
from_env (some vars) = from_pairs vars
