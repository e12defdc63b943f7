-- ===== src/Config/Tests.antt =====
-- Runs of the crate's tests, and the theorems at concrete inputs.
use yral_onboarding_hello_wo.Prelude.{◌≡◌, ◌↔◌, refl, arith, [], ◌∷◌, ◌++◌, codes, text_eq, ok, err}
use yral_onboarding_hello_wo.Decimal.{is_digit, scan_u16, parse_u16, display_parse_error}
use yral_onboarding_hello_wo.Application.{plain, counter}
use yral_onboarding_hello_wo.Config.{
  AppConfig, memory, postgres, get, collect, collect_from, parse_port, parse_greeting_mode,
  parse_counter_store, from_values, from_pairs,
}
use yral_onboarding_hello_wo.Config.Fields.{Describes, from_pairs_iff}
use yral_onboarding_hello_wo.Config.Errors.{Rejected, from_pairs-Rejected}
use yral_onboarding_hello_wo.Config.RoundTrip.{to_pairs, from_pairs-to_pairs}

abbrev defaults : AppConfig
defaults = record {
  host = codes "127.0.0.1";
  port = 3000;
  server_label = codes "local";
  greeting_mode = plain;
  counter_store = memory;
}

abbrev deployed : AppConfig
deployed = record {
  host = codes "0.0.0.0";
  port = 3001;
  server_label = codes "server_2";
  greeting_mode = counter;
  counter_store = postgres (codes "postgres://counter@db/visitor_counter");
}

defaults_are_applied : from_pairs [] ≡ ok defaults
unfolding from_pairs from_values collect collect_from get parse_port parse_greeting_mode
    parse_counter_store
defaults_are_applied = refl

url_is_required :
    from_pairs ((codes "COUNTER_STORE", codes "postgres") ∷ [])
    ≡ err (codes "DATABASE_URL is required when COUNTER_STORE=postgres")
unfolding from_pairs from_values collect collect_from get parse_port parse_greeting_mode
    parse_counter_store text_eq
url_is_required = refl

-- The plus sign and leading zeros are accepted.
plus_sign : parse_u16 (codes "+08080") ≡ ok 8080
unfolding parse_u16 scan_u16 is_digit
plus_sign = refl

from_pairs_iff_example : (from_pairs [] ≡ ok defaults) ↔ Describes (collect []) defaults
from_pairs_iff_example = from_pairs_iff [] defaults

port_too_large :
    from_pairs ((codes "APP_PORT", codes "65536") ∷ [])
    ≡ err (codes "invalid APP_PORT: number too large to fit in target type")
unfolding from_pairs from_values collect collect_from get parse_port parse_u16 scan_u16 is_digit
    text_eq display_parse_error
port_too_large = refl

from_pairs-Rejected_example :
    Rejected
      (collect ((codes "APP_PORT", codes "65536") ∷ []))
      (codes "invalid APP_PORT: number too large to fit in target type")
from_pairs-Rejected_example =
    from_pairs-Rejected ((codes "APP_PORT", codes "65536") ∷ [])
      (codes "invalid APP_PORT: number too large to fit in target type") port_too_large

from_pairs-to_pairs_example :
    from_pairs ((codes "APP_PORT", codes "x") ∷ [] ++ to_pairs deployed) ≡ ok deployed
from_pairs-to_pairs_example =
    from_pairs-to_pairs ((codes "APP_PORT", codes "x") ∷ []) deployed (omega arith)
