-- ===== src/Observability.antt =====
-- crates/adapter-observability-tracing/src/lib.rs: the log subscriber and the Sentry client. The crates
-- `tracing_subscriber` and `sentry` are the parameter `Tracing`; `L` is what they read and change, which
-- is the state of the whole process in `main`.
use yral_onboarding_hello_wo.Prelude.{
  Bool, true, false, List, [], ◌∷◌, Option, none, some, Text, codes, Outcome, ok, err, panicked,
  Program, ◌>>=◌, ◌>>◌, return, ignore, expect,
}

-- The layers of the subscriber, in the order of `with`; that of `fmt` prints targets or not.
pub data Layer (EnvFilter : Type 0) : Type 0 where
  filter_layer : EnvFilter → Layer EnvFilter
  fmt_layer : Bool → Layer EnvFilter
  sentry_layer : Layer EnvFilter

-- The fields of `sentry::ClientOptions` that the code sets.
pub record ClientOptions : Type 0 where
  pub dsn : Option Text
  pub release : Option Text

pub record Tracing (L EnvFilter Failure ClientInitGuard : Type 0) : Type 0 where
  -- `EnvFilter::try_from_default_env` and `EnvFilter::new`.
  pub try_from_default_env : Program L Failure EnvFilter
  pub new_filter : Text → EnvFilter
  -- `try_init` of a registry with these layers.
  pub try_init : List (Layer EnvFilter) → Program L Failure (Unit {0})
  -- `sentry::init`, with `none` where it panics, behind the hook, and `sentry::release_name!`.
  pub sentry_init : ClientOptions → L → Option ClientInitGuard × L
  pub release_name : Option Text
  -- The drop of the guard, and what the panic hook does.
  pub flush : ClientInitGuard → L → L
  pub panic_hook : L → L

-- The one field of the guard, which is there with the feature `sentry` alone.
pub record ObservabilityGuard (ClientInitGuard : Type 0) : Type 0 where
  pub sentry : Option ClientInitGuard

-- `.unwrap_or_else(|_| …)`.
abbrev pub unwrap_or_else : {W E E' A : Type 0} → Program W E A → A → Program W E' A
unwrap_or_else m default w =
    let (r, w') = m w in (elim r [ ok a ↦ ok a | err _ ↦ ok default | panicked ↦ panicked ], w')

module _ {L EnvFilter Failure ClientInitGuard : Type 0}
    (tracing : Tracing L EnvFilter Failure ClientInitGuard) where
  abbrev pub client_options : Option Text → ClientOptions
  client_options none = record { dsn = none; release = none }
  client_options (some dsn) = record { dsn = some dsn; release = tracing.release_name }

  -- With and without the feature `sentry`, behind the filter.
  abbrev pub init_with :
      {E : Type 0}
      → Bool
      → Option Text
      → EnvFilter
      → Program L E (ObservabilityGuard ClientInitGuard)
  init_with true sentry_dsn env_filter = do
    ignore (tracing.try_init (filter_layer env_filter ∷ fmt_layer false ∷ sentry_layer ∷ []))
    guard ← (λ l. let (r, l') = tracing.sentry_init (client_options sentry_dsn) l in (expect r, l'))
    return (record { sentry = some guard })
  init_with false sentry_dsn env_filter = do
    ignore (tracing.try_init (filter_layer env_filter ∷ fmt_layer false ∷ []))
    return (record { sentry = none })

  unfoldable pub init_observability :
      {E : Type 0} → Bool → Option Text → Program L E (ObservabilityGuard ClientInitGuard)
  init_observability sentry sentry_dsn = do
    env_filter ← unwrap_or_else tracing.try_from_default_env (tracing.new_filter (codes "info"))
    init_with sentry sentry_dsn env_filter

  -- The drop of the guard.
  abbrev pub drop_guard : ObservabilityGuard ClientInitGuard → L → L
  drop_guard guard l = elim guard.sentry [ none ↦ l | some client ↦ tracing.flush client l ]

  -- The hook runs where the panic starts, before anything is dropped.
  abbrev pub hooked : {E A : Type 0} → Outcome E A → L → L
  hooked (ok a) l = l
  hooked (err e) l = l
  hooked panicked l = tracing.panic_hook l
