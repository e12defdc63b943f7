-- ===== src/Server/Guarded.antt =====
-- The server behind its logs.
use yral_onboarding_hello_wo.Prelude.{
  ◌≡◌, ◌≢◌, refl, ap, ◌∙◌, inl, inr, Bool, true, false, List, [], ◌∷◌, Option, none, some,
  Option-cases, Text, codes, Outcome, Outcome-cases, ok, panicked,
}
use yral_onboarding_hello_wo.Postgres.{Driver}
use yral_onboarding_hello_wo.Http.{Router}
use yral_onboarding_hello_wo.Http.Framework.{Axum}
use yral_onboarding_hello_wo.Observability.{
  Tracing, ObservabilityGuard, Layer, filter_layer, fmt_layer, sentry_layer, client_options,
  init_with, init_observability, hooked,
}
use yral_onboarding_hello_wo.Server.{Features, Network, main, observed_main}
use yral_onboarding_hello_wo.Server.State.{Process}

module _ {W Client Connection Row Failure Response HeaderValue Address Listener : Type 0}
    {EnvFilter Failed ClientInitGuard : Type 0} (driver : Driver W Client Connection Row Failure)
    (checks : Bool) (axum : Axum Response HeaderValue)
    (network : Network (Process W) Address Listener (Router (Process W) HeaderValue))
    (tracing : Tracing (Process W) EnvFilter Failed ClientInitGuard) (features : Features)
    (env : Option (List (Text × Text))) (dsn : Option Text) where
  -- The filter of the environment, or the default where the environment has none that can be read.
  abbrev pub chosen : Process W → EnvFilter
  chosen l = elim (tracing.try_from_default_env l).0 [
    | ok filter ↦ filter
    | _ ↦ tracing.new_filter (codes "info")
  ]

  abbrev pub layers : Bool → EnvFilter → List (Layer EnvFilter)
  layers true filter = filter_layer filter ∷ fmt_layer false ∷ sentry_layer ∷ []
  layers false filter = filter_layer filter ∷ fmt_layer false ∷ []

  -- The logs with the subscriber, whether it could be installed or not.
  abbrev pub subscribed : Bool → Process W → Process W
  subscribed sentry l =
      (tracing.try_init (layers sentry (chosen l)) (tracing.try_from_default_env l).1).1

  -- The guard, behind the subscriber.
  abbrev opened : Bool → Process W → Outcome Text (ObservabilityGuard ClientInitGuard) × Process W
  opened true l =
      let (r, l') = tracing.sentry_init (client_options tracing dsn) l in
      (elim r [ none ↦ panicked | some client ↦ ok (record { sentry = some client }) ], l')
  opened false l = (ok (record { sentry = none }), l)

  init_with-opened :
      (sentry : Bool) (filter : EnvFilter) (l : Process W)
      → (tracing.try_init (layers sentry filter) l).0 ≢ panicked
      → init_with tracing {E = Text} sentry dsn filter l
        ≡ opened sentry (tracing.try_init (layers sentry filter) l).1
  init_with-opened true filter l installs =
      elim (Outcome-cases (tracing.try_init (layers true filter) l).0) [
        | inl (u, p) ↦
            elim (Option-cases
              (tracing.sentry_init (client_options tracing dsn)
                (tracing.try_init (layers true filter) l).1).0) [
                  | inl q ↦ rw p (rw q refl)
                  | inr (client, q) ↦ rw p (rw q refl)
                ]
        | inr (inl (e, p)) ↦
            elim (Option-cases
              (tracing.sentry_init (client_options tracing dsn)
                (tracing.try_init (layers true filter) l).1).0) [
                  | inl q ↦ rw p (rw q refl)
                  | inr (client, q) ↦ rw p (rw q refl)
                ]
        | inr (inr p) ↦ absurd (installs p)
      ]
  init_with-opened false filter l installs =
      elim (Outcome-cases (tracing.try_init (layers false filter) l).0) [
        | inl (u, p) ↦ rw p refl
        | inr (inl (e, p)) ↦ rw p refl
        | inr (inr p) ↦ absurd (installs p)
      ]

  opened-chosen :
      (sentry : Bool) (l : Process W) (filter : EnvFilter)
      → filter ≡ chosen l
      → opened sentry (tracing.try_init (layers sentry filter) (tracing.try_from_default_env l).1).1
        ≡ opened sentry (subscribed sentry l)
  opened-chosen sentry l filter same =
      ap
        (λ f.
          opened sentry (tracing.try_init (layers sentry f) (tracing.try_from_default_env l).1).1)
        same

  init_observability-subscribed :
      (sentry : Bool) (l : Process W)
      → ((l : Process W) → (tracing.try_from_default_env l).0 ≢ panicked)
      → ((ls : List (Layer EnvFilter)) (l : Process W) → (tracing.try_init ls l).0 ≢ panicked)
      → init_observability tracing {E = Text} sentry dsn l ≡ opened sentry (subscribed sentry l)
  unfolding init_observability
  init_observability-subscribed sentry l reads installs =
      elim (Outcome-cases (tracing.try_from_default_env l).0) [
        | inl (filter, p) ↦
            let same : filter ≡ chosen l = rw (p, chosen) refl in
            rw p
              (init_with-opened sentry filter _ (installs _ _) ∙ opened-chosen sentry l filter same)
        | inr (inl (e, p)) ↦
            let default : EnvFilter = tracing.new_filter (codes "info") in
            let same : default ≡ chosen l = rw (p, chosen) refl in
            rw p (
              init_with-opened sentry default _ (installs _ _)
              ∙ opened-chosen sentry l default same)
        | inr (inr p) ↦ absurd (reads l p)
      ]

  -- The rest of `main`, and the panic hook if it panics.
  abbrev pub rest : Process W → Outcome Text (Unit {0}) × Process W
  rest p = let (r, p') = main driver checks axum network features env p in (r, hooked tracing r p')

  -- What the server comes to with the feature `sentry`, by what `sentry::init` makes of the DSN.
  abbrev pub Guarded :
      {Event : Type 0}
      → (Process W → List Event)
      → Outcome Text (Unit {0}) × Process W
      → Option ClientInitGuard × Process W
      → Type 0
  Guarded pending observed (some client, p) =
      (observed.0 ≡ (rest p).0)
      × (observed.1 ≡ tracing.flush client (rest p).1)
      × (pending observed.1 ≡ [])
  Guarded pending observed (none, p) = observed ≡ (panicked, p)

  -- Where reading the filter and installing the subscriber do not panic, neither a filter that cannot be
  -- read nor a subscriber that cannot be installed stops the server: the rest of `main` runs on the
  -- state that they leave, and its outcome is that of the server. With the feature `sentry` it runs
  -- exactly if `sentry::init` accepts the DSN, or its absence, and is followed by the flush of the
  -- guard: if a flush leaves no event pending, then none is pending at the end, of those that `main`
  -- and a panic of it have added, whether it ends well, by an error or by a panic. If `sentry::init`
  -- panics, nothing of the rest has run.
  pub observed_main-Guarded :
      {Event : Type 0} (pending : Process W → List Event)
      → ((client : ClientInitGuard) (p : Process W) → pending (tracing.flush client p) ≡ [])
      → ((p : Process W) → (tracing.try_from_default_env p).0 ≢ panicked)
      → ((ls : List (Layer EnvFilter)) (p : Process W) → (tracing.try_init ls p).0 ≢ panicked)
      → (p : Process W)
      → (observed_main driver checks axum network tracing false dsn features env p
          ≡ rest (subscribed false p))
        × Guarded pending
            (observed_main driver checks axum network tracing true dsn features env p)
            (tracing.sentry_init (client_options tracing dsn) (subscribed true p))
  unfolding observed_main
  observed_main-Guarded pending flushes reads installs p = (
    rw (init_observability-subscribed false p reads installs) refl,
    rw (init_observability-subscribed true p reads installs)
        (elim (Option-cases
          (tracing.sentry_init (client_options tracing dsn) (subscribed true p)).0) [
            | inl q ↦ rw q refl
            | inr (client, q) ↦ rw q (refl, refl, flushes client _)
          ]),
  )
