-- ===== src/Application/Tests.antt =====
-- The service over a store that always gives the same number, and the theorems at it.
use yral_onboarding_hello_wo.Prelude.{
  ℕ, ◌<◌, ◌≡◌, ◌↔◌, ◌⊎◌, refl, ok, err, codes, return, some, none,
}
use yral_onboarding_hello_wo.Domain.{
  numbered, invalid_visitor_count, new_visitor_count, HelloResponse, HealthResponse, message,
}
use yral_onboarding_hello_wo.Decimal.{display}
use yral_onboarding_hello_wo.Application.{
  CounterStore, CounterStoreError, ApplicationError, counter_store, greeting, plain, counter, hello,
  health,
}
use yral_onboarding_hello_wo.Application.Service.{
  respond, hello_counter-ok_iff, hello_counter-err_iff, health-ok_iff,
}

-- `FakeStore` of the service's tests.
abbrev fake_store : ℕ → CounterStore (Unit {0})
fake_store n = record {
  next_visitor_count = return n;
  health = return tt;
  storage_name = codes "postgres";
}

abbrev seventh : HelloResponse
seventh = respond (numbered (record { value = 7 }))

counter_mode : hello (record { mode = counter; counter_store = fake_store 7 }) tt ≡ (
  ok (record {
    message = codes "Hello visitor. You are the 7'th visitor to this page";
    visitor_count = some 7;
  }),
  tt,
)
unfolding hello new_visitor_count message display
counter_mode = refl

plain_mode :
    hello (record { mode = plain; counter_store = fake_store 99 }) tt
    ≡ (ok (record { message = codes "Hello World"; visitor_count = none }), tt)
unfolding hello message
plain_mode = refl

hello_counter-ok_iff_example :
    ((hello (record { mode = counter; counter_store = fake_store 7 }) tt).0 ≡ ok seventh) ↔ (
      (n : ℕ) × (((fake_store 7).next_visitor_count tt).0 ≡ ok n)
      × (0 < n)
      × (seventh ≡ respond (numbered (record { value = n }))))
hello_counter-ok_iff_example = hello_counter-ok_iff (fake_store 7) tt seventh

hello_counter-err_iff_example :
    ((hello (record { mode = counter; counter_store = fake_store 0 }) tt).0
      ≡ err (greeting invalid_visitor_count))
    ↔ (((x : CounterStoreError) × (((fake_store 0).next_visitor_count tt).0 ≡ err x)
          × (◌≡◌ {A = ApplicationError} (greeting invalid_visitor_count) (counter_store x)))
        ⊎ ((((fake_store 0).next_visitor_count tt).0 ≡ ok 0)
            × (◌≡◌ {A = ApplicationError}
                (greeting invalid_visitor_count)
                (greeting invalid_visitor_count))))
hello_counter-err_iff_example =
    hello_counter-err_iff (fake_store 0) tt (greeting invalid_visitor_count)

abbrev healthy : HealthResponse
healthy = record { status = codes "ok"; storage = codes "postgres" }

health-ok_iff_example :
    ((health (record { mode = plain; counter_store = fake_store 1 }) tt).0 ≡ ok healthy) ↔ (
      (((fake_store 1).health tt).0 ≡ ok tt)
      × (healthy ≡ record { status = codes "ok"; storage = codes "postgres" }))
health-ok_iff_example = health-ok_iff (fake_store 1) plain tt healthy
