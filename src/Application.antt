-- ===== src/Application.antt =====
-- crates/application: the ports, the errors and `HelloWorldService`.
pub mod Service
pub mod Contract
mod Tests
use yral_onboarding_hello_wo.Prelude.{
  ℕ, none, some, ◌++◌, Text, codes, Program, ◌>>=◌, ◌>>◌, return, lift, rethrow,
}
use yral_onboarding_hello_wo.Domain.{
  new_visitor_count, GreetingError, display_greeting_error, Greeting, numbered, message,
  HelloResponse, HealthResponse,
}

pub data CounterStoreError : Type 0 where
  unavailable : Text → CounterStoreError

pub display_store_error : CounterStoreError → Text
display_store_error (unavailable message) = codes "counter store unavailable: " ++ message

pub data ApplicationError : Type 0 where
  counter_store : CounterStoreError → ApplicationError
  greeting : GreetingError → ApplicationError

pub display_application_error : ApplicationError → Text
display_application_error (counter_store e) = codes "counter store error: " ++ display_store_error e
display_application_error (greeting e) = codes "greeting error: " ++ display_greeting_error e

-- The trait: `W` is what a store's methods read and change.
pub record CounterStore (W : Type 0) : Type 0 where
  pub next_visitor_count : Program W CounterStoreError ℕ
  pub health : Program W CounterStoreError (Unit {0})
  pub storage_name : Text

pub data GreetingMode : Type 0 where
  plain counter : GreetingMode

-- `new` copies its two arguments: it is the record's literal.
pub record HelloWorldService (W : Type 0) : Type 0 where
  pub mode : GreetingMode
  pub counter_store : CounterStore W

module _ {W : Type 0} where
  hello_in : GreetingMode → CounterStore W → Program W ApplicationError HelloResponse
  hello_in plain store = return (record { message = message Greeting.plain; visitor_count = none })
  hello_in counter store = do
    next ← rethrow counter_store store.next_visitor_count
    count ← rethrow greeting (lift (new_visitor_count next))
    return (record { message = message (numbered count); visitor_count = some count.value })

  unfoldable pub hello : HelloWorldService W → Program W ApplicationError HelloResponse
  unfolding hello_in
  hello service = hello_in service.mode service.counter_store

  unfoldable pub health : HelloWorldService W → Program W ApplicationError HealthResponse
  health service = do
    rethrow counter_store (service.counter_store.health)
    return (record { status = codes "ok"; storage = service.counter_store.storage_name })
