-- ===== src/TestSupport/TestApp/Watched.antt =====
-- The process of a test with a record of the `docker` commands: the network works beside the record.
use yral_onboarding_hello_wo.Prelude.{◌≡◌}
use yral_onboarding_hello_wo.Server.State.{Process}
use yral_onboarding_hello_wo.TestSupport.Harness.{Lab}
use yral_onboarding_hello_wo.TestSupport.Harness.Containers.{Sent, Watched}
use yral_onboarding_hello_wo.TestSupport.TestApp.{Host}

-- The process without the record of the commands, and a change of it with the record kept.
abbrev pub Seen : Type 0 → Type 0
Seen W = Process (Lab (Watched W))

abbrev pub sent_of : {W : Type 0} → Seen W → Sent
sent_of p = p.world.world.sent

abbrev pub forget : {W : Type 0} → Seen W → Process (Lab W)
forget p = record {
  counter = p.counter;
  world = record { harness_counter = p.world.harness_counter; world = p.world.world.world };
}

abbrev pub recall : {W : Type 0} → Sent → Process (Lab W) → Seen W
recall sent p = record {
  counter = p.counter;
  world = record {
    harness_counter = p.world.harness_counter;
    world = record { world = p.world.world; sent = sent };
  };
}

abbrev pub through : {W A : Type 0} → (Process (Lab W) → A × Process (Lab W)) → Seen W → A × Seen W
through f p = let (a, p') = f (forget p) in (a, recall (sent_of p) p')

abbrev pub Quietly : {W : Type 0} → Seen W → Seen W → Type 0
Quietly p p' = sent_of p' ≡ sent_of p

module _ {W R Listener Sender Receiver Handle : Type 0}
    (host : Host (Process (Lab W)) R Listener Sender Receiver Handle) where
  abbrev pub watched_host : Host (Seen W) R Listener Sender Receiver Handle
  watched_host = record {
    bind_any = through host.bind_any;
    local_addr = λ listener. through (host.local_addr listener);
    channel = through host.channel;
    serve = λ listener app receiver. through (host.serve listener app receiver);
    send = λ sender p. recall (sent_of p) (host.send sender (forget p));
    abort = λ handle p. recall (sent_of p) (host.abort handle (forget p));
  }
