-- ===== src/Mqss/Rabbit/Trace.antt =====
-- What a transport operation asks of the AMQP client: the client with a log of the calls made on it.
use mqss_integration_deploym.Base.{String, List, ◌∷◌}
use mqss_integration_deploym.Mqss.Rabbit.{Outcome, returned, threw}
use mqss_integration_deploym.Mqss.Rabbit.Client.{Client, Surroundings, Io}

pub data Action : Type 0 where
  creates acknowledges rejects : Action
  declares publishes gets : (queue : String) → Action
  -- The tag is that of the consumer that the call has opened.
  consumes : (queue tag : String) → Action
  refused : (queue : String) → Action
  cancels polls : (tag : String) → Action

-- The world with the calls made so far, the newest first.
abbrev pub Logged : Type 0 → Type 0
Logged W = W × List Action

abbrev pub noting : {W A : Type 0} → Action → Io W A → Io (Logged W) A
noting action m (w, log) = let (o, w') = m w in (o, (w', action ∷ log))

-- What a call of basic_consume has come to: a consumer with its tag, or none where the call has thrown.
abbrev pub consumption : String → Outcome String → Action
consumption queue (returned tag) = consumes queue tag
consumption queue (threw what) = refused queue

module _ {W Ch D M : Type 0} (client : Client W Ch D M) where
  abbrev pub logged : Client (Logged W) Ch D M
  logged = record {
    create = λ host port username password vhost.
        noting creates (client.create host port username password vhost);
    declare_queue = λ ch name. noting (declares name) (client.declare_queue ch name);
    basic_publish = λ ch key bm. noting (publishes key) (client.basic_publish ch key bm);
    basic_get = λ ch queue no_ack. noting (gets queue) (client.basic_get ch queue no_ack);
    basic_consume = λ ch queue no_ack (w, log).
        let (o, w') = client.basic_consume ch queue no_ack w in
        (o, (w', consumption queue o ∷ log));
    basic_cancel = λ ch tag. noting (cancels tag) (client.basic_cancel ch tag);
    basic_consume_message =
        λ ch tag ms. noting (polls tag) (client.basic_consume_message ch tag ms);
    basic_ack = λ ch d. noting acknowledges (client.basic_ack ch d);
    basic_reject = λ ch d again. noting rejects (client.basic_reject ch d again);
    message = client.message;
  }

abbrev pub seen : {W : Type 0} → Surroundings W → Surroundings (Logged W)
seen around = record {
  options = around.options;
  stopped = λ s. around.stopped s.0;
  clock = λ s. around.clock s.0;
  set_stopped = λ (w, log). (around.set_stopped w, log);
}
