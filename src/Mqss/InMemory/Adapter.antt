-- ===== src/Mqss/InMemory/Adapter.antt =====
-- `createTransport<InMemory>`: the in-memory transport behind the interface of Transport.hpp, with the
-- schedule of what other threads do as a part of its state.
use mqss_integration_deploym.Base.{false, ◌≡◌, List, Option, none, some, arith, is_empty, string_eq}
use mqss_integration_deploym.Mqss.Status
use mqss_integration_deploym.Mqss.Status.{Status, Result, value, unexpected}
use mqss_integration_deploym.Mqss.Message.{Address, Envelope, Message}
use mqss_integration_deploym.Mqss.Transport.{Transport, SendArgs, default_send_args}
use mqss_integration_deploym.Mqss.InMemory
use mqss_integration_deploym.Mqss.InMemory.{
  State, Event, Received, returned, blocked, queue_at, new_state, push_back, take, ready, pop_front,
  finish, message_from_envelope,
}

-- The transport object with the schedule that it is used under.
pub record Handle : Type 0 where
  pub state : Option State
  pub schedule : List Event

abbrev pub handed : Received Handle → Option (Result (Message Handle) × Handle)
handed (returned result end rest) = some (result, record { state = end; schedule = rest })
handed (blocked s) = none

abbrev pub send_on : Address → Envelope → SendArgs → Handle → Status × Handle
send_on dest envelope args h =
    let (status, state) = InMemory.send dest envelope args h.state in
    (status, record h { state = state })

unfoldable pub in_memory : Transport Handle
unfolding InMemory.send InMemory.receive
in_memory = record {
  features = InMemory.features;
  send = send_on;
  receive = λ src args h. handed (InMemory.receive src args h.state h.schedule);
}

abbrev pub opened : State → List Event → Handle
opened s es = record { state = some s; schedule = es }

pub send-opened :
    (dest : Address) (e : Envelope) (s : State) (es : List Event)
    → is_empty dest.name ≡ false
    → s.stopped ≡ false
    → in_memory.send dest e default_send_args (opened s es)
      ≡ (Status.success, opened (push_back dest e s).1 es)
unfolding in_memory push_back
send-opened dest e s es n h = ground arith
