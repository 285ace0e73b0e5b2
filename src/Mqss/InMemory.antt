-- ===== src/Mqss/InMemory.antt =====
-- src/transport/InMemoryTransport.cpp. Each function is what runs while the mutex is held; a receive
-- that waits meets a schedule of what happens until it gets the mutex back.
pub mod Laws
pub mod History
pub mod Waiting
pub mod Receive
pub mod Liveness
pub mod Sending
pub mod Adapter
mod Tests
use mqss_integration_deploym.Base.{
  String, Bool, true, false, not, ◌&&◌, ◌||◌, List, [], ◌∷◌, ◌++◌, Option, none, some, is_empty,
  is_nil, nat_beq, ℕ, string_eq, if◌then◌else◌,
}
use mqss_integration_deploym.Dict.{find, insert_or_assign, erase}
use mqss_integration_deploym.Mqss.Status
use mqss_integration_deploym.Mqss.Status.{Status, Result, value, unexpected}
use mqss_integration_deploym.Mqss.Message.{Address, Envelope, Message}
use mqss_integration_deploym.Mqss.Transport.{
  FeatureSet, feature_set, SendArgs, ReceiveArgs, AckMode,
}

-- `State`: the mutex is held by whoever runs, so it is no field.
pub record State : Type 0 where
  pub stopped : Bool
  pub queues : List (String × List Envelope)

-- `state_` of a new transport.
abbrev pub new_state : State
new_state = record { stopped = false; queues = [] }

pub features : FeatureSet
features = feature_set []

-- `state->queues[name]`, which makes an empty queue where there is none.
unfoldable pub queue_at : String → List (String × List Envelope) → List Envelope
unfolding find
queue_at name queues = elim (find name queues) [ none ↦ [] | some q ↦ q ]

-- The locked part of `send`.
unfoldable pub push_back : Address → Envelope → State → Status × State
unfolding queue_at insert_or_assign
push_back dest envelope s = if s.stopped then (Status.unavailable "transport shut down", s) else (
  Status.success,
  record s {
    queues = insert_or_assign dest.name (queue_at dest.name s.queues ++ envelope ∷ []) s.queues;
  },
)

-- `send`; the state is `none` where the shared pointer is null.
unfoldable pub send : Address → Envelope → SendArgs → Option State → Status × Option State
unfolding push_back
send dest envelope args state =
    if is_empty dest.name
    then (Status.invalid_argument "send destination name is empty", state)
    else if args.confirm
    then (Status.unsupported "send confirmation is not supported", state)
    else elim state [
      | none ↦ (Status.unavailable "transport not initialized", none)
      | some s ↦ let (status, s') = push_back dest envelope s in (status, some s')
    ]

-- `ready`, the condition of the wait.
unfoldable pub ready : String → State → Bool
unfolding queue_at
ready name s = s.stopped || not (is_nil (queue_at name s.queues))

abbrev pub message_from_envelope : {S : Type 0} → Envelope → Message S
message_from_envelope envelope = record { envelope = envelope; ack_impl = none; nack_impl = none }

-- The front of a queue that is not empty is taken; a queue that this leaves empty is erased.
unfoldable pub pop_front : String → Envelope → List Envelope → State → State
unfolding insert_or_assign erase
pop_front name front rest s = record s {
  queues = if is_nil rest then erase name s.queues else insert_or_assign name rest s.queues;
}

-- What `receive` does from the end of its wait on.
unfoldable pub take : {S : Type 0} → String → Bool → State → Result (Message S) × State
unfolding queue_at pop_front
take name waited_with_timeout s =
    if s.stopped
    then (unexpected (Status.unavailable "transport shut down"), s)
    else elim (queue_at name s.queues) [
      | [] ↦ (
        unexpected (
            Status.timeout
              (if waited_with_timeout then "receive timed out" else "no message received")),
        s,
      )
      | front ∷ rest ↦ (value (message_from_envelope front), pop_front name front rest s)
    ]

-- `shutdown`; notifying is a `woken` of the schedule below.
unfoldable pub stop : State → State
stop s = record s { stopped = true }

unfoldable pub shutdown : Option State → Option State
unfolding stop
shutdown none = none
shutdown (some s) = if s.stopped then some s else some (stop s)

-- What another thread does under the mutex.
pub data Other : Type 0 where
  sends : Address → Envelope → Other
  takes : String → Other
  shuts : Other

unfoldable pub perform : Other → State → State
unfolding push_back take stop
perform (sends dest envelope) s = (push_back dest envelope s).1
perform (takes name) s = (take {S = Unit {0}} name false s).1
perform shuts s = stop s

-- What happens while a receive waits: another thread acts, the waiting thread is woken and tests the
-- condition, or its timeout has passed.
pub data Event : Type 0 where
  other : Other → Event
  woken elapsed : Event

-- How a wait ends: with the mutex, or still waiting when the schedule is over.
pub data Waited : Type 0 where
  resumed : State → List Event → Waited
  waiting : State → Waited

-- `cv.wait(lock, ready)`, and `cv.wait_for(lock, timeout, ready)` where `timed`.
unfoldable pub wait : Bool → String → State → List Event → Waited
unfolding perform ready
wait timed name s [] = waiting s
wait timed name s (other o ∷ es) = wait timed name (perform o s) es
wait timed name s (woken ∷ es) =
    let rest = wait timed name s es in if ready name s then resumed s es else rest
wait timed name s (elapsed ∷ es) =
    let rest = wait timed name s es in if timed then resumed s es else rest

-- A receive returns with the state and the rest of the schedule, or waits for ever.
pub data Received (S : Type 0) : Type 0 where
  returned : Result (Message S) → Option State → List Event → Received S
  blocked : State → Received S

abbrev pub finish : {S : Type 0} → String → Bool → Waited → Received S
finish name timed (resumed s es) =
    let (result, s') = take name timed s in returned result (some s') es
finish name timed (waiting s) = blocked s

-- The wait that the timeout policy asks for, where the condition does not hold.
unfoldable pub receive_waiting : {S : Type 0} → String → Option ℕ → State → List Event → Received S
unfolding wait take
receive_waiting name none s es = finish name false (wait false name s es)
receive_waiting name (some timeout) s es =
    if nat_beq timeout 0
    then returned (unexpected (Status.timeout "no message received")) (some s) es
    else finish name true (wait true name s es)

unfoldable pub receive :
    {S : Type 0} → Address → ReceiveArgs → Option State → List Event → Received S
unfolding ready take receive_waiting
receive src args state es =
    if is_empty src.name
    then returned (unexpected (Status.invalid_argument "receive source name is empty")) state es
    else elim state [
      | none ↦ returned (unexpected (Status.unavailable "transport not initialized")) none es
      | some s ↦
          if ready src.name s
          then finish src.name false (resumed s es)
          else receive_waiting src.name args.timeout s es
    ]
