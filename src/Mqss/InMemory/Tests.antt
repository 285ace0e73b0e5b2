-- ===== src/Mqss/InMemory/Tests.antt =====
-- The in-memory transport at concrete inputs.
use mqss_integration_deploym.Base.{
  true, false, ◌≡◌, refl, List, [], ◌∷◌, ◌++◌, none, some, arith, string_eq,
}
use mqss_integration_deploym.Dict.{find}
use mqss_integration_deploym.Mqss.Status
use mqss_integration_deploym.Mqss.Status.{Status, value, unexpected}
use mqss_integration_deploym.Mqss.Message.{Address, Envelope, blank_envelope}
use mqss_integration_deploym.Mqss.Transport.{default_receive_args, default_send_args, manual}
use mqss_integration_deploym.Mqss.InMemory.{
  State, new_state, send, receive, queue_at, Other, sends, takes, shuts, Event, other, woken,
  elapsed, returned, message_from_envelope, perform,
}
use mqss_integration_deploym.Mqss.InMemory.Laws.{IsValid}
use mqss_integration_deploym.Mqss.InMemory.History.{run, accepted, delivered, history-conserves}
use mqss_integration_deploym.Mqss.InMemory.Receive.{Delivers, receive-Delivers}
use mqss_integration_deploym.Mqss.InMemory.Liveness.{
  NoTimeout, Returns, receive-NoTimeout, receive_timed-Returns, receive_shuts-Returns,
}

abbrev jobs : Address
jobs = record { name = "jobs" }

abbrev nowhere : Address
nowhere = record { name = "" }

abbrev first : Envelope
first = record blank_envelope { payload = "1" }

abbrev second : Envelope
second = record blank_envelope { payload = "2" }

abbrev two_queued : State
two_queued = record { stopped = false; queues = ("jobs", first ∷ second ∷ []) ∷ [] }

abbrev emptied : State
emptied = record { stopped = false; queues = [] }

abbrev one_left : State
one_left = record { stopped = false; queues = ("jobs", second ∷ []) ∷ [] }

abbrev stopped_state : State
stopped_state = record two_queued { stopped = true }

abbrev busy : List Other
busy = sends jobs first ∷ sends jobs second ∷ takes "jobs" ∷ shuts ∷ takes "jobs" ∷ []

abbrev schedule : List Event
schedule = woken ∷ other (sends jobs first) ∷ other (sends jobs second) ∷ woken ∷ elapsed ∷ []

-- A receive that waits is woken once for nothing and then finds the first envelope.
waits_for_first :
    receive {S = Unit {0}} jobs default_receive_args (some new_state) schedule
    ≡ returned (value (message_from_envelope first)) (some one_left) (elapsed ∷ [])
unfolding receive
waits_for_first = refl

-- The second of two takes finds the transport stopped.
delivered_before_stop : delivered "jobs" busy new_state ≡ first ∷ []
unfolding delivered perform
delivered_before_stop = refl

receive-Delivers_example : Delivers "jobs" new_state schedule first (some one_left) (elapsed ∷ [])
receive-Delivers_example =
    receive-Delivers {S = Unit {0}} jobs default_receive_args new_state schedule waits_for_first

history-conserves_example :
    queue_at "jobs" new_state.queues ++ accepted "jobs" busy new_state
    ≡ delivered "jobs" busy new_state ++ queue_at "jobs" (run busy new_state).queues
history-conserves_example = history-conserves "jobs" busy new_state

two_queued-IsValid : IsValid two_queued.queues
unfolding find
two_queued-IsValid = record { distinct = ground arith; nonempty = λ name h. ground arith }

receive-NoTimeout_example : NoTimeout (
    receive {S = Unit {0}} jobs
      (record { timeout = none; ack_mode = manual })
      (some new_state)
      (elapsed ∷ woken ∷ other shuts ∷ woken ∷ []))
receive-NoTimeout_example =
    receive-NoTimeout (Unit {0}) jobs manual new_state (elapsed ∷ woken ∷ other shuts ∷ woken ∷ [])

receive_timed-Returns_example : Returns (
    receive {S = Unit {0}} jobs
      (record { timeout = some 500; ack_mode = manual })
      (some new_state)
      ((woken ∷ other (sends nowhere first) ∷ []) ++ elapsed ∷ woken ∷ []))
receive_timed-Returns_example =
    receive_timed-Returns (Unit {0}) jobs 500 manual new_state
      (woken ∷ other (sends nowhere first) ∷ []) (woken ∷ [])

receive_shuts-Returns_example : Returns (
    receive {S = Unit {0}} jobs default_receive_args
      (some new_state)
      ((woken ∷ []) ++ other shuts ∷ ((elapsed ∷ []) ++ woken ∷ [])))
receive_shuts-Returns_example =
    receive_shuts-Returns (Unit {0}) jobs default_receive_args new_state (woken ∷ []) (elapsed ∷ [])
      []

refused :
    (send jobs first default_send_args (some stopped_state)).0
    ≡ Status.unavailable "transport shut down"
unfolding send
refused = refl
