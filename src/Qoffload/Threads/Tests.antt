-- ===== src/Qoffload/Threads/Tests.antt =====
-- The workers of the service as threads, at concrete inputs.
use mqss_integration_deploym.Base.{ℕ, ◌≤◌, false, ◌≡◌, refl, List, [], ◌∷◌, some, arith, nat_eq}
use mqss_integration_deploym.Dict.{erase, find, insert_or_assign}
use mqss_integration_deploym.Mqss.Status
use mqss_integration_deploym.Mqss.Status.{Result, value}
use mqss_integration_deploym.Qoffload.Proto.{ApiRequest, TypedRequest}
use mqss_integration_deploym.Qoffload.TaskStore.{
  PendingTask, control_task, waiting, completed, not_found,
}
use mqss_integration_deploym.Qoffload.TaskStore.Laws.{IsValid}
use mqss_integration_deploym.Qoffload.Protocol.{get_task_status, task_status_result}
use mqss_integration_deploym.Qoffload.Control.{protocol_for}
use mqss_integration_deploym.Qoffload.Service
use mqss_integration_deploym.Qoffload.Service.{new_service}
use mqss_integration_deploym.Qoffload.Threads.State.{
  task_interface, control_interface, qrm_result, Threads, at_rest, registering, awaiting_result,
  responding, executing, taking, task_stopped, control_stopped, result_stopped,
}
use mqss_integration_deploym.Qoffload.Threads.Turns.{
  Turn, task_turn, control_turn, result_turn, stop_turn, turn, play, started,
}
use mqss_integration_deploym.Qoffload.Threads.Places.{places, given}
use mqss_integration_deploym.Qoffload.Threads.Once.{threads-one_place}
use mqss_integration_deploym.Qoffload.Threads.Delivery.{threads-deliver}
use mqss_integration_deploym.Qoffload.Threads.Race.{finished_task_not_found}
use mqss_integration_deploym.Qoffload.Threads.Phases.{
  Advance, phase, phase_of, waits, storing, stored,
}
use mqss_integration_deploym.Qoffload.Threads.Fetched.{FollowsCompleted}
use mqss_integration_deploym.Qoffload.Threads.Handover.{FollowsPending, FollowsStoring}
use mqss_integration_deploym.Qoffload.Threads.Advance.{threads-advance}
use mqss_integration_deploym.Qoffload.Threads.Stopping.{threads-stop}
use mqss_integration_deploym.Qoffload.Fixtures.{config, request, result, typed_request_for}

abbrev task_works : Turn
task_works = task_turn (value request) Status.success

abbrev request_creates : ApiRequest
request_creates = typed_request_for (
    TypedRequest.create_task (record {
      shots = 100;
      circuit = "ghz" ∷ [];
      circuit_format = "qasm";
      resource_name = "Q20";
      no_modify = false;
    }))

abbrev control_works : Turn
control_works = control_turn (value request_creates) Status.success Status.success

abbrev result_works : Turn
result_works = result_turn (value result) Status.success

abbrev drawn : List Turn
drawn = task_works ∷ task_works ∷ []

threads-one_place_example :
    let s =
      (play
        (control_works ∷ task_works ∷ control_works ∷ task_works ∷ control_works ∷ [])
        (at_rest (new_service config))).1 in
    IsValid s.tasks × ((id : ℕ) → places id s ≤ given s.forwarder id)
threads-one_place_example =
    threads-one_place (control_works ∷ task_works ∷ control_works ∷ task_works ∷ control_works ∷ [])
      config (omega arith) (omega arith)

-- The control worker draws and registers an id of its own in the meantime.
abbrev busy : List Turn
busy = control_works ∷ control_works ∷ control_works ∷ []

abbrev s0 : Threads
s0 = started config drawn

abbrev s1 : Threads
s1 = (play (task_works ∷ busy) s0).1

abbrev s2 : Threads
s2 = (play (result_works ∷ task_works ∷ []) s1).1

abbrev s3 : Threads
s3 = (play (result_works ∷ control_works ∷ []) s2).1

s0_drawn : s0.task_worker ≡ registering request 7
unfolding play turn
s0_drawn = refl

s1_ready : (s1.result_worker ≡ awaiting_result) × (s1.stop_tokens.result ≡ false)
unfolding play turn
s1_ready = (refl, refl)

threads-deliver_example :
    (turn result_works s3).0
    ≡ Service.send_result "client" (record result { task_id = 41; destination = "client" }) ∷ []
threads-deliver_example =
    threads-deliver config drawn busy (task_works ∷ []) (control_works ∷ []) request 7 result
      (value request) (value result) (value result) Status.success Status.success Status.success
      Status.success s0 s1 s2 s3 (omega arith) (omega arith) (omega arith) (omega arith) refl refl
      refl refl s0_drawn (tt, (tt, tt)) (tt, (tt, (tt, tt))) s1_ready.0 s1_ready.1
      (unfold play in unfold turn in refl) (tt, tt) (tt, tt)

-- A task is created; then its status is asked for while its result is there.
abbrev asked : ApiRequest
asked = typed_request_for (TypedRequest.task_status 7)

abbrev asks : Turn
asks = control_turn (value asked) Status.success Status.success

abbrev met : List Turn
met =
    control_works ∷ control_works ∷ control_works ∷ control_works ∷ control_works ∷ asks
    ∷ result_works ∷ []

abbrev pending_seven : PendingTask
pending_seven = record {
  kind = control_task;
  forwarded_task_id = 7;
  original_task_id = 7;
  original_result_destination = "";
}

met_state :
    ((started config met).control_worker ≡ executing asked)
    × ((started config met).result_worker ≡ taking result)
    × (find 7 (started config met).tasks.pending ≡ some pending_seven)
unfolding play turn find insert_or_assign
met_state = (refl, refl, refl)

asked_status : ((protocol_for asked.typed_request).decode asked).command ≡ get_task_status 7
unfolding protocol_for
asked_status = refl

finished_task_not_found_example :
    let s = started config met in
    ((turn asks s).1.control_worker ≡ responding asked (task_status_result waiting))
    × ((turn asks (turn result_works s).1).1.control_worker
        ≡ responding asked (task_status_result not_found))
    × ((turn asks (turn result_works (turn result_works s).1).1).1.control_worker
        ≡ responding asked (task_status_result completed))
finished_task_not_found_example =
    finished_task_not_found met config (started config met) asked result pending_seven 7
      (value asked) Status.success Status.success (value result) Status.success (omega arith)
      (omega arith) refl met_state.0 asked_status met_state.1 refl met_state.2 refl

-- `requestStop`.
abbrev stopped_all : Threads → Threads
stopped_all s =
    (play (stop_turn task_interface ∷ stop_turn control_interface ∷ stop_turn qrm_result ∷ []) s).1

abbrev last_turns : List Turn
last_turns =
    task_works ∷ task_works ∷ task_works ∷ task_works ∷ asks ∷ asks ∷ asks ∷ asks ∷ asks
    ∷ result_works ∷ result_works ∷ result_works ∷ []

threads-stop_example :
    let s = stopped_all (started config met) in
    ((play last_turns s).1.task_worker ≡ task_stopped)
    × ((play last_turns s).1.control_worker ≡ control_stopped)
    × ((play last_turns s).1.result_worker ≡ result_stopped)
threads-stop_example =
    threads-stop last_turns (stopped_all (started config met))
      (unfold play in unfold turn in (refl, refl, refl)) (omega arith) (omega arith) (omega arith)

threads-advance_example :
    let s = started config met in
    let s' = (turn result_works s).1 in
    Advance (phase 7 s) (phase 7 s')
    × FollowsPending 7 (find 7 s.tasks.pending) s s'
    × FollowsStoring s.result_worker s'
    × FollowsCompleted 7 (find 7 s.tasks.completed_control_tasks) s s'
threads-advance_example = threads-advance met result_works config 7 (omega arith) (omega arith)

-- It is the step from pending to the worker that stores the result.
phases_met :
    (phase 7 (started config met) ≡ waits)
    × (phase 7 (turn result_works (started config met)).1 ≡ storing)
    × (phase 7 (turn result_works (turn result_works (started config met)).1).1 ≡ stored)
unfolding play turn find insert_or_assign erase phase_of
phases_met = (refl, refl, refl)
