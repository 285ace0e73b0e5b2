-- ===== src/Qoffload/Threads/Alone.antt =====
-- examples/qoffload_service: a round of a worker of QOffload.cpp as turns of that worker alone.
use mqss_integration_deploym.Base.{
  ℕ, ◌≡◌, refl, ap, List, [], ◌∷◌, ◌++◌, append-nil, Option, none, some, Bool, true, false,
  if◌then◌else◌,
}
use mqss_integration_deploym.Words.{int32_to_uint64}
use mqss_integration_deploym.Mqss.StatusCode
use mqss_integration_deploym.Mqss.Status.{Status, Result, value, unexpected}
use mqss_integration_deploym.Qoffload.Proto.{QuantumTask, QuantumResult, ApiRequest, blank_task}
use mqss_integration_deploym.Qoffload.TaskStore.{
  TaskStore, PendingTask, PendingTaskKind, direct_task, control_task, take_pending, status,
  take_completed_control_task,
}
use mqss_integration_deploym.Qoffload.Forward.{
  Forward, forward_direct_task, create_control_task, process_result, resolve, resolve_taken,
  next_task_id,
}
use mqss_integration_deploym.Qoffload.Protocol.{
  ControlResult, control_error, ControlCommand, create_quantum_task, get_task_status,
  get_task_result, get_cancel_reason, list_resources, get_resource_info, query_pending_tasks,
  invalid,
}
use mqss_integration_deploym.Qoffload.Control.{
  process, execute, is_waiting, handle_get_task_result, handle_get_cancel_reason, protocol_for,
  taken_result, taken_reason, apply_create,
}
use mqss_integration_deploym.Qoffload.Service.{
  Service, Effect, Round, task_received, request_received, result_received, task_round,
  control_round, result_round, result_effects, outbound_effects, response_effects,
}
use mqss_integration_deploym.Qoffload.Threads.State.{
  Threads, at_rest, taking, executing, responding, fetching_result, fetching_reason,
}
use mqss_integration_deploym.Qoffload.Threads.Workers.{task_step, result_step, taken, taken_kind}
use mqss_integration_deploym.Qoffload.Threads.Commands.{control_step, command_step, unless_waiting}
use mqss_integration_deploym.Qoffload.Threads.Turns.{
  Turn, task_turn, control_turn, result_turn, turn, play,
}

-- A receive that times out.
abbrev pub timed_out : {A : Type 0} → Result A
timed_out = unexpected (record { code = StatusCode.timeout; reason = "timeout" })

-- The turns of a worker that make up a round: it receives, goes on to its next receive, and finds
-- nothing there in the turns that it has left.
unfoldable pub alone : Round → List Turn
alone (task_received received st) =
    task_turn received st
    ∷ task_turn timed_out st
    ∷ task_turn timed_out st
    ∷ task_turn timed_out st
    ∷ []
alone (request_received received a b) =
    control_turn received a b
    ∷ control_turn timed_out a b
    ∷ control_turn timed_out a b
    ∷ control_turn timed_out a b
    ∷ control_turn timed_out a b
    ∷ []
alone (result_received received st) =
    result_turn received st ∷ result_turn timed_out st ∷ result_turn timed_out st ∷ []

pub task-alone :
    (received : Result QuantumTask) (st : Status) (s : Service)
    → play (alone (task_received received st)) (at_rest s)
      ≡ ((task_round received st s).0, at_rest (task_round received st s).1)
unfolding play turn alone task_step task_round forward_direct_task
task-alone (unexpected e) st s = ap (λ l. (l, at_rest s)) (append-nil _)
task-alone (value request) st s =
    ap (λ l. (l, at_rest (task_round (value request) st s).1)) (append-nil _)

-- The turn that is left to the result worker after it has taken the pending task.
kind-alone :
    (k : PendingTaskKind) (p : PendingTask) (r : QuantumResult) (st : Status) (tasks : TaskStore)
    (s : Service)
    → play
        (result_turn timed_out st ∷ [])
        (record (at_rest s) { tasks = tasks; result_worker = taken_kind k p r })
      ≡ (
        result_effects
            (resolve k p r tasks).0.kind
            (resolve k p r tasks).0.result
            (resolve k p r tasks).0.result_destination
            st,
        at_rest (record s { tasks = (resolve k p r tasks).1 }),
      )
unfolding play turn result_step resolve
kind-alone direct_task p r st tasks s =
    ap (λ l. (l, at_rest (record s { tasks = tasks }))) (append-nil _)
kind-alone control_task p r st tasks s = refl

taken-alone :
    (t : Option PendingTask × TaskStore) (r : QuantumResult) (st : Status) (s : Service)
    → play
        (result_turn timed_out st ∷ [])
        (taken r t (record (at_rest s) { result_worker = taking r }))
      ≡ (
        result_effects
            (resolve_taken r t).0.kind
            (resolve_taken r t).0.result
            (resolve_taken r t).0.result_destination
            st,
        at_rest (record s { tasks = (resolve_taken r t).1 }),
      )
unfolding play turn result_step
taken-alone (none, tasks) r st s = refl
taken-alone (some p, tasks) r st s = kind-alone p.kind p r st tasks s

pub result-alone :
    (received : Result QuantumResult) (st : Status) (s : Service)
    → play (alone (result_received received st)) (at_rest s)
      ≡ ((result_round received st s).0, at_rest (result_round received st s).1)
unfolding play turn alone result_step result_round process_result
result-alone (unexpected e) st s = ap (λ l. (l, at_rest s)) (append-nil _)
result-alone (value r) st s = taken-alone (take_pending (int32_to_uint64 r.task_id) s.tasks) r st s

-- The answer that is left to send, with a turn that finds no request after it.
response-alone :
    (request : ApiRequest) (result : ControlResult) (tasks : TaskStore) (a b : Status) (s : Service)
    → let protocol = protocol_for request.typed_request in
      play
        (control_turn timed_out a b ∷ control_turn timed_out a b ∷ [])
        (record (at_rest s) { tasks = tasks; control_worker = responding request result })
      ≡ (
        response_effects (protocol.encode result (protocol.decode request).response_queue) b,
        at_rest (record s { tasks = tasks }),
      )
unfolding play turn control_step
response-alone request result tasks a b s =
    ap (λ l. (l, at_rest (record s { tasks = tasks }))) (append-nil _)

module _ (request : ApiRequest) (a b : Status) (s : Service) where
  abbrev rest : List Turn
  rest = control_turn timed_out a b ∷ control_turn timed_out a b ∷ control_turn timed_out a b ∷ []

  abbrev answered : Option QuantumTask → ControlResult → TaskStore → Forward → List Effect × Threads
  answered task result tasks f =
      let protocol = protocol_for request.typed_request in
      (
        outbound_effects s.config task a
            ++ response_effects (protocol.encode result (protocol.decode request).response_queue) b,
        at_rest (record s { tasks = tasks; forwarder = f }),
      )

  at_once :
      (result : ControlResult)
      → play rest (record (at_rest s) { control_worker = responding request result })
        ≡ answered none result s.tasks s.forwarder
  unfolding play turn control_step
  at_once result = ap (λ l. (l, at_rest s)) (append-nil _)

  fetch_result-alone :
      (id : ℕ) (w : Bool)
      → let o =
          if w
          then (control_error "JOB IS WAITING", s.tasks)
          else taken_result (take_completed_control_task id s.tasks) in
        play rest (
          unless_waiting w request
            (fetching_result request id)
            (record (at_rest s) { control_worker = executing request }))
        ≡ answered none o.0 o.1 s.forwarder
  unfolding play turn control_step
  fetch_result-alone id true = at_once (control_error "JOB IS WAITING")
  fetch_result-alone id false =
      let (result, tasks) = taken_result (take_completed_control_task id s.tasks) in
      response-alone request result tasks a b s

  fetch_reason-alone :
      (id : ℕ) (w : Bool)
      → let o =
          if w
          then (control_error "JOB IS WAITING", s.tasks)
          else taken_reason (take_completed_control_task id s.tasks) in
        play rest (
          unless_waiting w request
            (fetching_reason request id)
            (record (at_rest s) { control_worker = executing request }))
        ≡ answered none o.0 o.1 s.forwarder
  unfolding play turn control_step
  fetch_reason-alone id true = at_once (control_error "JOB IS WAITING")
  fetch_reason-alone id false =
      let (result, tasks) = taken_reason (take_completed_control_task id s.tasks) in
      response-alone request result tasks a b s

  -- The last three turns of the control worker, after the first section of its command.
  command-alone :
      (c : ControlCommand)
      → let o = execute c s.tasks s.config s.forwarder in
        play rest
          (command_step c request (record (at_rest s) { control_worker = executing request }))
        ≡ answered o.outbound_task o.result o.tasks o.forwarder
  unfolding command_step execute
  command-alone (create_quantum_task c) =
      unfold play in
      unfold turn in
      unfold control_step in
      unfold create_control_task in
      ap
        (λ l. (
          outbound_effects s.config
                (some
                  (create_control_task (apply_create c blank_task) s.tasks s.config s.forwarder).0)
                a
              ++ l,
          at_rest (record s {
            tasks =
                (create_control_task (apply_create c blank_task) s.tasks s.config s.forwarder).1;
            forwarder = (next_task_id s.forwarder).1;
          }),
        ))
        (append-nil _)
  command-alone (get_task_status id) = at_once _
  command-alone (get_task_result id) =
      unfold handle_get_task_result in fetch_result-alone id (is_waiting (status id s.tasks))
  command-alone (get_cancel_reason id) =
      unfold handle_get_cancel_reason in fetch_reason-alone id (is_waiting (status id s.tasks))
  command-alone list_resources = at_once _
  command-alone (get_resource_info name) = at_once _
  command-alone (query_pending_tasks name) = at_once _
  command-alone (invalid message) = at_once _

pub control-alone :
    (received : Result ApiRequest) (a b : Status) (s : Service)
    → play (alone (request_received received a b)) (at_rest s)
      ≡ ((control_round received a b s).0, at_rest (control_round received a b s).1)
unfolding play turn alone control_step control_round process
control-alone (unexpected e) a b s = ap (λ l. (l, at_rest s)) (append-nil _)
control-alone (value request) a b s =
    command-alone request a b s ((protocol_for request.typed_request).decode request).command
