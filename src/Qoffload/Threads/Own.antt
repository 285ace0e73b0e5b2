-- ===== src/Qoffload/Threads/Own.antt =====
-- A turn of a worker of the service moves that worker only.
use mqss_integration_deploym.Base.{
  ◌≡◌, refl, List, Option, none, some, nat_eq, Bool, true, false, if-both,
}
use mqss_integration_deploym.Words.{int32_to_uint64}
use mqss_integration_deploym.Mqss.Status.{Status, Result, value, unexpected}
use mqss_integration_deploym.Qoffload.Proto.{QuantumTask, QuantumResult, ApiRequest}
use mqss_integration_deploym.Qoffload.TaskStore.{TaskStore, PendingTask, take_pending}
use mqss_integration_deploym.Qoffload.Protocol.{
  ControlCommand, create_quantum_task, get_task_status, get_task_result, get_cancel_reason,
  list_resources, get_resource_info, query_pending_tasks, invalid,
}
use mqss_integration_deploym.Qoffload.Service.{Effect}
use mqss_integration_deploym.Qoffload.Threads.State.{
  Threads, TaskWorker, ControlWorker, ResultWorker, awaiting_task, numbering, registering, sending,
  task_stopped, awaiting_request, executing, creating, fetching_result, fetching_reason, forwarding,
  responding, control_stopped, awaiting_result, taking, storing, returning, result_stopped,
}
use mqss_integration_deploym.Qoffload.Threads.Workers.{
  task_received, result_received, task_step, result_step, taken,
}
use mqss_integration_deploym.Qoffload.Threads.Commands.{
  request_received, control_step, command_step, unless_waiting,
}

-- The workers and the flag that a step of the task worker, of the control worker and of the result
-- worker leaves alone.
abbrev pub TaskMoves : Threads → Threads → Type 0
TaskMoves s t =
    (t.control_worker ≡ s.control_worker)
    × (t.result_worker ≡ s.result_worker)
    × (t.stop_tokens ≡ s.stop_tokens)

abbrev pub ControlMoves : Threads → Threads → Type 0
ControlMoves s t =
    (t.task_worker ≡ s.task_worker)
    × (t.result_worker ≡ s.result_worker)
    × (t.stop_tokens ≡ s.stop_tokens)

abbrev pub ResultMoves : Threads → Threads → Type 0
ResultMoves s t =
    (t.task_worker ≡ s.task_worker)
    × (t.control_worker ≡ s.control_worker)
    × (t.stop_tokens ≡ s.stop_tokens)

pub task_step-moves :
    (w : TaskWorker) (received : Result QuantumTask) (st : Status) (s : Threads)
    → TaskMoves s (task_step w received st s).1
unfolding task_step
task_step-moves awaiting_task received st s =
    if-both (λ (o : List Effect × Threads). TaskMoves s o.1) s.stop_tokens.task (refl, refl, refl)
      (heard received)
  where
    heard : (r : Result QuantumTask) → TaskMoves s (task_received r s).1
    heard (unexpected error) = (refl, refl, refl)
    heard (value request) = (refl, refl, refl)
task_step-moves (numbering request) received st s = (refl, refl, refl)
task_step-moves (registering request k) received st s = (refl, refl, refl)
task_step-moves (sending task) received st s = (refl, refl, refl)
task_step-moves task_stopped received st s = (refl, refl, refl)

unless-moves :
    (w : Bool) (request : ApiRequest) (next : ControlWorker) (s : Threads)
    → ControlMoves s (unless_waiting w request next s)
unless-moves true request next s = (refl, refl, refl)
unless-moves false request next s = (refl, refl, refl)

command_step-moves :
    (c : ControlCommand) (request : ApiRequest) (s : Threads)
    → ControlMoves s (command_step c request s)
unfolding command_step
command_step-moves (create_quantum_task c) request s = (refl, refl, refl)
command_step-moves (get_task_status k) request s = (refl, refl, refl)
command_step-moves (get_task_result k) request s = unless-moves _ request _ s
command_step-moves (get_cancel_reason k) request s = unless-moves _ request _ s
command_step-moves list_resources request s = (refl, refl, refl)
command_step-moves (get_resource_info name) request s = (refl, refl, refl)
command_step-moves (query_pending_tasks name) request s = (refl, refl, refl)
command_step-moves (invalid message) request s = (refl, refl, refl)

pub control_step-moves :
    (w : ControlWorker) (received : Result ApiRequest) (a b : Status) (s : Threads)
    → ControlMoves s (control_step w received a b s).1
unfolding control_step
control_step-moves awaiting_request received a b s =
    if-both (λ (o : List Effect × Threads). ControlMoves s o.1) s.stop_tokens.control
      (refl, refl, refl) (heard received)
  where
    heard : (r : Result ApiRequest) → ControlMoves s (request_received r s).1
    heard (unexpected error) = (refl, refl, refl)
    heard (value request) = (refl, refl, refl)
control_step-moves (executing request) received a b s = command_step-moves _ request s
control_step-moves (creating request task k) received a b s = (refl, refl, refl)
control_step-moves (fetching_result request k) received a b s = (refl, refl, refl)
control_step-moves (fetching_reason request k) received a b s = (refl, refl, refl)
control_step-moves (forwarding request task) received a b s = (refl, refl, refl)
control_step-moves (responding request result) received a b s = (refl, refl, refl)
control_step-moves control_stopped received a b s = (refl, refl, refl)

taken-moves :
    (result : QuantumResult) (t : Option PendingTask × TaskStore) (s : Threads)
    → ResultMoves s (taken result t s)
taken-moves result (none, tasks) s = (refl, refl, refl)
taken-moves result (some p, tasks) s = (refl, refl, refl)

pub result_step-moves :
    (w : ResultWorker) (received : Result QuantumResult) (st : Status) (s : Threads)
    → ResultMoves s (result_step w received st s).1
unfolding result_step
result_step-moves awaiting_result received st s =
    if-both (λ (o : List Effect × Threads). ResultMoves s o.1) s.stop_tokens.result
      (refl, refl, refl) (heard received)
  where
    heard : (r : Result QuantumResult) → ResultMoves s (result_received r s).1
    heard (unexpected error) = (refl, refl, refl)
    heard (value result) = (refl, refl, refl)
result_step-moves (taking result) received st s =
    taken-moves result (take_pending (int32_to_uint64 result.task_id) s.tasks) s
result_step-moves (storing completed) received st s = (refl, refl, refl)
result_step-moves (returning result destination) received st s = (refl, refl, refl)
result_step-moves result_stopped received st s = (refl, refl, refl)
