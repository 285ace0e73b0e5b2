-- ===== src/Qoffload/Threads/ControlCounted.antt =====
-- What a turn of the control worker does to the counts of a task id.
use mqss_integration_deploym.Qoffload.Control.{
  taken_result, taken_reason, apply_create, handle_get_task_status, handle_list_resources,
  handle_get_resource_info, handle_query_pending_tasks,
}
use mqss_integration_deploym.Qoffload.Proto.{blank_task}
use mqss_integration_deploym.Qoffload.Protocol.{ControlResult, control_error, task_created}
use mqss_integration_deploym.Qoffload.Threads.Commands
use mqss_integration_deploym.Base.{Bool-cases, ◌<◌, ◌^◌, List}
use mqss_integration_deploym.Qoffload.Forward.{next_task_id}
use mqss_integration_deploym.Base.{
  ℕ, ◌≡◌, refl, ap, Option-cases, inl, inr, List, arith, nat_eq, Bool, true, false, ◌==◌, if-both,
}
use mqss_integration_deploym.Dict.{find}
use mqss_integration_deploym.Words.{int32_to_uint64}
use mqss_integration_deploym.Mqss.Status.{Status, Result, value, unexpected}
use mqss_integration_deploym.Qoffload.Proto.{ApiRequest}
use mqss_integration_deploym.Qoffload.TaskStore.{
  TaskStore, add_direct_task, add_control_task, take_completed_control_task, status,
}
use mqss_integration_deploym.Qoffload.Protocol.{
  ControlCommand, create_quantum_task, get_task_status, get_task_result, get_cancel_reason,
  list_resources, get_resource_info, query_pending_tasks, invalid,
}
use mqss_integration_deploym.Qoffload.Control.{is_waiting}
use mqss_integration_deploym.Qoffload.Service.{Effect}
use mqss_integration_deploym.Qoffload.Threads.State.{
  Threads, ControlWorker, awaiting_request, executing, creating, fetching_result, fetching_reason,
  forwarding, responding, control_stopped,
}
use mqss_integration_deploym.Qoffload.Threads.Commands.{
  request_received, control_step, command_step, unless_waiting,
}
use mqss_integration_deploym.Qoffload.Threads.Places.{one_if, in_control_worker}
use mqss_integration_deploym.Base.{is_some}
use mqss_integration_deploym.Qoffload.Threads.Invariant.{
  taken_result-store, taken_reason-store, Inv,
}
use mqss_integration_deploym.Qoffload.Threads.Phases.{kept, registered, fetched}
use mqss_integration_deploym.Qoffload.Threads.StoreCounts.{
  add-here, add-elsewhere, fetch_none, fetch-pending, fetch_here, fetch_found, fetch_elsewhere,
}
use mqss_integration_deploym.Qoffload.Threads.Counted.{Counted, draw-Counted, stays-Counted}

module _ (id : ℕ) where
  module _ {n : ℕ} (s : Threads) (inv : Inv n s) (bound : n < 2 ^ 33) where
    -- The control worker moves on.
    moved-Counted :
        (w w' : ControlWorker)
        → s.control_worker ≡ w
        → in_control_worker id w ≡ 0
        → in_control_worker id w' ≡ 0
        → Counted id s (record s { control_worker = w' })
    moved-Counted w w' e empty empty' =
        stays-Counted id s (record s { control_worker = w' }) refl refl
          (omega (arith, ap (in_control_worker id) e, empty, empty')) refl

    answering-Counted :
        (w : ControlWorker) (request : ApiRequest) (result : ControlResult)
        → s.control_worker ≡ w
        → in_control_worker id w ≡ 0
        → Counted id s (record s { control_worker = responding request result })
    answering-Counted w request result e empty =
        moved-Counted w (responding request result) e empty refl

    unless-Counted :
        (w : Bool) (request : ApiRequest) (next : ControlWorker)
        → s.control_worker ≡ executing request
        → in_control_worker id next ≡ 0
        → Counted id s (unless_waiting w request next s)
    unless-Counted true request next e empty =
        answering-Counted (executing request) request (control_error "JOB IS WAITING") e refl
    unless-Counted false request next e empty = moved-Counted (executing request) next e refl empty

    command_step-Counted :
        (c : ControlCommand) (request : ApiRequest)
        → s.control_worker ≡ executing request
        → Counted id s (command_step c request s)
    unfolding command_step
    command_step-Counted (create_quantum_task c) request e =
        draw-Counted id s
          (record s {
            forwarder = (next_task_id s.forwarder).1;
            control_worker =
                creating request (apply_create c blank_task) (next_task_id s.forwarder).0;
          })
          inv bound refl refl refl (omega (arith, ap (in_control_worker id) e))
    command_step-Counted (get_task_status k) request e =
        answering-Counted (executing request) request (handle_get_task_status k s.tasks).0 e refl
    command_step-Counted (get_task_result k) request e =
        unless-Counted (is_waiting (status k s.tasks)) request (fetching_result request k) e refl
    command_step-Counted (get_cancel_reason k) request e =
        unless-Counted (is_waiting (status k s.tasks)) request (fetching_reason request k) e refl
    command_step-Counted list_resources request e =
        answering-Counted (executing request) request (handle_list_resources s.tasks).0 e refl
    command_step-Counted (get_resource_info name) request e =
        answering-Counted (executing request) request (handle_get_resource_info name s.tasks).0 e
          refl
    command_step-Counted (query_pending_tasks name) request e =
        answering-Counted (executing request) request (handle_query_pending_tasks name s.tasks).0 e
          refl
    command_step-Counted (invalid message) request e =
        answering-Counted (executing request) request (control_error message) e refl

    fetched-Counted :
        (k : ℕ) (w : ControlWorker) (request : ApiRequest) (result : ControlResult)
        (tasks : TaskStore)
        → tasks ≡ (take_completed_control_task k s.tasks).1
        → s.control_worker ≡ w
        → in_control_worker id w ≡ 0
        → Counted id s (Commands.fetched request (result, tasks) s)
    fetched-Counted k w request result tasks t e empty =
        rw t (elim (Option-cases (find k s.tasks.completed_control_tasks)) [
          | inl none_there ↦
              rw (fetch_none id k s.tasks none_there) (answering-Counted w request result e empty)
          | inr (c, there) ↦ elim (Bool-cases (k == id)) [
            | inl here ↦
                fetched (fetch_found id k s.tasks c there here)
                  (omega (arith, ap (in_control_worker id) e, empty))
                  (ap (λ x. one_if (is_some (find id x))) (fetch-pending id k s.tasks)) refl
                  (fetch_here id k s.tasks here) refl
            | inr other ↦
                kept (omega (arith, ap (in_control_worker id) e, empty))
                  (ap (λ x. one_if (is_some (find id x))) (fetch-pending id k s.tasks)) refl
                  (fetch_elsewhere id k s.tasks other) refl
          ]
        ])

    pub control_step-Counted :
        (w : ControlWorker) (received : Result ApiRequest) (a b : Status)
        → s.control_worker ≡ w
        → Counted id s (control_step w received a b s).1
    unfolding control_step
    control_step-Counted awaiting_request received a b e =
        if-both (λ (o : List Effect × Threads). Counted id s o.1) s.stop_tokens.control
          (moved-Counted awaiting_request control_stopped e refl refl) (heard received)
      where
        heard : (r : Result ApiRequest) → Counted id s (request_received r s).1
        heard (unexpected error) = kept refl refl refl refl refl
        heard (value request) = moved-Counted awaiting_request (executing request) e refl refl
    control_step-Counted (executing request) received a b e = command_step-Counted _ request e
    control_step-Counted (creating request task k) received a b e =
        unfold add_control_task in
        elim (Bool-cases (k == id)) [
          | inl here ↦
              registered (omega (arith, ap (in_control_worker id) e, ap one_if here))
                (add-here id _ s.tasks here)
          | inr other ↦
              kept (omega (arith, ap (in_control_worker id) e, ap one_if other))
                (add-elsewhere id _ s.tasks other) refl (unfold add_direct_task in refl) refl
        ]
    control_step-Counted (fetching_result request k) received a b e =
        fetched-Counted k (fetching_result request k) request
          (taken_result (take_completed_control_task k s.tasks)).0 _
          (taken_result-store (take_completed_control_task k s.tasks)) e refl
    control_step-Counted (fetching_reason request k) received a b e =
        fetched-Counted k (fetching_reason request k) request
          (taken_reason (take_completed_control_task k s.tasks)).0 _
          (taken_reason-store (take_completed_control_task k s.tasks)) e refl
    control_step-Counted (forwarding request task) received a b e =
        answering-Counted (forwarding request task) request
          (task_created (int32_to_uint64 task.task_id)) e refl
    control_step-Counted (responding request result) received a b e =
        moved-Counted (responding request result) awaiting_request e refl refl
    control_step-Counted control_stopped received a b e = kept refl refl refl refl refl
