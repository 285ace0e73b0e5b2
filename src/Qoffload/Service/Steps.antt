-- ===== src/Qoffload/Service/Steps.antt =====
-- What one round of the service does to the pending tasks and to the forwarder.
use mqss_integration_deploym.Base.{
  ℕ, ◌≡◌, ◌≢◌, refl, ap, ◌∙◌, Option, none, some, arith, nat_eq, Option-cases, Bool-cases, inl, inr,
  beq-false, ◌⊎◌,
}
use mqss_integration_deploym.Dict.{find, find-insert_or_assign, find-erase}
use mqss_integration_deploym.Words.{int32_to_uint64}
use mqss_integration_deploym.Mqss.Status.{value, unexpected}
use mqss_integration_deploym.Qoffload.Proto.{QuantumTask, QuantumResult, blank_task}
use mqss_integration_deploym.Qoffload.Config.{Config}
use mqss_integration_deploym.Qoffload.TaskStore.{
  TaskStore, PendingTask, take_pending, take_completed_control_task, status as status_in,
}
use mqss_integration_deploym.Qoffload.Forward.{
  Forward, next_task_id, forward_direct_task, create_control_task, process_result, resolve_taken,
}
use mqss_integration_deploym.Qoffload.Forward.Correlation.{registered, created}
use mqss_integration_deploym.Qoffload.Forward.Lost.{resolve-pending}
use mqss_integration_deploym.Qoffload.Protocol.{
  ControlCommand, create_quantum_task, get_task_status, get_task_result, get_cancel_reason,
  list_resources, get_resource_info, query_pending_tasks, invalid,
}
use mqss_integration_deploym.Qoffload.Control.{
  execute, process, apply_create, handle_get_task_result, handle_get_cancel_reason, protocol_for,
  is_waiting,
}
use mqss_integration_deploym.Qoffload.Service.{
  Service, Round, task_received, request_received, result_received, round,
}

-- What is pending under an id is left alone by whatever does not give out or take that id.
forward-pending :
    (request : QuantumTask) (tasks : TaskStore) (config : Config) (f : Forward) (id : ℕ)
    → (next_task_id f).0 ≢ id
    → find id (forward_direct_task request tasks config f).1.pending ≡ find id tasks.pending
unfolding forward_direct_task
forward-pending request tasks config f id ne =
    rw
      (
        find-insert_or_assign (next_task_id f).0 id (registered request (next_task_id f).0)
            tasks.pending,
        beq-false _ _ ne,
      )
      refl

create-pending :
    (task : QuantumTask) (tasks : TaskStore) (config : Config) (f : Forward) (id : ℕ)
    → (next_task_id f).0 ≢ id
    → find id (create_control_task task tasks config f).1.pending ≡ find id tasks.pending
unfolding create_control_task
create-pending task tasks config f id ne =
    rw
      (
        find-insert_or_assign (next_task_id f).0 id (created (next_task_id f).0) tasks.pending,
        beq-false _ _ ne,
      )
      refl

pub take-pending :
    (taken id : ℕ) (tasks : TaskStore)
    → taken ≢ id
    → find id (take_pending taken tasks).1.pending ≡ find id tasks.pending
unfolding take_pending
take-pending taken id tasks ne = ground (
  arith,
  Option-cases (find taken tasks.pending),
  find-erase taken id tasks.pending,
  beq-false taken id ne,
)

result-pending :
    (result : QuantumResult) (tasks : TaskStore) (id : ℕ)
    → int32_to_uint64 result.task_id ≢ id
    → find id (process_result result tasks).1.pending ≡ find id tasks.pending
unfolding process_result
result-pending result tasks id ne =
    resolved (take_pending (int32_to_uint64 result.task_id) tasks)
    ∙ take-pending (int32_to_uint64 result.task_id) id tasks ne
  where
    resolved :
        (t : Option PendingTask × TaskStore)
        → find id (resolve_taken result t).1.pending ≡ find id t.1.pending
    resolved (none, s) = refl
    resolved (some p, s) = ap (find id) (resolve-pending p.kind p result s)

fetch_result-pending :
    (id : ℕ) (s : TaskStore) → (handle_get_task_result id s).1.pending ≡ s.pending
unfolding handle_get_task_result take_completed_control_task
fetch_result-pending id s = ground (
  arith,
  Bool-cases (is_waiting (status_in id s)),
  Option-cases (find id s.completed_control_tasks),
)

fetch_reason-pending :
    (id : ℕ) (s : TaskStore) → (handle_get_cancel_reason id s).1.pending ≡ s.pending
unfolding handle_get_cancel_reason take_completed_control_task
fetch_reason-pending id s = ground (
  arith,
  Bool-cases (is_waiting (status_in id s)),
  Option-cases (find id s.completed_control_tasks),
)

-- A step of the forwarder and of what is pending under an id that was given out before.
abbrev pub Steps : ℕ → TaskStore × Forward → TaskStore × Forward → Type 0
Steps id (s, f) (s', f') =
    (find id s'.pending ≡ find id s.pending) × ((f' ≡ f) ⊎ (f' ≡ (next_task_id f).1))

execute-Steps :
    (c : ControlCommand) (s : TaskStore) (config : Config) (f : Forward) (id : ℕ)
    → (next_task_id f).0 ≢ id
    → Steps id (s, f) ((execute c s config f).tasks, (execute c s config f).forwarder)
unfolding execute create_control_task
execute-Steps (create_quantum_task c) s config f id ne =
    (create-pending (apply_create c blank_task) s config f id ne, inr refl)
execute-Steps (get_task_status k) s config f id ne = (refl, inl refl)
execute-Steps (get_task_result k) s config f id ne =
    (ap (find id) (fetch_result-pending k s), inl refl)
execute-Steps (get_cancel_reason k) s config f id ne =
    (ap (find id) (fetch_reason-pending k s), inl refl)
execute-Steps list_resources s config f id ne = (refl, inl refl)
execute-Steps (get_resource_info name) s config f id ne = (refl, inl refl)
execute-Steps (query_pending_tasks name) s config f id ne = (refl, inl refl)
execute-Steps (invalid message) s config f id ne = (refl, inl refl)

-- A round that brings no result for the id.
abbrev pub IsForeign : ℕ → Round → Type 0
IsForeign id (result_received (value result) status) = int32_to_uint64 result.task_id ≢ id
IsForeign id _ = Unit

pub round-Steps :
    (r : Round) (s : Service) (id : ℕ)
    → (next_task_id s.forwarder).0 ≢ id
    → IsForeign id r
    → Steps id (s.tasks, s.forwarder) ((round r s).1.tasks, (round r s).1.forwarder)
unfolding round process forward_direct_task
round-Steps (task_received (value request) st) s id ne h =
    (forward-pending request s.tasks s.config s.forwarder id ne, inr refl)
round-Steps (task_received (unexpected e) st) s id ne h = (refl, inl refl)
round-Steps (request_received (value request) a b) s id ne h =
    execute-Steps ((protocol_for request.typed_request).decode request).command s.tasks s.config
      s.forwarder id ne
round-Steps (request_received (unexpected e) a b) s id ne h = (refl, inl refl)
round-Steps (result_received (value result) st) s id ne h =
    (result-pending result s.tasks id h, inl refl)
round-Steps (result_received (unexpected e) st) s id ne h = (refl, inl refl)
