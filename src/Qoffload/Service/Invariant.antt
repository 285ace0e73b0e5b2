-- ===== src/Qoffload/Service/Invariant.antt =====
-- What holds of the task store after any rounds of the service.
use mqss_integration_deploym.Base.{
  ℕ, String, ◌≡◌, refl, List, [], ◌∷◌, Option, none, some, arith, nat_eq, Option-cases, inl, inr,
  Bool-cases,
}
use mqss_integration_deploym.Dict.{find}
use mqss_integration_deploym.Mqss.Status.{value, unexpected}
use mqss_integration_deploym.Qoffload.Proto.{QuantumTask, QuantumResult, ApiRequest, blank_task}
use mqss_integration_deploym.Qoffload.Config.{Config}
use mqss_integration_deploym.Words.{int32_to_uint64}
use mqss_integration_deploym.Qoffload.TaskStore.{
  add_direct_task, TaskStore, PendingTask, PendingTaskKind, direct_task, control_task,
  CompletedControlTask, take_pending, store_completed_control_task, take_completed_control_task,
  new_store, status,
}
use mqss_integration_deploym.Qoffload.Forward.{
  Forward, forward_direct_task, create_control_task, process_result, resolve, completed_from,
  resolve_taken,
}
use mqss_integration_deploym.Qoffload.Protocol.{
  ControlCommand, create_quantum_task, get_task_status, get_task_result, get_cancel_reason,
  list_resources, get_resource_info, query_pending_tasks, invalid, cancel_reason_result,
}
use mqss_integration_deploym.Qoffload.Control.{
  execute, process, apply_create, handle_get_task_result, handle_get_cancel_reason, protocol_for,
  is_waiting, taken_reason, taken_result,
}
use mqss_integration_deploym.Qoffload.Service.{
  Service, new_service, Round, task_received, request_received, result_received, round, run,
}
use mqss_integration_deploym.Qoffload.TaskStore.Bare.{
  IsBare, AllBare, take_completed-AllBare, store_completed-AllBare, take_pending-AllBare,
}

-- A property of the store that its operations keep; only bare results are stored.
pub record Kept (P : TaskStore → Type 0) : Type 0 where
  pub adds : (t : PendingTask) (s : TaskStore) → P s → P (add_direct_task t s)
  pub takes : (id : ℕ) (s : TaskStore) → P s → P (take_pending id s).1
  pub stores :
      (t : CompletedControlTask) (s : TaskStore)
      → IsBare t
      → P s
      → P (store_completed_control_task t s)
  pub fetches : (id : ℕ) (s : TaskStore) → P s → P (take_completed_control_task id s).1

module _ (P : TaskStore → Type 0) (kept : Kept P) where
  forward_direct_task-kept :
      (request : QuantumTask) (s : TaskStore) (config : Config) (f : Forward)
      → P s
      → P (forward_direct_task request s config f).1
  unfolding forward_direct_task
  forward_direct_task-kept request s config f h = kept.adds _ s h

  create_control_task-kept :
      (task : QuantumTask) (s : TaskStore) (config : Config) (f : Forward)
      → P s
      → P (create_control_task task s config f).1
  unfolding create_control_task
  create_control_task-kept task s config f h = kept.adds _ s h

  resolve-kept :
      (k : PendingTaskKind) (p : PendingTask) (result : QuantumResult) (s : TaskStore)
      → P s
      → P (resolve k p result s).1
  unfolding resolve completed_from
  resolve-kept direct_task p result s h = h
  resolve-kept control_task p result s h =
      kept.stores _ s
        (record {
          no_reason = refl;
          never_scheduled = refl;
          never_submitted = refl;
          never_completed = refl;
        })
        h

  process_result-kept :
      (result : QuantumResult) (s : TaskStore) → P s → P (process_result result s).1
  unfolding process_result
  process_result-kept result s h =
      taken (take_pending (int32_to_uint64 result.task_id) s)
        (kept.takes (int32_to_uint64 result.task_id) s h)
    where
      taken : (t : Option PendingTask × TaskStore) → P t.1 → P (resolve_taken result t).1
      taken (none, s') k = k
      taken (some p, s') k = resolve-kept p.kind p result s' k

  fetch_result-kept : (id : ℕ) (s : TaskStore) → P s → P (handle_get_task_result id s).1
  unfolding handle_get_task_result
  fetch_result-kept id s h = elim (Bool-cases (is_waiting (status id s))) [
    | inl w ↦ rw w h
    | inr w ↦ rw w (taken (take_completed_control_task id s) (kept.fetches id s h))
  ]
    where
      taken : (t : Option CompletedControlTask × TaskStore) → P t.1 → P (taken_result t).1
      taken (none, s') k = k
      taken (some t, s') k = k

  fetch_reason-kept : (id : ℕ) (s : TaskStore) → P s → P (handle_get_cancel_reason id s).1
  unfolding handle_get_cancel_reason
  fetch_reason-kept id s h = elim (Bool-cases (is_waiting (status id s))) [
    | inl w ↦ rw w h
    | inr w ↦ rw w (taken (take_completed_control_task id s) (kept.fetches id s h))
  ]
    where
      taken : (t : Option CompletedControlTask × TaskStore) → P t.1 → P (taken_reason t).1
      taken (none, s') k = k
      taken (some t, s') k = k

  execute-kept :
      (c : ControlCommand) (s : TaskStore) (config : Config) (f : Forward)
      → P s
      → P (execute c s config f).tasks
  unfolding execute
  execute-kept (create_quantum_task c) s config f h =
      create_control_task-kept (apply_create c blank_task) s config f h
  execute-kept (get_task_status id) s config f h = h
  execute-kept (get_task_result id) s config f h = fetch_result-kept id s h
  execute-kept (get_cancel_reason id) s config f h = fetch_reason-kept id s h
  execute-kept list_resources s config f h = h
  execute-kept (get_resource_info name) s config f h = h
  execute-kept (query_pending_tasks name) s config f h = h
  execute-kept (invalid message) s config f h = h

  process-kept :
      (request : ApiRequest) (s : TaskStore) (config : Config) (f : Forward)
      → P s
      → P (process request s config f).1
  unfolding process
  process-kept request s config f h =
      execute-kept ((protocol_for request.typed_request).decode request).command s config f h

  round-kept : (r : Round) (s : Service) → P s.tasks → P (round r s).1.tasks
  unfolding round
  round-kept (task_received (value request) status) s h =
      forward_direct_task-kept request s.tasks s.config s.forwarder h
  round-kept (task_received (unexpected error) status) s h = h
  round-kept (request_received (value request) a b) s h =
      process-kept request s.tasks s.config s.forwarder h
  round-kept (request_received (unexpected error) a b) s h = h
  round-kept (result_received (value result) status) s h = process_result-kept result s.tasks h
  round-kept (result_received (unexpected error) status) s h = h

  pub run-kept : (rs : List Round) (s : Service) → P s.tasks → P (run rs s).1.tasks
  unfolding run
  run-kept [] s h = h
  run-kept (r ∷ rs) s h = run-kept rs (round r s).1 (round-kept r s h)

AllBare-kept : Kept AllBare
unfolding add_direct_task
AllBare-kept = record {
  adds = λ t s h. h;
  takes = take_pending-AllBare;
  stores = store_completed-AllBare;
  fetches = take_completed-AllBare;
}

new_store-AllBare : AllBare new_store
unfolding find
new_store-AllBare k t h = cc

-- A reason fetched from a store of bare tasks is empty.
reason-AllBare :
    (id : ℕ) (s : TaskStore) (config : Config) (f : Forward) (reason : String)
    → AllBare s
    → (execute (get_cancel_reason id) s config f).result ≡ cancel_reason_result reason
    → reason ≡ ""
unfolding execute handle_get_cancel_reason take_completed_control_task
reason-AllBare id s config f reason h e = elim (Bool-cases (is_waiting (status id s))) [
  | inl w ↦ ground (arith, w)
  | inr w ↦ elim (Option-cases (find id s.completed_control_tasks)) [
    | inl gone ↦ ground (arith, w, gone)
    | inr (t, there) ↦
        let bare : t.cancel_reason ≡ "" = (h id t there).no_reason in ground (arith, w, there, bare)
  ]
]

-- After any rounds of a new service, a reason that the service tells a client who asks why a task was
-- cancelled is the empty string.
pub cancel_reasons_empty :
    (rs : List Round) (config : Config) (id : ℕ) (reason : String)
    → (execute
        (get_cancel_reason id)
        (run rs (new_service config)).1.tasks
        config
        (run rs (new_service config)).1.forwarder).result
      ≡ cancel_reason_result reason
    → reason ≡ ""
cancel_reasons_empty rs config id reason =
    let s = (run rs (new_service config)).1 in
    reason-AllBare id s.tasks config s.forwarder reason
      (run-kept AllBare AllBare-kept rs (new_service config) new_store-AllBare)
