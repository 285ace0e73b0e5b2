-- ===== src/Qoffload/Threads/Race.antt =====
-- examples/qoffload_service: a query for a control task between the two sections of `processResult`
-- (`takePending` and `storeCompletedControlTask` in Forward.cpp).
use mqss_integration_deploym.Base.{
  ℕ, ◌+◌, ◌^◌, ◌<◌, ◌≡◌, refl, ap, subst, ◌∙◌, Option-cases, inl, inr, List, none, some, arith,
  nat_eq, if◌then◌else◌, length, is_some,
}
use mqss_integration_deploym.Dict.{find, find-erase_self}
use mqss_integration_deploym.Words.{int32_to_uint64}
use mqss_integration_deploym.Mqss.Status.{Status, Result}
use mqss_integration_deploym.Qoffload.Proto.{QuantumResult, ApiRequest}
use mqss_integration_deploym.Qoffload.Config.{Config}
use mqss_integration_deploym.Qoffload.TaskStore.{
  TaskStore, PendingTask, control_task, CompletedControlTask, take_pending,
  store_completed_control_task, status, waiting, completed, cancelled, not_found,
}
use mqss_integration_deploym.Qoffload.Forward.{completed_from}
use mqss_integration_deploym.Qoffload.Forward.Correlation.{
  taken_is_gone, stored, status_of_registered,
}
use mqss_integration_deploym.Qoffload.Protocol.{get_task_status, task_status_result}
use mqss_integration_deploym.Qoffload.Control.{protocol_for, handle_get_task_status}
use mqss_integration_deploym.Qoffload.Service.{new_service}
use mqss_integration_deploym.Qoffload.Threads.State.{
  Threads, at_rest, executing, responding, taking, storing, awaiting_result,
}
use mqss_integration_deploym.Qoffload.Threads.Workers.{result_step, taken, taken_kind}
use mqss_integration_deploym.Qoffload.Threads.Commands.{control_step, command_step}
use mqss_integration_deploym.Qoffload.Threads.Turns.{started, Turn, control_turn, result_turn, turn}
use mqss_integration_deploym.Qoffload.Threads.Places.{given-le, one_if, take_some}
use mqss_integration_deploym.Qoffload.Threads.Invariant.{Inv}
use mqss_integration_deploym.Qoffload.Threads.Once.{play-Inv, start-Inv}

-- A task that is pending is not among the completed ones.
pending_only :
    {n : ℕ} (s : Threads)
    → Inv n s
    → (id : ℕ) (p : PendingTask) → find id s.tasks.pending ≡ some p
    → find id s.tasks.completed_control_tasks ≡ none
pending_only s inv id p there = elim (Option-cases (find id s.tasks.completed_control_tasks)) [
  | inl gone ↦ gone
  | inr (t, e) ↦
      let here : one_if (is_some (find id s.tasks.pending)) ≡ 1 =
        ap (λ o. one_if (is_some o)) there in
      let too : one_if (is_some (find id s.tasks.completed_control_tasks)) ≡ 1 =
        ap (λ o. one_if (is_some o)) e in
      absurd (omega (arith, here, too, inv.once id, given-le s.forwarder id))
]

not_found_between :
    (id : ℕ) (s : TaskStore)
    → find id s.completed_control_tasks ≡ none
    → status id (take_pending id s).1 ≡ not_found
unfolding status take_pending
not_found_between id s h =
    ground (arith, h, Option-cases (find id s.pending), find-erase_self id s.pending)

status_after :
    (p : PendingTask) (result : QuantumResult) (id : ℕ) (s : TaskStore)
    → p.original_task_id ≡ id
    → find id s.pending ≡ none
    → status id (store_completed_control_task (completed_from p result) s)
      ≡ (if result.execution_status then completed else cancelled)
unfolding completed_from
status_after p result id s key gone =
    subst
      (λ k.
        find k s.pending ≡ none
        → status k (store_completed_control_task (completed_from p result) s)
          ≡ (if result.execution_status then completed else cancelled))
      key (λ g. (stored (completed_from p result) s g).0) gone

-- The turn in which the control worker reads a status.
ask_turn :
    (s : Threads) (request : ApiRequest) (received : Result ApiRequest) (a b : Status) (id : ℕ)
    → s.control_worker ≡ executing request
    → ((protocol_for request.typed_request).decode request).command ≡ get_task_status id
    → (turn (control_turn received a b) s).1.control_worker
      ≡ responding request (task_status_result (status id s.tasks))
unfolding turn control_step command_step handle_get_task_status
ask_turn s request received a b id e c = rw e (rw c refl)

-- The first section of `processResult`, for a control task.
take_turn :
    (s : Threads) (received : Result QuantumResult) (st : Status) (result : QuantumResult) (id : ℕ)
    (p : PendingTask)
    → s.result_worker ≡ taking result
    → int32_to_uint64 result.task_id ≡ id
    → find id s.tasks.pending ≡ some p
    → p.kind ≡ control_task
    → (turn (result_turn received st) s).1 ≡ record s {
      tasks = (take_pending id s.tasks).1;
      result_worker = storing (completed_from p result);
    }
unfolding turn result_step
take_turn s received st result id p e wire there k =
    ap (λ w. (result_step w received st s).1) e
    ∙ ap (λ i. taken result (take_pending i s.tasks) s) wire
    ∙ ap (λ t. taken result t s) (take_some id s.tasks p there)
    ∙ ap
        (λ c. record s {
          tasks = (take_pending id s.tasks).1;
          result_worker = taken_kind c p result;
        })
        k

store_turn :
    (s : Threads) (received : Result QuantumResult) (st : Status) (c : CompletedControlTask)
    → s.result_worker ≡ storing c
    → (turn (result_turn received st) s).1
      ≡ record s { tasks = store_completed_control_task c s.tasks; result_worker = awaiting_result }
unfolding turn result_step
store_turn s received st c e = ap (λ w. (result_step w received st s).1) e

-- The two sections of `processResult` show: in a state that a new service reaches by fewer than 2^33
-- turns of its workers, with an instance number below 2^31, let the control worker be about to read the status of a pending control task
-- whose result the result worker is about to take. The client is told that the task waits if the
-- control worker moves first, that it is completed or cancelled, as the result says, if it moves after
-- both sections, and that there is no such task if it moves between them.
pub finished_task_not_found :
    (ts : List Turn) (config : Config) (s : Threads) (request : ApiRequest) (result : QuantumResult)
    (p : PendingTask) (id : ℕ) (asked : Result ApiRequest) (a b : Status)
    (heard : Result QuantumResult) (st : Status)
    → config.identity.instance_uid < 2 ^ 31
    → length ts < 2 ^ 33
    → s ≡ started config ts
    → s.control_worker ≡ executing request
    → ((protocol_for request.typed_request).decode request).command ≡ get_task_status id
    → s.result_worker ≡ taking result
    → int32_to_uint64 result.task_id ≡ id
    → find id s.tasks.pending ≡ some p
    → p.kind ≡ control_task
    → let ask = control_turn asked a b in
      let work = result_turn heard st in
      ((turn ask s).1.control_worker ≡ responding request (task_status_result waiting))
      × ((turn ask (turn work s).1).1.control_worker
          ≡ responding request (task_status_result not_found))
      × ((turn ask (turn work (turn work s).1).1).1.control_worker
          ≡ responding request
              (task_status_result (if result.execution_status then completed else cancelled)))
finished_task_not_found ts config s request result p id asked a b heard st uid short reached control
      asks hand wire there kind =
    let inv : Inv (0 + length ts) s =
      rw reached
        (play-Inv ts (at_rest (new_service config)) (start-Inv config uid) (omega arith)) in
    let none_yet = pending_only s inv id p there in
    let taken_tasks = (take_pending id s.tasks).1 in
    let c = completed_from p result in
    let first = take_turn s heard st result id p hand wire there kind in
    let between : status id taken_tasks ≡ not_found = not_found_between id s.tasks none_yet in
    let after =
      status_after p result id taken_tasks (inv.control_keyed id p there kind)
        (taken_is_gone id s.tasks) in
    (
      ask_turn s request asked a b id control asks
          ∙ ap (λ t. responding request (task_status_result t))
              (status_of_registered id s.tasks there),
      rw first (
          ask_turn (record s { tasks = taken_tasks; result_worker = storing c }) request asked a b
            id control asks
          ∙ ap (λ t. responding request (task_status_result t)) between),
      rw first (
          rw
            (store_turn (record s { tasks = taken_tasks; result_worker = storing c }) heard st c
              refl)
            (ask_turn
                (record s {
                  tasks = store_completed_control_task c taken_tasks;
                  result_worker = awaiting_result;
                })
                request asked a b id control asks
              ∙ ap (λ t. responding request (task_status_result t)) after)),
    )
