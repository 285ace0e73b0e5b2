-- ===== src/Qoffload/Threads/Fetched.antt =====
-- What is completed stays in the task store of examples/qoffload_service while the workers interleave,
-- until the control worker fetches it for a client.
use mqss_integration_deploym.Base.{
  ℕ, ◌+◌, ◌≤◌, ◌≡◌, refl, ap, ◌∙◌, ◌⊎◌, inl, inr, List, Option, none, some, nat_eq, Bool, true,
  false, Bool-cases, Option-cases, ◌==◌, nat_beq_iff, arith, if-both, is_some,
}
use mqss_integration_deploym.Dict.{find, find-erase, find-insert_or_assign}
use mqss_integration_deploym.Words.{int32_to_uint64}
use mqss_integration_deploym.Mqss.Status.{Status, Result, value, unexpected}
use mqss_integration_deploym.Qoffload.Proto.{QuantumTask, QuantumResult, ApiRequest}
use mqss_integration_deploym.Qoffload.TaskStore.{
  TaskStore, PendingTask, CompletedControlTask, add_direct_task, add_control_task, take_pending,
  store_completed_control_task, take_completed_control_task,
}
use mqss_integration_deploym.Qoffload.Protocol.{
  ControlCommand, create_quantum_task, get_task_status, get_task_result, get_cancel_reason,
  list_resources, get_resource_info, query_pending_tasks, invalid, task_result_result,
  cancel_reason_result,
}
use mqss_integration_deploym.Qoffload.Service.{Effect}
use mqss_integration_deploym.Qoffload.Threads.State.{
  Threads, TaskWorker, ControlWorker, ResultWorker, awaiting_task, numbering, registering, sending,
  task_stopped, awaiting_request, executing, creating, fetching_result, fetching_reason, forwarding,
  responding, control_stopped, awaiting_result, taking, storing, returning, result_stopped,
}
use mqss_integration_deploym.Qoffload.Threads.Workers.{
  task_received, result_received, task_step, result_step, taken,
}
use mqss_integration_deploym.Qoffload.Threads.Commands.{
  request_received, control_step, command_step, unless_waiting,
}
use mqss_integration_deploym.Qoffload.Threads.Turns.{
  Turn, task_turn, control_turn, result_turn, stop_turn, turn,
}
use mqss_integration_deploym.Qoffload.Threads.Places.{
  given-le, places, one_if, in_store, in_result_worker,
}
use mqss_integration_deploym.Qoffload.Threads.StoreCounts.{take-completed}
use mqss_integration_deploym.Qoffload.Threads.Invariant.{
  taken_result-store, taken_reason-store, Inv,
}

-- The control worker was about to fetch the task of the id, and now holds the answer about it.
abbrev pub IsFetched : ℕ → CompletedControlTask → ControlWorker → ControlWorker → Type 0
IsFetched id c (fetching_result request k) w =
    (k ≡ id) × (w ≡ responding request (task_result_result c))
IsFetched id c (fetching_reason request k) w =
    (k ≡ id) × (w ≡ responding request (cancel_reason_result c.cancel_reason))
IsFetched id c _ w = ⊥

-- A completed task stays, or it is fetched.
abbrev pub FollowsCompleted : ℕ → Option CompletedControlTask → Threads → Threads → Type 0
FollowsCompleted id none s s' = Unit
FollowsCompleted id (some c) s s' =
    (find id s'.tasks.completed_control_tasks ≡ some c)
    ⊎ IsFetched id c s.control_worker s'.control_worker

taken-completed :
    (result : QuantumResult) (t : Option PendingTask × TaskStore) (s : Threads)
    → (taken result t s).tasks.completed_control_tasks ≡ t.1.completed_control_tasks
taken-completed result (none, tasks) s = refl
taken-completed result (some q, tasks) s = refl

take_elsewhere :
    (k id : ℕ) (s : TaskStore)
    → (k == id) ≡ false
    → find id (take_completed_control_task k s).1.completed_control_tasks
      ≡ find id s.completed_control_tasks
unfolding take_completed_control_task
take_elsewhere k id s other = ground (
  arith,
  Option-cases (find k s.completed_control_tasks),
  other,
  find-erase k id s.completed_control_tasks,
)

take_there :
    (id : ℕ) (s : TaskStore) (c : CompletedControlTask)
    → find id s.completed_control_tasks ≡ some c
    → take_completed_control_task id s ≡ (some c, (take_completed_control_task id s).1)
unfolding take_completed_control_task
take_there id s c there = ground (arith, there)

module _ {n : ℕ} (s : Threads) (inv : Inv n s) (id : ℕ) (c : CompletedControlTask)
    (there : find id s.tasks.completed_control_tasks ≡ some c) where
  unless-completed :
      (w : Bool) (request : ApiRequest) (next : ControlWorker)
      → (unless_waiting w request next s).tasks ≡ s.tasks
  unless-completed true request next = refl
  unless-completed false request next = refl

  task_step-completed :
      (w : TaskWorker) (received : Result QuantumTask) (st : Status)
      → find id (task_step w received st s).1.tasks.completed_control_tasks ≡ some c
  unfolding task_step add_direct_task
  task_step-completed awaiting_task received st =
      if-both (λ (o : List Effect × Threads). find id o.1.tasks.completed_control_tasks ≡ some c)
        s.stop_tokens.task there (heard received)
    where
      heard :
          (r : Result QuantumTask)
          → find id (task_received r s).1.tasks.completed_control_tasks ≡ some c
      heard (unexpected error) = there
      heard (value request) = there
  task_step-completed (numbering request) received st = there
  task_step-completed (registering request k) received st = there
  task_step-completed (sending task) received st = there
  task_step-completed task_stopped received st = there

  command_step-completed :
      (command : ControlCommand) (request : ApiRequest)
      → find id (command_step command request s).tasks.completed_control_tasks ≡ some c
  unfolding command_step
  command_step-completed (create_quantum_task command) request = there
  command_step-completed (get_task_status k) request = there
  command_step-completed (get_task_result k) request =
      rw (unless-completed _ request (fetching_result request k)) there
  command_step-completed (get_cancel_reason k) request =
      rw (unless-completed _ request (fetching_reason request k)) there
  command_step-completed list_resources request = there
  command_step-completed (get_resource_info name) request = there
  command_step-completed (query_pending_tasks name) request = there
  command_step-completed (invalid message) request = there

  control_step-follows :
      (w : ControlWorker) (received : Result ApiRequest) (a b : Status)
      → (find id (control_step w received a b s).1.tasks.completed_control_tasks ≡ some c)
        ⊎ IsFetched id c w (control_step w received a b s).1.control_worker
  unfolding control_step add_control_task
  control_step-follows awaiting_request received a b = inl (
      if-both (λ (o : List Effect × Threads). find id o.1.tasks.completed_control_tasks ≡ some c)
        s.stop_tokens.control there (heard received))
    where
      heard :
          (r : Result ApiRequest)
          → find id (request_received r s).1.tasks.completed_control_tasks ≡ some c
      heard (unexpected error) = there
      heard (value request) = there
  control_step-follows (executing request) received a b = inl (command_step-completed _ request)
  control_step-follows (creating request task k) received a b = inl there
  control_step-follows (fetching_result request k) received a b = elim (Bool-cases (k == id)) [
    | inl here ↦
        let same = (nat_beq_iff k id).0 here in
        inr (same, rw same (rw (take_there id s.tasks c there) refl))
    | inr other ↦ inl (
        ap (λ t. find id t.completed_control_tasks)
          (taken_result-store (take_completed_control_task k s.tasks))
        ∙ take_elsewhere k id s.tasks other
        ∙ there)
  ]
  control_step-follows (fetching_reason request k) received a b = elim (Bool-cases (k == id)) [
    | inl here ↦
        let same = (nat_beq_iff k id).0 here in
        inr (same, rw same (rw (take_there id s.tasks c there) refl))
    | inr other ↦ inl (
        ap (λ t. find id t.completed_control_tasks)
          (taken_reason-store (take_completed_control_task k s.tasks))
        ∙ take_elsewhere k id s.tasks other
        ∙ there)
  ]
  control_step-follows (forwarding request task) received a b = inl there
  control_step-follows (responding request result) received a b = inl there
  control_step-follows control_stopped received a b = inl there

  -- A task that is to be stored is another one.
  stored_apart : (k : ℕ) → one_if (k == id) + in_store id s.tasks ≤ places id s → (k == id) ≡ false
  stored_apart k h = elim (Bool-cases (k == id)) [
    | inl here ↦ absurd (
        let full : one_if (is_some (find id s.tasks.completed_control_tasks)) ≡ 1 =
          ap (λ o. one_if (is_some o)) there in
        let same : one_if (k == id) ≡ 1 = ap one_if here in
        omega (arith, h, inv.once id, given-le s.forwarder id, full, same))
    | inr other ↦ other
  ]

  result_step-completed :
      (w : ResultWorker) (received : Result QuantumResult) (st : Status)
      → s.result_worker ≡ w
      → find id (result_step w received st s).1.tasks.completed_control_tasks ≡ some c
  unfolding result_step store_completed_control_task
  result_step-completed awaiting_result received st e =
      if-both (λ (o : List Effect × Threads). find id o.1.tasks.completed_control_tasks ≡ some c)
        s.stop_tokens.result there (heard received)
    where
      heard :
          (r : Result QuantumResult)
          → find id (result_received r s).1.tasks.completed_control_tasks ≡ some c
      heard (unexpected error) = there
      heard (value result) = there
  result_step-completed (taking result) received st e =
      let k = int32_to_uint64 result.task_id in
      ap (find id) (taken-completed result (take_pending k s.tasks) s ∙ take-completed id k s.tasks)
      ∙ there
  result_step-completed (storing t) received st e =
      let other = stored_apart t.task_id (omega (arith, ap (in_result_worker id) e)) in
      ground
        (arith, other, find-insert_or_assign t.task_id id t s.tasks.completed_control_tasks, there)
  result_step-completed (returning result destination) received st e = there
  result_step-completed result_stopped received st e = there

  turn-some : (t : Turn) → FollowsCompleted id (some c) s (turn t s).1
  unfolding turn
  turn-some (task_turn received st) = inl (task_step-completed s.task_worker received st)
  turn-some (control_turn received a b) = control_step-follows s.control_worker received a b
  turn-some (result_turn received st) = inl (result_step-completed s.result_worker received st refl)
  turn-some (stop_turn worker) = inl there

pub completed-follows :
    {n : ℕ} (s : Threads) (inv : Inv n s) (id : ℕ) (t : Turn) (o : Option CompletedControlTask)
    → find id s.tasks.completed_control_tasks ≡ o
    → FollowsCompleted id o s (turn t s).1
completed-follows s inv id t none e = tt
completed-follows s inv id t (some c) e = turn-some s inv id c e t
