-- ===== src/Qoffload/Threads/Pending.antt =====
-- examples/qoffload_service: what is pending stays while the workers of QOffload.cpp interleave, until the
-- result worker takes it.
use mqss_integration_deploym.Base.{
  ℕ, ◌+◌, ◌≤◌, ◌≡◌, ◌≢◌, refl, ap, Option-cases, inl, inr, List, Option, none, some, arith, nat_eq,
  Bool, true, false, ◌==◌, nat_beq_iff, if-both,
}
use mqss_integration_deploym.Dict.{find, find-insert_or_assign}
use mqss_integration_deploym.Words.{int32_to_uint64}
use mqss_integration_deploym.Mqss.Status.{Status, Result, value, unexpected}
use mqss_integration_deploym.Qoffload.Proto.{QuantumTask, QuantumResult, ApiRequest}
use mqss_integration_deploym.Qoffload.TaskStore.{
  TaskStore, PendingTask, add_direct_task, add_control_task, take_pending,
  store_completed_control_task, take_completed_control_task, status,
}
use mqss_integration_deploym.Qoffload.Protocol.{
  ControlCommand, create_quantum_task, get_task_status, get_task_result, get_cancel_reason,
  list_resources, get_resource_info, query_pending_tasks, invalid,
}
use mqss_integration_deploym.Qoffload.Control.{is_waiting}
use mqss_integration_deploym.Qoffload.Service.{Effect}
use mqss_integration_deploym.Qoffload.Threads.State.{
  Threads, TaskWorker, ControlWorker, ResultWorker, awaiting_task, numbering, registering, sending,
  task_stopped, awaiting_request, executing, creating, fetching_result, fetching_reason, forwarding,
  responding, control_stopped, awaiting_result, taking, storing, returning, result_stopped,
}
use mqss_integration_deploym.Qoffload.Threads.Workers.{
  task_received, result_received, task_step, result_step, taken,
}
use mqss_integration_deploym.Qoffload.Threads.Commands.{
  request_received, control_step, command_step, unless_waiting,
}
use mqss_integration_deploym.Qoffload.Threads.Turns.{
  Turn, task_turn, control_turn, result_turn, stop_turn, turn,
}
use mqss_integration_deploym.Qoffload.Threads.Places.{
  given-le, places, one_if, in_store, in_task_worker, in_control_worker,
}
use mqss_integration_deploym.Base.{◌∙◌, beq-false, is_some, ◌⊎◌}
use mqss_integration_deploym.Qoffload.Service.Steps.{take-pending}
use mqss_integration_deploym.Qoffload.Threads.Invariant.{
  taken_result-store, taken_reason-store, Inv,
}

-- The result worker is about to take the pending task of the id.
abbrev pub IsTaking : ℕ → ResultWorker → Type 0
IsTaking id (taking result) = int32_to_uint64 result.task_id ≡ id
IsTaking id _ = ⊥

abbrev pub IsForeign : ℕ → Turn → Type 0
IsForeign id (result_turn (value result) st) = int32_to_uint64 result.task_id ≢ id
IsForeign id _ = Unit

abbrev pub IsOther : Turn → Type 0
IsOther (result_turn received st) = ⊥
IsOther _ = Unit

taken-pending :
    (result : QuantumResult) (t : Option PendingTask × TaskStore) (s : Threads)
    → (taken result t s).tasks.pending ≡ t.1.pending
taken-pending result (none, tasks) s = refl
taken-pending result (some q, tasks) s = refl

-- What is pending under `id` stays, unless the result worker takes it.
module _ {n : ℕ} (s : Threads) (inv : Inv n s) (id : ℕ) (p : PendingTask)
    (there : find id s.tasks.pending ≡ some p) where
  -- An id that a worker has drawn is another one.
  drawn_apart : (k : ℕ) → one_if (k == id) + in_store id s.tasks ≤ places id s → k ≢ id
  drawn_apart k h e =
      let full : one_if (is_some (find id s.tasks.pending)) ≡ 1 =
        ap (λ o. one_if (is_some o)) there in
      let same : one_if (k == id) ≡ 1 = ap one_if ((nat_beq_iff k id).1 e) in
      omega (arith, h, inv.once id, given-le s.forwarder id, full, same)

  unless-stays :
      (w : Bool) (request : ApiRequest) (next : ControlWorker)
      → find id (unless_waiting w request next s).tasks.pending ≡ some p
  unless-stays true request next = there
  unless-stays false request next = there

  add-stays :
      (t : PendingTask)
      → t.forwarded_task_id ≢ id
      → find id (add_direct_task t s.tasks).pending ≡ some p
  unfolding add_direct_task
  add-stays t ne = ground (
    arith,
    find-insert_or_assign t.forwarded_task_id id t s.tasks.pending,
    there,
    beq-false t.forwarded_task_id id ne,
  )

  fetch-stays : (k : ℕ) → find id (take_completed_control_task k s.tasks).1.pending ≡ some p
  unfolding take_completed_control_task
  fetch-stays k = ground (arith, Option-cases (find k s.tasks.completed_control_tasks), there)

  task_step-stays :
      (w : TaskWorker) (received : Result QuantumTask) (st : Status)
      → s.task_worker ≡ w
      → find id (task_step w received st s).1.tasks.pending ≡ some p
  unfolding task_step
  task_step-stays awaiting_task received st e =
      if-both (λ (o : List Effect × Threads). find id o.1.tasks.pending ≡ some p) s.stop_tokens.task
        there (heard received)
    where
      heard : (r : Result QuantumTask) → find id (task_received r s).1.tasks.pending ≡ some p
      heard (unexpected error) = there
      heard (value request) = there
  task_step-stays (numbering request) received st e = there
  task_step-stays (registering request k) received st e =
      add-stays _ (drawn_apart k (omega (arith, ap (in_task_worker id) e)))
  task_step-stays (sending task) received st e = there
  task_step-stays task_stopped received st e = there

  command_step-stays :
      (c : ControlCommand) (request : ApiRequest)
      → find id (command_step c request s).tasks.pending ≡ some p
  unfolding command_step
  command_step-stays (create_quantum_task c) request = there
  command_step-stays (get_task_status k) request = there
  command_step-stays (get_task_result k) request =
      unless-stays (is_waiting (status k s.tasks)) request (fetching_result request k)
  command_step-stays (get_cancel_reason k) request =
      unless-stays (is_waiting (status k s.tasks)) request (fetching_reason request k)
  command_step-stays list_resources request = there
  command_step-stays (get_resource_info name) request = there
  command_step-stays (query_pending_tasks name) request = there
  command_step-stays (invalid message) request = there

  control_step-stays :
      (w : ControlWorker) (received : Result ApiRequest) (a b : Status)
      → s.control_worker ≡ w
      → find id (control_step w received a b s).1.tasks.pending ≡ some p
  unfolding control_step
  control_step-stays awaiting_request received a b e =
      if-both (λ (o : List Effect × Threads). find id o.1.tasks.pending ≡ some p)
        s.stop_tokens.control there (heard received)
    where
      heard : (r : Result ApiRequest) → find id (request_received r s).1.tasks.pending ≡ some p
      heard (unexpected error) = there
      heard (value request) = there
  control_step-stays (executing request) received a b e = command_step-stays _ request
  control_step-stays (creating request task k) received a b e =
      unfold add_control_task in
      add-stays _ (drawn_apart k (omega (arith, ap (in_control_worker id) e)))
  control_step-stays (fetching_result request k) received a b e =
      rw (taken_result-store (take_completed_control_task k s.tasks)) (fetch-stays k)
  control_step-stays (fetching_reason request k) received a b e =
      rw (taken_reason-store (take_completed_control_task k s.tasks)) (fetch-stays k)
  control_step-stays (forwarding request task) received a b e = there
  control_step-stays (responding request result) received a b e = there
  control_step-stays control_stopped received a b e = there

  taken-stays :
      (result : QuantumResult)
      → int32_to_uint64 result.task_id ≢ id
      → find id
          (taken result (take_pending (int32_to_uint64 result.task_id) s.tasks) s).tasks.pending
        ≡ some p
  taken-stays result ne =
      ap (find id) (taken-pending result (take_pending (int32_to_uint64 result.task_id) s.tasks) s)
      ∙ (take-pending (int32_to_uint64 result.task_id) id s.tasks ne ∙ there)

  result_step-stays :
      (w : ResultWorker) (received : Result QuantumResult) (st : Status)
      → ¬ (IsTaking id w)
      → find id (result_step w received st s).1.tasks.pending ≡ some p
  unfolding result_step
  result_step-stays awaiting_result received st e =
      if-both (λ (o : List Effect × Threads). find id o.1.tasks.pending ≡ some p)
        s.stop_tokens.result there (heard received)
    where
      heard : (r : Result QuantumResult) → find id (result_received r s).1.tasks.pending ≡ some p
      heard (unexpected error) = there
      heard (value request) = there
  result_step-stays (taking result) received st e = taken-stays result e
  result_step-stays (storing completed) received st e = unfold store_completed_control_task in there
  result_step-stays (returning result destination) received st e = there
  result_step-stays result_stopped received st e = there

  pub turn-stays :
      (t : Turn)
      → IsOther t ⊎ (¬ (IsTaking id s.result_worker))
      → find id (turn t s).1.tasks.pending ≡ some p
  unfolding turn
  turn-stays (task_turn received st) h = task_step-stays s.task_worker received st refl
  turn-stays (control_turn received a b) h = control_step-stays s.control_worker received a b refl
  turn-stays (result_turn received st) (inr free) =
      result_step-stays s.result_worker received st free
  turn-stays (result_turn received st) (inl other) = elim other [ ]
  turn-stays (stop_turn worker) h = there
