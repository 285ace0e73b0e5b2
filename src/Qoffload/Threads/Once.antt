-- ===== src/Qoffload/Threads/Once.antt =====
-- Every turn of the workers keeps the invariant of the task ids.
use mqss_integration_deploym.Base.{
  ℕ, suc, ◌+◌, ◌^◌, ◌≤◌, ◌<◌, ◌≡◌, refl, ap, Bool-cases, Option-cases, inl, inr, List, [], ◌∷◌,
  arith, nat_eq, ◌==◌, length, if-both,
}
use mqss_integration_deploym.Dict.{find}
use mqss_integration_deploym.Words.{int32_to_uint64}
use mqss_integration_deploym.Mqss.Status.{Status, Result, value, unexpected}
use mqss_integration_deploym.Qoffload.Proto.{QuantumTask, QuantumResult, ApiRequest}
use mqss_integration_deploym.Qoffload.Config.{Config}
use mqss_integration_deploym.Qoffload.TaskStore.{
  TaskStore, PendingTask, PendingTaskKind, direct_task, control_task, add_control_task,
  take_pending, store_completed_control_task, take_completed_control_task, status,
}
use mqss_integration_deploym.Qoffload.TaskStore.Laws.{
  IsValid, add_direct_task-IsValid, add_control_task-IsValid, take_pending-IsValid,
  store_completed-IsValid, take_completed-IsValid, new_store-IsValid,
}
use mqss_integration_deploym.Qoffload.Forward.{completed_from}
use mqss_integration_deploym.Qoffload.Protocol.{
  ControlResult, ControlCommand, create_quantum_task, get_task_status, get_task_result,
  get_cancel_reason, list_resources, get_resource_info, query_pending_tasks, invalid,
}
use mqss_integration_deploym.Qoffload.Control.{is_waiting}
use mqss_integration_deploym.Qoffload.Service.{new_service, Effect}
use mqss_integration_deploym.Qoffload.Threads.State.{
  Threads, at_rest, TaskWorker, ControlWorker, ResultWorker, awaiting_task, numbering, registering,
  sending, task_stopped, awaiting_request, executing, creating, fetching_result, fetching_reason,
  forwarding, responding, control_stopped, awaiting_result, taking, storing, returning,
  result_stopped,
}
use mqss_integration_deploym.Qoffload.Threads.Workers.{
  task_received, result_received, task_step, result_step, taken, taken_kind,
}
use mqss_integration_deploym.Qoffload.Threads.Commands.{
  request_received, control_step, command_step, fetched,
}
use mqss_integration_deploym.Qoffload.Threads.Turns.{
  Turn, task_turn, control_turn, result_turn, stop_turn, turn, play,
}
use mqss_integration_deploym.Qoffload.Threads.Places.{
  places, given, in_store-add, in_store-store, in_store-fetch, in_store-take, take_none, take_some,
  one_if, in_result_worker, in_task_worker, in_control_worker,
}
use mqss_integration_deploym.Qoffload.Threads.Invariant.{
  Inv, taken_result-store, taken_reason-store, Inv-later, Inv-kept, Inv-drawn, add-ControlKeyed,
  take-ControlKeyed, fetch-ControlKeyed, n+0, plus_suc,
}

kind-held :
    (kind : PendingTaskKind) (p : PendingTask) (result : QuantumResult) (k id : ℕ)
    → (kind ≡ control_task → p.original_task_id ≡ k)
    → in_result_worker id (taken_kind kind p result) ≤ one_if (k == id)
unfolding completed_from
kind-held direct_task p result k id h = omega arith
kind-held control_task p result k id h = ground (arith, h refl)

module _ {n : ℕ} (s : Threads) (inv : Inv n s) (bound : n < 2 ^ 33) where
  task_step-Inv :
      (w : TaskWorker) (received : Result QuantumTask) (st : Status)
      → s.task_worker ≡ w
      → Inv (suc n) (task_step w received st s).1
  unfolding task_step
  task_step-Inv awaiting_task received st e =
      if-both (λ (o : List Effect × Threads). Inv (suc n) o.1) s.stop_tokens.task
        (Inv-kept _ inv refl inv.valid inv.control_keyed (λ id. ground (arith, e))) (heard received)
    where
      heard : (r : Result QuantumTask) → Inv (suc n) (task_received r s).1
      heard (unexpected error) = Inv-later inv
      heard (value request) =
          Inv-kept _ inv refl inv.valid inv.control_keyed (λ id. ground (arith, e))
  task_step-Inv (numbering request) received st e =
      Inv-drawn _ inv bound refl refl (λ id. ground arith)
  task_step-Inv (registering request k) received st e =
      Inv-kept _ inv refl (add_direct_task-IsValid _ s.tasks inv.valid)
        (add-ControlKeyed _ s.tasks (λ c. cc) inv.control_keyed)
        (λ id. omega (arith, in_store-add _ s.tasks id, ap (in_task_worker id) e))
  task_step-Inv (sending task) received st e =
      Inv-kept _ inv refl inv.valid inv.control_keyed (λ id. ground (arith, e))
  task_step-Inv task_stopped received st e = Inv-later inv

  -- A step that answers, whatever it answers.
  moved-Inv :
      (w : ControlWorker)
      → ((id : ℕ) → in_control_worker id w ≡ 0)
      → Inv (suc n) (record s { control_worker = w })
  moved-Inv w empty =
      Inv-kept _ inv refl inv.valid inv.control_keyed (λ id. omega (arith, empty id))

  command_step-Inv :
      (c : ControlCommand) (request : ApiRequest) → Inv (suc n) (command_step c request s)
  unfolding command_step
  command_step-Inv (create_quantum_task c) request =
      Inv-drawn _ inv bound refl refl (λ id. omega arith)
  command_step-Inv (get_task_status id) request = moved-Inv _ (λ id. refl)
  command_step-Inv (get_task_result id) request =
      elim (Bool-cases (is_waiting (status id s.tasks))) [
        | inl w ↦ rw w (moved-Inv _ (λ id. refl))
        | inr w ↦ rw w (moved-Inv _ (λ id. refl))
      ]
  command_step-Inv (get_cancel_reason id) request =
      elim (Bool-cases (is_waiting (status id s.tasks))) [
        | inl w ↦ rw w (moved-Inv _ (λ id. refl))
        | inr w ↦ rw w (moved-Inv _ (λ id. refl))
      ]
  command_step-Inv list_resources request = moved-Inv _ (λ id. refl)
  command_step-Inv (get_resource_info name) request = moved-Inv _ (λ id. refl)
  command_step-Inv (query_pending_tasks name) request = moved-Inv _ (λ id. refl)
  command_step-Inv (invalid message) request = moved-Inv _ (λ id. refl)

  fetched-Inv :
      (k : ℕ) (request : ApiRequest) (result : ControlResult) (tasks : TaskStore)
      → tasks ≡ (take_completed_control_task k s.tasks).1
      → Inv (suc n) (fetched request (result, tasks) s)
  fetched-Inv k request result tasks e = rw e (
      Inv-kept _ inv refl (take_completed-IsValid k s.tasks inv.valid)
        (fetch-ControlKeyed k s.tasks inv.control_keyed)
        (λ id. omega (arith, in_store-fetch k s.tasks id)))

  control_step-Inv :
      (w : ControlWorker) (received : Result ApiRequest) (a b : Status)
      → s.control_worker ≡ w
      → Inv (suc n) (control_step w received a b s).1
  unfolding control_step
  control_step-Inv awaiting_request received a b e =
      if-both (λ (o : List Effect × Threads). Inv (suc n) o.1) s.stop_tokens.control
        (moved-Inv _ (λ id. refl)) (heard received)
    where
      heard : (r : Result ApiRequest) → Inv (suc n) (request_received r s).1
      heard (unexpected error) = Inv-later inv
      heard (value request) = moved-Inv _ (λ id. refl)
  control_step-Inv (executing request) received a b e = command_step-Inv _ request
  control_step-Inv (creating request task k) received a b e =
      Inv-kept _ inv refl (add_control_task-IsValid k s.tasks inv.valid)
        (unfold add_control_task in add-ControlKeyed _ s.tasks (λ c. refl) inv.control_keyed)
        (λ id.
          unfold add_control_task in
          omega (arith, in_store-add _ s.tasks id, ap (in_control_worker id) e))
  control_step-Inv (fetching_result request k) received a b e =
      fetched-Inv k request _ _ (taken_result-store (take_completed_control_task k s.tasks))
  control_step-Inv (fetching_reason request k) received a b e =
      fetched-Inv k request _ _ (taken_reason-store (take_completed_control_task k s.tasks))
  control_step-Inv (forwarding request task) received a b e = moved-Inv _ (λ id. refl)
  control_step-Inv (responding request result) received a b e = moved-Inv _ (λ id. refl)
  control_step-Inv control_stopped received a b e = Inv-later inv

  taken-Inv :
      (result : QuantumResult)
      → Inv (suc n) (taken result (take_pending (int32_to_uint64 result.task_id) s.tasks) s)
  taken-Inv result =
      let k = int32_to_uint64 result.task_id in
      elim (Option-cases (find k s.tasks.pending)) [
        | inl gone ↦
            rw (take_none k s.tasks gone)
              (Inv-kept _ inv refl inv.valid inv.control_keyed (λ id. omega arith))
        | inr (p, there) ↦ rw (take_some k s.tasks p there) (
            Inv-kept _ inv refl (take_pending-IsValid k s.tasks inv.valid)
              (take-ControlKeyed k s.tasks inv.control_keyed)
              (λ id. omega (
                arith,
                in_store-take k s.tasks id p there,
                kind-held p.kind p result k id (inv.control_keyed k p there),
              )))
      ]

  result_step-Inv :
      (w : ResultWorker) (received : Result QuantumResult) (st : Status)
      → s.result_worker ≡ w
      → Inv (suc n) (result_step w received st s).1
  unfolding result_step
  result_step-Inv awaiting_result received st e =
      if-both (λ (o : List Effect × Threads). Inv (suc n) o.1) s.stop_tokens.result
        (Inv-kept _ inv refl inv.valid inv.control_keyed (λ id. omega arith)) (heard received)
    where
      heard : (r : Result QuantumResult) → Inv (suc n) (result_received r s).1
      heard (unexpected error) = Inv-later inv
      heard (value result) = Inv-kept _ inv refl inv.valid inv.control_keyed (λ id. omega arith)
  result_step-Inv (taking result) received st e = taken-Inv result
  result_step-Inv (storing completed) received st e =
      Inv-kept _ inv refl (store_completed-IsValid completed s.tasks inv.valid)
        (unfold store_completed_control_task in inv.control_keyed)
        (λ id. omega (arith, in_store-store completed s.tasks id, ap (in_result_worker id) e))
  result_step-Inv (returning result destination) received st e =
      Inv-kept _ inv refl inv.valid inv.control_keyed (λ id. omega arith)
  result_step-Inv result_stopped received st e = Inv-later inv

  pub turn-Inv : (t : Turn) → Inv (suc n) (turn t s).1
  unfolding turn
  turn-Inv (task_turn received st) = task_step-Inv s.task_worker received st refl
  turn-Inv (control_turn received a b) = control_step-Inv s.control_worker received a b refl
  turn-Inv (result_turn received st) = result_step-Inv s.result_worker received st refl
  turn-Inv (stop_turn worker) = Inv-kept _ inv refl inv.valid inv.control_keyed (λ id. omega arith)

pub play-Inv :
    {n : ℕ} (ts : List Turn) (s : Threads)
    → Inv n s
    → n + length ts < 2 ^ 33
    → Inv (n + length ts) (play ts s).1
unfolding play
play-Inv {n} [] s inv b = rw (n+0 n) inv
play-Inv {n} (t ∷ ts) s inv b =
    rw (plus_suc n (length ts))
      (play-Inv ts (turn t s).1 (turn-Inv s inv (omega arith) t) (omega arith))

pub start-Inv :
    (config : Config) → config.identity.instance_uid < 2 ^ 31 → Inv 0 (at_rest (new_service config))
unfolding find
start-Inv config small = record {
  small = small;
  drawn = omega arith;
  valid = new_store-IsValid;
  control_keyed = λ k t e c. cc;
  once = λ id. omega arith;
}

-- Whatever the workers of a new service do, with any interleaving of fewer than 2^33 turns, any messages
-- and any statuses of the sends, and an instance number below 2^31: each map of the task store has one
-- entry for each task id, under the id that the entry carries, and every task id is in at most one
-- place, which is with the worker that has drawn it, among the pending tasks, with the worker that is
-- about to store its result, or among the completed tasks, and in none before it is given out.
pub threads-one_place :
    (ts : List Turn) (config : Config)
    → config.identity.instance_uid < 2 ^ 31
    → length ts < 2 ^ 33
    → let s = (play ts (at_rest (new_service config))).1 in
      IsValid s.tasks × ((id : ℕ) → places id s ≤ given s.forwarder id)
threads-one_place ts config small bound =
    let inv = play-Inv ts (at_rest (new_service config)) (start-Inv config small) (omega arith) in
    (inv.valid, inv.once)
