-- ===== src/Qoffload/Threads/Advance.antt =====
-- Every turn of the workers of the service takes a task id a step further in its life, or leaves it.
use mqss_integration_deploym.Qoffload.Threads.Workers.{taken_kind}
use mqss_integration_deploym.Base.{Bool-cases, ◌<◌, ◌^◌, length, List}
use mqss_integration_deploym.Qoffload.Config.{Config}
use mqss_integration_deploym.Qoffload.Service.{new_service}
use mqss_integration_deploym.Qoffload.Threads.State.{at_rest}
use mqss_integration_deploym.Qoffload.Threads.Turns.{started}
use mqss_integration_deploym.Qoffload.Threads.Fetched.{FollowsCompleted, completed-follows}
use mqss_integration_deploym.Qoffload.Threads.Handover.{
  FollowsPending, FollowsStoring, turn-follows, storing-follows,
}
use mqss_integration_deploym.Qoffload.Threads.Once.{play-Inv, start-Inv, turn-Inv}
use mqss_integration_deploym.Qoffload.TaskStore.{
  PendingTaskKind, direct_task, control_task, store_completed_control_task,
}
use mqss_integration_deploym.Qoffload.Forward.{completed_from}
use mqss_integration_deploym.Qoffload.Threads.Places.{in_result_worker, take_none, take_some}
use mqss_integration_deploym.Base.{
  ℕ, ◌+◌, ◌≡◌, refl, ap, Option-cases, inl, inr, List, some, arith, nat_eq, true, false, ◌==◌,
  if-both,
}
use mqss_integration_deploym.Dict.{find}
use mqss_integration_deploym.Words.{int32_to_uint64}
use mqss_integration_deploym.Mqss.Status.{Status, Result, value, unexpected}
use mqss_integration_deploym.Qoffload.Proto.{QuantumResult}
use mqss_integration_deploym.Qoffload.TaskStore.{
  PendingTask, take_pending, store_completed_control_task,
}
use mqss_integration_deploym.Qoffload.Service.{Effect}
use mqss_integration_deploym.Qoffload.Threads.State.{
  Threads, ResultWorker, awaiting_result, taking, storing, returning, result_stopped,
}
use mqss_integration_deploym.Qoffload.Threads.Workers.{result_received, result_step, taken}
use mqss_integration_deploym.Qoffload.Threads.Turns.{
  Turn, task_turn, control_turn, result_turn, stop_turn, turn,
}
use mqss_integration_deploym.Qoffload.Threads.Places.{given-le, one_if}
use mqss_integration_deploym.Base.{◌∙◌, is_some}
use mqss_integration_deploym.Qoffload.Threads.Invariant.{Inv}
use mqss_integration_deploym.Qoffload.Threads.Phases.{
  Advance, phase, counts, IsOnce, kept, took, answered, stores, CountStep-Advance,
}
use mqss_integration_deploym.Qoffload.Threads.StoreCounts.{
  store-here, store-elsewhere, take-completed, take_here, take_found, take_elsewhere,
}
use mqss_integration_deploym.Qoffload.Threads.Counted.{Counted, stays-Counted, task_step-Counted}
use mqss_integration_deploym.Qoffload.Threads.ControlCounted.{control_step-Counted}

module _ (id : ℕ) where
  module _ {n : ℕ} (s : Threads) (inv : Inv n s) (bound : n < 2 ^ 33) where
    -- What is taken goes to the place that its kind says.
    kind-Counted :
        (kind : PendingTaskKind) (p : PendingTask) (result : QuantumResult) (k : ℕ)
        → (kind ≡ control_task → p.original_task_id ≡ k)
        → (k == id) ≡ true
        → s.result_worker ≡ taking result
        → find k s.tasks.pending ≡ some p
        → Counted id s (record s {
          tasks = (take_pending k s.tasks).1;
          result_worker = taken_kind kind p result;
        })
    unfolding completed_from
    kind-Counted direct_task p result k own here e there =
        answered (take_found id k s.tasks p there here) refl (take_here id k s.tasks here)
          (omega (arith, ap (in_result_worker id) e))
          (ap (λ x. one_if (is_some (find id x))) (take-completed id k s.tasks)) refl
    kind-Counted control_task p result k own here e there =
        took (take_found id k s.tasks p there here) refl (take_here id k s.tasks here) (
          omega
            (arith, ap (in_result_worker id) e, ap one_if (ap (λ x. x == id) (own refl) ∙ here)))

    kind-elsewhere :
        (kind : PendingTaskKind) (p : PendingTask) (result : QuantumResult) (k : ℕ)
        → (kind ≡ control_task → p.original_task_id ≡ k)
        → (k == id) ≡ false
        → in_result_worker id (taken_kind kind p result) ≡ 0
    unfolding completed_from
    kind-elsewhere direct_task p result k own other = refl
    kind-elsewhere control_task p result k own other =
        ap one_if (ap (λ x. x == id) (own refl) ∙ other)

    taken-Counted :
        (result : QuantumResult) (k : ℕ)
        → s.result_worker ≡ taking result
        → Counted id s (taken result (take_pending k s.tasks) s)
    taken-Counted result k e = elim (Option-cases (find k s.tasks.pending)) [
      | inl missing ↦ rw (take_none k s.tasks missing) (
          stays-Counted id s (record s { result_worker = awaiting_result }) refl refl refl
            (omega (arith, ap (in_result_worker id) e)))
      | inr (p, there) ↦ rw (take_some k s.tasks p there) (elim (Bool-cases (k == id)) [
        | inl here ↦ kind-Counted p.kind p result k (inv.control_keyed k p there) here e there
        | inr other ↦
            kept refl (take_elsewhere id k s.tasks other)
              (omega (
                arith,
                ap (in_result_worker id) e,
                kind-elsewhere p.kind p result k (inv.control_keyed k p there) other,
              ))
              (ap (λ x. one_if (is_some (find id x))) (take-completed id k s.tasks)) refl
      ])
    ]

    result_step-Counted :
        (w : ResultWorker) (received : Result QuantumResult) (st : Status)
        → s.result_worker ≡ w
        → Counted id s (result_step w received st s).1
    unfolding result_step
    result_step-Counted awaiting_result received st e =
        if-both (λ (o : List Effect × Threads). Counted id s o.1) s.stop_tokens.result
          (stays-Counted id s (record s { result_worker = result_stopped }) refl refl refl
            (omega (arith, ap (in_result_worker id) e)))
          (heard received)
      where
        heard : (r : Result QuantumResult) → Counted id s (result_received r s).1
        heard (unexpected error) = kept refl refl refl refl refl
        heard (value result) =
            stays-Counted id s (record s { result_worker = taking result }) refl refl refl
              (omega (arith, ap (in_result_worker id) e))
    result_step-Counted (taking result) received st e =
        taken-Counted result (int32_to_uint64 result.task_id) e
    result_step-Counted (storing completed) received st e =
        elim (Bool-cases (completed.task_id == id)) [
          | inl here ↦
              stores (omega (arith, ap (in_result_worker id) e, ap one_if here)) refl
                (unfold store_completed_control_task in refl) (store-here id completed s.tasks here)
          | inr other ↦
              kept refl (unfold store_completed_control_task in refl)
                (omega (arith, ap (in_result_worker id) e, ap one_if other))
                (store-elsewhere id completed s.tasks other) refl
        ]
    result_step-Counted (returning result destination) received st e =
        stays-Counted id s (record s { result_worker = awaiting_result }) refl refl refl
          (omega (arith, ap (in_result_worker id) e))
    result_step-Counted result_stopped received st e = kept refl refl refl refl refl

    turn-Counted : (t : Turn) → Counted id s (turn t s).1
    unfolding turn
    turn-Counted (task_turn received st) =
        task_step-Counted id s inv bound s.task_worker received st refl
    turn-Counted (control_turn received a b) =
        control_step-Counted id s inv bound s.control_worker received a b refl
    turn-Counted (result_turn received st) = result_step-Counted s.result_worker received st refl
    turn-Counted (stop_turn worker) = kept refl refl refl refl refl

  Inv-IsOnce : {n : ℕ} (s : Threads) → Inv n s → IsOnce (counts id s)
  Inv-IsOnce s inv = (omega (arith, inv.once id), given-le s.forwarder id)

-- The life of a task id, whatever the workers of a new service do: at every turn that follows fewer than
-- 2^33 turns, of any workers in any order, with any messages and any statuses of the sends, and for an
-- instance number below 2^31, each task id stays where it is in its life or takes one step of it, which
-- goes from fresh to drawn, from drawn to pending, and from pending either to gone or over the worker
-- that stores the result to the completed tasks, and to gone when it is taken off these. No step goes
-- back, so that nothing that is gone is pending or stored again. Nothing is lost on the way from pending:
-- a pending task stays as it is, or the result worker, which has received a result for its id, now holds
-- the client's result of a direct task, or the completed task with the status and the counts of the
-- result for a control task; a completed task that the worker holds stays with it or is stored; and a
-- completed task that is stored stays as it is, or the control worker, which was to fetch it for a
-- client, now holds the answer with it, or with its cancel reason.
pub threads-advance :
    (ts : List Turn) (t : Turn) (config : Config) (id : ℕ)
    → config.identity.instance_uid < 2 ^ 31
    → length ts + 1 < 2 ^ 33
    → let s = started config ts in
      let s' = (turn t s).1 in
      Advance (phase id s) (phase id s')
      × FollowsPending id (find id s.tasks.pending) s s'
      × FollowsStoring s.result_worker s'
      × FollowsCompleted id (find id s.tasks.completed_control_tasks) s s'
threads-advance ts t config id uid short =
    let s = started config ts in
    let inv = play-Inv ts (at_rest (new_service config)) (start-Inv config uid) (omega arith) in
    (
      CountStep-Advance (counts id s) (counts id (turn t s).1) (Inv-IsOnce id s inv)
          (Inv-IsOnce id (turn t s).1 (turn-Inv s inv (omega arith) t))
          (turn-Counted id s inv (omega arith) t),
      turn-follows s inv id t (find id s.tasks.pending) refl,
      storing-follows s t s.result_worker refl,
      completed-follows s inv id t (find id s.tasks.completed_control_tasks) refl,
    )
