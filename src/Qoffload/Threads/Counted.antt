-- ===== src/Qoffload/Threads/Counted.antt =====
-- What a turn of the task worker does to the counts of a task id.
use mqss_integration_deploym.Base.{Bool-cases, ◌<◌, ◌^◌, List}
use mqss_integration_deploym.Qoffload.Forward.{next_task_id}
use mqss_integration_deploym.Qoffload.Threads.Places.{in_result_worker, given, given-next}
use mqss_integration_deploym.Base.{
  ℕ, ◌+◌, ◌≡◌, refl, ap, inl, inr, List, arith, nat_eq, ◌==◌, if-both,
}
use mqss_integration_deploym.Dict.{find}
use mqss_integration_deploym.Mqss.Status.{Status, Result, value, unexpected}
use mqss_integration_deploym.Qoffload.Proto.{QuantumTask}
use mqss_integration_deploym.Qoffload.TaskStore.{add_direct_task}
use mqss_integration_deploym.Qoffload.Service.{Effect}
use mqss_integration_deploym.Qoffload.Threads.State.{
  Threads, TaskWorker, awaiting_task, numbering, registering, sending, task_stopped,
}
use mqss_integration_deploym.Qoffload.Threads.Workers.{task_received, task_step}
use mqss_integration_deploym.Qoffload.Threads.Places.{one_if, in_task_worker, in_control_worker}
use mqss_integration_deploym.Base.{◌∙◌, is_some}
use mqss_integration_deploym.Qoffload.Threads.Invariant.{Inv}
use mqss_integration_deploym.Qoffload.Threads.Phases.{counts, CountStep, kept, drew, registered}
use mqss_integration_deploym.Qoffload.Threads.StoreCounts.{add-here, add-elsewhere}

module _ (id : ℕ) where
  abbrev pub Counted : Threads → Threads → Type 0
  Counted s t = CountStep (counts id s) (counts id t)

  -- A worker that draws an id.
  pub draw-Counted :
      {n : ℕ} (s s' : Threads)
      → Inv n s
      → n < 2 ^ 33
      → s'.forwarder ≡ (next_task_id s.forwarder).1
      → s'.tasks ≡ s.tasks
      → s'.result_worker ≡ s.result_worker
      → in_task_worker id s'.task_worker + in_control_worker id s'.control_worker
        ≡ in_task_worker id s.task_worker
          + in_control_worker id s.control_worker
          + one_if ((next_task_id s.forwarder).0 == id)
      → Counted s s'
  draw-Counted s s' inv b f t r w =
      let g =
        ap (λ x. given x id) f ∙ given-next s.forwarder id inv.small (omega (arith, inv.drawn)) in
      elim (Bool-cases ((next_task_id s.forwarder).0 == id)) [
        | inl e ↦ drew (omega (arith, w, ap one_if e)) (omega (arith, g, ap one_if e))
        | inr e ↦
            kept (omega (arith, w, ap one_if e)) (ap (λ x. one_if (is_some (find id x.pending))) t)
              (ap (in_result_worker id) r)
              (ap (λ x. one_if (is_some (find id x.completed_control_tasks))) t)
              (omega (arith, g, ap one_if e))
      ]

  -- A worker that moves on and leaves the store and the counter alone.
  pub stays-Counted :
      (s s' : Threads)
      → s'.forwarder ≡ s.forwarder
      → s'.tasks ≡ s.tasks
      → in_task_worker id s'.task_worker + in_control_worker id s'.control_worker
        ≡ in_task_worker id s.task_worker + in_control_worker id s.control_worker
      → in_result_worker id s'.result_worker ≡ in_result_worker id s.result_worker
      → Counted s s'
  stays-Counted s s' f t w r =
      kept w (ap (λ x. one_if (is_some (find id x.pending))) t) r
        (ap (λ x. one_if (is_some (find id x.completed_control_tasks))) t) (ap (λ x. given x id) f)

  module _ {n : ℕ} (s : Threads) (inv : Inv n s) (bound : n < 2 ^ 33) where
    pub task_step-Counted :
        (w : TaskWorker) (received : Result QuantumTask) (st : Status)
        → s.task_worker ≡ w
        → Counted s (task_step w received st s).1
    unfolding task_step
    task_step-Counted awaiting_task received st e =
        if-both (λ (o : List Effect × Threads). Counted s o.1) s.stop_tokens.task
          (stays-Counted s (record s { task_worker = task_stopped }) refl refl
            (omega (arith, ap (in_task_worker id) e)) refl)
          (heard received)
      where
        heard : (r : Result QuantumTask) → Counted s (task_received r s).1
        heard (unexpected error) = kept refl refl refl refl refl
        heard (value request) =
            stays-Counted s (record s { task_worker = numbering request }) refl refl
              (omega (arith, ap (in_task_worker id) e)) refl
    task_step-Counted (numbering request) received st e =
        draw-Counted s
          (record s {
            forwarder = (next_task_id s.forwarder).1;
            task_worker = registering request (next_task_id s.forwarder).0;
          })
          inv bound refl refl refl (omega (arith, ap (in_task_worker id) e))
    task_step-Counted (registering request k) received st e = elim (Bool-cases (k == id)) [
      | inl here ↦
          registered (omega (arith, ap (in_task_worker id) e, ap one_if here))
            (add-here id _ s.tasks here)
      | inr other ↦
          kept (omega (arith, ap (in_task_worker id) e, ap one_if other))
            (add-elsewhere id _ s.tasks other) refl (unfold add_direct_task in refl) refl
    ]
    task_step-Counted (sending task) received st e =
        stays-Counted s (record s { task_worker = awaiting_task }) refl refl
          (omega (arith, ap (in_task_worker id) e)) refl
    task_step-Counted task_stopped received st e = kept refl refl refl refl refl
