-- ===== src/Qrm/Pipeline/Delivery.antt =====
-- A task on its way through the whole workflow.
use mqss_integration_deploym.Base.{
  ℕ, String, ◌≡◌, refl, sym, ap, ◌∙◌, List, [], ◌∷◌, ◌++◌, string_eq, beq_refl,
}
use mqss_integration_deploym.Mqss.Status
use mqss_integration_deploym.Qoffload.Proto.{QuantumTask, QuantumResult}
use mqss_integration_deploym.Qrm.Config.{QueueConfig}
use mqss_integration_deploym.Qrm.Run.{Ending, finished, thrown, crashed, then_do}
use mqss_integration_deploym.Qrm.Scheduler.{scheduler_round}
use mqss_integration_deploym.Qrm.Compiler.{
  Mlir, compiler_round, apply_optimization_passes, compiled,
}
use mqss_integration_deploym.Qrm.Compiler.Laws.{lowered_all, apply_optimization_passes-lowered_all}
use mqss_integration_deploym.Qrm.Device.{Qdmi}
use mqss_integration_deploym.Qrm.Submitter.{
  submitter_round, answered, create_and_submit_qdmi_job_to_qdmi_device,
}
use mqss_integration_deploym.Qrm.Submitter.Job.{Finishes, IsAnswer, Works, job-IsAnswer}
use mqss_integration_deploym.Qrm.Pipeline.Queues.{
  popped, rest_there, other_left, pushed_behind, rest_moved, other_moved, results_moved,
}
use mqss_integration_deploym.Qrm.Pipeline.Conservation.{AreDistinct, HasNoResults}
use mqss_integration_deploym.Qrm.Pipeline.{
  Broker, IsFifo, Worker, scheduler, compiler, submitter, all_delivered, work, run,
}

pub Finishes-result :
    {A W : Type 0} (P : A → Type 0) (o : Ending (A × W))
    → Finishes P o
    → (a : A) × (w : W) × (o ≡ finished (a, w)) × P a
Finishes-result P (finished (a, w)) h = (a, w, refl, h)
Finishes-result P (thrown what) h = absurd h
Finishes-result P crashed h = absurd h

module _ {N Module W Session Device Job : Type 0} (broker : Broker N) (fifo : IsFifo broker)
    (mlir : Mlir Module) (qdmi : Qdmi W Session Device Job) (above : ℕ) (queues : QueueConfig) where
  abbrev works_on : Worker → N × W → Ending (N × W)
  works_on = work broker mlir qdmi above queues

  scheduler_works :
      (n : N) (w : W) (t : QuantumTask) (ts : List QuantumTask)
      → broker.results_at queues.scheduler n ≡ []
      → broker.tasks_at queues.scheduler n ≡ t ∷ ts
      → works_on scheduler (n, w)
        ≡ finished (broker.push_task queues.compiler t (popped broker fifo queues.scheduler n), w)
  unfolding work scheduler_round
  scheduler_works n w t ts e h = rw (fifo.front_popped queues.scheduler t ts n e h) refl

  compiler_works :
      (n : N) (w : W) (t t' : QuantumTask) (ts : List QuantumTask)
      → broker.results_at queues.compiler n ≡ []
      → broker.tasks_at queues.compiler n ≡ t ∷ ts
      → apply_optimization_passes mlir t ≡ finished t'
      → works_on compiler (n, w)
        ≡ finished (broker.push_task queues.submitter t' (popped broker fifo queues.compiler n), w)
  unfolding work compiler_round
  compiler_works n w t t' ts e h done = rw (fifo.front_popped queues.compiler t ts n e h) (
      ap
        (λ o. then_do (compiled mlir queues Status.success o) λ effects. finished (
          all_delivered broker mlir qdmi above queues effects
              (popped broker fifo queues.compiler n),
          w,
        ))
        done)

  submitter_works :
      (n : N) (w w' : W) (t : QuantumTask) (ts : List QuantumTask) (r : QuantumResult)
      → broker.results_at queues.submitter n ≡ []
      → broker.tasks_at queues.submitter n ≡ t ∷ ts
      → create_and_submit_qdmi_job_to_qdmi_device qdmi above t w ≡ finished (r, w')
      → works_on submitter (n, w)
        ≡ finished
            (broker.push_result t.result_destination r (popped broker fifo queues.submitter n), w')
  unfolding work submitter_round
  submitter_works n w w' t ts r e h done = rw (fifo.front_popped queues.submitter t ts n e h) (
      ap
        (λ o. then_do (answered qdmi above t Status.success o) λ (effects, w1). finished (
          all_delivered broker mlir qdmi above queues effects
              (popped broker fifo queues.submitter n),
          w1,
        ))
        done)

  run_three :
      (n n1 n2 n3 : N) (w w' : W)
      → works_on scheduler (n, w) ≡ finished (n1, w)
      → works_on compiler (n1, w) ≡ finished (n2, w)
      → works_on submitter (n2, w) ≡ finished (n3, w')
      → run broker mlir qdmi above queues (scheduler ∷ compiler ∷ submitter ∷ []) (n, w)
        ≡ finished (n3, w')
  unfolding run
  run_three n n1 n2 n3 w w' s c u =
      ap (λ o. then_do o (run broker mlir qdmi above queues (compiler ∷ submitter ∷ []))) s
      ∙ ap (λ o. then_do o (run broker mlir qdmi above queues (submitter ∷ []))) c
      ∙ ap (λ o. then_do o (run broker mlir qdmi above queues [])) u

  -- What `t` is when it has been compiled.
  abbrev with_files : QuantumTask → List String → QuantumTask
  with_files t files = record t { circuit_files = files }

  result_behind :
      (n : N) (r : QuantumResult) (d : String)
      → broker.results_at queues.submitter n ≡ []
      → broker.results_at d (broker.push_result d r (popped broker fifo queues.submitter n))
        ≡ broker.results_at d n ++ r ∷ []
  result_behind n r d e =
      fifo.result_pushed d d r (popped broker fifo queues.submitter n)
      ∙ rw (beq_refl d, fifo.results_left queues.submitter d n e) refl

  -- A task that waits at the scheduler of an idle workflow, whose circuits compile and of which there is
  -- one at least, is answered after one round of each process, with a driver that works: one result more
  -- waits at its destination, for its id and its first circuit as compiled, and no task is left over.
  -- The queues of the processes are three and hold no result, and the broker is first in, first out.
  pub task_answered :
      AreDistinct queues
      → Works qdmi
      → (n : N) (w : W) (t : QuantumTask) (circuit : String) (files : List String)
      → broker.tasks_at queues.scheduler n ≡ t ∷ []
      → broker.tasks_at queues.compiler n ≡ []
      → broker.tasks_at queues.submitter n ≡ []
      → HasNoResults broker queues n
      → lowered_all mlir t t.circuit_files ≡ finished (circuit ∷ files)
      → (n' : N) × (w' : W) × (r : QuantumResult) × (run broker mlir qdmi above queues
            (scheduler ∷ compiler ∷ submitter ∷ [])
            (n, w)
          ≡ finished (n', w'))
        × (broker.results_at t.result_destination n'
            ≡ broker.results_at t.result_destination n ++ r ∷ [])
        × IsAnswer (with_files t (circuit ∷ files)) r
        × (broker.tasks_at queues.scheduler n' ≡ [])
        × (broker.tasks_at queues.compiler n' ≡ [])
        × (broker.tasks_at queues.submitter n' ≡ [])
  task_answered distinct works n w t circuit files hs hc hu (rs, rc, ru) lowered =
      let t' = with_files t (circuit ∷ files) in
      let done : apply_optimization_passes mlir t ≡ finished t' =
        apply_optimization_passes-lowered_all mlir t
        ∙ ap (λ o. then_do o (λ fs. finished (record t { circuit_files = fs }))) lowered in
      let (r, w', submitted, answer) =
        Finishes-result (IsAnswer t') (create_and_submit_qdmi_job_to_qdmi_device qdmi above t' w)
          (job-IsAnswer qdmi above works t' circuit files w refl) in
      let (sk, km, us) = distinct in
      let n1 = broker.push_task queues.compiler t (popped broker fifo queues.scheduler n) in
      let rc1 =
        results_moved broker fifo queues.scheduler queues.compiler queues.compiler t n rs ∙ rc in
      let c1 =
        pushed_behind broker fifo queues.scheduler n rs t [] hs queues.compiler sk t
        ∙ ap (λ l. l ++ t ∷ []) hc in
      let s1 =
        rest_moved broker fifo queues.scheduler n rs t [] hs queues.compiler (λ e. sk (sym e)) t in
      let u1 =
        other_moved broker fifo queues.scheduler n rs t [] hs queues.compiler queues.submitter km
          (λ e. us (sym e)) t
        ∙ hu in
      let n2 = broker.push_task queues.submitter t' (popped broker fifo queues.compiler n1) in
      let ru2 =
        results_moved broker fifo queues.compiler queues.submitter queues.submitter t' n1 rc1
        ∙ results_moved broker fifo queues.scheduler queues.compiler queues.submitter t n rs
        ∙ ru in
      let u2 =
        pushed_behind broker fifo queues.compiler n1 rc1 t [] c1 queues.submitter km t'
        ∙ ap (λ l. l ++ t' ∷ []) u1 in
      let c2 =
        rest_moved broker fifo queues.compiler n1 rc1 t [] c1 queues.submitter (λ e. km (sym e))
          t' in
      let s2 =
        other_moved broker fifo queues.compiler n1 rc1 t [] c1 queues.submitter queues.scheduler us
          (λ e. sk (sym e)) t'
        ∙ s1 in
      let d = t.result_destination in
      (
        broker.push_result d r (popped broker fifo queues.submitter n2),
        w',
        r,
        run_three n n1 n2 _ w w' (scheduler_works n w t [] rs hs)
            (compiler_works n1 w t t' [] rc1 c1 done)
            (submitter_works n2 w w' t' [] r ru2 u2 submitted),
        result_behind n2 r d ru2
            ∙ ap (λ l. l ++ r ∷ [])
                (results_moved broker fifo queues.compiler queues.submitter d t' n1 rc1
                  ∙ results_moved broker fifo queues.scheduler queues.compiler d t n rs),
        answer,
        fifo.result_is_no_task _ _ r _
            ∙ other_left broker fifo queues.submitter n2 ru2 t' [] u2 queues.scheduler us
            ∙ s2,
        fifo.result_is_no_task _ _ r _
            ∙ other_left broker fifo queues.submitter n2 ru2 t' [] u2 queues.compiler
                (λ e. km (sym e))
            ∙ c2,
        fifo.result_is_no_task _ _ r _ ∙ rest_there broker fifo queues.submitter n2 ru2 t' [] u2,
      )
