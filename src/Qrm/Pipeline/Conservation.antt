-- ===== src/Qrm/Pipeline/Conservation.antt =====
-- No task is lost, doubled or overtaken on its way through the workflow.
use mqss_integration_deploym.Base.{
  ℕ, String, Bool, true, false, ◌≡◌, ◌≢◌, refl, sym, ap, subst, ◌∙◌, inl, inr, List, [], ◌∷◌, ◌++◌,
  append_assoc, append-nil, string_eq, ◌==◌, arith, Bool-cases, if◌then◌else◌,
}
use mqss_integration_deploym.Mqss.Status
use mqss_integration_deploym.Mqss.Status.{Result, value, unexpected}
use mqss_integration_deploym.Qoffload.Proto.{QuantumTask, QuantumResult}
use mqss_integration_deploym.Qrm.Config.{QueueConfig}
use mqss_integration_deploym.Qrm.Run.{Ending, finished, thrown, crashed, then_do}
use mqss_integration_deploym.Qrm.Scheduler.{scheduler_round}
use mqss_integration_deploym.Qrm.Compiler.{
  Mlir, compiler_round, compiled, apply_optimization_passes,
}
use mqss_integration_deploym.Qrm.Compiler.Laws.{lowered_all, apply_optimization_passes-lowered_all}
use mqss_integration_deploym.Qrm.Device.{Qdmi}
use mqss_integration_deploym.Qrm.Submitter.{
  submitter_round, answered, create_and_submit_qdmi_job_to_qdmi_device,
}
use mqss_integration_deploym.Qrm.Submitter.Job.{Ensures, IsAnswer, job-Ensures}
use mqss_integration_deploym.Qrm.Pipeline.Queues.{
  popped, rest_there, other_left, pushed_behind, rest_moved, other_moved, results_moved,
}
use mqss_integration_deploym.Qrm.Pipeline.{
  Broker, IsFifo, Worker, scheduler, compiler, submitter, all_delivered, work, run,
}

abbrev pub gathered : {A : Type 0} → (A → List ℕ) → List A → List ℕ
gathered f [] = []
gathered f (x ∷ xs) = f x ++ gathered f xs

gathered-snoc :
    {A : Type 0} (f : A → List ℕ) (xs : List A) (x : A) (rest : List ℕ)
    → gathered f (xs ++ x ∷ []) ++ rest ≡ gathered f xs ++ (f x ++ rest)
gathered-snoc f [] x rest = ap (λ l. l ++ rest) (append-nil (f x))
gathered-snoc f (y ∷ xs) x rest =
    append_assoc (f y) (gathered f (xs ++ x ∷ [])) rest
    ∙ ap (λ l. f y ++ l) (gathered-snoc f xs x rest)
    ∙ sym (append_assoc (f y) (gathered f xs) (f x ++ rest))

-- The queues of the three processes are different ones.
abbrev pub AreDistinct : QueueConfig → Type 0
AreDistinct queues =
    (queues.scheduler ≢ queues.compiler)
    × (queues.compiler ≢ queues.submitter)
    × (queues.submitter ≢ queues.scheduler)

-- No result waits where a process takes its tasks.
abbrev pub HasNoResults : {N : Type 0} → Broker N → QueueConfig → N → Type 0
HasNoResults broker queues n =
    (broker.results_at queues.scheduler n ≡ [])
    × (broker.results_at queues.compiler n ≡ [])
    × (broker.results_at queues.submitter n ≡ [])

module _ {N Module W Session Device Job : Type 0} (broker : Broker N) (mlir : Mlir Module)
    (qdmi : Qdmi W Session Device Job) (above : ℕ) (queues : QueueConfig) (d : String) where
  -- The id of a task whose result goes to `d`.
  abbrev pub id_of : QuantumTask → List ℕ
  id_of t = if t.result_destination == d then t.task_id ∷ [] else []

  abbrev pub id_unless_failed : QuantumTask → Ending QuantumTask → List ℕ
  id_unless_failed t (finished t') = id_of t
  id_unless_failed t (thrown what) = []
  id_unless_failed t crashed = []

  -- Of a task that compiles.
  abbrev pub id_compiled : QuantumTask → List ℕ
  id_compiled t = id_unless_failed t (apply_optimization_passes mlir t)

  abbrev pub id_answered : QuantumResult → List ℕ
  id_answered r = r.task_id ∷ []

  -- The ids for `d` from the results that are there back to the tasks that came last.
  abbrev pub flow_of :
      List QuantumResult → List QuantumTask → List QuantumTask → List QuantumTask → List ℕ
  flow_of results submitting compiling scheduling =
      gathered id_answered results
      ++ (gathered id_of submitting
          ++ (gathered id_compiled compiling ++ gathered id_compiled scheduling))

  abbrev pub flow : N → List ℕ
  flow n =
      flow_of (broker.results_at d n) (broker.tasks_at queues.submitter n)
        (broker.tasks_at queues.compiler n) (broker.tasks_at queues.scheduler n)

  -- A compiled task has the id and the destination of the task.
  id_kept :
      (t t' : QuantumTask) → apply_optimization_passes mlir t ≡ finished t' → id_of t' ≡ id_of t
  id_kept t t' h =
      kept (lowered_all mlir t t.circuit_files)
        (sym (apply_optimization_passes-lowered_all mlir t) ∙ h)
    where
      kept :
          (o : Ending (List String))
          → then_do o (λ fs. finished (record t { circuit_files = fs })) ≡ finished t'
          → id_of t' ≡ id_of t
      kept (finished fs) e = ground arith
      kept (thrown what) e = absurd (ground arith)
      kept crashed e = absurd (ground arith)

  abbrev pub Keeps : N → Ending (N × W) → Type 0
  Keeps n (finished (n', w')) = flow n' ≡ flow n
  Keeps n (thrown what) = Unit {0}
  Keeps n crashed = Unit {0}

  flow_same :
      {r r' : List QuantumResult} {s s' c c' k k' : List QuantumTask}
      → r ≡ r'
      → s ≡ s'
      → c ≡ c'
      → k ≡ k'
      → flow_of r s c k ≡ flow_of r' s' c' k'
  flow_same p q h e = rw (p, q, h, e) refl

  module _ (fifo : IsFifo broker) (distinct : AreDistinct queues) where
    -- The queues after a task has gone from the front of one to the back of another.
    scheduled :
        (n : N) (t : QuantumTask) (ts : List QuantumTask)
        → broker.results_at queues.scheduler n ≡ []
        → broker.tasks_at queues.scheduler n ≡ t ∷ ts
        → flow (broker.push_task queues.compiler t (broker.pop_task queues.scheduler n).1) ≡ flow n
    scheduled n t ts none_there h =
        flow_same (results_moved broker fifo queues.scheduler queues.compiler d t n none_there)
          (other_moved broker fifo queues.scheduler n none_there t ts h queues.compiler
            queues.submitter distinct.1 (λ e. distinct.2 (sym e)) t)
          (pushed_behind broker fifo queues.scheduler n none_there t ts h queues.compiler distinct.0
            t)
          (rest_moved broker fifo queues.scheduler n none_there t ts h queues.compiler
            (λ e. distinct.0 (sym e)) t)
        ∙ ap
            (λ ids.
              gathered id_answered (broker.results_at d n)
              ++ (gathered id_of (broker.tasks_at queues.submitter n) ++ ids))
            (gathered-snoc id_compiled (broker.tasks_at queues.compiler n) t
                (gathered id_compiled ts)
              ∙ ap
                  (λ waiting.
                    gathered id_compiled (broker.tasks_at queues.compiler n)
                    ++ gathered id_compiled waiting)
                  (sym h))

    scheduler-Keeps :
        (n : N) (w : W) (ts : List QuantumTask)
        → broker.results_at queues.scheduler n ≡ []
        → broker.tasks_at queues.scheduler n ≡ ts
        → Keeps n (work broker mlir qdmi above queues scheduler (n, w))
    unfolding work scheduler_round
    scheduler-Keeps n w [] none_there h =
        rw (fifo.nothing_popped queues.scheduler n none_there h) refl
    scheduler-Keeps n w (t ∷ ts) none_there h =
        rw (fifo.front_popped queues.scheduler t ts n none_there h) (scheduled n t ts none_there h)

    compiled_on :
        (n : N) (t t' : QuantumTask) (ts : List QuantumTask)
        → broker.results_at queues.compiler n ≡ []
        → broker.tasks_at queues.compiler n ≡ t ∷ ts
        → apply_optimization_passes mlir t ≡ finished t'
        → flow (broker.push_task queues.submitter t' (popped broker fifo queues.compiler n))
          ≡ flow n
    compiled_on n t t' ts none_there h done =
        let scheduling = gathered id_compiled (broker.tasks_at queues.scheduler n) in
        flow_same (results_moved broker fifo queues.compiler queues.submitter d t' n none_there)
          (pushed_behind broker fifo queues.compiler n none_there t ts h queues.submitter distinct.1
            t')
          (rest_moved broker fifo queues.compiler n none_there t ts h queues.submitter
            (λ e. distinct.1 (sym e)) t')
          (other_moved broker fifo queues.compiler n none_there t ts h queues.submitter
            queues.scheduler distinct.2 (λ e. distinct.0 (sym e)) t')
        ∙ ap (λ ids. gathered id_answered (broker.results_at d n) ++ ids)
            (gathered-snoc id_of (broker.tasks_at queues.submitter n) t' (
                gathered id_compiled ts
                ++ gathered id_compiled (broker.tasks_at queues.scheduler n))
              ∙ ap (λ ids. gathered id_of (broker.tasks_at queues.submitter n) ++ ids)
                  (ap (λ ids. ids ++ (gathered id_compiled ts ++ scheduling)) (id_kept t t' done)
                    ∙ sym (append_assoc (id_of t) (gathered id_compiled ts) scheduling)
                    ∙ ap (λ ids. ids ++ scheduling)
                        (sym (
                          ap (gathered id_compiled) h
                          ∙ ap (λ o. id_unless_failed t o ++ gathered id_compiled ts) done))))

    failed :
        (n : N) (t : QuantumTask) (ts : List QuantumTask)
        → broker.results_at queues.compiler n ≡ []
        → broker.tasks_at queues.compiler n ≡ t ∷ ts
        → id_compiled t ≡ []
        → flow (popped broker fifo queues.compiler n) ≡ flow n
    failed n t ts none_there h none_of_it =
        flow_same (fifo.results_left queues.compiler d n none_there)
          (other_left broker fifo queues.compiler n none_there t ts h queues.submitter distinct.1)
          (rest_there broker fifo queues.compiler n none_there t ts h)
          (other_left broker fifo queues.compiler n none_there t ts h queues.scheduler
            (λ e. distinct.0 (sym e)))
        ∙ ap
            (λ ids.
              gathered id_answered (broker.results_at d n)
              ++ (gathered id_of (broker.tasks_at queues.submitter n)
                  ++ (ids ++ gathered id_compiled (broker.tasks_at queues.scheduler n))))
            (sym
              (ap (gathered id_compiled) h ∙ ap (λ ids. ids ++ gathered id_compiled ts) none_of_it))

    with_results :
        (n : N) (t : QuantumTask) (ts : List QuantumTask) (r : QuantumResult) (k : String)
        (results : List QuantumResult)
        → broker.results_at queues.submitter n ≡ []
        → broker.tasks_at queues.submitter n ≡ t ∷ ts
        → broker.results_at d (broker.push_result k r (popped broker fifo queues.submitter n))
          ≡ results
        → flow (broker.push_result k r (popped broker fifo queues.submitter n))
          ≡ flow_of results ts
              (broker.tasks_at queues.compiler n)
              (broker.tasks_at queues.scheduler n)
    with_results n t ts r k results none_there h there =
        flow_same there
          (fifo.result_is_no_task _ _ r _
            ∙ rest_there broker fifo queues.submitter n none_there t ts h)
          (fifo.result_is_no_task _ _ r _
            ∙ other_left broker fifo queues.submitter n none_there t ts h queues.compiler
                (λ e. distinct.1 (sym e)))
          (fifo.result_is_no_task _ _ r _
            ∙ other_left broker fifo queues.submitter n none_there t ts h queues.scheduler
                distinct.2)

    answered_on :
        (n : N) (t : QuantumTask) (ts : List QuantumTask) (r : QuantumResult)
        → broker.results_at queues.submitter n ≡ []
        → broker.tasks_at queues.submitter n ≡ t ∷ ts
        → r.task_id ≡ t.task_id
        → flow (broker.push_result t.result_destination r (popped broker fifo queues.submitter n))
          ≡ flow n
    answered_on n t ts r none_there h same =
        let results = broker.results_at d n in
        let behind =
          gathered id_compiled (broker.tasks_at queues.compiler n)
          ++ gathered id_compiled (broker.tasks_at queues.scheduler n) in
        let pushed =
          fifo.result_pushed t.result_destination d r (popped broker fifo queues.submitter n) in
        let left = fifo.results_left queues.submitter d n none_there in
        let queued : (b : Bool)
            → (t.result_destination == d) ≡ b
            → gathered id_of (broker.tasks_at queues.submitter n)
              ≡ (if b then t.task_id ∷ [] else []) ++ gathered id_of ts =
          λ b e.
            ap (gathered id_of) h
            ∙ ap (λ b'. (if b' then t.task_id ∷ [] else []) ++ gathered id_of ts) e in
        elim (Bool-cases (t.result_destination == d)) [
          | inl mine ↦
              with_results n t ts r t.result_destination (results ++ r ∷ []) none_there h
                (pushed ∙ rw (mine, left) refl)
              ∙ gathered-snoc id_answered results r (gathered id_of ts ++ behind)
              ∙ ap (λ ids. gathered id_answered results ++ ids)
                  (ap (λ id. id ∷ (gathered id_of ts ++ behind)) same
                    ∙ ap (λ ids. ids ++ behind) (sym (queued true mine)))
          | inr other ↦
              with_results n t ts r t.result_destination results none_there h
                (pushed ∙ rw (other, left) refl)
              ∙ ap (λ ids. gathered id_answered results ++ (ids ++ behind))
                  (sym (queued false other))
        ]

    compiler-Keeps :
        (n : N) (w : W) (ts : List QuantumTask)
        → broker.results_at queues.compiler n ≡ []
        → broker.tasks_at queues.compiler n ≡ ts
        → Keeps n (work broker mlir qdmi above queues compiler (n, w))
    unfolding work compiler_round
    compiler-Keeps n w [] none_there h =
        rw (fifo.nothing_popped queues.compiler n none_there h) refl
    compiler-Keeps n w (t ∷ ts) none_there h =
        rw (fifo.front_popped queues.compiler t ts n none_there h)
          (ended (apply_optimization_passes mlir t) refl)
      where
        ended :
            (o : Ending QuantumTask)
            → apply_optimization_passes mlir t ≡ o
            → Keeps n (
                then_do (compiled mlir queues Status.success o) (λ effects. finished (
                  all_delivered broker mlir qdmi above queues effects
                      (popped broker fifo queues.compiler n),
                  w,
                )))
        ended (finished t') e = compiled_on n t t' ts none_there h e
        ended (thrown what) e = failed n t ts none_there h (ap (id_unless_failed t) e)
        ended crashed e = tt

    submitter-Keeps :
        (n : N) (w : W) (ts : List QuantumTask)
        → broker.results_at queues.submitter n ≡ []
        → broker.tasks_at queues.submitter n ≡ ts
        → Keeps n (work broker mlir qdmi above queues submitter (n, w))
    unfolding work submitter_round
    submitter-Keeps n w [] none_there h =
        rw (fifo.nothing_popped queues.submitter n none_there h) refl
    submitter-Keeps n w (t ∷ ts) none_there h =
        rw (fifo.front_popped queues.submitter t ts n none_there h) (
          ended (create_and_submit_qdmi_job_to_qdmi_device qdmi above t w)
            (job-Ensures qdmi above t w))
      where
        ended :
            (o : Ending (QuantumResult × W))
            → Ensures (IsAnswer t) o
            → Keeps n (
                then_do (answered qdmi above t Status.success o) (λ (effects, w'). finished (
                  all_delivered broker mlir qdmi above queues effects
                      (popped broker fifo queues.submitter n),
                  w',
                )))
        ended (finished (r, w')) e = answered_on n t ts r none_there h e.0
        ended (thrown what) e = tt
        ended crashed e = tt

    pub work-Keeps :
        (p : Worker) (n : N) (w : W)
        → HasNoResults broker queues n
        → Keeps n (work broker mlir qdmi above queues p (n, w))
    work-Keeps scheduler n w e = scheduler-Keeps n w (broker.tasks_at queues.scheduler n) e.0 refl
    work-Keeps compiler n w e = compiler-Keeps n w (broker.tasks_at queues.compiler n) e.1 refl
    work-Keeps submitter n w e = submitter-Keeps n w (broker.tasks_at queues.submitter n) e.2 refl

gathered_nothing :
    (rs : List QuantumResult) (rest : List ℕ)
    → gathered (λ r. r.task_id ∷ []) rs ++ rest ≡ []
    → rs ≡ []
gathered_nothing [] rest h = refl
gathered_nothing (r ∷ rs) rest h = absurd (ground arith)

module _ {N Module W Session Device Job : Type 0} (broker : Broker N) (fifo : IsFifo broker)
    (mlir : Mlir Module) (qdmi : Qdmi W Session Device Job) (above : ℕ) (queues : QueueConfig)
    (distinct : AreDistinct queues) where
  abbrev flow_to : String → N → List ℕ
  flow_to = flow broker mlir qdmi above queues

  -- No result goes to a queue where a process takes its tasks: none waits there, and no task that
  -- compiles names it as its destination.
  abbrev pub IsApart : N → Type 0
  IsApart n =
      (flow_to queues.scheduler n ≡ [])
      × (flow_to queues.compiler n ≡ [])
      × (flow_to queues.submitter n ≡ [])

  apart-HasNoResults : (n : N) → IsApart n → HasNoResults broker queues n
  apart-HasNoResults n (s, c, u) =
      (gathered_nothing _ _ s, gathered_nothing _ _ c, gathered_nothing _ _ u)

  work-finished :
      (p : Worker) (n n' : N) (w w' : W)
      → IsApart n
      → work broker mlir qdmi above queues p (n, w) ≡ finished (n', w')
      → (d : String) → flow_to d n' ≡ flow_to d n
  work-finished p n n' w w' free h d =
      subst (Keeps broker mlir qdmi above queues d n) h
        (work-Keeps broker mlir qdmi above queues d fifo distinct p n w (apart-HasNoResults n free))

  -- Over any rounds of the three processes, in any order, none of which ends its process, the ids of
  -- the results that wait at a destination, followed by those of the tasks for it on their way, from the
  -- submitter back to the scheduler and without the tasks that do not compile, stay the same list: no
  -- such task is lost, doubled or overtaken. The broker's queues are first in, first out, its sends
  -- succeed, the queues of the processes are three, and no result goes to one of them.
  pub run-Keeps :
      (ps : List Worker) (n n' : N) (w w' : W) (d : String)
      → IsApart n
      → run broker mlir qdmi above queues ps (n, w) ≡ finished (n', w')
      → flow broker mlir qdmi above queues d n' ≡ flow broker mlir qdmi above queues d n
  unfolding run
  run-Keeps [] n n' w w' d free h = cc
  run-Keeps (p ∷ ps) n n' w w' d free h =
      onward (work broker mlir qdmi above queues p (n, w)) refl (λ m v. run-Keeps ps m n' v w' d) h
    where
      onward :
          (o : Ending (N × W))
          → work broker mlir qdmi above queues p (n, w) ≡ o
          → ((m : N) (v : W)
              → IsApart m
              → run broker mlir qdmi above queues ps (m, v) ≡ finished (n', w')
              → flow_to d n' ≡ flow_to d m)
          → then_do o (run broker mlir qdmi above queues ps) ≡ finished (n', w')
          → flow_to d n' ≡ flow_to d n
      onward (finished (m, v)) e later h' =
          let kept = work-finished p n m w v free e in
          later m v
            (
              kept queues.scheduler ∙ free.0,
              kept queues.compiler ∙ free.1,
              kept queues.submitter ∙ free.2,
            )
            h'
          ∙ kept d
      onward (thrown what) e later h' = absurd (ground arith)
      onward crashed e later h' = absurd (ground arith)
