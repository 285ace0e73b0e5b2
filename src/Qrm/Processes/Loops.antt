-- ===== src/Qrm/Processes/Loops.antt =====
-- examples/qrm_workflow: what the loops of the scheduler and of the submitter do with all that they receive.
use mqss_integration_deploym.Base.{
  ℕ, ◌≡◌, refl, ap, ◌∙◌, false, String, List, [], ◌∷◌, ◌++◌, arith, All, is_nil, if-both,
}
use mqss_integration_deploym.Mqss.StatusCode
use mqss_integration_deploym.Mqss.Status
use mqss_integration_deploym.Mqss.Status.{Status, Result, value, unexpected}
use mqss_integration_deploym.Qoffload.Proto.{QuantumTask, QuantumResult}
use mqss_integration_deploym.Qrm.Config.{Config}
use mqss_integration_deploym.Qrm.Device.{Qdmi}
use mqss_integration_deploym.Qrm.Pipeline.Delivery.{Finishes-result}
use mqss_integration_deploym.Qrm.Run.{
  finished, then_do, Effect, send_task, send_result, not_received, after_send,
}
use mqss_integration_deploym.Qrm.Scheduler.{scheduler_round}
use mqss_integration_deploym.Qrm.Submitter.{
  submitter_round, create_and_submit_qdmi_job_to_qdmi_device, answered,
}
use mqss_integration_deploym.Qrm.Submitter.Job.{Works, IsAnswer, job-IsAnswer}
use mqss_integration_deploym.Qrm.Processes.{scheduler_loop, submitter_loop}

-- What a loop has received, without the failures.
abbrev pub tasks_in : List (Result QuantumTask × Status) → List QuantumTask
tasks_in [] = []
tasks_in ((unexpected error, status) ∷ later) = tasks_in later
tasks_in ((value task, status) ∷ later) = task ∷ tasks_in later

-- What it has sent, with the queues.
abbrev pub tasks_out : List Effect → List (String × QuantumTask)
tasks_out [] = []
tasks_out (send_task queue t ∷ es) = (queue, t) ∷ tasks_out es
tasks_out (_ ∷ es) = tasks_out es

abbrev pub results_out : List Effect → List (String × QuantumResult)
results_out [] = []
results_out (send_result queue r ∷ es) = (queue, r) ∷ results_out es
results_out (_ ∷ es) = results_out es

abbrev pub each_to : String → List QuantumTask → List (String × QuantumTask)
each_to queue [] = []
each_to queue (t ∷ ts) = (queue, t) ∷ each_to queue ts

-- One result for each task, in the order of the tasks, at the destination that the task names.
abbrev pub Answers : List QuantumTask → List (String × QuantumResult) → Type 0
Answers [] [] = Unit
Answers [] (_ ∷ _) = ⊥
Answers (_ ∷ _) [] = ⊥
Answers (t ∷ ts) ((queue, r) ∷ rs) = (queue ≡ t.result_destination) × IsAnswer t r × Answers ts rs

abbrev pub HasCircuit : QuantumTask → Type 0
HasCircuit t = is_nil t.circuit_files ≡ false

module _ (rest : List Effect) where
  not_received-out :
      (message : String) (error : Status)
      → (tasks_out (not_received message error ++ rest) ≡ tasks_out rest)
        × (results_out (not_received message error ++ rest) ≡ results_out rest)
  not_received-out message error =
      if-both
        (λ (es : List Effect).
          (tasks_out (es ++ rest) ≡ tasks_out rest) × (results_out (es ++ rest) ≡ results_out rest))
        (StatusCode.is_timeout error.code) (refl, refl) (refl, refl)

  after_send_task-out :
      (queue : String) (t : QuantumTask) (message : String) (status : Status)
      → tasks_out (after_send (send_task queue t) message status ++ rest)
        ≡ (queue, t) ∷ tasks_out rest
  after_send_task-out queue t message status =
      if-both (λ (es : List Effect). tasks_out (es ++ rest) ≡ (queue, t) ∷ tasks_out rest)
        (Status.is_ok status) refl refl

  after_send_result-out :
      (queue : String) (r : QuantumResult) (message : String) (status : Status)
      → results_out (after_send (send_result queue r) message status ++ rest)
        ≡ (queue, r) ∷ results_out rest
  after_send_result-out queue r message status =
      if-both (λ (es : List Effect). results_out (es ++ rest) ≡ (queue, r) ∷ results_out rest)
        (Status.is_ok status) refl refl

-- The loop of the scheduler sends the tasks that it receives, in their order.
pub scheduler_loop-tasks :
    (config : Config) (heard : List (Result QuantumTask × Status))
    → tasks_out (scheduler_loop config heard) ≡ each_to config.queues.compiler (tasks_in heard)
unfolding scheduler_loop scheduler_round
scheduler_loop-tasks config [] = refl
scheduler_loop-tasks config ((unexpected error, status) ∷ later) =
    (not_received-out (scheduler_loop config later) "Receive error: {}" error).0
    ∙ scheduler_loop-tasks config later
scheduler_loop-tasks config ((value task, status) ∷ later) =
    after_send_task-out (scheduler_loop config later) config.queues.compiler task
      "Failed to send task: {}" status
    ∙ ap (λ l. (config.queues.compiler, task) ∷ l) (scheduler_loop-tasks config later)

first_circuit_of :
    (t : QuantumTask)
    → HasCircuit t
    → (circuit : String) × (files : List String) × (t.circuit_files ≡ circuit ∷ files)
first_circuit_of t h = listed t.circuit_files h
  where
    listed :
        (l : List String)
        → is_nil l ≡ false
        → (circuit : String) × (files : List String) × (l ≡ circuit ∷ files)
    listed [] h = absurd (ground arith)
    listed (c ∷ l) h = (c, l, refl)

module _ {W Session Device Job : Type 0} (qdmi : Qdmi W Session Device Job) (above : ℕ) where
  round-failed :
      (error : Status) (status : Status) (w : W)
      → submitter_round qdmi above (unexpected error) status w
        ≡ finished (not_received "Receive error: " error, w)
  unfolding submitter_round
  round-failed error status w = refl

  round-answered :
      (task : QuantumTask) (status : Status) (w w1 : W) (r : QuantumResult)
      → create_and_submit_qdmi_job_to_qdmi_device qdmi above task w ≡ finished (r, w1)
      → submitter_round qdmi above (value task) status w
        ≡ finished (
          after_send (send_result task.result_destination r) "Failed to send result: {}" status,
          w1,
        )
  unfolding submitter_round
  round-answered task status w w1 r ran = ap (answered qdmi above task status) ran

  step-finished :
      (res : Result QuantumTask) (status : Status) (later : List (Result QuantumTask × Status))
      (w w' w'' : W) (effects rest : List Effect)
      → submitter_round qdmi above res status w ≡ finished (effects, w')
      → submitter_loop qdmi above later w' ≡ finished (rest, w'')
      → submitter_loop qdmi above ((res, status) ∷ later) w ≡ finished (effects ++ rest, w'')
  unfolding submitter_loop
  step-finished res status later w w' w'' effects rest e f =
      ap
        (λ o. then_do o (λ (p : List Effect × W).
          then_do (submitter_loop qdmi above later p.1)
            (λ (q : List Effect × W). finished (p.0 ++ q.0, q.1))))
        e
      ∙ ap (λ o. then_do o (λ (q : List Effect × W). finished (effects ++ q.0, q.1))) f

  -- With a driver that works, the loop of the submitter answers the tasks that it receives, in their order.
  pub submitter_loop-Answers :
      Works qdmi
      → (heard : List (Result QuantumTask × Status)) (w : W) → All HasCircuit (tasks_in heard)
      → (es : List Effect) × (w' : W) × (submitter_loop qdmi above heard w ≡ finished (es, w'))
        × Answers (tasks_in heard) (results_out es)
  submitter_loop-Answers works [] w h = unfold submitter_loop in ([], w, refl, tt)
  submitter_loop-Answers works ((unexpected error, status) ∷ later) w h =
      let (es, w', ran, good) = submitter_loop-Answers works later w h in
      (
        not_received "Receive error: " error ++ es,
        w',
        step-finished (unexpected error) status later w w w' _ es (round-failed error status w) ran,
        rw ((not_received-out es "Receive error: " error).1) good,
      )
  submitter_loop-Answers works ((value task, status) ∷ later) w (h, hs) =
      let (circuit, files, e) = first_circuit_of task h in
      let (r, w1, ran, answer) =
        Finishes-result (IsAnswer task)
          (create_and_submit_qdmi_job_to_qdmi_device qdmi above task w)
          (job-IsAnswer qdmi above works task circuit files w e) in
      let (es, w', later_ran, good) = submitter_loop-Answers works later w1 hs in
      (
        after_send (send_result task.result_destination r) "Failed to send result: {}" status ++ es,
        w',
        step-finished (value task) status later w w1 w' _ es (round-answered task status w w1 r ran)
            later_ran,
        rw (after_send_result-out es task.result_destination r "Failed to send result: {}" status)
            (refl, answer, good),
      )
