-- ===== src/Qrm/Processes/Programs.antt =====
-- examples/qrm_workflow: the scheduler and the submitter as whole programs.
use mqss_integration_deploym.Base.{ℕ, ◌≡◌, ap, ◌∙◌, true, String, List, Option, none, All}
use mqss_integration_deploym.Mqss.Config.{Environment}
use mqss_integration_deploym.Mqss.Status.{Status, Result}
use mqss_integration_deploym.Qoffload.Proto.{QuantumTask}
use mqss_integration_deploym.Qrm.Config.{Defaults, load_config}
use mqss_integration_deploym.Qrm.Device.{Qdmi}
use mqss_integration_deploym.Qrm.Logger.{Sink, stdout_color, basic_file}
use mqss_integration_deploym.Qrm.Run.{finished, then_do, Effect}
use mqss_integration_deploym.Qrm.Submitter.Job.{Works}
use mqss_integration_deploym.Qrm.Processes.{
  scheduler_process, submitter_process, scheduler_main, submitter_main, scheduler_loop,
  submitter_loop,
}
use mqss_integration_deploym.Qrm.Processes.Start.{start-succeeds}
use mqss_integration_deploym.Qrm.Processes.Loops.{
  tasks_in, tasks_out, results_out, each_to, Answers, HasCircuit, scheduler_loop-tasks,
  submitter_loop-Answers,
}

module _ (fails : Sink → Option String) (defaults : Defaults) (env : Environment)
    (heard : List (Result QuantumTask × Status)) (console : fails stdout_color ≡ none) where
  -- The scheduler hands on what it receives: where its console and its log file can be opened, then whatever fails of
  -- what it receives and sends, it sends the tasks that it has received, each once, unchanged and in the
  -- order in which they came, to the queue of the compiler that the environment names.
  pub scheduler_main-tasks :
      fails (basic_file (load_config defaults env).logging.scheduler_log true) ≡ none
      → (es : List Effect) × (scheduler_main fails defaults env heard ≡ finished es)
        × (tasks_out es ≡ each_to (load_config defaults env).queues.compiler (tasks_in heard))
  unfolding scheduler_main
  scheduler_main-tasks opens =
      let config = load_config defaults env in
      (
        scheduler_loop config heard,
        ap (λ o. then_do o (λ s. finished (scheduler_loop s.config heard)))
            (start-succeeds fails defaults scheduler_process env console opens),
        scheduler_loop-tasks config heard,
      )

  -- The submitter answers what it receives: where its log file can be opened, with a driver that works
  -- and where every task has a circuit, then whatever fails of what it receives and sends, it does not
  -- end, and it sends one result for each task, in the order in which the tasks came, to the destination
  -- that the task names, with the task's id, its first circuit and one table of counts.
  pub submitter_main-Answers :
      {W Session Device Job : Type 0} (qdmi : Qdmi W Session Device Job) (above : ℕ)
      → fails (basic_file (load_config defaults env).logging.submitter_log true) ≡ none
      → Works qdmi
      → (w : W) → All HasCircuit (tasks_in heard)
      → (es : List Effect) × (w' : W) × (submitter_main fails defaults qdmi above env heard w
          ≡ finished (es, w'))
        × Answers (tasks_in heard) (results_out es)
  unfolding submitter_main
  submitter_main-Answers qdmi above opens works w circuits =
      let (es, w', ran, good) = submitter_loop-Answers qdmi above works heard w circuits in
      (
        es,
        w',
        ap (λ o. then_do o (λ s. submitter_loop qdmi above heard w))
              (start-succeeds fails defaults submitter_process env console opens)
            ∙ ran,
        good,
      )
