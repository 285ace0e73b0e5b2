-- ===== src/Qrm/Daemon/Workflow.antt =====
-- The daemon and the processes behind it.
use mqss_integration_deploym.Base.{
  ℕ, String, ◌≡◌, refl, sym, ap, ◌∙◌, List, [], ◌∷◌, ◌++◌, string_eq, beq_refl, beq-false, length,
  arith,
}
use mqss_integration_deploym.Mqss.Status
use mqss_integration_deploym.Mqss.Status.{value}
use mqss_integration_deploym.Qoffload.Proto.{QuantumResult, Counts}
use mqss_integration_deploym.Qrm.Config.{Config}
use mqss_integration_deploym.Qrm.Run.{finished, Effect, send_task}
use mqss_integration_deploym.Qrm.Compiler.{Mlir}
use mqss_integration_deploym.Qrm.Compiler.Laws.{lowered_all}
use mqss_integration_deploym.Qrm.Device.{Qdmi}
use mqss_integration_deploym.Qrm.Submitter.Job.{Works}
use mqss_integration_deploym.Qrm.Pipeline.Conservation.{AreDistinct, HasNoResults}
use mqss_integration_deploym.Qrm.Pipeline.Delivery.{task_answered}
use mqss_integration_deploym.Qrm.Pipeline.{Broker, IsFifo, scheduler, compiler, submitter, run}
use mqss_integration_deploym.Qrm.Daemon.{daemon_task, shown, daemon}

shown-one :
    (effects : List Effect) (results : List Counts)
    → length results ≡ 1
    → shown effects results ≡ finished (0, effects)
shown-one effects [] h = absurd (omega (arith, h))
shown-one effects (counts ∷ rest) h = refl

daemon-one :
    (config : Config) (r : QuantumResult)
    → length r.results ≡ 1
    → daemon config Status.success (value r)
      ≡ finished (0, send_task config.queues.scheduler (daemon_task config) ∷ [])
unfolding daemon
daemon-one config r h = shown-one _ r.results h

module _ {N Module W Session Device Job : Type 0} (broker : Broker N) (fifo : IsFifo broker)
    (mlir : Mlir Module) (qdmi : Qdmi W Session Device Job) (above : ℕ) (config : Config) where
  -- The daemon on an idle workflow, whose benchmark circuit compiles and whose driver works: its task is
  -- answered after one round of each process, the answer is all that waits at the queue for results, and
  -- with it the daemon ends with exit code 0 and has logged no error. The queues of the processes are
  -- three and hold no result, and the broker is first in, first out.
  pub daemon_answered :
      AreDistinct config.queues
      → Works qdmi
      → (n : N) (w : W) (circuit : String) → broker.tasks_at config.queues.scheduler n ≡ []
      → broker.tasks_at config.queues.compiler n ≡ []
      → broker.tasks_at config.queues.submitter n ≡ []
      → HasNoResults broker config.queues n
      → broker.results_at config.queues.results n ≡ []
      → lowered_all mlir (daemon_task config) (daemon_task config).circuit_files
        ≡ finished (circuit ∷ [])
      → (n' : N) × (w' : W) × (r : QuantumResult) × (run broker mlir qdmi above config.queues
            (scheduler ∷ compiler ∷ submitter ∷ [])
            (broker.push_task config.queues.scheduler (daemon_task config) n, w)
          ≡ finished (n', w'))
        × (broker.results_at config.queues.results n' ≡ r ∷ [])
        × (daemon config Status.success (value r)
            ≡ finished (0, send_task config.queues.scheduler (daemon_task config) ∷ []))
  unfolding daemon_task
  daemon_answered distinct works n w circuit hs hc hu (es, ec, eu) hr lowered =
      let (sk, km, us) = distinct in
      let t = daemon_task config in
      let k = config.queues.scheduler in
      let (n', w', r, ran, there, answer, s, c, u) =
        task_answered broker fifo mlir qdmi above config.queues distinct works
          (broker.push_task k t n) w t circuit []
          (fifo.task_pushed k k t n ∙ rw (beq_refl k, hs) refl)
          (fifo.task_pushed k config.queues.compiler t n
            ∙ rw (beq-false k config.queues.compiler sk) hc)
          (fifo.task_pushed k config.queues.submitter t n
            ∙ rw (beq-false k config.queues.submitter (λ e. us (sym e))) hu)
          (
            fifo.task_is_no_result k k t n ∙ es,
            fifo.task_is_no_result k config.queues.compiler t n ∙ ec,
            fifo.task_is_no_result k config.queues.submitter t n ∙ eu,
          )
          lowered in
      (
        n',
        w',
        r,
        ran,
        there ∙ ap (λ l. l ++ r ∷ []) (fifo.task_is_no_result k config.queues.results t n ∙ hr),
        daemon-one config r answer.2,
      )
