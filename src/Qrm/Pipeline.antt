-- ===== src/Qrm/Pipeline.antt =====
-- The processes of examples/qrm_workflow at work on one broker. The broker is a parameter; every send
-- succeeds, and a receive that finds no task times out.
pub mod Queues
pub mod Conservation
pub mod Delivery
use mqss_integration_deploym.Base.{
  ℕ, String, Bool, true, false, ◌≡◌, ◌≢◌, List, [], ◌∷◌, ◌++◌, Option, none, some, string_eq, ◌==◌,
  if◌then◌else◌,
}
use mqss_integration_deploym.Mqss.Status
use mqss_integration_deploym.Mqss.Status.{Result, value, unexpected}
use mqss_integration_deploym.Qoffload.Proto.{QuantumTask, QuantumResult}
use mqss_integration_deploym.Qrm.Config.{QueueConfig}
use mqss_integration_deploym.Qrm.Run.{
  Ending, finished, then_do, Effect, send_task, send_result, log_error,
}
use mqss_integration_deploym.Qrm.Scheduler.{scheduler_round}
use mqss_integration_deploym.Qrm.Compiler.{Mlir, compiler_round}
use mqss_integration_deploym.Qrm.Device.{Qdmi}
use mqss_integration_deploym.Qrm.Submitter.{submitter_round}

-- `tasks_at` are the tasks in a queue, and `results_at` the results.
pub record Broker (N : Type 0) : Type 0 where
  pub push_task : String → QuantumTask → N → N
  pub pop_task : String → N → Option QuantumTask × N
  pub push_result : String → QuantumResult → N → N
  pub tasks_at : String → N → List QuantumTask
  pub results_at : String → N → List QuantumResult

-- A queue with one consumer is first in, first out, and no queue has to do with another. A receive of a
-- task from a queue is described while no result waits there, which it would get in a task's place.
pub record IsFifo {N : Type 0} (broker : Broker N) : Type 0 where
  pub task_pushed :
      (k j : String) (t : QuantumTask) (n : N)
      → broker.tasks_at j (broker.push_task k t n)
        ≡ (if k == j then broker.tasks_at j n ++ t ∷ [] else broker.tasks_at j n)
  pub result_pushed :
      (k j : String) (r : QuantumResult) (n : N)
      → broker.results_at j (broker.push_result k r n)
        ≡ (if k == j then broker.results_at j n ++ r ∷ [] else broker.results_at j n)
  pub task_is_no_result :
      (k j : String) (t : QuantumTask) (n : N)
      → broker.results_at j (broker.push_task k t n) ≡ broker.results_at j n
  pub result_is_no_task :
      (k j : String) (r : QuantumResult) (n : N)
      → broker.tasks_at j (broker.push_result k r n) ≡ broker.tasks_at j n
  pub nothing_popped :
      (k : String) (n : N)
      → broker.results_at k n ≡ []
      → broker.tasks_at k n ≡ []
      → broker.pop_task k n ≡ (none, n)
  pub front_popped :
      (k : String) (t : QuantumTask) (ts : List QuantumTask) (n : N)
      → broker.results_at k n ≡ []
      → broker.tasks_at k n ≡ t ∷ ts
      → (broker.pop_task k n).0 ≡ some t
  pub rest_left :
      (k j : String) (t : QuantumTask) (ts : List QuantumTask) (n : N)
      → broker.results_at k n ≡ []
      → broker.tasks_at k n ≡ t ∷ ts
      → broker.tasks_at j (broker.pop_task k n).1 ≡ (if k == j then ts else broker.tasks_at j n)
  pub results_left :
      (k j : String) (n : N)
      → broker.results_at k n ≡ []
      → broker.results_at j (broker.pop_task k n).1 ≡ broker.results_at j n

pub data Worker : Type 0 where
  scheduler compiler submitter : Worker

abbrev pub received : Option QuantumTask → Result QuantumTask
received none = unexpected (Status.timeout "receive timed out")
received (some t) = value t

module _ {N Module W Session Device Job : Type 0} (broker : Broker N) (mlir : Mlir Module)
    (qdmi : Qdmi W Session Device Job) (above : ℕ) (queues : QueueConfig) where
  abbrev pub delivered : Effect → N → N
  delivered (send_task queue t) n = broker.push_task queue t n
  delivered (send_result queue r) n = broker.push_result queue r n
  delivered (log_error message reason) n = n

  abbrev pub all_delivered : List Effect → N → N
  all_delivered [] n = n
  all_delivered (e ∷ es) n = all_delivered es (delivered e n)

  -- One round of a process.
  unfoldable pub work : Worker → N × W → Ending (N × W)
  unfolding scheduler_round compiler_round submitter_round
  work scheduler (n, w) =
      let (o, n') = broker.pop_task queues.scheduler n in
      finished (all_delivered (scheduler_round queues (received o) Status.success) n', w)
  work compiler (n, w) =
      let (o, n') = broker.pop_task queues.compiler n in
      then_do (compiler_round mlir queues (received o) Status.success)
        λ effects. finished (all_delivered effects n', w)
  work submitter (n, w) =
      let (o, n') = broker.pop_task queues.submitter n in
      then_do (submitter_round qdmi above (received o) Status.success w)
        λ (effects, w'). finished (all_delivered effects n', w')

  unfoldable pub run : List Worker → N × W → Ending (N × W)
  unfolding work
  run [] s = finished s
  run (p ∷ ps) s = then_do (work p s) (run ps)
