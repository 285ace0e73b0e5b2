-- ===== src/Qrm/Processes.antt =====
-- examples/qrm_workflow: the functions `main` of Scheduler.cpp, Compiler.cpp, Submitter.cpp and Daemon.cpp,
-- from the environment to the loop. What the loop receives, with the statuses of the sends, is a list, and
-- so is what it has sent and logged after that.
pub mod Start
pub mod Loops
pub mod Programs
mod Tests
use mqss_integration_deploym.Base.{
  ℕ, ◌≡◌, refl, ap, ◌∙◌, String, List, [], ◌∷◌, ◌++◌, Option, none, some, true,
}
use mqss_integration_deploym.Mqss.Config.{Environment}
use mqss_integration_deploym.Mqss.Rabbit.Options.{TransportOptions}
use mqss_integration_deploym.Mqss.Status.{Status, Result}
use mqss_integration_deploym.Mqss.Transport.{ReceiveArgs, AckMode}
use mqss_integration_deploym.Qoffload.Proto.{QuantumTask, QuantumResult}
use mqss_integration_deploym.Qrm.Compiler.{Mlir, compiler_round}
use mqss_integration_deploym.Qrm.Config.{
  Config, LoggingConfig, Defaults, load_config, init_config, get_config, transport_options,
}
use mqss_integration_deploym.Qrm.Daemon.{daemon}
use mqss_integration_deploym.Qrm.Device.{Qdmi}
use mqss_integration_deploym.Qrm.Logger.{Sink, stdout_color, basic_file, Logger, make_logger}
use mqss_integration_deploym.Qrm.Run.{Ending, finished, thrown, crashed, then_do, Effect}
use mqss_integration_deploym.Qrm.Scheduler.{scheduler_round}
use mqss_integration_deploym.Qrm.Submitter.{submitter_round}

pub data Process : Type 0 where
  daemon_process scheduler_process compiler_process submitter_process : Process

-- The name of the logger and its file.
abbrev pub log_of : Process → LoggingConfig → String × String
log_of daemon_process c = (c.daemon_logger, c.daemon_log)
log_of scheduler_process c = (c.scheduler_logger, c.scheduler_log)
log_of compiler_process c = (c.compiler_logger, c.compiler_log)
log_of submitter_process c = (c.submitter_logger, c.submitter_log)

-- What a process has made before it works: its configuration, the default logger, and the options of its
-- transport.
pub record Started : Type 0 where
  pub config : Config
  pub logger : Logger
  pub options : TransportOptions

-- A failed assertion ends the process.
abbrev pub asserts : {A : Type 0} → Option A → Ending A
asserts none = crashed
asserts (some a) = finished a

-- The loop of `main` in Scheduler.cpp.
unfoldable pub scheduler_loop : Config → List (Result QuantumTask × Status) → List Effect
unfolding scheduler_round
scheduler_loop config [] = []
scheduler_loop config ((res, status) ∷ later) =
    scheduler_round config.queues res status ++ scheduler_loop config later

-- Of Compiler.cpp.
module _ {Module : Type 0} (mlir : Mlir Module) where
  unfoldable pub compiler_loop : Config → List (Result QuantumTask × Status) → Ending (List Effect)
  unfolding compiler_round
  compiler_loop config [] = finished []
  compiler_loop config ((res, status) ∷ later) =
      then_do (compiler_round mlir config.queues res status)
        λ effects. then_do (compiler_loop config later) λ rest. finished (effects ++ rest)

-- Of Submitter.cpp.
module _ {W Session Device Job : Type 0} (qdmi : Qdmi W Session Device Job) (above : ℕ) where
  unfoldable pub submitter_loop : List (Result QuantumTask × Status) → W → Ending (List Effect × W)
  unfolding submitter_round
  submitter_loop [] w = finished ([], w)
  submitter_loop ((res, status) ∷ later) w =
      then_do (submitter_round qdmi above res status w) λ (effects, w').
        then_do (submitter_loop later w') λ (rest, w''). finished (effects ++ rest, w'')

module _ (fails : Sink → Option String) (defaults : Defaults) where
  unfoldable pub start : Process → Environment → Ending Started
  unfolding load_config init_config get_config transport_options make_logger
  start p env = then_do (asserts (init_config (load_config defaults env) none)) λ storage.
      then_do (asserts (get_config storage)) λ config.
        let (name, file) = log_of p config.logging in
        then_do (make_logger fails name file) λ logger.
          finished (record {
            config = config;
            logger = logger;
            options = transport_options config.rabbitmq;
          })

  unfoldable pub scheduler_main :
      Environment → List (Result QuantumTask × Status) → Ending (List Effect)
  unfolding start scheduler_loop
  scheduler_main env heard =
      then_do (start scheduler_process env) λ s. finished (scheduler_loop s.config heard)

  module _ {Module : Type 0} (mlir : Mlir Module) where
    unfoldable pub compiler_main :
        Environment → List (Result QuantumTask × Status) → Ending (List Effect)
    unfolding start compiler_loop
    compiler_main env heard =
        then_do (start compiler_process env) λ s. compiler_loop mlir s.config heard

  module _ {W Session Device Job : Type 0} (qdmi : Qdmi W Session Device Job) (above : ℕ) where
    unfoldable pub submitter_main :
        Environment → List (Result QuantumTask × Status) → W → Ending (List Effect × W)
    unfolding start submitter_loop
    submitter_main env heard w =
        then_do (start submitter_process env) λ s. submitter_loop qdmi above heard w

  unfoldable pub daemon_main :
      Environment → Status → Result QuantumResult → Ending (ℕ × List Effect)
  unfolding start daemon
  daemon_main env status res = then_do (start daemon_process env) λ s. daemon s.config status res
