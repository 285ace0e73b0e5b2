-- ===== src/Qrm/Daemon.antt =====
-- examples/qrm_workflow/src/Daemon.cpp: the task that it submits, and how it ends.
pub mod Workflow
use mqss_integration_deploym.Base.{ℕ, String, List, [], ◌∷◌, Option, none, some, if◌then◌else◌}
use mqss_integration_deploym.Mqss.Status
use mqss_integration_deploym.Mqss.Status.{Status, Result, value, unexpected}
use mqss_integration_deploym.Qoffload.Path.{path_in}
use mqss_integration_deploym.Qoffload.Proto.{QuantumTask, QuantumResult, blank_task, Counts}
use mqss_integration_deploym.Qrm.Config.{Config}
use mqss_integration_deploym.Qrm.Run.{Ending, finished, crashed, Effect, send_task, log_error}

unfoldable pub daemon_task : Config → QuantumTask
unfolding path_in
daemon_task config = record blank_task {
  task_id = 111;
  n_qbits = 2;
  n_shots = 0;
  optimisation_level = 1;
  result_destination = config.queues.results;
  preferred_qpu = "planqc";
  circuit_files = path_in config.paths.benchmark_dir "bell_state.mlir" ∷ [];
  circuit_file_type = "cpp";
}

-- `decoded.results(0)` must be there; the exit code, with what was sent and logged before.
abbrev pub shown : List Effect → List Counts → Ending (ℕ × List Effect)
shown effects [] = crashed
shown effects (counts ∷ rest) = finished (0, effects)

abbrev pub concluded : Effect → Result QuantumResult → Ending (ℕ × List Effect)
concluded sent (unexpected error) =
    finished (1, sent ∷ log_error "Failed to receive result: {}" error.reason ∷ [])
concluded sent (value decoded) = shown (sent ∷ []) decoded.results

-- The body of `main` from the task on, with the status of the send and what is received.
unfoldable pub daemon : Config → Status → Result QuantumResult → Ending (ℕ × List Effect)
unfolding daemon_task
daemon config status res =
    let sent = send_task config.queues.scheduler (daemon_task config) in
    if Status.is_ok status
    then concluded sent res
    else finished (1, sent ∷ log_error "Message could not be sent: {}" status.reason ∷ [])
