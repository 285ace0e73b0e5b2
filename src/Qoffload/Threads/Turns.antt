-- ===== src/Qoffload/Threads/Turns.antt =====
-- examples/qoffload_service: runs of the workers of QOffload.cpp as threads, in any interleaving.
use mqss_integration_deploym.Base.{List, [], ◌∷◌, ◌++◌}
use mqss_integration_deploym.Mqss.Status.{Status, Result}
use mqss_integration_deploym.Qoffload.Proto.{QuantumTask, QuantumResult, ApiRequest}
use mqss_integration_deploym.Qoffload.Service.{new_service, Effect}
use mqss_integration_deploym.Qoffload.Config.{Config}
use mqss_integration_deploym.Qoffload.Threads.State.{WorkerName, request_stop, at_rest, Threads}
use mqss_integration_deploym.Qoffload.Threads.Workers.{task_step, result_step}
use mqss_integration_deploym.Qoffload.Threads.Commands.{control_step}

-- One turn: of a worker, with what its receive or its sends give if it makes them, or of the thread
-- that asks the workers to stop.
pub data Turn : Type 0 where
  task_turn : Result QuantumTask → Status → Turn
  control_turn : Result ApiRequest → (task_status response_status : Status) → Turn
  result_turn : Result QuantumResult → Status → Turn
  stop_turn : WorkerName → Turn

unfoldable pub turn : Turn → Threads → List Effect × Threads
unfolding task_step control_step result_step request_stop
turn (task_turn received st) s = task_step s.task_worker received st s
turn (control_turn received task_st response_st) s =
    control_step s.control_worker received task_st response_st s
turn (result_turn received st) s = result_step s.result_worker received st s
turn (stop_turn worker) s = ([], record s { stop_tokens = request_stop worker s.stop_tokens })

unfoldable pub play : List Turn → Threads → List Effect × Threads
play [] s = ([], s)
play (t ∷ ts) s =
    let (effects, s') = turn t s in let (later, s'') = play ts s' in (effects ++ later, s'')

-- The state of a new service after some turns.
abbrev pub started : Config → List Turn → Threads
started config ts = (play ts (at_rest (new_service config))).1
