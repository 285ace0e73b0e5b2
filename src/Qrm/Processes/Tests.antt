-- ===== src/Qrm/Processes/Tests.antt =====
-- The processes of the workflow at concrete inputs.
use mqss_integration_deploym.Base.{ℕ, ◌≡◌, refl, String, List, [], ◌∷◌, Option, none}
use mqss_integration_deploym.Mqss.Config.{Environment}
use mqss_integration_deploym.Mqss.Status
use mqss_integration_deploym.Mqss.Status.{Status, Result, value, unexpected}
use mqss_integration_deploym.Qoffload.Proto.{QuantumTask}
use mqss_integration_deploym.Qrm.Config.{load_config}
use mqss_integration_deploym.Qrm.Fixtures.{defaults, bell, bell_device, bell_device-Works}
use mqss_integration_deploym.Qrm.Logger.{Sink}
use mqss_integration_deploym.Qrm.Run.{finished, Effect}
use mqss_integration_deploym.Qrm.Processes.{scheduler_main, submitter_main}
use mqss_integration_deploym.Qrm.Processes.Loops.{tasks_out, results_out, Answers}
use mqss_integration_deploym.Qrm.Processes.Programs.{scheduler_main-tasks, submitter_main-Answers}

abbrev nothing_set : Environment
nothing_set = λ name. none

abbrev opens : Sink → Option String
opens = λ sink. none

-- Two tasks with a failed receive between them; the first send fails.
abbrev heard : List (Result QuantumTask × Status)
heard =
    (value bell, Status.timeout "no confirmation")
    ∷ (unexpected (Status.timeout "no message"), Status.success)
    ∷ (value (record bell { task_id = 9 }), Status.success)
    ∷ []

compiler_queue_default : (load_config defaults nothing_set).queues.compiler ≡ "compiler"
unfolding load_config
compiler_queue_default = refl

scheduler_main-tasks_example :
    (es : List Effect) × (scheduler_main opens defaults nothing_set heard ≡ finished es)
    × (tasks_out es
        ≡ ((load_config defaults nothing_set).queues.compiler, bell)
          ∷ ((load_config defaults nothing_set).queues.compiler, record bell { task_id = 9 })
          ∷ [])
scheduler_main-tasks_example = scheduler_main-tasks opens defaults nothing_set heard refl refl

submitter_main-Answers_example :
    (es : List Effect) × (w' : ℕ) × (submitter_main opens defaults bell_device 0 nothing_set heard 3
      ≡ finished (es, w'))
    × Answers (bell ∷ record bell { task_id = 9 } ∷ []) (results_out es)
submitter_main-Answers_example =
    submitter_main-Answers opens defaults nothing_set heard refl bell_device 0 refl
      bell_device-Works 3 (refl, (refl, tt))
