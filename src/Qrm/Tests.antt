-- ===== src/Qrm/Tests.antt =====
-- The workflow at concrete inputs.
use mqss_integration_deploym.Base.{
  ℕ, String, ◌≡◌, refl, List, [], ◌∷◌, ◌++◌, none, some, arith, string_eq,
}
use mqss_integration_deploym.Dict.{find, IsDistinct}
use mqss_integration_deploym.Mqss.Status
use mqss_integration_deploym.Mqss.Status.{value}
use mqss_integration_deploym.Words.{to_int32}
use mqss_integration_deploym.Qoffload.Path.{chars, text}
use mqss_integration_deploym.Qoffload.Proto.{QuantumTask, QuantumResult, blank_task, blank_result}
use mqss_integration_deploym.Qoffload.Fixtures
use mqss_integration_deploym.Qoffload.Fixtures.{first_id}
use mqss_integration_deploym.Qoffload.Forward.{
  new_forward, next_task_id, create_control_task, process_result,
}
use mqss_integration_deploym.Qoffload.Forward.Correlation.{created_wire}
use mqss_integration_deploym.Qoffload.TaskStore.{new_store, status, cancelled}
use mqss_integration_deploym.Qrm.Lines.{ended}
use mqss_integration_deploym.Qrm.GateDefs.{newline, strip_spurious_gate_defs, finds}
use mqss_integration_deploym.Qrm.GateDefs.Laws.{
  Item, statement, definition, lines_of, statements, strip-statements, one_line_definition_swallows,
}
use mqss_integration_deploym.Qrm.Config.{Config, load_config}
use mqss_integration_deploym.Qrm.Run.{Ending, finished, then_do, send_task}
use mqss_integration_deploym.Qrm.Compiler.{lower_to_output_format, apply_optimization_passes}
use mqss_integration_deploym.Qrm.Compiler.Laws.{lowered_all, apply_optimization_passes-lowered_all}
use mqss_integration_deploym.Qrm.Submitter.{
  split_keys, gather, create_and_submit_qdmi_job_to_qdmi_device,
}
use mqss_integration_deploym.Qrm.Submitter.Histogram.{key_list, zipped, histogram_gathered}
use mqss_integration_deploym.Qrm.Submitter.Job.{IsAnswer}
use mqss_integration_deploym.Qrm.Pipeline.{Worker, scheduler, compiler, submitter, work, run}
use mqss_integration_deploym.Qrm.Pipeline.Conservation.{flow, run-Keeps}
use mqss_integration_deploym.Qrm.Pipeline.Delivery.{task_answered}
use mqss_integration_deploym.Qrm.Daemon.{daemon, daemon_task}
use mqss_integration_deploym.Qrm.Daemon.Workflow.{daemon_answered}
use mqss_integration_deploym.Qrm.Offload.{executed_task_cancelled}
use mqss_integration_deploym.Qrm.Fixtures.{
  defaults, printed, Queues, memory, memory-IsFifo, printer, bell_device, bell_device-Works, bell,
  queues, queues-AreDistinct, empty_queues, one_task,
}

abbrev program : List Item
program =
    statement (chars "OPENQASM 2.0;")
    ∷ definition (chars "gate h a {") (chars "U(0,0,0) a;" ∷ []) (chars "}")
    ∷ statement (chars "h q;")
    ∷ []

strip-statements_example :
    strip_spurious_gate_defs (text (ended newline (lines_of program)))
    ≡ text (ended newline (statements program))
unfolding finds
strip-statements_example =
    strip-statements program (refl, ((refl, (refl, tt), refl, refl), (refl, tt))) (ground arith)

printed_stripped : strip_spurious_gate_defs printed ≡ "h q;\n"
unfolding strip_spurious_gate_defs
printed_stripped = refl

one_line_definition_swallows_example :
    strip_spurious_gate_defs (
      text
        (ended newline (chars "qreg q[1];" ∷ chars "gate h a { U(0,0,0) a; }" ∷ chars "h q;" ∷ [])))
    ≡ text (ended newline (chars "qreg q[1];" ∷ []))
unfolding finds
one_line_definition_swallows_example =
    one_line_definition_swallows (chars "qreg q[1];" ∷ []) (chars "h q;" ∷ [])
      (chars "gate h a { U(0,0,0) a; }") (refl, tt) refl (refl, tt) (ground arith)

apply_optimization_passes-lowered_all_example :
    apply_optimization_passes printer bell
    ≡ then_do
        (lowered_all printer bell ("bell.mlir" ∷ []))
        (λ fs. finished (record bell { circuit_files = fs }))
apply_optimization_passes-lowered_all_example = apply_optimization_passes-lowered_all printer bell

bell_lowered : lowered_all printer bell ("bell.mlir" ∷ []) ≡ finished ("h q;\n" ∷ [])
unfolding lower_to_output_format strip_spurious_gate_defs
bell_lowered = refl

bell_states-IsDistinct : IsDistinct (zipped ("00" ∷ "11" ∷ []) (48 ∷ 52 ∷ []))
unfolding find
bell_states-IsDistinct = (refl, (refl, tt))

histogram_gathered_example :
    (counts : List (String × ℕ)) × (gather
        (split_keys (key_list ("00" ∷ "11" ∷ [])))
        (48 ∷ 52 ∷ [])
        []
      ≡ some counts)
    × ((key : String) → find key counts ≡ find key (("00", to_int32 48) ∷ ("11", to_int32 52) ∷ []))
histogram_gathered_example =
    histogram_gathered ("00" ∷ "11" ∷ []) (48 ∷ 52 ∷ [])
      (((refl, (refl, tt)), refl), (((refl, (refl, tt)), refl), tt)) bell_states-IsDistinct refl

abbrev all_rounds : List Worker
all_rounds = scheduler ∷ submitter ∷ compiler ∷ scheduler ∷ submitter ∷ []

bell_runs :
    (n' : Queues) × (run memory printer bell_device 0 queues all_rounds (one_task, 3)
      ≡ finished (n', 3))
unfolding run work apply_optimization_passes lower_to_output_format strip_spurious_gate_defs
bell_runs = (_, refl)

run-Keeps_example :
    flow memory printer bell_device 0 queues "answers" bell_runs.0
    ≡ flow memory printer bell_device 0 queues "answers" one_task
unfolding apply_optimization_passes
run-Keeps_example =
    run-Keeps memory memory-IsFifo printer bell_device 0 queues queues-AreDistinct all_rounds
      one_task bell_runs.0 3 3 "answers" (refl, refl, refl) bell_runs.1

task_answered_example :
    (n' : Queues) × (w' : ℕ) × (r : QuantumResult) × (run memory printer bell_device 0 queues
        (scheduler ∷ compiler ∷ submitter ∷ [])
        (one_task, 3)
      ≡ finished (n', w'))
    × (n'.results "answers" ≡ [] ++ r ∷ [])
    × IsAnswer (record bell { circuit_files = "h q;\n" ∷ [] }) r
    × (n'.tasks "scheduler" ≡ [])
    × (n'.tasks "compiler" ≡ [])
    × (n'.tasks "submitter" ≡ [])
task_answered_example =
    task_answered memory memory-IsFifo printer bell_device 0 queues queues-AreDistinct
      bell_device-Works one_task 3 bell "h q;\n" [] refl refl refl (refl, refl, refl) bell_lowered

-- The configuration of an environment that sets nothing.
abbrev config : Config
config = record {
  rabbitmq = record {
    host = "localhost";
    port = 5672;
    user = "guest";
    password = "guest";
    vhost = "/";
  };
  queues = queues;
  logging = record {
    log_dir = "/var/log";
    daemon_logger = "mqss::Daemon";
    scheduler_logger = "mqss::Scheduler";
    compiler_logger = "mqss::Compiler";
    submitter_logger = "mqss::Submitter";
    daemon_log = "/var/log/daemon.log";
    scheduler_log = "/var/log/scheduler.log";
    compiler_log = "/var/log/compiler.log";
    submitter_log = "/var/log/submitter.log";
  };
  paths = record { benchmark_dir = "/benchmarks/"; qdmi_device_objs_dir = "" };
  devices = record { qdmi_device_obj = ""; qdmi_device_prefix = "" };
}

loaded : load_config defaults (λ name. none) ≡ config
unfolding load_config
loaded = refl

daemon_lowered :
    lowered_all printer (daemon_task config) (daemon_task config).circuit_files
    ≡ finished ("h q;\n" ∷ [])
unfolding daemon_task lower_to_output_format strip_spurious_gate_defs
daemon_lowered = refl

daemon_answered_example :
    (n' : Queues) × (w' : ℕ) × (r : QuantumResult) × (run memory printer bell_device 0 queues
        (scheduler ∷ compiler ∷ submitter ∷ [])
        (memory.push_task "scheduler" (daemon_task config) empty_queues, 3)
      ≡ finished (n', w'))
    × (n'.results "results" ≡ r ∷ [])
    × (daemon config Status.success (value r)
        ≡ finished (0, send_task "scheduler" (daemon_task config) ∷ []))
daemon_answered_example =
    daemon_answered memory memory-IsFifo printer bell_device 0 config queues-AreDistinct
      bell_device-Works empty_queues 3 "h q;\n" refl refl refl (refl, refl, refl) refl
      daemon_lowered

abbrev control_bell : QuantumTask
control_bell = record bell { task_id = 7; result_destination = "result_queue"; priority = 1 }

abbrev ran_bell : Ending (QuantumResult × ℕ)
ran_bell = finished (
  record blank_result {
    task_id = 7;
    executed_circuits = "bell.mlir" ∷ [];
    results = (("00", 48) ∷ ("11", 52) ∷ []) ∷ [];
  },
  3,
)

bell_ran : create_and_submit_qdmi_job_to_qdmi_device bell_device 0 control_bell 3 ≡ ran_bell
unfolding create_and_submit_qdmi_job_to_qdmi_device
bell_ran = refl

executed_task_cancelled_example :
    status
      (next_task_id (new_forward 7)).0
      (process_result
        (record blank_result {
          task_id = 7;
          executed_circuits = "bell.mlir" ∷ [];
          results = (("00", 48) ∷ ("11", 52) ∷ []) ∷ [];
        })
        (create_control_task blank_task new_store Fixtures.config (new_forward 7)).1).1
    ≡ cancelled
executed_task_cancelled_example =
    executed_task_cancelled bell_device 0 blank_task new_store Fixtures.config (new_forward 7)
      (ground (arith, first_id)) control_bell 3 3 _
      (ground (arith, first_id, created_wire blank_task new_store Fixtures.config (new_forward 7)))
      bell_ran
