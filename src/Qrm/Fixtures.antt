-- ===== src/Qrm/Fixtures.antt =====
-- A broker in memory, a compiler that prints a gate definition and a statement, and a device that
-- measures a bell pair, for the tests of the workflow.
use mqss_integration_deploym.Base.{
  ℕ, ◌≤◌, String, true, false, ◌≡◌, ◌≢◌, refl, ap, List, [], ◌∷◌, ◌++◌, Option, none, some, length,
  arith, string_eq, ◌==◌, if◌then◌else◌,
}
use mqss_integration_deploym.Qoffload.Proto.{QuantumTask, QuantumResult, blank_task}
use mqss_integration_deploym.Qrm.Config.{Defaults, QueueConfig}
use mqss_integration_deploym.Qrm.Compiler.{Mlir}
use mqss_integration_deploym.Qrm.Device.{Qdmi}
use mqss_integration_deploym.Qrm.Submitter.{split_keys}
use mqss_integration_deploym.Qrm.Submitter.Job.{Works}
use mqss_integration_deploym.Qrm.Pipeline.{Broker, IsFifo}
use mqss_integration_deploym.Qrm.Pipeline.Conservation.{AreDistinct}

-- The queues of a broker.
pub record Queues : Type 0 where
  pub tasks : String → List QuantumTask
  pub results : String → List QuantumResult

abbrev in_order : Queues → String → List QuantumTask → Option QuantumTask × Queues
in_order n k [] = (none, n)
in_order n k (t ∷ ts) = (some t, record n { tasks = λ j. if k == j then ts else n.tasks j })

abbrev pub memory : Broker Queues
memory = record {
  push_task = λ k t n. record n { tasks = λ j. if k == j then n.tasks j ++ t ∷ [] else n.tasks j };
  pop_task = λ k n. in_order n k (n.tasks k);
  push_result =
      λ k r n. record n { results = λ j. if k == j then n.results j ++ r ∷ [] else n.results j };
  tasks_at = λ j n. n.tasks j;
  results_at = λ j n. n.results j;
}

results_in_order :
    (n : Queues) (k j : String) (ts : List QuantumTask)
    → (in_order n k ts).1.results j ≡ n.results j
results_in_order n k j [] = refl
results_in_order n k j (t ∷ ts) = refl

pub memory-IsFifo : IsFifo memory
memory-IsFifo = record {
  task_pushed = λ k j t n. refl;
  result_pushed = λ k j r n. refl;
  task_is_no_result = λ k j t n. refl;
  result_is_no_task = λ k j r n. refl;
  nothing_popped = λ k n e h. ap (in_order n k) h;
  front_popped = λ k t ts n e h. ap (λ l. (in_order n k l).0) h;
  rest_left = λ k j t ts n e h. ap (λ l. (in_order n k l).1.tasks j) h;
  results_left = λ k j n e. results_in_order n k j (n.tasks k);
}

abbrev pub printed : String
printed = "gate h a {\nU(0,0,0) a;\n}\nh q;\n"

abbrev pub printer : Mlir String
printer = record {
  make_temp = true;
  parse_source_file = λ path. some path;
  run = λ passes m. (true, m, printed);
}

abbrev pub bell_device : Qdmi ℕ Unit ℕ ℕ
bell_device = record {
  session_alloc = λ w. (tt, w);
  session_init = λ s w. w;
  query_devices = λ s w. (0 ∷ 1 ∷ 2 ∷ [], w);
  query_name = λ d w. (some "DDSIM", w);
  create_job = λ d w. (some w, w);
  set_program_format = λ job w. (true, w);
  set_program = λ job s w. (true, w);
  set_shots_num = λ job shots w. (true, w);
  submit = λ job w. (true, w);
  wait = λ job w. (true, w);
  check = λ job w. (true, w);
  get_hist_keys = λ job w. (some "00,11", w);
  get_hist_values = λ job w. (some (48 ∷ 52 ∷ []), w);
  job_free = λ job w. w;
  session_free = λ s w. w;
}

bell_keys : length (split_keys "00,11") ≤ 2
unfolding split_keys
bell_keys = omega arith

pub bell_device-Works : Works bell_device
bell_device-Works = record {
  devices = λ s w. (1, refl);
  named = λ d w. ("DDSIM", refl);
  created = λ d w. (w, refl);
  formatted = λ job w. refl;
  programmed = λ job s w. refl;
  counted = λ job n w. refl;
  submitted = λ job w. refl;
  waited = λ job w. refl;
  checked = λ job w. refl;
  reported = λ job w. ("00,11", 48 ∷ 52 ∷ [], refl, refl, bell_keys);
}

abbrev pub bell : QuantumTask
bell = record blank_task {
  task_id = 5;
  n_shots = 100;
  circuit_files = "bell.mlir" ∷ [];
  result_destination = "answers";
  preferred_qpu = "planqc";
}

abbrev pub queues : QueueConfig
queues = record {
  scheduler = "scheduler";
  compiler = "compiler";
  results = "results";
  submitter = "submitter";
}

apart : (k j : String) → (k == j) ≡ false → k ≢ j
apart k j h e = ground (arith, h, (string_eq.decides k j).1 e)

pub queues-AreDistinct : AreDistinct queues
queues-AreDistinct = (
  apart "scheduler" "compiler" refl,
  apart "compiler" "submitter" refl,
  apart "submitter" "scheduler" refl,
)

abbrev pub empty_queues : Queues
empty_queues = record { tasks = λ k. []; results = λ k. [] }

abbrev pub one_task : Queues
one_task = memory.push_task "scheduler" bell empty_queues

abbrev pub defaults : Defaults
defaults = record {
  amqp_host = "localhost";
  amqp_port = 5672;
  amqp_user = "guest";
  amqp_password = "guest";
  amqp_vhost = "/";
  scheduler_queue = "scheduler";
  compiler_queue = "compiler";
  results_queue = "results";
  submitter_queue = "submitter";
  log_dir = "/var/log";
  benchmark_dir = "/benchmarks/";
}
