-- ===== src/Qoffload/Threads/Stopping.antt =====
-- examples/qoffload_service: the workers of QOffload.cpp after the request to stop.
use mqss_integration_deploym.Qoffload.Control.{is_waiting}
use mqss_integration_deploym.Qoffload.Threads.Workers.{taken_kind}
use mqss_integration_deploym.Base.{
  refl, arith, Bool, false, none, some, ℕ, suc, ◌+◌, ◌≤◌, ap, List, [], ◌∷◌, true,
}
use mqss_integration_deploym.Qoffload.TaskStore.{status, PendingTaskKind, direct_task, control_task}
use mqss_integration_deploym.Qoffload.Threads.Turns.{
  Turn, task_turn, control_turn, result_turn, stop_turn, turn, play,
}
use mqss_integration_deploym.Base.{◌≡◌, refl, List, Option, none, some, nat_eq, Bool, true, false}
use mqss_integration_deploym.Words.{int32_to_uint64}
use mqss_integration_deploym.Mqss.Status.{Status, Result}
use mqss_integration_deploym.Qoffload.Proto.{QuantumTask, QuantumResult, ApiRequest}
use mqss_integration_deploym.Qoffload.TaskStore.{status, TaskStore, PendingTask, take_pending}
use mqss_integration_deploym.Qoffload.Protocol.{
  ControlCommand, create_quantum_task, get_task_status, get_task_result, get_cancel_reason,
  list_resources, get_resource_info, query_pending_tasks, invalid,
}
use mqss_integration_deploym.Qoffload.Threads.State.{
  StopTokens, WorkerName, task_interface, control_interface, qrm_result, request_stop, Threads,
  TaskWorker, ControlWorker, ResultWorker, awaiting_task, numbering, registering, sending,
  task_stopped, awaiting_request, executing, creating, fetching_result, fetching_reason, forwarding,
  responding, control_stopped, awaiting_result, taking, storing, returning, result_stopped,
}
use mqss_integration_deploym.Qoffload.Threads.Workers.{task_step, result_step, taken}
use mqss_integration_deploym.Qoffload.Threads.Commands.{control_step, command_step, unless_waiting}
use mqss_integration_deploym.Qoffload.Threads.Own.{
  task_step-moves, control_step-moves, result_step-moves,
}
use mqss_integration_deploym.Base.{◌-◌}

-- How many turns of its own a worker has left when it is to stop.
abbrev pub task_left : TaskWorker → ℕ
task_left awaiting_task = 1
task_left (numbering request) = 4
task_left (registering request k) = 3
task_left (sending task) = 2
task_left task_stopped = 0

abbrev pub control_left : ControlWorker → ℕ
control_left awaiting_request = 1
control_left (executing request) = 5
control_left (creating request task k) = 4
control_left (fetching_result request k) = 3
control_left (fetching_reason request k) = 3
control_left (forwarding request task) = 3
control_left (responding request result) = 2
control_left control_stopped = 0

abbrev pub result_left : ResultWorker → ℕ
result_left awaiting_result = 1
result_left (taking result) = 3
result_left (storing completed) = 2
result_left (returning result destination) = 2
result_left result_stopped = 0

-- The turns of each worker in a run.
abbrev pub task_turns : List Turn → ℕ
task_turns [] = 0
task_turns (task_turn received st ∷ ts) = suc (task_turns ts)
task_turns (_ ∷ ts) = task_turns ts

abbrev pub control_turns : List Turn → ℕ
control_turns [] = 0
control_turns (control_turn received a b ∷ ts) = suc (control_turns ts)
control_turns (_ ∷ ts) = control_turns ts

abbrev pub result_turns : List Turn → ℕ
result_turns [] = 0
result_turns (result_turn received st ∷ ts) = suc (result_turns ts)
result_turns (_ ∷ ts) = result_turns ts

abbrev pub IsStopping : StopTokens → Type 0
IsStopping tokens = (tokens.task ≡ true) × (tokens.control ≡ true) × (tokens.result ≡ true)

request_stop-IsStopping :
    (w : WorkerName) (tokens : StopTokens) → IsStopping tokens → IsStopping (request_stop w tokens)
unfolding request_stop
request_stop-IsStopping task_interface tokens (t, c, r) = (refl, c, r)
request_stop-IsStopping control_interface tokens (t, c, r) = (t, refl, r)
request_stop-IsStopping qrm_result tokens (t, c, r) = (t, c, refl)

module _ (s : Threads) (stop : IsStopping s.stop_tokens) where
  task_step-left :
      (w : TaskWorker) (received : Result QuantumTask) (st : Status)
      → s.task_worker ≡ w
      → task_left (task_step w received st s).1.task_worker ≤ task_left w - 1
  unfolding task_step
  task_step-left awaiting_task received st e = ground (arith, stop)
  task_step-left (numbering request) received st e = omega arith
  task_step-left (registering request k) received st e = omega arith
  task_step-left (sending task) received st e = omega arith
  task_step-left task_stopped received st e = omega (arith, ap task_left e)

  unless-left :
      (w : Bool) (request : ApiRequest) (next : ControlWorker)
      → control_left next ≤ 4
      → control_left (unless_waiting w request next s).control_worker ≤ 4
  unless-left true request next h = omega arith
  unless-left false request next h = h

  command_step-left :
      (c : ControlCommand) (request : ApiRequest)
      → control_left (command_step c request s).control_worker ≤ 4
  unfolding command_step
  command_step-left (create_quantum_task c) request = omega arith
  command_step-left (get_task_status k) request = omega arith
  command_step-left (get_task_result k) request =
      unless-left (is_waiting (status k s.tasks)) request (fetching_result request k) (omega arith)
  command_step-left (get_cancel_reason k) request =
      unless-left (is_waiting (status k s.tasks)) request (fetching_reason request k) (omega arith)
  command_step-left list_resources request = omega arith
  command_step-left (get_resource_info name) request = omega arith
  command_step-left (query_pending_tasks name) request = omega arith
  command_step-left (invalid message) request = omega arith

  control_step-left :
      (w : ControlWorker) (received : Result ApiRequest) (a b : Status)
      → s.control_worker ≡ w
      → control_left (control_step w received a b s).1.control_worker ≤ control_left w - 1
  unfolding control_step
  control_step-left awaiting_request received a b e = ground (arith, stop)
  control_step-left (executing request) received a b e = command_step-left _ request
  control_step-left (creating request task k) received a b e = omega arith
  control_step-left (fetching_result request k) received a b e = omega arith
  control_step-left (fetching_reason request k) received a b e = omega arith
  control_step-left (forwarding request task) received a b e = omega arith
  control_step-left (responding request result) received a b e = omega arith
  control_step-left control_stopped received a b e = omega (arith, ap control_left e)

  kind-left :
      (k : PendingTaskKind) (p : PendingTask) (result : QuantumResult)
      → result_left (taken_kind k p result) ≤ 2
  kind-left direct_task p result = omega arith
  kind-left control_task p result = omega arith

  taken-left :
      (result : QuantumResult) (t : Option PendingTask × TaskStore)
      → result_left (taken result t s).result_worker ≤ 2
  taken-left result (none, tasks) = omega arith
  taken-left result (some p, tasks) = kind-left p.kind p result

  result_step-left :
      (w : ResultWorker) (received : Result QuantumResult) (st : Status)
      → s.result_worker ≡ w
      → result_left (result_step w received st s).1.result_worker ≤ result_left w - 1
  unfolding result_step
  result_step-left awaiting_result received st e = ground (arith, stop)
  result_step-left (taking result) received st e =
      taken-left result (take_pending (int32_to_uint64 result.task_id) s.tasks)
  result_step-left (storing completed) received st e = omega arith
  result_step-left (returning result destination) received st e = omega arith
  result_step-left result_stopped received st e = omega (arith, ap result_left e)

-- What a run leaves to the three workers.
abbrev Left : List Turn → Threads → Threads → Type 0
Left ts s t =
    IsStopping t.stop_tokens
    × (task_left t.task_worker ≤ task_left s.task_worker - task_turns ts)
    × (control_left t.control_worker ≤ control_left s.control_worker - control_turns ts)
    × (result_left t.result_worker ≤ result_left s.result_worker - result_turns ts)

turn-Left : (t : Turn) (s : Threads) → IsStopping s.stop_tokens → Left (t ∷ []) s (turn t s).1
unfolding turn
turn-Left (task_turn received st) s stop =
    let (c, r, b) = task_step-moves s.task_worker received st s in
    (
      rw b stop,
      task_step-left s stop s.task_worker received st refl,
      rw c (omega arith),
      rw r (omega arith),
    )
turn-Left (control_turn received x y) s stop =
    let (t, r, b) = control_step-moves s.control_worker received x y s in
    (
      rw b stop,
      rw t (omega arith),
      control_step-left s stop s.control_worker received x y refl,
      rw r (omega arith),
    )
turn-Left (result_turn received st) s stop =
    let (t, c, b) = result_step-moves s.result_worker received st s in
    (
      rw b stop,
      rw t (omega arith),
      rw c (omega arith),
      result_step-left s stop s.result_worker received st refl,
    )
turn-Left (stop_turn w) s stop =
    (request_stop-IsStopping w s.stop_tokens stop, omega arith, omega arith, omega arith)

turns_of :
    (t : Turn) (ts : List Turn)
    → (task_turns (t ∷ ts) ≡ task_turns (t ∷ []) + task_turns ts)
      × (control_turns (t ∷ ts) ≡ control_turns (t ∷ []) + control_turns ts)
      × (result_turns (t ∷ ts) ≡ result_turns (t ∷ []) + result_turns ts)
turns_of (task_turn received st) ts = (omega arith, omega arith, omega arith)
turns_of (control_turn received a b) ts = (omega arith, omega arith, omega arith)
turns_of (result_turn received st) ts = (omega arith, omega arith, omega arith)
turns_of (stop_turn worker) ts = (omega arith, omega arith, omega arith)

play-Left : (ts : List Turn) (s : Threads) → IsStopping s.stop_tokens → Left ts s (play ts s).1
unfolding play
play-Left [] s stop = (stop, omega arith, omega arith, omega arith)
play-Left (t ∷ ts) s stop =
    let (b, x, y, z) = turn-Left t s stop in
    let (b', x', y', z') = play-Left ts (turn t s).1 b in
    let (i, j, k) = turns_of t ts in
    (b', omega (arith, x, x', i), omega (arith, y, y', j), omega (arith, z, z', k))

at_most_five :
    (s : Threads)
    → (task_left s.task_worker ≤ 4)
      × (control_left s.control_worker ≤ 5)
      × (result_left s.result_worker ≤ 3)
at_most_five s = (ground arith, ground arith, ground arith)

task-done : (w : TaskWorker) → task_left w ≡ 0 → w ≡ task_stopped
task-done w h = ground arith

control-done : (w : ControlWorker) → control_left w ≡ 0 → w ≡ control_stopped
control-done w h = ground arith

result-done : (w : ResultWorker) → result_left w ≡ 0 → w ≡ result_stopped
result-done w h = ground arith

-- Once the workers are asked to stop, in any state and in any interleaving, with any messages and any
-- statuses of the sends, each of them is out of its loop after a few turns of its own, which are four of
-- the task worker, five of the control worker and three of the result worker, so that the threads can
-- be joined.
pub threads-stop :
    (ts : List Turn) (s : Threads)
    → IsStopping s.stop_tokens
    → 4 ≤ task_turns ts
    → 5 ≤ control_turns ts
    → 3 ≤ result_turns ts
    → ((play ts s).1.task_worker ≡ task_stopped)
      × ((play ts s).1.control_worker ≡ control_stopped)
      × ((play ts s).1.result_worker ≡ result_stopped)
threads-stop ts s stop t c r =
    let (b, x, y, z) = play-Left ts s stop in
    let (i, j, k) = at_most_five s in
    (
      task-done (play ts s).1.task_worker (omega (arith, x, i)),
      control-done (play ts s).1.control_worker (omega (arith, y, j)),
      result-done (play ts s).1.result_worker (omega (arith, z, k)),
    )
