-- ===== src/Qoffload/Forward/Correlation.antt =====
-- Correlating results with the tasks that they belong to.
use mqss_integration_deploym.Base.{
  ℕ, ◌^◌, ◌<◌, ◌≡◌, refl, none, some, arith, nat_eq, if◌then◌else◌, Option-cases, ◌∙◌,
}
use mqss_integration_deploym.Dict.{find, find-insert_self, find-erase_self}
use mqss_integration_deploym.Words.{to_int32, int32_to_uint64, int32_round_trip}
use mqss_integration_deploym.Qoffload.Proto.{QuantumTask, QuantumResult}
use mqss_integration_deploym.Qoffload.Config.{Config}
use mqss_integration_deploym.Qoffload.Forward.CountTables.{HaveCounts, emplaced-HaveCounts}
use mqss_integration_deploym.Qoffload.TaskStore.{
  TaskStore, PendingTask, CompletedControlTask, direct_task, control_task, take_pending,
  store_completed_control_task, take_completed_control_task, status, waiting, completed, cancelled,
}
use mqss_integration_deploym.Qoffload.Forward.{
  Forward, forward_direct_task, create_control_task, process_result, next_task_id, resolve,
  completed_from, unknown_task, direct_result, control_result_stored,
}

-- What is sent to QRM for a request, and what it leaves unchanged.
pub forwarded_task :
    (request : QuantumTask) (tasks : TaskStore) (config : Config) (f : Forward)
    → let sent = (forward_direct_task request tasks config f).0 in
      (sent.task_id ≡ to_int32 (next_task_id f).0)
      × (sent.result_destination ≡ config.queues.result)
      × (sent.priority ≡ (if config.policy.hpc_node then 1 else request.priority))
      × (sent.circuit_files ≡ request.circuit_files)
      × (sent.n_shots ≡ request.n_shots)
      × (sent.preferred_qpu ≡ request.preferred_qpu)
unfolding forward_direct_task
forwarded_task request tasks config f =
    (ground arith, ground arith, ground arith, ground arith, ground arith, ground arith)

pub int32_back : (x : ℕ) → x < 2 ^ 32 → to_int32 (int32_to_uint64 x) ≡ x
int32_back x h = ground arith

pub process_found :
    (result : QuantumResult) (tasks : TaskStore) (p : PendingTask) (id : ℕ)
    → int32_to_uint64 result.task_id ≡ id
    → find id tasks.pending ≡ some p
    → process_result result tasks ≡ resolve p.kind p result (take_pending id tasks).1
unfolding process_result take_pending
process_found result tasks p id same there = rw (same, process_result) (rw (there, take_pending))

pub process_missing :
    (result : QuantumResult) (tasks : TaskStore) (id : ℕ)
    → int32_to_uint64 result.task_id ≡ id
    → find id tasks.pending ≡ none
    → process_result result tasks
      ≡ (record { kind = unknown_task; result = none; result_destination = "" }, tasks)
unfolding process_result take_pending
process_missing result tasks id same gone = rw (same, process_result) (rw (gone, take_pending))

-- An id below 2 ^ 31 survives the message.
pub wire_same : (wire id : ℕ) → id < 2 ^ 31 → wire ≡ to_int32 id → int32_to_uint64 wire ≡ id
wire_same wire id fits same = rw same (int32_round_trip id fits)

-- How a forwarded request and a control task are registered.
abbrev pub registered : QuantumTask → ℕ → PendingTask
registered request id = record {
  kind = direct_task;
  forwarded_task_id = id;
  original_task_id = int32_to_uint64 request.task_id;
  original_result_destination = request.result_destination;
}

abbrev pub created : ℕ → PendingTask
created id = record {
  kind = control_task;
  forwarded_task_id = id;
  original_task_id = id;
  original_result_destination = "";
}

pub find-forwarded :
    (request : QuantumTask) (tasks : TaskStore) (config : Config) (f : Forward)
    → find (next_task_id f).0 (forward_direct_task request tasks config f).1.pending
      ≡ some (registered request (next_task_id f).0)
unfolding forward_direct_task
find-forwarded request tasks config f =
    find-insert_self (next_task_id f).0 (registered request (next_task_id f).0) tasks.pending

pub find-created :
    (task : QuantumTask) (tasks : TaskStore) (config : Config) (f : Forward)
    → find (next_task_id f).0 (create_control_task task tasks config f).1.pending
      ≡ some (created (next_task_id f).0)
unfolding create_control_task
find-created task tasks config f =
    find-insert_self (next_task_id f).0 (created (next_task_id f).0) tasks.pending

pub created_wire :
    (task : QuantumTask) (tasks : TaskStore) (config : Config) (f : Forward)
    → (create_control_task task tasks config f).0.task_id ≡ to_int32 (next_task_id f).0
unfolding create_control_task
created_wire task tasks config f = ground arith

-- A request that is forwarded and whose result comes back under the forwarded id, as long as that id
-- is below 2 ^ 31: the client gets the result, changed only in the task id, which is the request's
-- again, and in the destination, which is the one that the request named.
direct_round_trip :
    (request : QuantumTask) (tasks : TaskStore) (config : Config) (f : Forward)
    (result : QuantumResult)
    → request.task_id < 2 ^ 32
    → (next_task_id f).0 < 2 ^ 31
    → result.task_id ≡ (forward_direct_task request tasks config f).0.task_id
    → (process_result result (forward_direct_task request tasks config f).1).0 ≡ record {
      kind = direct_result;
      result =
          some
            (record result { task_id = request.task_id; destination = request.result_destination });
      result_destination = request.result_destination;
    }
unfolding resolve
direct_round_trip request tasks config f result small fits same =
    let id = (next_task_id f).0 in
    let wire =
      wire_same result.task_id id fits (same ∙ (forwarded_task request tasks config f).0) in
    rw
      (
        process_found result (forward_direct_task request tasks config f).1 (registered request id)
            id wire (find-forwarded request tasks config f),
        int32_back request.task_id small,
      )
      refl

pub taken_is_gone : (id : ℕ) (s : TaskStore) → find id (take_pending id s).1.pending ≡ none
unfolding take_pending
taken_is_gone id s = ground (arith, Option-cases (find id s.pending), find-erase_self id s.pending)

-- A completed task that is stored while its id is not pending shows and can be taken.
pub stored :
    (t : CompletedControlTask) (s : TaskStore)
    → find t.task_id s.pending ≡ none
    → (status t.task_id (store_completed_control_task t s)
        ≡ (if t.execution_status then completed else cancelled))
      × ((take_completed_control_task t.task_id (store_completed_control_task t s)).0 ≡ some t)
unfolding status store_completed_control_task take_completed_control_task
stored t s gone =
    let there = find-insert_self t.task_id t s.completed_control_tasks in
    (ground (arith, there), ground (arith, there))

-- The result of a control task whose id is below 2 ^ 31 is stored and not sent to anybody: the task
-- is then completed or cancelled as the result says, and taking it gives the task of that id with the
-- status of the result and a table for each circuit, in order, which has for each state the first
-- count that the result gives for it, and nothing else.
pub control_round_trip :
    (task : QuantumTask) (tasks : TaskStore) (config : Config) (f : Forward)
    (result : QuantumResult)
    → (next_task_id f).0 < 2 ^ 31
    → result.task_id ≡ (create_control_task task tasks config f).0.task_id
    → let id = (next_task_id f).0 in
      let (outcome, after) = process_result result (create_control_task task tasks config f).1 in
      (outcome ≡ record { kind = control_result_stored; result = none; result_destination = "" })
      × (status id after ≡ (if result.execution_status then completed else cancelled))
      × ((t : CompletedControlTask) × ((take_completed_control_task id after).0 ≡ some t)
          × (t.task_id ≡ id)
          × (t.execution_status ≡ result.execution_status)
          × HaveCounts t.result_counts result.results)
unfolding resolve completed_from
control_round_trip task tasks config f result fits same =
    let id = (next_task_id f).0 in
    let wire = wire_same result.task_id id fits (same ∙ created_wire task tasks config f) in
    let made = (create_control_task task tasks config f).1 in
    let (now, taken) =
      stored (completed_from (created id) result) (take_pending id made).1
        (taken_is_gone id made) in
    rw (process_found result made (created id) id wire (find-created task tasks config f))
      (refl, now, (_, taken, refl, refl, emplaced-HaveCounts result.results))

pub status_of_registered :
    (id : ℕ) (s : TaskStore) {p : PendingTask} → find id s.pending ≡ some p → status id s ≡ waiting
unfolding status
status_of_registered id s there = ground arith
