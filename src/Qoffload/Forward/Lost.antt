-- ===== src/Qoffload/Forward/Lost.antt =====
-- Results that no longer belong to any task.
use mqss_integration_deploym.Base.{
  ℕ, ◌-◌, ◌^◌, ◌≤◌, ◌<◌, ◌≡◌, ◌≢◌, refl, none, arith, nat_eq, Option-cases, inl, inr, beq-false,
  ◌∙◌, ap,
}
use mqss_integration_deploym.Dict.{find, find-insert_or_assign}
use mqss_integration_deploym.Words.{to_int32, int32_to_uint64}
use mqss_integration_deploym.Qoffload.Proto.{QuantumTask, QuantumResult}
use mqss_integration_deploym.Qoffload.Config.{Config}
use mqss_integration_deploym.Qoffload.TaskStore.{
  TaskStore, PendingTask, PendingTaskKind, direct_task, control_task, take_pending,
  store_completed_control_task, status, waiting,
}
use mqss_integration_deploym.Qoffload.Forward.{
  Forward, forward_direct_task, process_result, next_task_id, resolve, unknown_task,
}
use mqss_integration_deploym.Qoffload.Forward.Correlation.{
  forwarded_task, registered, process_found, process_missing, taken_is_gone, find-forwarded,
  status_of_registered,
}

pub resolve-pending :
    (k : PendingTaskKind) (p : PendingTask) (result : QuantumResult) (s : TaskStore)
    → (resolve k p result s).1.pending ≡ s.pending
unfolding resolve store_completed_control_task
resolve-pending control_task p result s = refl
resolve-pending direct_task p result s = refl

-- A second result with the id of an earlier one is dropped as unknown, whatever the store held before
-- the first.
pub second_result_dropped :
    (first second : QuantumResult) (tasks : TaskStore)
    → second.task_id ≡ first.task_id
    → (process_result second (process_result first tasks).1).0.kind ≡ unknown_task
second_result_dropped first second tasks same =
    let id = int32_to_uint64 first.task_id in
    let wire : int32_to_uint64 second.task_id ≡ id = ap int32_to_uint64 same in
    elim (Option-cases (find id tasks.pending)) [
      | inl gone ↦
          rw (process_missing first tasks id refl gone)
            (rw (process_missing second tasks id wire gone) refl)
      | inr (p, there) ↦
          let tasks' = (resolve p.kind p first (take_pending id tasks).1).1 in
          let gone : find id tasks'.pending ≡ none =
            rw (resolve-pending p.kind p first (take_pending id tasks).1)
              (taken_is_gone id tasks) in
          rw (process_found first tasks p id refl there)
            (rw (process_missing second tasks' id wire gone) refl)
    ]

outgrown : (id : ℕ) → 2 ^ 31 ≤ id → id < 2 ^ 64 - 2 ^ 31 → id ≢ int32_to_uint64 (to_int32 id)
outgrown id low high e = ground arith

find-other :
    (request : QuantumTask) (tasks : TaskStore) (config : Config) (f : Forward) (id : ℕ)
    → (next_task_id f).0 ≢ id
    → find id tasks.pending ≡ none
    → find id (forward_direct_task request tasks config f).1.pending ≡ none
unfolding forward_direct_task
find-other request tasks config f id ne free =
    let new = registered request (next_task_id f).0 in
    rw (find-insert_or_assign (next_task_id f).0 id new tasks.pending, beq-false _ _ ne) free

-- A forwarded task whose id has outgrown the message: if the id is between 2 ^ 31 and 2 ^ 64 - 2 ^ 31
-- and no task is pending under the id that comes back, then the result is dropped as unknown and the
-- task goes on waiting.
pub outgrown_id_loses_result :
    (request : QuantumTask) (tasks : TaskStore) (config : Config) (f : Forward)
    (result : QuantumResult)
    → 2 ^ 31 ≤ (next_task_id f).0
    → (next_task_id f).0 < 2 ^ 64 - 2 ^ 31
    → result.task_id ≡ (forward_direct_task request tasks config f).0.task_id
    → find (int32_to_uint64 (to_int32 (next_task_id f).0)) tasks.pending ≡ none
    → let (outcome, after) = process_result result (forward_direct_task request tasks config f).1 in
      (outcome.kind ≡ unknown_task) × (status (next_task_id f).0 after ≡ waiting)
outgrown_id_loses_result request tasks config f result low high same free =
    let id = (next_task_id f).0 in
    let back = int32_to_uint64 (to_int32 id) in
    let made = (forward_direct_task request tasks config f).1 in
    let wire : int32_to_uint64 result.task_id ≡ back =
      ap int32_to_uint64 (same ∙ (forwarded_task request tasks config f).0) in
    let differs : id ≢ back = λ e. outgrown id low high e in
    let gone : find back made.pending ≡ none =
      find-other request tasks config f back differs free in
    rw (process_missing result made back wire gone)
      (refl, ground (arith, status_of_registered id made (find-forwarded request tasks config f)))
