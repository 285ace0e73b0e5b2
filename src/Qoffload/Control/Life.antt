-- ===== src/Qoffload/Control/Life.antt =====
-- The life of a control task as a client sees it, from the commands to the results.
use mqss_integration_deploym.Base.{
  ℕ, ◌^◌, ◌<◌, Bool, true, false, ◌≡◌, ◌≢◌, none, some, arith, if◌then◌else◌, nat_eq, Option-cases,
  ap, sym, ◌∙◌,
}
use mqss_integration_deploym.Dict.{find, find-erase_self}
use mqss_integration_deploym.Words.{to_int32, int32_to_uint64, int32_round_trip}
use mqss_integration_deploym.Qoffload.Proto.{QuantumResult, blank_task}
use mqss_integration_deploym.Qoffload.Config.{Config}
use mqss_integration_deploym.Qoffload.TaskStore.{
  TaskStore, waiting, completed, cancelled, not_found, CompletedControlTask, status,
  take_completed_control_task,
}
use mqss_integration_deploym.Qoffload.Forward.{Forward, process_result, next_task_id}
use mqss_integration_deploym.Qoffload.Forward.CountTables.{HaveCounts}
use mqss_integration_deploym.Qoffload.Forward.Correlation.{
  control_round_trip, created_wire, status_of_registered, find-created,
}
use mqss_integration_deploym.Qoffload.Protocol.{
  CreateQuantumTaskCommand, create_quantum_task, get_task_status, get_task_result,
  get_cancel_reason, task_created, task_status_result, task_result_result, control_error,
}
use mqss_integration_deploym.Qoffload.Control.{
  execute, apply_create, handle_get_task_result, handle_get_cancel_reason,
}

-- A task of which the store knows nothing.
abbrev IsGone : ℕ → TaskStore → Type 0
IsGone id s = (find id s.pending ≡ none) × (find id s.completed_control_tasks ≡ none)

take-IsGone :
    (id : ℕ) (s : TaskStore)
    → status id s ≢ waiting
    → IsGone id (take_completed_control_task id s).1
unfolding status take_completed_control_task
take-IsGone id s h =
    let found = Option-cases (find id s.completed_control_tasks) in
    (ground (arith, found), ground (arith, found, find-erase_self id s.completed_control_tasks))

-- Both fetches take the completed task off the store.
fetch_result-store :
    (id : ℕ) (s : TaskStore)
    → status id s ≢ waiting
    → (handle_get_task_result id s).1 ≡ (take_completed_control_task id s).1
unfolding handle_get_task_result
fetch_result-store id s h = ground arith

fetch_reason-store :
    (id : ℕ) (s : TaskStore)
    → status id s ≢ waiting
    → (handle_get_cancel_reason id s).1 ≡ (take_completed_control_task id s).1
unfolding handle_get_cancel_reason
fetch_reason-store id s h = ground arith

gone_status : (id : ℕ) (s : TaskStore) → IsGone id s → status id s ≡ not_found
unfolding status
gone_status id s h = ground arith

gone_result :
    (id : ℕ) (s : TaskStore)
    → IsGone id s
    → (handle_get_task_result id s).0 ≡ control_error "JOB NOT FOUND"
unfolding handle_get_task_result
gone_result id s h = ground arith

gone_reason :
    (id : ℕ) (s : TaskStore)
    → IsGone id s
    → (handle_get_cancel_reason id s).0 ≡ control_error "JOB NOT FOUND"
unfolding handle_get_cancel_reason
gone_reason id s h = ground arith

gone_queries :
    (id : ℕ) (s : TaskStore) (config : Config) (f : Forward)
    → IsGone id s
    → ((execute (get_task_status id) s config f).result ≡ task_status_result not_found)
      × ((execute (get_task_result id) s config f).result ≡ control_error "JOB NOT FOUND")
      × ((execute (get_cancel_reason id) s config f).result ≡ control_error "JOB NOT FOUND")
unfolding execute
gone_queries id s config f g =
    (ap task_status_result (gone_status id s g), gone_result id s g, gone_reason id s g)

-- A result can be fetched once: after a fetch of the result or of the cancel reason of a task that is
-- not waiting, the task is not found by any of the three queries.
pub fetched_once :
    (id : ℕ) (reason : Bool) (tasks : TaskStore) (config : Config) (f : Forward)
    → status id tasks ≢ waiting
    → let fetch = if reason then get_cancel_reason id else get_task_result id in
      let after = (execute fetch tasks config f).tasks in
      ((execute (get_task_status id) after config f).result ≡ task_status_result not_found)
      × ((execute (get_task_result id) after config f).result ≡ control_error "JOB NOT FOUND")
      × ((execute (get_cancel_reason id) after config f).result ≡ control_error "JOB NOT FOUND")
unfolding execute
fetched_once id true tasks config f h =
    gone_queries id _ config f (rw (fetch_reason-store id tasks h) (take-IsGone id tasks h))
fetched_once id false tasks config f h =
    gone_queries id _ config f (rw (fetch_result-store id tasks h) (take-IsGone id tasks h))

waiting_queries :
    (id : ℕ) (s : TaskStore)
    → status id s ≡ waiting
    → (handle_get_task_result id s ≡ (control_error "JOB IS WAITING", s))
      × (handle_get_cancel_reason id s ≡ (control_error "JOB IS WAITING", s))
unfolding handle_get_task_result handle_get_cancel_reason
waiting_queries id s h = (ground arith, ground arith)

taken_query :
    (id : ℕ) (s : TaskStore) (b : Bool) (t : CompletedControlTask)
    → status id s ≡ (if b then completed else cancelled)
    → (take_completed_control_task id s).0 ≡ some t
    → (handle_get_task_result id s).0 ≡ task_result_result t
unfolding handle_get_task_result
taken_query id s b t h e = ground arith

module _ (command : CreateQuantumTaskCommand) (tasks : TaskStore) (config : Config)
    (f : Forward) where
  -- The id of the new task, and the state after its creation.
  abbrev pub new_id : ℕ
  new_id = (next_task_id f).0

  abbrev pub after_create : TaskStore
  after_create = (execute (create_quantum_task command) tasks config f).tasks

  -- A client that creates a task is told its id and sees it waiting, and neither its result nor a
  -- reason can be fetched. When QRM returns a result under the id of the task that was sent, the task
  -- is completed or cancelled as the result says, and the fetched task has its id, the status of the
  -- result and a table for each circuit, in order, with the first count that the result gives for each
  -- state and nothing else. This holds while ids are below 2 ^ 31.
  pub created_task_life :
      (result : QuantumResult)
      → new_id < 2 ^ 31
      → result.task_id ≡ to_int32 new_id
      → let created = execute (create_quantum_task command) tasks config f in
        let returned = (process_result result after_create).1 in
        (created.result ≡ task_created new_id)
        × ((execute (get_task_status new_id) after_create config f).result
            ≡ task_status_result waiting)
        × ((execute (get_task_result new_id) after_create config f).result
            ≡ control_error "JOB IS WAITING")
        × ((execute (get_cancel_reason new_id) after_create config f).result
            ≡ control_error "JOB IS WAITING")
        × ((execute (get_task_status new_id) returned config f).result
            ≡ task_status_result (if result.execution_status then completed else cancelled))
        × ((t : CompletedControlTask) × ((execute (get_task_result new_id) returned config f).result
              ≡ task_result_result t)
            × (t.task_id ≡ new_id)
            × (t.execution_status ≡ result.execution_status)
            × HaveCounts t.result_counts result.results)
  unfolding execute
  created_task_life result fits same =
      let task = apply_create command blank_task in
      let wire = created_wire task tasks config f in
      let back : int32_to_uint64 (to_int32 new_id) ≡ new_id = int32_round_trip new_id fits in
      let wait = status_of_registered new_id after_create (find-created task tasks config f) in
      let (_, now, (t, taken, own, flag, counts)) =
        control_round_trip task tasks config f result fits (same ∙ sym wire) in
      (
        ap (λ n. task_created (int32_to_uint64 n)) wire ∙ ap task_created back,
        ap task_status_result wait,
        ap (λ r. r.0) (waiting_queries new_id after_create wait).0,
        ap (λ r. r.0) (waiting_queries new_id after_create wait).1,
        ap task_status_result now,
        (t, taken_query new_id _ result.execution_status t now taken, own, flag, counts),
      )
