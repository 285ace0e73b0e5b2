-- ===== src/Qoffload/TaskStore/Bare.antt =====
-- Stores whose completed tasks carry nothing but a status and counts.
use mqss_integration_deploym.Base.{
  ℕ, ◌≡◌, some, arith, nat_eq, Option-cases, inl, inr, ◌==◌, Bool-cases,
}
use mqss_integration_deploym.Dict.{find, find-insert_or_assign, find-erase}
use mqss_integration_deploym.Qoffload.TaskStore.{
  TaskStore, CompletedControlTask, take_pending, store_completed_control_task,
  take_completed_control_task,
}

-- A completed task that carries nothing but its status and its counts.
pub record IsBare (t : CompletedControlTask) : Type 0 where
  pub no_reason : t.cancel_reason ≡ ""
  pub never_scheduled : t.timestamp_scheduled ≡ ""
  pub never_submitted : t.timestamp_submitted ≡ ""
  pub never_completed : t.timestamp_completed ≡ ""

abbrev pub AllBare : TaskStore → Type 0
AllBare s =
    (id : ℕ) (t : CompletedControlTask) → find id s.completed_control_tasks ≡ some t → IsBare t

pub take_completed-AllBare :
    (id : ℕ) (s : TaskStore) → AllBare s → AllBare (take_completed_control_task id s).1
unfolding take_completed_control_task
take_completed-AllBare id s h k t e = elim (Option-cases (find id s.completed_control_tasks)) [
  | inl gone ↦ h k t (ground (arith, gone))
  | inr (u, there) ↦ h k t (ground (arith, there, find-erase id k s.completed_control_tasks))
]

pub store_completed-AllBare :
    (u : CompletedControlTask) (s : TaskStore)
    → IsBare u
    → AllBare s
    → AllBare (store_completed_control_task u s)
unfolding store_completed_control_task
store_completed-AllBare u s b h k t e = elim (Bool-cases (u.task_id == k)) [
  | inl here ↦
      let same : u ≡ t =
        ground (arith, here, find-insert_or_assign u.task_id k u s.completed_control_tasks) in
      rw (← same) b
  | inr there ↦
      h k t (ground (arith, there, find-insert_or_assign u.task_id k u s.completed_control_tasks))
]

pub take_pending-AllBare : (id : ℕ) (s : TaskStore) → AllBare s → AllBare (take_pending id s).1
unfolding take_pending
take_pending-AllBare id s h k t e = h k t (ground (arith, Option-cases (find id s.pending)))
