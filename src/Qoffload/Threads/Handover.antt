-- ===== src/Qoffload/Threads/Handover.antt =====
-- What the result worker of examples/qoffload_service takes off the task store, and where it goes.
use mqss_integration_deploym.Base.{
  ℕ, ◌≡◌, refl, ◌∙◌, ◌⊎◌, inl, inr, Option, none, some, nat_eq, Bool-cases, ◌==◌, nat_beq_iff,
  arith,
}
use mqss_integration_deploym.Dict.{find, find-insert_self}
use mqss_integration_deploym.Words.{to_int32, int32_to_uint64}
use mqss_integration_deploym.Mqss.Status.{Status, Result}
use mqss_integration_deploym.Qoffload.Proto.{QuantumResult}
use mqss_integration_deploym.Qoffload.TaskStore.{
  PendingTask, PendingTaskKind, direct_task, control_task, CompletedControlTask,
  store_completed_control_task,
}
use mqss_integration_deploym.Qoffload.Forward.{completed_from}
use mqss_integration_deploym.Qoffload.Forward.CountTables.{HaveCounts, emplaced-HaveCounts}
use mqss_integration_deploym.Qoffload.Threads.State.{
  Threads, ResultWorker, awaiting_result, taking, storing, returning, result_stopped,
}
use mqss_integration_deploym.Qoffload.Threads.Workers.{result_step, taken_kind}
use mqss_integration_deploym.Qoffload.Threads.Turns.{
  Turn, task_turn, control_turn, result_turn, stop_turn, turn,
}
use mqss_integration_deploym.Qoffload.Threads.Places.{take_some}
use mqss_integration_deploym.Qoffload.Threads.Invariant.{Inv}
use mqss_integration_deploym.Qoffload.Threads.Pending.{turn-stays}
use mqss_integration_deploym.Qoffload.Threads.Others.{other-result}

-- What the result worker holds for a pending task that it has taken: the client's result, or the
-- completed task that is to be stored.
abbrev pub IsHanded : PendingTaskKind → PendingTask → QuantumResult → ResultWorker → Type 0
IsHanded direct_task p result w =
    w
    ≡ returning
        (record result {
          task_id = to_int32 p.original_task_id;
          destination = p.original_result_destination;
        })
        p.original_result_destination
IsHanded control_task p result w =
    (t : CompletedControlTask) × (w ≡ storing t)
    × (t.task_id ≡ p.original_task_id)
    × (t.execution_status ≡ result.execution_status)
    × HaveCounts t.result_counts result.results

-- A pending task stays, or the result that the worker has received for its id is handed over.
abbrev pub FollowsPending : ℕ → Option PendingTask → Threads → Threads → Type 0
FollowsPending id none s s' = Unit
FollowsPending id (some p) s s' =
    (find id s'.tasks.pending ≡ some p)
    ⊎ ((result : QuantumResult) × (s.result_worker ≡ taking result)
        × (int32_to_uint64 result.task_id ≡ id)
        × IsHanded p.kind p result s'.result_worker)

-- A completed task that is to be stored still is, or has been stored.
abbrev pub FollowsStoring : ResultWorker → Threads → Type 0
FollowsStoring (storing t) s' =
    (s'.result_worker ≡ storing t) ⊎ (find t.task_id s'.tasks.completed_control_tasks ≡ some t)
FollowsStoring _ s' = Unit

kind-IsHanded :
    (kind : PendingTaskKind) (p : PendingTask) (result : QuantumResult)
    → IsHanded kind p result (taken_kind kind p result)
unfolding completed_from
kind-IsHanded direct_task p result = refl
kind-IsHanded control_task p result = (_, refl, refl, refl, emplaced-HaveCounts result.results)

take_turn :
    (s : Threads) (received : Result QuantumResult) (st : Status) (result : QuantumResult) (id : ℕ)
    (p : PendingTask)
    → int32_to_uint64 result.task_id ≡ id
    → find id s.tasks.pending ≡ some p
    → s.result_worker ≡ taking result
    → (turn (result_turn received st) s).1.result_worker ≡ taken_kind p.kind p result
unfolding turn result_step
take_turn s received st result id p wire there e =
    rw e (rw wire (rw (take_some id s.tasks p there) refl))

module _ {n : ℕ} (s : Threads) (inv : Inv n s) (id : ℕ) where
  taking-follows :
      (received : Result QuantumResult) (st : Status) (p : PendingTask) (w : ResultWorker)
      → find id s.tasks.pending ≡ some p
      → s.result_worker ≡ w
      → FollowsPending id (some p) s (turn (result_turn received st) s).1
  taking-follows received st p (taking result) there e =
      elim (Bool-cases (int32_to_uint64 result.task_id == id)) [
        | inl same ↦
            let wire = (nat_beq_iff (int32_to_uint64 result.task_id) id).0 same in
            inr (
              result,
              e,
              wire,
              rw (take_turn s received st result id p wire there e) (kind-IsHanded p.kind p result),
            )
        | inr other ↦ inl (
            turn-stays s inv id p there (result_turn received st) (
              inr (
                rw e λ h.
                  (let no = (nat_beq_iff (int32_to_uint64 result.task_id) id).1 h in
                    absurd (ground arith)))))
      ]
  taking-follows received st p awaiting_result there e =
      inl (turn-stays s inv id p there (result_turn received st) (inr (rw e λ h. h)))
  taking-follows received st p (storing t) there e =
      inl (turn-stays s inv id p there (result_turn received st) (inr (rw e λ h. h)))
  taking-follows received st p (returning result destination) there e =
      inl (turn-stays s inv id p there (result_turn received st) (inr (rw e λ h. h)))
  taking-follows received st p result_stopped there e =
      inl (turn-stays s inv id p there (result_turn received st) (inr (rw e λ h. h)))

  pub turn-follows :
      (t : Turn) (o : Option PendingTask)
      → find id s.tasks.pending ≡ o
      → FollowsPending id o s (turn t s).1
  turn-follows t none there = tt
  turn-follows (task_turn received st) (some p) there =
      inl (turn-stays s inv id p there (task_turn received st) (inl tt))
  turn-follows (control_turn received a b) (some p) there =
      inl (turn-stays s inv id p there (control_turn received a b) (inl tt))
  turn-follows (stop_turn worker) (some p) there =
      inl (turn-stays s inv id p there (stop_turn worker) (inl tt))
  turn-follows (result_turn received st) (some p) there =
      taking-follows received st p s.result_worker there refl

-- The turn in which the result worker stores a task.
store_turn :
    (s : Threads) (received : Result QuantumResult) (st : Status) (t : CompletedControlTask)
    → s.result_worker ≡ storing t
    → find t.task_id (turn (result_turn received st) s).1.tasks.completed_control_tasks ≡ some t
unfolding turn result_step store_completed_control_task
store_turn s received st t e = rw e (find-insert_self t.task_id t s.tasks.completed_control_tasks)

pub storing-follows :
    (s : Threads) (t : Turn) (w : ResultWorker)
    → s.result_worker ≡ w
    → FollowsStoring w (turn t s).1
storing-follows s (task_turn received st) (storing c) e =
    inl (other-result (task_turn received st) s tt ∙ e)
storing-follows s (control_turn received a b) (storing c) e =
    inl (other-result (control_turn received a b) s tt ∙ e)
storing-follows s (stop_turn worker) (storing c) e = inl (other-result (stop_turn worker) s tt ∙ e)
storing-follows s (result_turn received st) (storing c) e = inr (store_turn s received st c e)
storing-follows s t awaiting_result e = tt
storing-follows s t (taking result) e = tt
storing-follows s t (returning result destination) e = tt
storing-follows s t result_stopped e = tt
