-- ===== src/Qoffload/Threads/Invariant.antt =====
-- What holds of the task store and of the task ids while the workers of the service interleave.
use mqss_integration_deploym.Base.{
  ℕ, suc, ◌+◌, ◌^◌, ◌≤◌, ◌<◌, ◌≡◌, refl, Option-cases, Option, none, some, arith, nat_eq, ◌==◌,
  nat_beq_iff,
}
use mqss_integration_deploym.Dict.{find, find-insert_or_assign, find-erase}
use mqss_integration_deploym.Qoffload.TaskStore.{
  TaskStore, PendingTask, control_task, CompletedControlTask, add_direct_task, take_pending,
  take_completed_control_task,
}
use mqss_integration_deploym.Qoffload.TaskStore.Laws.{IsValid}
use mqss_integration_deploym.Qoffload.Forward.{next_task_id}
use mqss_integration_deploym.Qoffload.Control.{taken_result, taken_reason}
use mqss_integration_deploym.Qoffload.Threads.State.{Threads}
use mqss_integration_deploym.Qoffload.Threads.Places.{places, given, given-next, one_if}

-- A pending control task is its own original.
abbrev pub ControlKeyed : TaskStore → Type 0
ControlKeyed s =
    (k : ℕ) (t : PendingTask)
    → find k s.pending ≡ some t
    → t.kind ≡ control_task
    → t.original_task_id ≡ k

-- After at most `n` draws from the counter.
pub record Inv (n : ℕ) (s : Threads) : Type 0 where
  pub small : s.forwarder.instance_uid < 2 ^ 31
  pub drawn : s.forwarder.next_task_index ≤ n
  pub valid : IsValid s.tasks
  pub control_keyed : ControlKeyed s.tasks
  pub once : (id : ℕ) → places id s ≤ given s.forwarder id

pub Inv-later : {n : ℕ} {s : Threads} → Inv n s → Inv (suc n) s
Inv-later inv = record {
  small = inv.small;
  drawn = omega (arith, inv.drawn);
  valid = inv.valid;
  control_keyed = inv.control_keyed;
  once = inv.once;
}

-- A step that leaves the forwarder alone.
pub Inv-kept :
    {n : ℕ} {s : Threads} (s' : Threads)
    → Inv n s
    → s'.forwarder ≡ s.forwarder
    → IsValid s'.tasks
    → ControlKeyed s'.tasks
    → ((id : ℕ) → places id s' ≤ places id s)
    → Inv (suc n) s'
Inv-kept s' inv same valid keyed fewer = record {
  small = rw same inv.small;
  drawn = rw same (omega (arith, inv.drawn));
  valid = valid;
  control_keyed = keyed;
  once = λ id. rw same (omega (arith, fewer id, inv.once id));
}

-- A step that draws an id.
pub Inv-drawn :
    {n : ℕ} {s : Threads} (s' : Threads)
    → Inv n s
    → n < 2 ^ 33
    → s'.forwarder ≡ (next_task_id s.forwarder).1
    → s'.tasks ≡ s.tasks
    → ((id : ℕ) → places id s' ≤ places id s + one_if ((next_task_id s.forwarder).0 == id))
    → Inv (suc n) s'
unfolding next_task_id
Inv-drawn {s = s} s' inv b same tasks more = record {
  small = rw same inv.small;
  drawn = rw same (ground (arith, inv.drawn));
  valid = rw tasks inv.valid;
  control_keyed = rw tasks inv.control_keyed;
  once = λ id. rw same (
      omega (
        arith,
        more id,
        inv.once id,
        given-next s.forwarder id inv.small (omega (arith, inv.drawn)),
      ));
}

pub add-ControlKeyed :
    (t : PendingTask) (s : TaskStore)
    → (t.kind ≡ control_task → t.original_task_id ≡ t.forwarded_task_id)
    → ControlKeyed s
    → ControlKeyed (add_direct_task t s)
unfolding add_direct_task
add-ControlKeyed t s h keyed k u e c = ground (
  arith,
  find-insert_or_assign t.forwarded_task_id k t s.pending,
  keyed k u,
  nat_beq_iff t.forwarded_task_id k,
  h,
)

pub take-ControlKeyed : (k : ℕ) (s : TaskStore) → ControlKeyed s → ControlKeyed (take_pending k s).1
unfolding take_pending
take-ControlKeyed k s keyed j u e c =
    ground (arith, Option-cases (find k s.pending), find-erase k j s.pending, keyed j u)

pub fetch-ControlKeyed :
    (k : ℕ) (s : TaskStore) → ControlKeyed s → ControlKeyed (take_completed_control_task k s).1
unfolding take_completed_control_task
fetch-ControlKeyed k s keyed j u e c =
    ground (arith, Option-cases (find k s.completed_control_tasks), keyed j u)

pub n+0 : (n : ℕ) → n + 0 ≡ n
n+0 n = omega arith

pub plus_suc : (n k : ℕ) → n + suc k ≡ suc n + k
plus_suc n k = omega arith

pub taken_result-store : (t : Option CompletedControlTask × TaskStore) → (taken_result t).1 ≡ t.1
taken_result-store (none, s) = refl
taken_result-store (some x, s) = refl

pub taken_reason-store : (t : Option CompletedControlTask × TaskStore) → (taken_reason t).1 ≡ t.1
taken_reason-store (none, s) = refl
taken_reason-store (some x, s) = refl
