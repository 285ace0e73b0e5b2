-- ===== src/Qoffload/Threads/Others.antt =====
-- A pending task and the result worker through turns that do not touch them.
use mqss_integration_deploym.Base.{
  ℕ, ◌+◌, ◌^◌, ◌<◌, ◌≡◌, refl, inl, inr, List, [], ◌∷◌, Option, none, some, arith, nat_eq, length,
  if-both,
}
use mqss_integration_deploym.Dict.{find}
use mqss_integration_deploym.Words.{int32_to_uint64}
use mqss_integration_deploym.Mqss.Status.{Status, Result, value, unexpected}
use mqss_integration_deploym.Qoffload.Proto.{QuantumResult}
use mqss_integration_deploym.Qoffload.TaskStore.{
  TaskStore, PendingTask, PendingTaskKind, direct_task, control_task, take_pending,
}
use mqss_integration_deploym.Qoffload.Service.{Effect}
use mqss_integration_deploym.Qoffload.Threads.State.{
  Threads, ResultWorker, awaiting_result, taking, storing, returning, result_stopped,
}
use mqss_integration_deploym.Qoffload.Threads.Workers.{
  result_received, result_step, taken, taken_kind,
}
use mqss_integration_deploym.Qoffload.Threads.Turns.{
  Turn, task_turn, control_turn, result_turn, stop_turn, turn, play,
}
use mqss_integration_deploym.Base.{All, ◌∙◌}
use mqss_integration_deploym.Qoffload.Threads.Invariant.{Inv}
use mqss_integration_deploym.Qoffload.Threads.Once.{turn-Inv}
use mqss_integration_deploym.Qoffload.Threads.Own.{task_step-moves, control_step-moves}
use mqss_integration_deploym.Qoffload.Threads.Pending.{IsTaking, IsForeign, IsOther, turn-stays}

-- A turn of another worker leaves the result worker where it is.
pub other-result :
    (t : Turn) (s : Threads) → IsOther t → (turn t s).1.result_worker ≡ s.result_worker
unfolding turn
other-result (task_turn received st) s h = (task_step-moves s.task_worker received st s).1
other-result (control_turn received a b) s h =
    (control_step-moves s.control_worker received a b s).1
other-result (result_turn received st) s h = elim h [ ]
other-result (stop_turn worker) s h = refl

-- A turn that brings no result under the id leaves the result worker with nothing to take under it.
kind-free :
    (id : ℕ) (k : PendingTaskKind) (p : PendingTask) (result : QuantumResult)
    → ¬ (IsTaking id (taken_kind k p result))
kind-free id direct_task p result t = t
kind-free id control_task p result t = t

taken-free :
    (id : ℕ) (result : QuantumResult) (t : Option PendingTask × TaskStore) (s : Threads)
    → ¬ (IsTaking id (taken result t s).result_worker)
taken-free id result (none, tasks) s t = t
taken-free id result (some p, tasks) s t = kind-free id p.kind p result t

result_step-free :
    (id : ℕ) (w : ResultWorker) (received : Result QuantumResult) (st : Status) (s : Threads)
    → IsForeign id (result_turn received st)
    → ¬ (IsTaking id s.result_worker)
    → ¬ (IsTaking id (result_step w received st s).1.result_worker)
unfolding result_step
result_step-free id awaiting_result received st s h free =
    if-both (λ (o : List Effect × Threads). ¬ (IsTaking id o.1.result_worker)) s.stop_tokens.result
      (λ t. t) (heard received h)
  where
    heard :
        (r : Result QuantumResult)
        → IsForeign id (result_turn r st)
        → ¬ (IsTaking id (result_received r s).1.result_worker)
    heard (unexpected error) h = free
    heard (value result) h = h
result_step-free id (taking result) received st s h free =
    taken-free id result (take_pending (int32_to_uint64 result.task_id) s.tasks) s
result_step-free id (storing completed) received st s h free = λ t. t
result_step-free id (returning result destination) received st s h free = λ t. t
result_step-free id result_stopped received st s h free = free

pub turn-free :
    (id : ℕ) (t : Turn) (s : Threads)
    → IsForeign id t
    → ¬ (IsTaking id s.result_worker)
    → ¬ (IsTaking id (turn t s).1.result_worker)
turn-free id (task_turn received st) s h free = rw (other-result (task_turn received st) s tt) free
turn-free id (control_turn received a b) s h free =
    rw (other-result (control_turn received a b) s tt) free
turn-free id (result_turn received st) s h free =
    unfold turn in result_step-free id s.result_worker received st s h free
turn-free id (stop_turn worker) s h free = rw (other-result (stop_turn worker) s tt) free

module _ (id : ℕ) (p : PendingTask) where
  pub foreign-stays :
      {n : ℕ} (ts : List Turn) (s : Threads)
      → Inv n s
      → n + length ts < 2 ^ 33
      → All (IsForeign id) ts
      → find id s.tasks.pending ≡ some p
      → ¬ (IsTaking id s.result_worker)
      → find id (play ts s).1.tasks.pending ≡ some p
  unfolding play
  foreign-stays [] s inv b h there free = there
  foreign-stays (t ∷ ts) s inv b (h, hs) there free =
      foreign-stays ts (turn t s).1 (turn-Inv s inv (omega arith) t) (omega arith) hs
        (turn-stays s inv id p there t (inr free)) (turn-free id t s h free)

  pub others-stay :
      {n : ℕ} (ts : List Turn) (s : Threads)
      → Inv n s
      → n + length ts < 2 ^ 33
      → All IsOther ts
      → find id s.tasks.pending ≡ some p
      → find id (play ts s).1.tasks.pending ≡ some p
  unfolding play
  others-stay [] s inv b h there = there
  others-stay (t ∷ ts) s inv b (h, hs) there =
      others-stay ts (turn t s).1 (turn-Inv s inv (omega arith) t) (omega arith) hs
        (turn-stays s inv id p there t (inl h))

pub foreign-free :
    (id : ℕ) (ts : List Turn) (s : Threads)
    → All (IsForeign id) ts
    → ¬ (IsTaking id s.result_worker)
    → ¬ (IsTaking id (play ts s).1.result_worker)
unfolding play
foreign-free id [] s h free = free
foreign-free id (t ∷ ts) s (h, hs) free =
    foreign-free id ts (turn t s).1 hs (turn-free id t s h free)

pub others-result :
    (ts : List Turn) (s : Threads) → All IsOther ts → (play ts s).1.result_worker ≡ s.result_worker
unfolding play
others-result [] s h = refl
others-result (t ∷ ts) s (h, hs) = others-result ts (turn t s).1 hs ∙ other-result t s h
