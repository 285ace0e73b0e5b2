-- ===== src/Qoffload/Threads/Phases.antt =====
-- examples/qoffload_service: the life of a task id as a machine of its own, and where QOffload.cpp's
-- workers have it.
use mqss_integration_deploym.Base.{
  ℕ, ◌+◌, ◌≤◌, ◌≡◌, refl, arith, ltb, if◌then◌else◌, is_some, nat_eq,
}
use mqss_integration_deploym.Dict.{find}
use mqss_integration_deploym.Qoffload.Threads.State.{Threads}
use mqss_integration_deploym.Qoffload.Threads.Places.{
  in_task_worker, in_control_worker, in_result_worker, one_if, given,
}

-- Not given out, drawn by a worker, pending, taken with a result that is to be stored, stored, and taken
-- with a result that is to be sent back, or fetched.
pub data Phase : Type 0 where
  fresh drawn waits storing stored gone : Phase

-- The steps that there are. There is no way back.
pub data Advance : Phase → Phase → Type 0 where
  rest : {p : Phase} → Advance p p
  draw : Advance fresh drawn
  register : Advance drawn waits
  take : Advance waits storing
  answer : Advance waits gone
  store : Advance storing stored
  fetch : Advance stored gone

-- How often an id is in each place.
pub record Counts : Type 0 where
  pub with_worker : ℕ
  pub pending : ℕ
  pub to_store : ℕ
  pub completed : ℕ
  pub given_out : ℕ

abbrev pub counts : ℕ → Threads → Counts
counts id s = record {
  with_worker = in_task_worker id s.task_worker + in_control_worker id s.control_worker;
  pending = one_if (is_some (find id s.tasks.pending));
  to_store = in_result_worker id s.result_worker;
  completed = one_if (is_some (find id s.tasks.completed_control_tasks));
  given_out = given s.forwarder id;
}

unfoldable pub phase_of : Counts → Phase
phase_of c =
    if ltb 0 c.with_worker
    then drawn
    else if ltb 0 c.pending
    then waits
    else if ltb 0 c.to_store
    then storing
    else if ltb 0 c.completed
    then stored
    else if ltb 0 c.given_out
    then gone
    else fresh

abbrev pub phase : ℕ → Threads → Phase
phase id s = phase_of (counts id s)

abbrev pub IsOnce : Counts → Type 0
IsOnce c = (c.with_worker + c.pending + c.to_store + c.completed ≤ c.given_out) × (c.given_out ≤ 1)

-- What a turn can do to the counts of an id.
pub data CountStep (c d : Counts) : Type 0 where
  kept :
      d.with_worker ≡ c.with_worker
      → d.pending ≡ c.pending
      → d.to_store ≡ c.to_store
      → d.completed ≡ c.completed
      → d.given_out ≡ c.given_out
      → CountStep c d
  drew : d.with_worker ≡ c.with_worker + 1 → d.given_out ≡ c.given_out + 1 → CountStep c d
  registered : c.with_worker ≡ d.with_worker + 1 → d.pending ≡ 1 → CountStep c d
  took :
      c.pending ≡ 1
      → d.with_worker ≡ c.with_worker
      → d.pending ≡ 0
      → d.to_store ≡ c.to_store + 1
      → CountStep c d
  answered :
      c.pending ≡ 1
      → d.with_worker ≡ c.with_worker
      → d.pending ≡ 0
      → d.to_store ≡ c.to_store
      → d.completed ≡ c.completed
      → d.given_out ≡ c.given_out
      → CountStep c d
  stores :
      c.to_store ≡ d.to_store + 1
      → d.with_worker ≡ c.with_worker
      → d.pending ≡ c.pending
      → d.completed ≡ 1
      → CountStep c d
  fetched :
      c.completed ≡ 1
      → d.with_worker ≡ c.with_worker
      → d.pending ≡ c.pending
      → d.to_store ≡ c.to_store
      → d.completed ≡ 0
      → d.given_out ≡ c.given_out
      → CountStep c d

module _ (c d : Counts) (once : IsOnce c) (after : IsOnce d) where
  pub CountStep-Advance : CountStep c d → Advance (phase_of c) (phase_of d)
  CountStep-Advance (kept a p w m g) =
      let e : phase_of d ≡ phase_of c = unfold phase_of in rw (a, p, w, m, g) refl in rw e rest
  CountStep-Advance (drew a g) =
      let x : phase_of c ≡ fresh = unfold phase_of in ground arith in
      let y : phase_of d ≡ drawn = unfold phase_of in ground arith in rw (x, y) draw
  CountStep-Advance (registered a p) =
      let x : phase_of c ≡ drawn = unfold phase_of in ground arith in
      let y : phase_of d ≡ waits = unfold phase_of in ground arith in rw (x, y) register
  CountStep-Advance (took p a p' w) =
      let x : phase_of c ≡ waits = unfold phase_of in ground arith in
      let y : phase_of d ≡ storing = unfold phase_of in ground arith in rw (x, y) take
  CountStep-Advance (answered p a p' w m g) =
      let x : phase_of c ≡ waits = unfold phase_of in ground arith in
      let y : phase_of d ≡ gone = unfold phase_of in ground arith in rw (x, y) answer
  CountStep-Advance (stores w a p m) =
      let x : phase_of c ≡ storing = unfold phase_of in ground arith in
      let y : phase_of d ≡ stored = unfold phase_of in ground arith in rw (x, y) store
  CountStep-Advance (fetched m a p w m' g) =
      let x : phase_of c ≡ stored = unfold phase_of in ground arith in
      let y : phase_of d ≡ gone = unfold phase_of in ground arith in rw (x, y) fetch
