-- ===== src/Qoffload/Service/Routing.antt =====
-- A direct task whose result comes back after other rounds of the workers.
use mqss_integration_deploym.Base.{
  ℕ, suc, ◌+◌, ◌^◌, ◌<◌, ◌≡◌, ◌≢◌, refl, ap, ◌∙◌, subst, List, [], ◌∷◌, some, arith, nat_eq, inl,
  inr, length, All, ◌⊎◌,
}
use mqss_integration_deploym.Dict.{find}
use mqss_integration_deploym.Words.{to_int32, int32_to_uint64}
use mqss_integration_deploym.Mqss.Status.{Status, value}
use mqss_integration_deploym.Qoffload.Proto.{QuantumTask, QuantumResult}
use mqss_integration_deploym.Qoffload.Forward.{Forward, next_task_id, forward_direct_task, resolve}
use mqss_integration_deploym.Qoffload.Forward.Ids.{plain_id}
use mqss_integration_deploym.Qoffload.Forward.Correlation.{
  registered, find-forwarded, process_found, wire_same, int32_back, forwarded_task,
}
use mqss_integration_deploym.Qoffload.Service.{
  Service, Round, task_received, result_received, round, run, result_round, send_result, sent,
}
use mqss_integration_deploym.Qoffload.Service.Steps.{IsForeign, round-Steps}

-- The ids that are given out later differ from an earlier one.
later_id :
    (f : Forward) (uid index : ℕ)
    → f.instance_uid ≡ uid
    → uid < 2 ^ 31
    → index < f.next_task_index
    → f.next_task_index < 2 ^ 33
    → (next_task_id f).0 ≢ plain_id uid index
unfolding next_task_id
later_id f uid index same small before bound e = ground arith

index_step :
    (f : Forward)
    → f.next_task_index < 2 ^ 33
    → ((next_task_id f).1.next_task_index ≡ f.next_task_index + 1)
      × ((next_task_id f).1.instance_uid ≡ f.instance_uid)
unfolding next_task_id
index_step f bound = (ground arith, refl)

module _ (uid index : ℕ) (small : uid < 2 ^ 31) where
  -- The forwarder has given the id out, and has indices left for so many rounds.
  abbrev Past : ℕ → Forward → Type 0
  Past left f =
      (f.instance_uid ≡ uid) × (index < f.next_task_index) × (f.next_task_index + left < 2 ^ 33)

  step-Past :
      (left : ℕ) (f f' : Forward)
      → Past (suc left) f
      → (f' ≡ f) ⊎ (f' ≡ (next_task_id f).1)
      → Past left f'
  step-Past left f f' (u, i, b) (inl same) = rw same (u, i, omega arith)
  step-Past left f f' (u, i, b) (inr next) =
      let (j, v) = index_step f (omega arith) in
      rw next (v ∙ u, rw j (omega arith), rw j (omega arith))

  run-pending :
      (rs : List Round) (s : Service)
      → Past (length rs) s.forwarder
      → All (IsForeign (plain_id uid index)) rs
      → find (plain_id uid index) (run rs s).1.tasks.pending
        ≡ find (plain_id uid index) s.tasks.pending
  unfolding run
  run-pending [] s past h = refl
  run-pending (r ∷ rs) s (u, i, b) (foreign, h) =
      let (kept, moved) =
        round-Steps r s (plain_id uid index)
          (later_id s.forwarder uid index u small i (omega arith)) foreign in
      run-pending rs (round r s).1
        (step-Past (length rs) s.forwarder (round r s).1.forwarder (u, i, b) moved) h
      ∙ kept

plain :
    (f : Forward)
    → plain_id f.instance_uid f.next_task_index < 2 ^ 31
    → (next_task_id f).0 ≡ plain_id f.instance_uid f.next_task_index
unfolding next_task_id
plain f fits = ground arith

task_round-state :
    (request : QuantumTask) (status : Status) (s : Service)
    → ((round (task_received (value request) status) s).1.tasks
        ≡ (forward_direct_task request s.tasks s.config s.forwarder).1)
      × ((round (task_received (value request) status) s).1.forwarder
          ≡ (next_task_id s.forwarder).1)
unfolding round forward_direct_task
task_round-state request status s = (refl, refl)

first-pending :
    (request : QuantumTask) (status : Status) (s : Service) (id : ℕ)
    → (next_task_id s.forwarder).0 ≡ id
    → find id (round (task_received (value request) status) s).1.tasks.pending
      ≡ some (registered request id)
first-pending request status s id given = rw ((task_round-state request status s).0) (
    subst
      (λ k.
        find k (forward_direct_task request s.tasks s.config s.forwarder).1.pending
        ≡ some (registered request k))
      given (find-forwarded request s.tasks s.config s.forwarder))

first-index :
    (request : QuantumTask) (status : Status) (s : Service)
    → s.forwarder.next_task_index < 2 ^ 33
    → let f = (round (task_received (value request) status) s).1.forwarder in
      (f.instance_uid ≡ s.forwarder.instance_uid)
      × (f.next_task_index ≡ s.forwarder.next_task_index + 1)
first-index request status s bound =
    let (index, uid) = index_step s.forwarder bound in
    rw ((task_round-state request status s).1) (uid, index)

-- What the result worker sends for the result of a task that is pending as a direct one.
answer :
    (request : QuantumTask) (id : ℕ) (result : QuantumResult) (status : Status) (s : Service)
    → request.task_id < 2 ^ 32
    → int32_to_uint64 result.task_id ≡ id
    → find id s.tasks.pending ≡ some (registered request id)
    → (result_round (value result) status s).0
      ≡ sent
          (send_result request.result_destination
            (record result { task_id = request.task_id; destination = request.result_destination }))
          "Failed to send mapped QuantumResult: {}"
          status
unfolding result_round resolve
answer request id result status s small wire there =
    rw
      (
        process_found result s.tasks (registered request id) id wire there,
        int32_back request.task_id small,
      )
      refl

-- The client that submits a task gets its result, whatever the workers do in between: for a forwarded
-- id below 2 ^ 31 and fewer than 2 ^ 32 rounds of any workers, none of which brings a result under
-- that id, the round that brings it sends the result to the destination that the request named, with
-- the task id of the request, and logs an error just when that send fails.
pub interleaved_round_trip :
    (request : QuantumTask) (s : Service) (rs : List Round) (result : QuantumResult)
    (task_status status : Status)
    → request.task_id < 2 ^ 32
    → plain_id s.forwarder.instance_uid s.forwarder.next_task_index < 2 ^ 31
    → length rs < 2 ^ 32
    → result.task_id ≡ (forward_direct_task request s.tasks s.config s.forwarder).0.task_id
    → All (IsForeign (plain_id s.forwarder.instance_uid s.forwarder.next_task_index)) rs
    → (round
        (result_received (value result) status)
        (run (task_received (value request) task_status ∷ rs) s).1).0
      ≡ sent
          (send_result request.result_destination
            (record result { task_id = request.task_id; destination = request.result_destination }))
          "Failed to send mapped QuantumResult: {}"
          status
unfolding run round
interleaved_round_trip request s rs result task_status status small fits short same foreign =
    let f = s.forwarder in
    let id = plain_id f.instance_uid f.next_task_index in
    let first = (round (task_received (value request) task_status) s).1 in
    let given : (next_task_id f).0 ≡ id = plain f fits in
    let (uid, index) = first-index request task_status s (omega arith) in
    let kept =
      run-pending f.instance_uid f.next_task_index (omega arith) rs first
        (uid, omega (arith, index), omega (arith, index)) foreign in
    let wire : int32_to_uint64 result.task_id ≡ id =
      wire_same result.task_id id fits
        (same ∙ (forwarded_task request s.tasks s.config f).0 ∙ ap to_int32 given) in
    answer request id result status (run rs first).1 small wire
      (kept ∙ first-pending request task_status s id given)
