-- ===== src/Qoffload/Threads/Delivery.antt =====
-- examples/qoffload_service: a direct task whose result comes back while the workers of QOffload.cpp
-- interleave.
use mqss_integration_deploym.Base.{
  ℕ, suc, ◌+◌, ◌^◌, ◌<◌, ◌≡◌, refl, List, ◌∷◌, some, arith, nat_eq, false, length, if-both,
}
use mqss_integration_deploym.Dict.{find}
use mqss_integration_deploym.Words.{int32_to_uint64}
use mqss_integration_deploym.Mqss.Status.{Status, Result, value}
use mqss_integration_deploym.Qoffload.Proto.{QuantumTask, QuantumResult}
use mqss_integration_deploym.Qoffload.Config.{Config}
use mqss_integration_deploym.Qoffload.TaskStore.{add_direct_task}
use mqss_integration_deploym.Qoffload.Service.{new_service}
use mqss_integration_deploym.Qoffload.Threads.State.{
  Threads, at_rest, registering, sending, awaiting_result, taking, returning,
}
use mqss_integration_deploym.Qoffload.Threads.Workers.{task_step, result_step}
use mqss_integration_deploym.Qoffload.Threads.Turns.{
  started, Turn, task_turn, result_turn, turn, play,
}
use mqss_integration_deploym.Qoffload.Threads.Places.{take_some, take_some}
use mqss_integration_deploym.Base.{String, All, ◌∙◌}
use mqss_integration_deploym.Words.{to_int32}
use mqss_integration_deploym.Qoffload.Forward.{addressed}
use mqss_integration_deploym.Qoffload.Forward.Correlation.{registered, wire_same, int32_back}
use mqss_integration_deploym.Qoffload.Service.{sent, send_result}
use mqss_integration_deploym.Qoffload.Threads.Invariant.{Inv}
use mqss_integration_deploym.Qoffload.Threads.Once.{turn-Inv, play-Inv, start-Inv}
use mqss_integration_deploym.Qoffload.Threads.Pending.{IsTaking, IsForeign, IsOther}
use mqss_integration_deploym.Dict.{find-insert_self}
use mqss_integration_deploym.Qoffload.Threads.Others.{
  turn-free, foreign-free, others-result, foreign-stays, others-stay,
}

addressed-id :
    (id : ℕ) (config : Config) (request : QuantumTask)
    → (addressed id config request).task_id ≡ to_int32 id
addressed-id id config request =
    if-both (λ (t : QuantumTask). t.task_id ≡ to_int32 id) config.policy.hpc_node refl refl

-- The turn in which the task worker registers a request.
register :
    (s : Threads) (received : Result QuantumTask) (st : Status) (request : QuantumTask) (id : ℕ)
    → s.task_worker ≡ registering request id
    → (find id (turn (task_turn received st) s).1.tasks.pending ≡ some (registered request id))
      × ((turn (task_turn received st) s).1.task_worker ≡ sending (addressed id s.config request))
unfolding turn task_step add_direct_task
register s received st request id e =
    rw e (find-insert_self id (registered request id) s.tasks.pending, refl)

-- The turns of the result worker for the result of a direct task that is pending.
receive_turn :
    (s : Threads) (result : QuantumResult) (st : Status)
    → s.result_worker ≡ awaiting_result
    → s.stop_tokens.result ≡ false
    → (turn (result_turn (value result) st) s).1 ≡ record s { result_worker = taking result }
unfolding turn result_step
receive_turn s result st e b = simp (e, b) refl

take_turn :
    (s : Threads) (received : Result QuantumResult) (st : Status) (result : QuantumResult)
    (request : QuantumTask) (id : ℕ)
    → request.task_id < 2 ^ 32
    → int32_to_uint64 result.task_id ≡ id
    → find id s.tasks.pending ≡ some (registered request id)
    → s.result_worker ≡ taking result
    → (turn (result_turn received st) s).1.result_worker
      ≡ returning
          (record result { task_id = request.task_id; destination = request.result_destination })
          request.result_destination
unfolding turn result_step
take_turn s received st result request id small wire there e = rw e (
    rw wire (
      rw (take_some id s.tasks (registered request id) there, int32_back request.task_id small)
        refl))

return_turn :
    (s : Threads) (received : Result QuantumResult) (st : Status) (result : QuantumResult)
    (destination : String)
    → s.result_worker ≡ returning result destination
    → (turn (result_turn received st) s).0
      ≡ sent (send_result destination result) "Failed to send mapped QuantumResult: {}" st
unfolding turn result_step
return_turn s received st result destination e = rw e refl

-- A client that submits a task gets its result in every interleaving of the three workers that brings
-- the result worker no earlier result under the forwarded id: from a new service, any turns that bring
-- no result under an id come to a state in which the task worker has drawn that id for the request
-- (`s0`); after its next turn and any turns that bring no result under the id (`s1`) the result worker,
-- which waits and is not asked to stop, receives the result, takes the pending task after any turns of
-- the others (`s2`), and after any more of them (`s3`) sends the result at its next turn to the
-- destination that the request named, with the task id of the request. The id and the instance number
-- are below 2^31, and the turns fewer than 2^32.
pub threads-deliver :
    (config : Config) (before after between beyond : List Turn) (request : QuantumTask) (id : ℕ)
    (result : QuantumResult) (r0 : Result QuantumTask) (r2 r3 : Result QuantumResult)
    (st0 st1 st2 st3 : Status) (s0 s1 s2 s3 : Threads)
    → config.identity.instance_uid < 2 ^ 31
    → length before + length after + length between + length beyond < 2 ^ 32
    → request.task_id < 2 ^ 32
    → id < 2 ^ 31
    → s0 ≡ started config before
    → s1 ≡ (play (task_turn r0 st0 ∷ after) s0).1
    → s2 ≡ (play (result_turn (value result) st1 ∷ between) s1).1
    → s3 ≡ (play (result_turn r2 st2 ∷ beyond) s2).1
    → s0.task_worker ≡ registering request id
    → All (IsForeign id) before
    → All (IsForeign id) after
    → s1.result_worker ≡ awaiting_result
    → s1.stop_tokens.result ≡ false
    → result.task_id ≡ (addressed id s0.config request).task_id
    → All IsOther between
    → All IsOther beyond
    → (turn (result_turn r3 st3) s3).0
      ≡ sent
          (send_result request.result_destination
            (record result { task_id = request.task_id; destination = request.result_destination }))
          "Failed to send mapped QuantumResult: {}"
          st3
unfolding play
threads-deliver config before after between beyond request id result r0 r2 r3 st0 st1 st2 st3 s0 s1
      s2 s3 uid short small fits e0 e1 e2 e3 drawn fore aft idle running wire btw byd =
    let wired : int32_to_uint64 result.task_id ≡ id =
      wire_same result.task_id id fits (wire ∙ addressed-id id s0.config request) in
    let inv0 : Inv (0 + length before) s0 =
      rw e0 (play-Inv before (at_rest (new_service config)) (start-Inv config uid) (omega arith)) in
    let free0 : ¬ (IsTaking id s0.result_worker) =
      rw e0 (foreign-free id before (at_rest (new_service config)) fore (λ t. t)) in
    let p = registered request id in
    let first = task_turn r0 st0 in
    let there1 : find id s1.tasks.pending ≡ some p = rw e1 (
      foreign-stays id p after (turn first s0).1 (turn-Inv s0 inv0 (omega arith) first)
        (omega arith) aft (register s0 r0 st0 request id drawn).0
        (turn-free id first s0 tt free0)) in
    let inv1 : Inv (suc (0 + length before) + length after) s1 =
      rw e1
        (play-Inv after (turn first s0).1 (turn-Inv s0 inv0 (omega arith) first) (omega arith)) in
    let second = result_turn (value result) st1 in
    let received : (turn second s1).1 ≡ record s1 { result_worker = taking result } =
      receive_turn s1 result st1 idle running in
    let taking2 : (turn second s1).1.result_worker ≡ taking result = rw received refl in
    let pending2 : find id (turn second s1).1.tasks.pending ≡ some p = rw received there1 in
    let inv2 = turn-Inv s1 inv1 (omega arith) second in
    let there2 : find id s2.tasks.pending ≡ some p =
      rw e2 (others-stay id p between (turn second s1).1 inv2 (omega arith) btw pending2) in
    let hands2 : s2.result_worker ≡ taking result =
      rw e2 (others-result between (turn second s1).1 btw ∙ taking2) in
    let third = result_turn r2 st2 in
    let took = take_turn s2 r2 st2 result request id small wired there2 hands2 in
    let hands3 : s3.result_worker
        ≡ returning
            (record result { task_id = request.task_id; destination = request.result_destination })
            request.result_destination =
      rw e3 (others-result beyond (turn third s2).1 byd ∙ took) in
    return_turn s3 r3 st3 _ request.result_destination hands3
