-- ===== src/Qoffload/Tests.antt =====
-- The task store, forwarding and the service at concrete inputs.
use mqss_integration_deploym.Base.{
  true, ◌≡◌, ◌≢◌, refl, [], ◌∷◌, some, none, arith, nat_eq, string_eq,
}
use mqss_integration_deploym.Dict.{find}
use mqss_integration_deploym.Words.{to_int32}
use mqss_integration_deploym.Mqss.Status
use mqss_integration_deploym.Mqss.Status.{value, unexpected}
use mqss_integration_deploym.Qoffload.Proto.{blank_task}
use mqss_integration_deploym.Qoffload.TaskStore.{
  CompletedControlTask, waiting, completed, new_store, status, take_completed_control_task,
}
use mqss_integration_deploym.Qoffload.Forward.{
  new_forward, create_control_task, control_result_stored, next_task_id, forward_direct_task,
  process_result, unknown_task, next_task_id,
}
use mqss_integration_deploym.Qoffload.Forward.Ids.{after_calls, calls_distinct}
use mqss_integration_deploym.Qoffload.Forward.CountTables.{HaveCounts}
use mqss_integration_deploym.Qoffload.Forward.Correlation
use mqss_integration_deploym.Qoffload.Forward.Correlation.{control_round_trip, forwarded_task}
use mqss_integration_deploym.Qoffload.Forward.Lost.{second_result_dropped, outgrown_id_loses_result}
use mqss_integration_deploym.Qoffload.Service.Routing.{interleaved_round_trip}
use mqss_integration_deploym.Qoffload.Service.{
  Round, task_received, request_received, result_received, new_service,
}
use mqss_integration_deploym.Qoffload.Service
use mqss_integration_deploym.Qoffload.Fixtures.{
  config, request, result, old_forward, old_result, one_finished, other_request, first_id,
}

control_round_trip_example :
    let id = (next_task_id (new_forward 7)).0 in
    let (outcome, after) =
      process_result result (create_control_task blank_task new_store config (new_forward 7)).1 in
    (outcome ≡ record { kind = control_result_stored; result = none; result_destination = "" })
    × (status id after ≡ completed)
    × ((t : CompletedControlTask) × ((take_completed_control_task id after).0 ≡ some t)
        × (t.task_id ≡ id)
        × (t.execution_status ≡ true)
        × HaveCounts t.result_counts result.results)
control_round_trip_example =
    control_round_trip blank_task new_store config (new_forward 7) result (ground (arith, first_id))
      (ground
        (arith, first_id, Correlation.created_wire blank_task new_store config (new_forward 7)))

old_id : (next_task_id old_forward).0 ≡ 3000000007
unfolding next_task_id
old_id = refl

outgrown_id_loses_result_example :
    ((process_result old_result (forward_direct_task request new_store config old_forward).1).0.kind
      ≡ unknown_task)
    × (status
          (next_task_id old_forward).0
          (process_result old_result (forward_direct_task request new_store config old_forward).1).1
        ≡ waiting)
unfolding find
outgrown_id_loses_result_example =
    outgrown_id_loses_result request new_store config old_forward old_result
      (ground (arith, old_id)) (ground (arith, old_id))
      (ground (arith, old_id, forwarded_task request new_store config old_forward)) refl

forwarded_task_example :
    let sent = (forward_direct_task request new_store config (new_forward 7)).0 in
    (sent.task_id ≡ to_int32 (next_task_id (new_forward 7)).0)
    × (sent.result_destination ≡ "result_queue")
    × (sent.priority ≡ 1)
    × (sent.circuit_files ≡ "ghz" ∷ [])
    × (sent.n_shots ≡ 0)
    × (sent.preferred_qpu ≡ "")
forwarded_task_example = forwarded_task request new_store config (new_forward 7)

second_result_dropped_example :
    (process_result result (process_result result one_finished).1).0.kind ≡ unknown_task
second_result_dropped_example = second_result_dropped result result one_finished refl

interleaved_round_trip_example :
    (Service.round
      (result_received (value result) Status.success)
      (Service.run
        (task_received (value request) Status.success
          ∷ task_received (value other_request) Status.success
          ∷ result_received (value (record result { task_id = 10007 })) Status.success
          ∷ [])
        (new_service config)).1).0
    ≡ Service.send_result "client" (record result { task_id = 41; destination = "client" }) ∷ []
interleaved_round_trip_example =
    interleaved_round_trip request (new_service config)
      (task_received (value other_request) Status.success
        ∷ result_received (value (record result { task_id = 10007 })) Status.success
        ∷ [])
      result Status.success Status.success (omega arith) (omega arith) (omega arith)
      (ground (arith, first_id, forwarded_task request new_store config (new_forward 7)))
      (tt, (ground arith, tt))

calls_distinct_example :
    (next_task_id (after_calls 2 (new_forward 7))).0
    ≢ (next_task_id (after_calls 5 (new_forward 7))).0
calls_distinct_example =
    calls_distinct (new_forward 7) 2 5 (omega arith) (omega arith) (omega arith) (omega arith)
