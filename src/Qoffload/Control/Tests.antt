-- ===== src/Qoffload/Control/Tests.antt =====
-- The control interface and its configuration at concrete inputs.
use mqss_integration_deploym.Base.{String, true, ◌≡◌, refl, [], ◌∷◌, arith, nat_eq, string_eq}
use mqss_integration_deploym.Dict.{erase}
use mqss_integration_deploym.Words.{to_int32}
use mqss_integration_deploym.Qoffload.Proto.{TypedRequest, end}
use mqss_integration_deploym.Qoffload.TaskStore.{
  CompletedControlTask, waiting, completed, not_found, new_store,
}
use mqss_integration_deploym.Qoffload.Forward.{new_forward, process_result}
use mqss_integration_deploym.Qoffload.Forward.CountTables.{HaveCounts}
use mqss_integration_deploym.Qoffload.Protocol.{
  create_quantum_task, get_task_status, get_task_result, get_cancel_reason, task_created,
  task_status_result, task_result_result, cancel_reason_result, control_error,
}
use mqss_integration_deploym.Qoffload.Control.{execute}
use mqss_integration_deploym.Qoffload.Control.Life.{
  created_task_life, fetched_once, new_id, after_create,
}
use mqss_integration_deploym.Qoffload.Control.Agreement.{
  asks_result, rest_path, typed, query_agrees,
}
use mqss_integration_deploym.Qoffload.Path.{chars, split_path}
use mqss_integration_deploym.Qoffload.Path.Laws.{joined, split_path-joined}
use mqss_integration_deploym.Qoffload.Rest
use mqss_integration_deploym.Qoffload.Typed
use mqss_integration_deploym.Qoffload.Service.{
  Round, task_received, request_received, result_received, new_service,
}
use mqss_integration_deploym.Qoffload.Service
use mqss_integration_deploym.Qoffload.Service.Invariant.{cancel_reasons_empty}
use mqss_integration_deploym.Qoffload.Fixtures.{
  config, create, result, one_finished, control_rounds, first_id, finished_status,
}

created_task_life_example :
    let created = execute (create_quantum_task create) new_store config (new_forward 7) in
    let id = new_id create new_store config (new_forward 7) in
    let after = after_create create new_store config (new_forward 7) in
    let returned = (process_result result after).1 in
    (created.result ≡ task_created id)
    × ((execute (get_task_status id) after config (new_forward 7)).result
        ≡ task_status_result waiting)
    × ((execute (get_task_result id) after config (new_forward 7)).result
        ≡ control_error "JOB IS WAITING")
    × ((execute (get_cancel_reason id) after config (new_forward 7)).result
        ≡ control_error "JOB IS WAITING")
    × ((execute (get_task_status id) returned config (new_forward 7)).result
        ≡ task_status_result completed)
    × ((t : CompletedControlTask) × ((execute
            (get_task_result id)
            returned
            config
            (new_forward 7)).result
          ≡ task_result_result t)
        × (t.task_id ≡ id)
        × (t.execution_status ≡ true)
        × HaveCounts t.result_counts result.results)
created_task_life_example =
    created_task_life create new_store config (new_forward 7) result (ground (arith, first_id))
      (ground (arith, first_id))

fetched_once_example :
    let after = (execute (get_cancel_reason 7) one_finished config (new_forward 7)).tasks in
    ((execute (get_task_status 7) after config (new_forward 7)).result
      ≡ task_status_result not_found)
    × ((execute (get_task_result 7) after config (new_forward 7)).result
        ≡ control_error "JOB NOT FOUND")
    × ((execute (get_cancel_reason 7) after config (new_forward 7)).result
        ≡ control_error "JOB NOT FOUND")
fetched_once_example =
    fetched_once 7 true one_finished config (new_forward 7) (λ h. ground (arith, finished_status))

query_agrees_example :
    Rest.decode (record {
      authorization = "";
      method = "GET";
      request = rest_path asks_result 20007;
      body = end;
      response_queue = "client";
      typed_request = TypedRequest.typed_request_not_set;
    })
    ≡ Typed.decode (record {
      authorization = "";
      method = "";
      request = "";
      body = end;
      response_queue = "client";
      typed_request = typed asks_result (to_int32 20007);
    })
query_agrees_example = query_agrees asks_result 20007 "" "client" end (omega arith)

reason_told :
    (execute
      (get_cancel_reason 7)
      (Service.run control_rounds (new_service config)).1.tasks
      config
      (Service.run control_rounds (new_service config)).1.forwarder).result
    ≡ cancel_reason_result ""
unfolding execute Service.run Service.round erase
reason_told = refl

cancel_reasons_empty_example : ◌≡◌ {A = String} "" ""
cancel_reasons_empty_example = cancel_reasons_empty control_rounds config 7 "" reason_told

-- `//job/7/status/` is split as `/job/7/status`.
split_slashes : split_path (chars "//job/7/status/") ≡ chars "job" ∷ chars "7" ∷ chars "status" ∷ []
unfolding split_path
split_slashes = refl

split_path-joined_example :
    split_path (joined "/" (chars "job" ∷ chars "status" ∷ [])) ≡ chars "job" ∷ chars "status" ∷ []
split_path-joined_example =
    split_path-joined "/" refl (chars "job") (chars "status" ∷ []) (ground arith) (ground arith)
