-- ===== src/Qoffload/Fixtures.antt =====
-- Inputs of the offload service for its tests.
use mqss_integration_deploym.Base.{true, false, ◌≡◌, refl, List, [], ◌∷◌, nat_eq, string_eq}
use mqss_integration_deploym.Dict.{find}
use mqss_integration_deploym.Mqss.Status
use mqss_integration_deploym.Mqss.Status.{value, unexpected}
use mqss_integration_deploym.Qoffload.Proto.{
  QuantumTask, QuantumResult, blank_task, blank_result, ApiRequest, TypedRequest, end,
}
use mqss_integration_deploym.Qoffload.Config.{Config, info, append}
use mqss_integration_deploym.Qoffload.TaskStore.{
  TaskStore, PendingTask, CompletedControlTask, direct_task, completed, status,
}
use mqss_integration_deploym.Qoffload.Forward.{Forward, new_forward, next_task_id, next_task_id}
use mqss_integration_deploym.Qoffload.Protocol.{CreateQuantumTaskCommand}
use mqss_integration_deploym.Qoffload.Service.{
  Round, task_received, request_received, result_received,
}

abbrev pub config : Config
config = record {
  rabbitmq = record {
    host = "localhost";
    port = 5672;
    user = "guest";
    password = "guest";
    vhost = "/";
  };
  qrm_rabbitmq = record {
    host = "qrm";
    port = 5672;
    user = "guest";
    password = "guest";
    vhost = "/";
  };
  queues = record {
    request = "request_queue";
    control_request = "api";
    result = "result_queue";
    qrm_task = "qrm_queue";
  };
  identity = record { instance_uid = 7; user_identity = "" };
  logging = record {
    enabled = true;
    console_enabled = true;
    file_enabled = false;
    level = info;
    file_mode = append;
    rotation_size = 1048576;
    rotation_files = 3;
  };
  paths = record { runtime_dir = "run"; log_dir = "log"; state_file = "state" };
  policy = record { hpc_node = true; resume_state = false };
}

abbrev pub create : CreateQuantumTaskCommand
create = record {
  shots = 100;
  circuit_files = "ghz" ∷ [];
  circuit_format = "qasm";
  resource_name = "Q20";
  no_modify = false;
}

abbrev pub request : QuantumTask
request = record blank_task {
  task_id = 41;
  result_destination = "client";
  circuit_files = "ghz" ∷ [];
}

abbrev pub result : QuantumResult
result = record blank_result {
  task_id = 7;
  results = (("00", 48) ∷ ("11", 52) ∷ []) ∷ [];
  execution_status = true;
}

-- After 300000 ids the next one is past 2 ^ 31.
abbrev pub old_forward : Forward
old_forward = record { instance_uid = 7; next_task_index = 300000 }

abbrev pub old_result : QuantumResult
old_result = record blank_result { task_id = 3000000007 }

abbrev pub finished : CompletedControlTask
finished = record {
  task_id = 7;
  execution_status = true;
  result_counts = [];
  cancel_reason = "";
  timestamp_scheduled = "";
  timestamp_submitted = "";
  timestamp_completed = "";
}

abbrev pub one_finished : TaskStore
one_finished = record { pending = []; completed_control_tasks = (7, finished) ∷ [] }

abbrev pub rounds : List Round
rounds =
    task_received (value request) Status.success
    ∷ result_received (value result) Status.success
    ∷ result_received (unexpected (Status.timeout "no message received")) Status.success
    ∷ []

abbrev pub typed_request_for : TypedRequest → ApiRequest
typed_request_for r = record {
  authorization = "";
  method = "";
  request = "";
  body = end;
  response_queue = "client";
  typed_request = r;
}

-- A task is created and its result comes back.
abbrev pub control_rounds : List Round
control_rounds =
    request_received
      (value (
        typed_request_for (
          TypedRequest.create_task (record {
            shots = 100;
            circuit = "ghz" ∷ [];
            circuit_format = "qasm";
            resource_name = "Q20";
            no_modify = false;
          }))))
      Status.success Status.success
    ∷ result_received (value (record result { execution_status = false })) Status.success
    ∷ []

abbrev pub waits : PendingTask
waits = record {
  kind = direct_task;
  forwarded_task_id = 10007;
  original_task_id = 41;
  original_result_destination = "client";
}

abbrev pub other_request : QuantumTask
other_request = record blank_task { task_id = 1; result_destination = "other" }

pub first_id : (next_task_id (new_forward 7)).0 ≡ 7
unfolding next_task_id
first_id = refl

pub finished_status : status 7 one_finished ≡ completed
unfolding status find
finished_status = refl
