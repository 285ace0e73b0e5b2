-- ===== src/Qoffload/Proto.antt =====
-- protocol/proto/v1/messages.proto, as far as the service uses it, and the JSON values of
-- google/protobuf/struct.proto. A protobuf map is an association list; an `int32` is its bit pattern.
use mqss_integration_deploym.Base.{ℕ, String, Bool, false, List, [], ◌∷◌}
use mqss_integration_deploym.Qoffload.Double.{Double, finite}

-- google.protobuf.Value with its kinds.
mutual
  pub data Value : Type 0 where
    kind_not_set null_value : Value
    number_value : Double → Value
    string_value : String → Value
    bool_value : Bool → Value
    struct_value : Fields → Value
    list_value : Values → Value

  pub data Values : Type 0 where
    nil : Values
    cons : Value → Values → Values

  pub data Fields : Type 0 where
    end : Fields
    field : String → Value → Fields → Fields

abbrev pub values : Values → List Value
values nil = []
values (cons v vs) = v ∷ values vs

-- google.protobuf.Struct.
abbrev pub fields : Fields → List (String × Value)
fields end = []
fields (field k v fs) = (k, v) ∷ fields fs

pub record QuantumTask : Type 0 where
  pub task_id : ℕ
  pub n_qbits : ℕ
  pub n_shots : ℕ
  pub circuit_files : List String
  pub circuit_file_type : String
  pub result_destination : String
  pub preferred_qpu : String
  pub scheduled_qpu : String
  pub priority : ℕ
  pub optimisation_level : ℕ
  pub no_modify : Bool
  pub transpiler_flag : Bool
  pub result_type : ℕ
  pub submit_time : String
  pub circuits_qiskit : List Value
  pub additional_information : String
  pub restricted_resource_names : List String
  pub user_identity : String
  pub token : String
  pub via_hpc : Bool

-- `mqss::QuantumTask task;`
abbrev pub blank_task : QuantumTask
blank_task = record {
  task_id = 0;
  n_qbits = 0;
  n_shots = 0;
  circuit_files = [];
  circuit_file_type = "";
  result_destination = "";
  preferred_qpu = "";
  scheduled_qpu = "";
  priority = 0;
  optimisation_level = 0;
  no_modify = false;
  transpiler_flag = false;
  result_type = 0;
  submit_time = "";
  circuits_qiskit = [];
  additional_information = "";
  restricted_resource_names = [];
  user_identity = "";
  token = "";
  via_hpc = false;
}

-- The counts of a `CircuitResult`.
abbrev pub Counts : Type 0
Counts = List (String × ℕ)

pub record QuantumResult : Type 0 where
  pub task_id : ℕ
  pub results : List Counts
  pub destination : String
  pub execution_status : Bool
  pub executed_qpu : String
  pub executed_circuits : List String
  pub additional_information : String
  pub execution_time : Double

-- `mqss::QuantumResult result;`
abbrev pub blank_result : QuantumResult
blank_result = record {
  task_id = 0;
  results = [];
  destination = "";
  execution_status = false;
  executed_qpu = "";
  executed_circuits = [];
  additional_information = "";
  execution_time = finite false 0 0;
}

pub record CreateTaskRequest : Type 0 where
  pub shots : ℕ
  pub circuit : List String
  pub circuit_format : String
  pub resource_name : String
  pub no_modify : Bool

-- The oneof `typed_request` of `APIRequest`; the arguments of the others are the only field of their
-- message.
pub data TypedRequest : Type 0 where
  create_task : CreateTaskRequest → TypedRequest
  task_status task_result cancel_reason : (uuid : ℕ) → TypedRequest
  list_resources : TypedRequest
  resource_info pending_tasks : (resource_name : String) → TypedRequest
  typed_request_not_set : TypedRequest

-- `data` is the field of that name.
pub record ApiRequest : Type 0 where
  pub authorization : String
  pub method : String
  pub request : String
  pub body : Fields
  pub response_queue : String
  pub typed_request : TypedRequest

pub data ApiTaskStatus : Type 0 where
  unspecified waiting completed cancelled : ApiTaskStatus

pub record TaskResultResponse : Type 0 where
  pub result : List Counts
  pub timestamp_submitted : String
  pub timestamp_scheduled : String
  pub timestamp_completed : String

pub record ResourceInfoResponse : Type 0 where
  pub name : String
  pub num_qubits : ℕ
  pub online : Bool

-- The oneof `typed_response` of `APIResponse`.
pub data TypedResponse : Type 0 where
  create_task : (uuid : ℕ) → TypedResponse
  task_status : ApiTaskStatus → TypedResponse
  task_result : TaskResultResponse → TypedResponse
  cancel_reason : String → TypedResponse
  resources : List String → TypedResponse
  resource_info : ResourceInfoResponse → TypedResponse
  pending_tasks : (num_pending_jobs : ℕ) → TypedResponse
  error : (message : String) → TypedResponse
  typed_response_not_set : TypedResponse

pub record ApiResponse : Type 0 where
  pub response_body : Fields
  pub destination_queue : String
  pub typed_response : TypedResponse
