-- ===== src/Qoffload/Rest.antt =====
-- examples/qoffload_service/src/control/RestControlProtocol.cpp: requests by method and path.
pub mod Encode
use mqss_integration_deploym.Base.{
  ℕ, ◌-◌, ◌/◌, ◌%◌, ◌^◌, ◌≤◌, String, Char, Bool, true, false, not, ◌&&◌, ◌||◌, List, [], ◌∷◌,
  Option, none, some, string_eq, nat_eq, ◌==◌, if◌then◌else◌, leb, is_nil,
}
use mqss_integration_deploym.Words.{int32_is_negative}
use mqss_integration_deploym.Dict.{find}
use mqss_integration_deploym.Qoffload.Double.{Double, finite, is_integral}
use mqss_integration_deploym.Qoffload.Decimal.{from_chars}
use mqss_integration_deploym.Qoffload.Path.{chars, text, split_path}
use mqss_integration_deploym.Qoffload.Proto.{
  Value, number_value, string_value, bool_value, list_value, Fields, fields, Values, values,
  ApiRequest,
}
use mqss_integration_deploym.Qoffload.Protocol.{
  ControlCommand, DecodedControlRequest, create_quantum_task, get_task_status, get_task_result,
  get_cancel_reason, list_resources, get_resource_info, query_pending_tasks, invalid,
}

unfoldable pub parse_task_id : List Char → Option ℕ
unfolding from_chars
parse_task_id [] = none
parse_task_id (c ∷ s) = elim (from_chars (c ∷ s)) [
  | none ↦ none
  | some (n, rest) ↦ if is_nil rest then some n else none
]

unfoldable pub find_field : Fields → String → Option Value
unfolding find
find_field body key = find key (fields body)

-- An integral double within the bounds of `int`, as a bit pattern.
unfoldable pub int_of_double : Double → Option ℕ
unfolding is_integral
int_of_double (finite negative n k) =
    if is_integral (finite negative n k)
      && leb (n / 2 ^ k) (if negative then 2 ^ 31 else 2 ^ 31 - 1)
    then some (if negative then (2 ^ 32 - n / 2 ^ k) % 2 ^ 32 else n / 2 ^ k)
    else none
int_of_double _ = none

abbrev pub int_value : Value → Option ℕ
int_value (number_value d) = int_of_double d
int_value _ = none

abbrev pub boolean_value : Value → Option Bool
boolean_value (bool_value b) = some b
boolean_value _ = none

abbrev pub text_value : Value → Option String
text_value (string_value s) = some s
text_value _ = none

-- The loop over the entries of a list.
abbrev pub all_strings : Values → Option (List String)
all_strings Values.nil = some []
all_strings (Values.cons (string_value s) vs) = elim (all_strings vs) [
  | none ↦ none
  | some ss ↦ some (s ∷ ss)
]
all_strings (Values.cons _ vs) = none

abbrev pub string_list_value : Value → Option (List String)
string_list_value (list_value vs) = all_strings vs
string_list_value _ = none

abbrev pub bind {ℓ κ} : {A : Type ℓ} {B : Type κ} → Option A → (A → Option B) → Option B
bind none f = none
bind (some a) f = f a

unfoldable pub required_int : Fields → String → Option ℕ
unfolding find_field int_of_double
required_int body key = bind (find_field body key) int_value

unfoldable pub required_bool : Fields → String → Option Bool
unfolding find_field
required_bool body key = bind (find_field body key) boolean_value

unfoldable pub required_string : Fields → String → Option String
unfolding find_field
required_string body key = bind (find_field body key) text_value

unfoldable pub required_string_list : Fields → String → Option (List String)
unfolding find_field
required_string_list body key = bind (find_field body key) string_list_value

-- The checks of `createTaskCommand` on the fields that it has read.
abbrev pub checked_create :
    Option ℕ → Option (List String) → Option String → Option String → Option Bool → ControlCommand
checked_create (some shots) (some circuit) (some format) (some resource) (some no_modify) =
    if int32_is_negative shots
    then invalid "INVALID JOB REQUEST"
    else create_quantum_task (record {
      shots = shots;
      circuit_files = circuit;
      circuit_format = format;
      resource_name = resource;
      no_modify = no_modify;
    })
checked_create _ _ _ _ _ = invalid "INVALID JOB REQUEST"

unfoldable pub create_task_command : ApiRequest → ControlCommand
unfolding required_int required_bool required_string required_string_list
create_task_command request =
    if not (request.method == "POST")
    then invalid "INVALID METHOD"
    else checked_create (required_int request.body "shots")
        (required_string_list request.body "circuit")
        (required_string request.body "circuit_format")
        (required_string request.body "resource_name") (required_bool request.body "no_modify")

-- `job/<id>/<what>`.
unfoldable pub job_command : List Char → String → ControlCommand
unfolding parse_task_id
job_command id what = elim (parse_task_id id) [
  | none ↦ invalid "INVALID JOB ID"
  | some task_id ↦
      if what == "status"
      then get_task_status task_id
      else if what == "result"
      then get_task_result task_id
      else if what == "cancel_reason"
      then get_cancel_reason task_id
      else invalid "UNKNOWN CONTROL REQUEST"
]

-- `resources/<name>` and `resources/<name>/<what>`.
abbrev pub resource_command : List Char → ControlCommand
resource_command [] = invalid "UNKNOWN CONTROL REQUEST"
resource_command (c ∷ s) = get_resource_info (text (c ∷ s))

abbrev pub pending_command : List Char → String → ControlCommand
pending_command [] what = invalid "UNKNOWN CONTROL REQUEST"
pending_command (c ∷ s) what =
    if what == "num_pending_jobs"
    then query_pending_tasks (text (c ∷ s))
    else invalid "UNKNOWN CONTROL REQUEST"

-- The commands of a GET, by the parts of the path.
unfoldable pub get_command : List (List Char) → ControlCommand
unfolding job_command
get_command (a ∷ []) =
    if text a == "resources" then list_resources else invalid "UNKNOWN CONTROL REQUEST"
get_command (a ∷ b ∷ []) =
    if text a == "resources" then resource_command b else invalid "UNKNOWN CONTROL REQUEST"
get_command (a ∷ b ∷ c ∷ []) =
    if text a == "job"
    then job_command b (text c)
    else if text a == "resources"
    then pending_command b (text c)
    else invalid "UNKNOWN CONTROL REQUEST"
get_command _ = invalid "UNKNOWN CONTROL REQUEST"

abbrev pub is_job_path : List (List Char) → Bool
is_job_path (a ∷ []) = text a == "job"
is_job_path _ = false

unfoldable pub command_for : ApiRequest → List (List Char) → ControlCommand
unfolding create_task_command get_command
command_for request path =
    if is_job_path path
    then create_task_command request
    else if not (request.method == "GET")
    then invalid "INVALID METHOD"
    else get_command path

unfoldable pub decode : ApiRequest → DecodedControlRequest
unfolding command_for split_path
decode request = record {
  command = command_for request (split_path (chars request.request));
  response_queue = request.response_queue;
}
