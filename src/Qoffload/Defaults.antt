-- ===== src/Qoffload/Defaults.antt =====
-- The default configuration of examples/qoffload_service/include/qoffload/Config.hpp. The generated
-- `ConfigDefaults.hpp` is a parameter.
use mqss_integration_deploym.Base.{ℕ, String, Bool, string_eq, ◌==◌, ◌||◌, if◌then◌else◌}
use mqss_integration_deploym.Qoffload.Config.{
  Config, LogLevel, trace, debug, info, warning, error, critical, off, LogFileMode, append,
  truncate, rotate,
}

pub record Defaults : Type 0 where
  pub amqp_host : String
  pub amqp_port : ℕ
  pub amqp_user : String
  pub amqp_password : String
  pub amqp_vhost : String
  pub qrm_amqp_host : String
  pub qrm_amqp_port : ℕ
  pub qrm_amqp_user : String
  pub qrm_amqp_password : String
  pub qrm_amqp_vhost : String
  pub request_queue : String
  pub control_request_queue : String
  pub result_queue : String
  pub qrm_task_queue : String
  pub instance_uid : ℕ
  pub user_identity : String
  pub log_enabled : Bool
  pub log_console_enabled : Bool
  pub log_file_enabled : Bool
  pub log_level : String
  pub log_file_mode : String
  pub log_rotation_size : ℕ
  pub log_rotation_files : ℕ
  pub runtime_dir : String
  pub log_dir : String
  pub state_file : String
  pub hpc_node : Bool
  pub resume_state : Bool

unfoldable pub default_log_level : String → LogLevel
default_log_level s =
    if s == "trace"
    then trace
    else if s == "debug"
    then debug
    else if s == "warning" || s == "warn"
    then warning
    else if s == "error"
    then error
    else if s == "critical"
    then critical
    else if s == "off"
    then off
    else info

unfoldable pub default_log_file_mode : String → LogFileMode
default_log_file_mode s =
    if s == "append" then append else if s == "truncate" then truncate else rotate

unfoldable pub make_default_config : Defaults → Config
unfolding default_log_level default_log_file_mode
make_default_config defaults = record {
  rabbitmq = record {
    host = defaults.amqp_host;
    port = defaults.amqp_port;
    user = defaults.amqp_user;
    password = defaults.amqp_password;
    vhost = defaults.amqp_vhost;
  };
  qrm_rabbitmq = record {
    host = defaults.qrm_amqp_host;
    port = defaults.qrm_amqp_port;
    user = defaults.qrm_amqp_user;
    password = defaults.qrm_amqp_password;
    vhost = defaults.qrm_amqp_vhost;
  };
  queues = record {
    request = defaults.request_queue;
    control_request = defaults.control_request_queue;
    result = defaults.result_queue;
    qrm_task = defaults.qrm_task_queue;
  };
  identity = record {
    instance_uid = defaults.instance_uid;
    user_identity = defaults.user_identity;
  };
  logging = record {
    enabled = defaults.log_enabled;
    console_enabled = defaults.log_console_enabled;
    file_enabled = defaults.log_file_enabled;
    level = default_log_level defaults.log_level;
    file_mode = default_log_file_mode defaults.log_file_mode;
    rotation_size = defaults.log_rotation_size;
    rotation_files = defaults.log_rotation_files;
  };
  paths = record {
    runtime_dir = defaults.runtime_dir;
    log_dir = defaults.log_dir;
    state_file = defaults.state_file;
  };
  policy = record { hpc_node = defaults.hpc_node; resume_state = defaults.resume_state };
}
