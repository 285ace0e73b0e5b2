-- ===== src/Qoffload/Config.antt =====
-- The configuration types of examples/qoffload_service/include/qoffload/Config.hpp.
use mqss_integration_deploym.Base.{ℕ, String, Bool}

-- The port is an `int`, as its bit pattern.
pub record RabbitMqConfig : Type 0 where
  pub host : String
  pub port : ℕ
  pub user : String
  pub password : String
  pub vhost : String

pub record QueueConfig : Type 0 where
  pub request : String
  pub control_request : String
  pub result : String
  pub qrm_task : String

pub record IdentityConfig : Type 0 where
  pub instance_uid : ℕ
  pub user_identity : String

pub data LogLevel : Type 0 where
  trace debug info warning error critical off : LogLevel

pub data LogFileMode : Type 0 where
  append truncate rotate : LogFileMode

pub record LoggingConfig : Type 0 where
  pub enabled : Bool
  pub console_enabled : Bool
  pub file_enabled : Bool
  pub level : LogLevel
  pub file_mode : LogFileMode
  pub rotation_size : ℕ
  pub rotation_files : ℕ

pub record PathConfig : Type 0 where
  pub runtime_dir : String
  pub log_dir : String
  pub state_file : String

pub record PolicyConfig : Type 0 where
  pub hpc_node : Bool
  pub resume_state : Bool

pub record Config : Type 0 where
  pub rabbitmq : RabbitMqConfig
  pub qrm_rabbitmq : RabbitMqConfig
  pub queues : QueueConfig
  pub identity : IdentityConfig
  pub logging : LoggingConfig
  pub paths : PathConfig
  pub policy : PolicyConfig
