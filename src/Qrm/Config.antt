-- ===== src/Qrm/Config.antt =====
-- examples/qrm_workflow: Config.hpp and Config.cpp. The generated defaults are a parameter. An `int` is
-- its bit pattern.
pub mod Laws
use mqss_integration_deploym.Base.{
  ℕ, Char, code, String, Bool, true, false, List, [], ◌∷◌, ◌++◌, Option, none, some, value_or,
  nat_eq, ◌==◌, if◌then◌else◌,
}
use mqss_integration_deploym.Mqss.Config.{Environment, parse_int}
use mqss_integration_deploym.Mqss.Rabbit.Options.{TransportOptions, default_options}
use mqss_integration_deploym.Qoffload.Path.{chars, path_in}

pub record RabbitMqConfig : Type 0 where
  pub host : String
  pub port : ℕ
  pub user : String
  pub password : String
  pub vhost : String

pub record QueueConfig : Type 0 where
  pub scheduler : String
  pub compiler : String
  pub results : String
  pub submitter : String

pub record LoggingConfig : Type 0 where
  pub log_dir : String
  pub daemon_logger : String
  pub scheduler_logger : String
  pub compiler_logger : String
  pub submitter_logger : String
  pub daemon_log : String
  pub scheduler_log : String
  pub compiler_log : String
  pub submitter_log : String

pub record PathConfig : Type 0 where
  pub benchmark_dir : String
  pub qdmi_device_objs_dir : String

pub record QdmiDevices : Type 0 where
  pub qdmi_device_obj : String
  pub qdmi_device_prefix : String

pub record Config : Type 0 where
  pub rabbitmq : RabbitMqConfig
  pub queues : QueueConfig
  pub logging : LoggingConfig
  pub paths : PathConfig
  pub devices : QdmiDevices

-- `ConfigDefaults.hpp`.
pub record Defaults : Type 0 where
  pub amqp_host : String
  pub amqp_port : ℕ
  pub amqp_user : String
  pub amqp_password : String
  pub amqp_vhost : String
  pub scheduler_queue : String
  pub compiler_queue : String
  pub results_queue : String
  pub submitter_queue : String
  pub log_dir : String
  pub benchmark_dir : String

unfoldable pub get_env_or : Environment → String → String → String
get_env_or env name fallback = value_or (env name) fallback

abbrev pub int_or : Option String → ℕ → ℕ
int_or none fallback = fallback
int_or (some v) fallback = value_or (parse_int (chars v)) fallback

-- The overload for `int`.
unfoldable pub get_env_or_int : Environment → String → ℕ → ℕ
unfolding parse_int
get_env_or_int env name fallback = int_or (env name) fallback

-- `logPath`.
unfoldable pub log_path : String → String → String
unfolding path_in
log_path log_dir file_name = path_in log_dir file_name

module _ (defaults : Defaults) where
  -- The fields without an initializer are empty.
  unfoldable pub load_config : Environment → Config
  unfolding get_env_or get_env_or_int log_path
  load_config env =
      let log_dir = get_env_or env "QRM_LOG_DIR" defaults.log_dir in
      record {
        rabbitmq = record {
          host = get_env_or env "QRM_AMQP_HOST" defaults.amqp_host;
          port = get_env_or_int env "QRM_AMQP_PORT" defaults.amqp_port;
          user = get_env_or env "QRM_AMQP_USER" defaults.amqp_user;
          password = get_env_or env "QRM_AMQP_PASSWORD" defaults.amqp_password;
          vhost = get_env_or env "QRM_AMQP_VHOST" defaults.amqp_vhost;
        };
        queues = record {
          scheduler = get_env_or env "QRM_SCHEDULER_QUEUE" defaults.scheduler_queue;
          compiler = get_env_or env "QRM_COMPILER_QUEUE" defaults.compiler_queue;
          results = get_env_or env "QRM_RESULTS_QUEUE" defaults.results_queue;
          submitter = get_env_or env "QRM_SUBMITTER_QUEUE" defaults.submitter_queue;
        };
        logging = record {
          log_dir = log_dir;
          daemon_logger = "mqss::Daemon";
          scheduler_logger = "mqss::Scheduler";
          compiler_logger = "mqss::Compiler";
          submitter_logger = "mqss::Submitter";
          daemon_log = log_path log_dir "daemon.log";
          scheduler_log = log_path log_dir "scheduler.log";
          compiler_log = log_path log_dir "compiler.log";
          submitter_log = log_path log_dir "submitter.log";
        };
        paths = record {
          benchmark_dir = get_env_or env "QRM_BENCHMARK_DIR" defaults.benchmark_dir;
          qdmi_device_objs_dir = "";
        };
        devices = record { qdmi_device_obj = ""; qdmi_device_prefix = "" };
      }

-- The options with which each process of the workflow connects: the virtual host is not set.
unfoldable pub transport_options : RabbitMqConfig → TransportOptions
transport_options config = record default_options {
  host = config.host;
  port = config.port;
  username = config.user;
  password = config.password;
}

-- The storage holds nothing until it is initialized; `none` is a failed assertion.
unfoldable pub init_config : Config → Option Config → Option (Option Config)
init_config new_config none = some (some new_config)
init_config new_config (some stored) = none

unfoldable pub get_config : Option Config → Option Config
get_config none = none
get_config (some stored) = some stored
