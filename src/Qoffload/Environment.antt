-- ===== src/Qoffload/Environment.antt =====
-- `applyEnvironment` of examples/qoffload_service/include/qoffload/Config.hpp, with the parsers of the
-- logging settings. Each setting works on the configuration in place and may fail.
pub mod Laws
use mqss_integration_deploym.Base.{
  ℕ, String, Bool, List, [], ◌∷◌, ◌++◌, Option, none, some, string_eq, ◌==◌, ◌||◌, if◌then◌else◌,
}
use mqss_integration_deploym.Mqss.Status
use mqss_integration_deploym.Mqss.Status.{Status, Result, value, unexpected}
use mqss_integration_deploym.Mqss.Config.{
  Environment, get_env, get_env_or, get_env_or_integer, get_env_or_bool, load_config, parse_int,
  parse_uint64,
}
use mqss_integration_deploym.Qoffload.Config.{
  Config, RabbitMqConfig, LogLevel, trace, debug, info, warning, error, critical, off, LogFileMode,
  append, truncate, rotate,
}

unfoldable pub parse_log_level : String → Result LogLevel
parse_log_level s =
    if s == "trace"
    then value trace
    else if s == "debug"
    then value debug
    else if s == "info"
    then value info
    else if s == "warning" || s == "warn"
    then value warning
    else if s == "error"
    then value error
    else if s == "critical"
    then value critical
    else if s == "off"
    then value off
    else unexpected (Status.configuration "Invalid value for QOFFLOAD_LOG_LEVEL")

unfoldable pub parse_log_file_mode : String → Result LogFileMode
parse_log_file_mode s =
    if s == "append"
    then value append
    else if s == "truncate"
    then value truncate
    else if s == "rotate"
    then value rotate
    else unexpected (Status.configuration "Invalid value for QOFFLOAD_LOG_FILE_MODE")

abbrev pub Setting : Type 0
Setting = Config → Status × Config

-- `if (auto value = ...) { config.field = *value; } else { return value.error(); }`
abbrev pub assign {ℓ} : {A : Type ℓ} → (A → Config → Config) → Result A → Setting
assign set (value a) c = (Status.success, set a c)
assign set (unexpected e) c = (e, c)

abbrev pub assign_parsed {ℓ} :
    {A : Type ℓ} → (A → Config → Config) → (String → Result A) → Option String → Setting
assign_parsed set parse none c = (Status.success, c)
assign_parsed set parse (some v) c = assign set (parse v) c

module _ (env : Environment) where
  abbrev pub text_setting : List String → (Config → String) → (String → Config → Config) → Setting
  text_setting names get set c = (Status.success, set (get_env_or env names (get c)) c)

  abbrev pub int_setting : List String → (Config → ℕ) → (ℕ → Config → Config) → Setting
  int_setting names get set c = assign set (get_env_or_integer parse_int env names (get c)) c

  abbrev pub uint_setting : List String → (Config → ℕ) → (ℕ → Config → Config) → Setting
  uint_setting names get set c = assign set (get_env_or_integer parse_uint64 env names (get c)) c

  abbrev pub bool_setting : List String → (Config → Bool) → (Bool → Config → Config) → Setting
  bool_setting names get set c = assign set (get_env_or_bool env names (get c)) c

  abbrev pub broker_settings : List Setting
  broker_settings =
      text_setting ("QOFFLOAD_AMQP_HOST" ∷ []) (λ c. c.rabbitmq.host)
        (λ v c. record c { rabbitmq = record c.rabbitmq { host = v } })
      ∷ int_setting ("QOFFLOAD_AMQP_PORT" ∷ []) (λ c. c.rabbitmq.port)
          (λ v c. record c { rabbitmq = record c.rabbitmq { port = v } })
      ∷ text_setting ("QOFFLOAD_AMQP_USER" ∷ []) (λ c. c.rabbitmq.user)
          (λ v c. record c { rabbitmq = record c.rabbitmq { user = v } })
      ∷ text_setting ("QOFFLOAD_AMQP_PASSWORD" ∷ []) (λ c. c.rabbitmq.password)
          (λ v c. record c { rabbitmq = record c.rabbitmq { password = v } })
      ∷ text_setting ("QOFFLOAD_AMQP_VHOST" ∷ []) (λ c. c.rabbitmq.vhost)
          (λ v c. record c { rabbitmq = record c.rabbitmq { vhost = v } })
      ∷ text_setting ("QRM_AMQP_HOST" ∷ []) (λ c. c.qrm_rabbitmq.host)
          (λ v c. record c { qrm_rabbitmq = record c.qrm_rabbitmq { host = v } })
      ∷ int_setting ("QRM_AMQP_PORT" ∷ []) (λ c. c.qrm_rabbitmq.port)
          (λ v c. record c { qrm_rabbitmq = record c.qrm_rabbitmq { port = v } })
      ∷ text_setting ("QRM_AMQP_USER" ∷ []) (λ c. c.qrm_rabbitmq.user)
          (λ v c. record c { qrm_rabbitmq = record c.qrm_rabbitmq { user = v } })
      ∷ text_setting ("QRM_AMQP_PASSWORD" ∷ []) (λ c. c.qrm_rabbitmq.password)
          (λ v c. record c { qrm_rabbitmq = record c.qrm_rabbitmq { password = v } })
      ∷ text_setting ("QRM_AMQP_VHOST" ∷ []) (λ c. c.qrm_rabbitmq.vhost)
          (λ v c. record c { qrm_rabbitmq = record c.qrm_rabbitmq { vhost = v } })
      ∷ []

  abbrev pub queue_settings : List Setting
  queue_settings =
      text_setting ("QOFFLOAD_REQUEST_QUEUE" ∷ []) (λ c. c.queues.request)
        (λ v c. record c { queues = record c.queues { request = v } })
      ∷ text_setting ("QOFFLOAD_CONTROL_REQUEST_QUEUE" ∷ "QOFFLOAD_API_REQUEST_QUEUE" ∷ [])
          (λ c. c.queues.control_request)
          (λ v c. record c { queues = record c.queues { control_request = v } })
      ∷ text_setting ("QOFFLOAD_RESULT_QUEUE" ∷ []) (λ c. c.queues.result)
          (λ v c. record c { queues = record c.queues { result = v } })
      ∷ text_setting ("QRM_TASK_QUEUE" ∷ []) (λ c. c.queues.qrm_task)
          (λ v c. record c { queues = record c.queues { qrm_task = v } })
      ∷ uint_setting ("QOFFLOAD_INSTANCE_UID" ∷ "QOFFLOAD_DAEMON_UID" ∷ [])
          (λ c. c.identity.instance_uid)
          (λ v c. record c { identity = record c.identity { instance_uid = v } })
      ∷ text_setting ("QOFFLOAD_USER_IDENTITY" ∷ []) (λ c. c.identity.user_identity)
          (λ v c. record c { identity = record c.identity { user_identity = v } })
      ∷ []

  abbrev pub logging_settings : List Setting
  logging_settings =
      bool_setting ("QOFFLOAD_LOG_ENABLED" ∷ []) (λ c. c.logging.enabled)
        (λ v c. record c { logging = record c.logging { enabled = v } })
      ∷ bool_setting ("QOFFLOAD_LOG_CONSOLE_ENABLED" ∷ []) (λ c. c.logging.console_enabled)
          (λ v c. record c { logging = record c.logging { console_enabled = v } })
      ∷ bool_setting ("QOFFLOAD_LOG_FILE_ENABLED" ∷ []) (λ c. c.logging.file_enabled)
          (λ v c. record c { logging = record c.logging { file_enabled = v } })
      ∷ assign_parsed (λ v c. record c { logging = record c.logging { level = v } }) parse_log_level
          (get_env env ("QOFFLOAD_LOG_LEVEL" ∷ []))
      ∷ assign_parsed (λ v c. record c { logging = record c.logging { file_mode = v } })
          parse_log_file_mode (get_env env ("QOFFLOAD_LOG_FILE_MODE" ∷ []))
      ∷ uint_setting ("QOFFLOAD_LOG_ROTATION_SIZE" ∷ []) (λ c. c.logging.rotation_size)
          (λ v c. record c { logging = record c.logging { rotation_size = v } })
      ∷ uint_setting ("QOFFLOAD_LOG_ROTATION_FILES" ∷ []) (λ c. c.logging.rotation_files)
          (λ v c. record c { logging = record c.logging { rotation_files = v } })
      ∷ []

  abbrev pub runtime_settings : List Setting
  runtime_settings =
      text_setting ("QOFFLOAD_RUNTIME_DIR" ∷ []) (λ c. c.paths.runtime_dir)
        (λ v c. record c { paths = record c.paths { runtime_dir = v } })
      ∷ text_setting ("QOFFLOAD_LOG_DIR" ∷ []) (λ c. c.paths.log_dir)
          (λ v c. record c { paths = record c.paths { log_dir = v } })
      ∷ text_setting ("QOFFLOAD_STATE_FILE" ∷ []) (λ c. c.paths.state_file)
          (λ v c. record c { paths = record c.paths { state_file = v } })
      ∷ bool_setting ("QOFFLOAD_HPC_NODE" ∷ []) (λ c. c.policy.hpc_node)
          (λ v c. record c { policy = record c.policy { hpc_node = v } })
      ∷ bool_setting ("QOFFLOAD_RESUME_STATE" ∷ []) (λ c. c.policy.resume_state)
          (λ v c. record c { policy = record c.policy { resume_state = v } })
      ∷ []

-- One setting after the other, up to the first that fails.
unfoldable pub apply_all : List Setting → Config → Status × Config
apply_all [] c = (Status.success, c)
apply_all (setting ∷ settings) c =
    let (status, c') = setting c in
    let rest = apply_all settings c' in if Status.is_ok status then rest else (status, c')

unfoldable pub apply_environment : Environment → Config → Status × Config
unfolding apply_all parse_log_level parse_log_file_mode get_env get_env_or get_env_or_integer
    get_env_or_bool
apply_environment env =
    apply_all
      (broker_settings env ++ queue_settings env ++ logging_settings env ++ runtime_settings env)

-- `applyCommandLine`.
unfoldable pub apply_command_line : Config → Status × Config
apply_command_line c = (Status.success, c)

-- `loadConfig` of the service, from its generated defaults.
unfoldable pub load : Environment → Config → Result Config
unfolding load_config apply_environment apply_command_line
load env default = load_config default (apply_environment env) apply_command_line
