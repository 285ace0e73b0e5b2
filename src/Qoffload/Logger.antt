-- ===== src/Qoffload/Logger.antt =====
-- examples/qoffload_service/include/qoffload/Logger.hpp. The sinks of the logging library are named by
-- what they are opened with; `fails` is a parameter, the text of the exception where opening one throws.
use mqss_integration_deploym.Base.{
  ℕ, String, Bool, true, false, ◌≡◌, List, [], ◌∷◌, ◌++◌, Option, none, some, arith, is_nil,
  is_empty, if◌then◌else◌,
}
use mqss_integration_deploym.Mqss.Status
use mqss_integration_deploym.Mqss.Status.{Result, value, unexpected}
use mqss_integration_deploym.Qoffload.Config.{LogLevel, append, truncate, rotate, LoggingConfig}
use mqss_integration_deploym.Qoffload.Path.{chars, text, path_in}

-- `spdlog::level::level_enum`.
pub data SpdlogLevel : Type 0 where
  trace debug info warn err critical off : SpdlogLevel

unfoldable pub to_spdlog_level : LogLevel → SpdlogLevel
to_spdlog_level LogLevel.trace = SpdlogLevel.trace
to_spdlog_level LogLevel.debug = SpdlogLevel.debug
to_spdlog_level LogLevel.info = SpdlogLevel.info
to_spdlog_level LogLevel.warning = SpdlogLevel.warn
to_spdlog_level LogLevel.error = SpdlogLevel.err
to_spdlog_level LogLevel.critical = SpdlogLevel.critical
to_spdlog_level LogLevel.off = SpdlogLevel.off

pub data Sink : Type 0 where
  stderr_color null_sink : Sink
  basic_file : (path : String) → (truncated : Bool) → Sink
  rotating_file : (path : String) → (size files : ℕ) → Sink

pub record Logger : Type 0 where
  pub name : String
  pub sinks : List Sink
  pub level : SpdlogLevel
  pub flush_on : SpdlogLevel

abbrev pub log_path : String → String → String
log_path log_dir file_name = path_in log_dir file_name

abbrev pub file_sink : LoggingConfig → String → Sink
file_sink config path = elim config.file_mode [
  | append ↦ basic_file path false
  | truncate ↦ basic_file path true
  | rotate ↦ rotating_file path config.rotation_size config.rotation_files
]

module _ (fails : Sink → Option String) where
  -- A sink is opened and put behind the others.
  abbrev pub with_sink : Sink → List Sink → (List Sink → Result Logger) → Result Logger
  with_sink sink sinks next = elim (fails sink) [
    | some what ↦
        unexpected (Status.configuration (text (chars "Failed to create logger: " ++ chars what)))
    | none ↦ next (sinks ++ sink ∷ [])
  ]

  abbrev pub with_console : LoggingConfig → List Sink → (List Sink → Result Logger) → Result Logger
  with_console config sinks next =
      if config.console_enabled then with_sink stderr_color sinks next else next sinks

  abbrev pub with_file :
      LoggingConfig → String → List Sink → (List Sink → Result Logger) → Result Logger
  with_file config log_file sinks next =
      if config.file_enabled
      then if is_empty log_file
        then unexpected (Status.configuration "File logging enabled without a log file path")
        else with_sink (file_sink config log_file) sinks next
      else next sinks

  abbrev pub logger_with : String → LoggingConfig → List Sink → Result Logger
  logger_with name config sinks = value (record {
    name = name;
    sinks = sinks;
    level = if config.enabled then to_spdlog_level config.level else SpdlogLevel.off;
    flush_on = SpdlogLevel.err;
  })

  abbrev pub with_null : String → LoggingConfig → List Sink → Result Logger
  with_null name config sinks =
      if is_nil sinks
      then with_sink null_sink sinks (logger_with name config)
      else logger_with name config sinks

  unfoldable pub make_logger : String → LoggingConfig → String → Result Logger
  unfolding to_spdlog_level
  make_logger name config log_file =
      if config.enabled
      then with_console config [] (λ s. with_file config log_file s (with_null name config))
      else with_null name config []

  -- The sinks that a configuration asks for.
  abbrev pub sinks_of : LoggingConfig → String → List Sink
  sinks_of config log_file =
      let console = if config.console_enabled then stderr_color ∷ [] else [] in
      let file = if config.file_enabled then file_sink config log_file ∷ [] else [] in
      if config.enabled then console ++ file else []

  -- A logger that is made has the sinks that the configuration asks for, or the one that drops everything
  -- where it asks for none; it logs at the level of the configuration, or nothing where logging is off;
  -- and a file that it writes to has a path.
  make_logger-sinks :
      (name : String) (config : LoggingConfig) (log_file : String) (l : Logger)
      → make_logger name config log_file ≡ value l
      → (l.sinks ≡ (
          if is_nil (sinks_of config log_file) then null_sink ∷ [] else sinks_of config log_file))
        × (l.level ≡ (if config.enabled then to_spdlog_level config.level else SpdlogLevel.off))
  unfolding make_logger
  make_logger-sinks name config log_file l h = ground arith
