-- ===== src/Qoffload/Main.antt =====
-- examples/qoffload_service/src/main.cpp: from the environment to the service, and its end. What the
-- file system and the logging library do is a parameter.
mod Tests
use mqss_integration_deploym.Base.{
  ℕ, String, Bool, true, false, ◌≡◌, ap, ◌∙◌, refl, ◌&&◌, Option, none, some, arith, if◌then◌else◌,
}
use mqss_integration_deploym.Mqss.Status
use mqss_integration_deploym.Mqss.Status.{Status, Result, value, unexpected}
use mqss_integration_deploym.Mqss.Config.{Environment, init_config, get_config}
use mqss_integration_deploym.Qoffload.Config.{Config}
use mqss_integration_deploym.Qoffload.Defaults.{Defaults, make_default_config}
use mqss_integration_deploym.Qoffload.Environment.{load}
use mqss_integration_deploym.Qoffload.Logger.{Sink, Logger, log_path, make_logger}
use mqss_integration_deploym.Qoffload.Service.{Service, new_service, start, request_stop}

-- With an exit code and what is printed or logged as an error, with the service that was run until the
-- signal, or by an exception that nobody catches.
pub data Exit : Type 0 where
  failed : (reason : String) → Exit
  served : (logger : Logger) (running stopped : Service) → Exit
  terminated : Exit

abbrev pub exit_code : Exit → Option ℕ
exit_code (failed reason) = some 1
exit_code (served logger running stopped) = some 0
exit_code terminated = none

module _ (creates_directories : String → Bool) (fails : Sink → Option String) where
  abbrev pub serve : Logger → Config → Exit
  serve logger config =
      let service = start (new_service config) in served logger service (request_stop service)

  abbrev pub with_config : Logger → Result Config → Exit
  with_config logger (unexpected error) = failed error.reason
  with_config logger (value config) = serve logger config

  abbrev pub with_storage : Logger → Status × Option Config → Exit
  with_storage logger (status, storage) =
      if Status.is_ok status then with_config logger (get_config storage) else failed status.reason

  abbrev pub with_logger : Config → Result Logger → Exit
  with_logger config (unexpected error) = failed error.reason
  with_logger config (value logger) = with_storage logger (init_config config none)

  abbrev pub with_loaded : Result Config → Exit
  with_loaded (unexpected error) = failed error.reason
  with_loaded (value config) =
      if creates_directories config.paths.runtime_dir && creates_directories config.paths.log_dir
      then with_logger config (
          make_logger fails "qoffload" config.logging
            (log_path config.paths.log_dir "qoffload.log"))
      else terminated

  unfoldable pub main : Environment → Defaults → Exit
  unfolding load make_default_config make_logger init_config get_config start request_stop
  main env defaults = with_loaded (load env (make_default_config defaults))

  -- A configuration that loads, with directories that can be created and a logger that can be made, is
  -- served.
  pub main-serves :
      (env : Environment) (defaults : Defaults) (config : Config) (logger : Logger)
      → load env (make_default_config defaults) ≡ value config
      → creates_directories config.paths.runtime_dir ≡ true
      → creates_directories config.paths.log_dir ≡ true
      → make_logger fails "qoffload" config.logging (log_path config.paths.log_dir "qoffload.log")
        ≡ value logger
      → main env defaults
        ≡ served logger (start (new_service config)) (request_stop (start (new_service config)))
  unfolding main init_config get_config
  main-serves env defaults config logger h r l made =
      ap with_loaded h ∙ rw (r, l) (ap (with_logger config) made)
