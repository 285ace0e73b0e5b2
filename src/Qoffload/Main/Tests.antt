-- ===== src/Qoffload/Main/Tests.antt =====
-- The start of the service at a concrete configuration.
use mqss_integration_deploym.Base.{true, false, ◌≡◌, refl, ap, ◌∙◌, [], ◌∷◌, none}
use mqss_integration_deploym.Mqss.Status.{value}
use mqss_integration_deploym.Qoffload.Defaults.{Defaults, make_default_config}
use mqss_integration_deploym.Qoffload.Environment.{load}
use mqss_integration_deploym.Qoffload.Environment.Laws.{load-unset}
use mqss_integration_deploym.Qoffload.Fixtures.{config}
use mqss_integration_deploym.Qoffload.Logger.{
  SpdlogLevel, Logger, stderr_color, log_path, make_logger,
}
use mqss_integration_deploym.Qoffload.Main
use mqss_integration_deploym.Qoffload.Main.{served, main-serves}
use mqss_integration_deploym.Qoffload.Service.{new_service, start, request_stop}

-- Every variable unset, a directory made wherever it is asked for, and every sink opened.
abbrev defaults : Defaults
defaults = record {
  amqp_host = "localhost";
  amqp_port = 5672;
  amqp_user = "guest";
  amqp_password = "guest";
  amqp_vhost = "/";
  qrm_amqp_host = "qrm";
  qrm_amqp_port = 5672;
  qrm_amqp_user = "guest";
  qrm_amqp_password = "guest";
  qrm_amqp_vhost = "/";
  request_queue = "request_queue";
  control_request_queue = "api";
  result_queue = "result_queue";
  qrm_task_queue = "qrm_queue";
  instance_uid = 7;
  user_identity = "";
  log_enabled = true;
  log_console_enabled = true;
  log_file_enabled = false;
  log_level = "info";
  log_file_mode = "append";
  log_rotation_size = 1048576;
  log_rotation_files = 3;
  runtime_dir = "run";
  log_dir = "log";
  state_file = "state";
  hpc_node = true;
  resume_state = false;
}

default_config : make_default_config defaults ≡ config
unfolding make_default_config
default_config = refl

abbrev console : Logger
console = record {
  name = "qoffload";
  sinks = stderr_color ∷ [];
  level = SpdlogLevel.info;
  flush_on = SpdlogLevel.err;
}

made_console :
    make_logger (λ sink. none) "qoffload" config.logging (log_path "log" "qoffload.log")
    ≡ value console
unfolding make_logger
made_console = refl

loaded_config : load (λ name. none) (make_default_config defaults) ≡ value config
loaded_config =
    load-unset (λ name. none) (make_default_config defaults) (λ name. refl)
    ∙ ap (λ c. value c) default_config

served_console :
    Main.main (λ dir. true) (λ sink. none) (λ name. none) defaults
    ≡ served console (start (new_service config)) (request_stop (start (new_service config)))
served_console =
    main-serves (λ dir. true) (λ sink. none) (λ name. none) defaults config console loaded_config
      refl refl made_console
