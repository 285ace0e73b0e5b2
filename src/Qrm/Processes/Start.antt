-- ===== src/Qrm/Processes/Start.antt =====
-- examples/qrm_workflow: how a process starts.
use mqss_integration_deploym.Base.{
  Char, ◌≡◌, refl, ap, ◌∙◌, String, List, [], ◌∷◌, Option, none, true, false, arith, is_empty,
  is_nil, if◌then◌else◌,
}
use mqss_integration_deploym.Mqss.Config.{Environment}
use mqss_integration_deploym.Qoffload.Path.{chars, text, path_in, with_separator}
use mqss_integration_deploym.Qrm.Config.{
  Defaults, load_config, init_config, get_config, transport_options, log_path,
}
use mqss_integration_deploym.Qrm.Logger.{
  Sink, stdout_color, basic_file, make_logger, opened, opened_by, with_file,
}
use mqss_integration_deploym.Qrm.Run.{finished, then_do}
use mqss_integration_deploym.Qrm.Processes.{
  Process, daemon_process, scheduler_process, compiler_process, submitter_process, log_of, start,
}

is_nil-with_separator :
    (dir : List Char) (c : Char) (name : List Char) → is_nil (with_separator dir (c ∷ name)) ≡ false
is_nil-with_separator [] c name = refl
is_nil-with_separator (d ∷ dir) c name = refl

is_empty-text : (s : List Char) → is_nil s ≡ false → is_empty (text s) ≡ false
is_empty-text [] h = absurd (ground arith)
is_empty-text (c ∷ s) h = refl

-- The log file of a process has a name.
log_path-named :
    (dir : String) (c : Char) (name : String) → is_empty (log_path dir (String.◌∷◌ c name)) ≡ false
unfolding log_path path_in
log_path-named dir c name = is_empty-text _ (is_nil-with_separator (chars dir) c (chars name))

log_of-named :
    (p : Process) (defaults : Defaults) (env : Environment)
    → is_empty (log_of p (load_config defaults env).logging).1 ≡ false
unfolding load_config
log_of-named daemon_process defaults env = log_path-named _ _ "aemon.log"
log_of-named scheduler_process defaults env = log_path-named _ _ "cheduler.log"
log_of-named compiler_process defaults env = log_path-named _ _ "ompiler.log"
log_of-named submitter_process defaults env = log_path-named _ _ "ubmitter.log"

module _ (fails : Sink → Option String) (defaults : Defaults) where
  make_logger-both :
      (name file : String)
      → is_empty file ≡ false
      → fails stdout_color ≡ none
      → fails (basic_file file true) ≡ none
      → make_logger fails name file
        ≡ finished (record { name = name; sinks = stdout_color ∷ basic_file file true ∷ [] })
  unfolding make_logger
  make_logger-both name file named console opens =
      let made = λ (sinks : List Sink). finished (record { name = name; sinks = sinks }) in
      ap (λ o. then_do (then_do (opened_by stdout_color o) (with_file fails file)) made) console
      ∙ ap
          (λ b.
            then_do
              (if b
                then finished (stdout_color ∷ [])
                else then_do (opened fails (basic_file file true))
                    (λ f. finished (stdout_color ∷ f ∷ [])))
              made)
          named
      ∙ ap
          (λ o.
            then_do
              (then_do (opened_by (basic_file file true) o) (λ f. finished (stdout_color ∷ f ∷ [])))
              made)
          opens

  -- A process of the workflow whose sinks can be opened starts, in any environment: with the
  -- configuration of that environment, with a logger of its own name on the console and on a log file of
  -- its own, which is emptied, and with the host, the port and the credentials of the configuration for
  -- its transport, but the virtual host `/`.
  pub start-succeeds :
      (p : Process) (env : Environment)
      → fails stdout_color ≡ none
      → fails (basic_file (log_of p (load_config defaults env).logging).1 true) ≡ none
      → let config = load_config defaults env in
        start fails defaults p env
        ≡ finished (record {
          config = config;
          logger = record {
            name = (log_of p config.logging).0;
            sinks = stdout_color ∷ basic_file (log_of p config.logging).1 true ∷ [];
          };
          options = record {
            host = config.rabbitmq.host;
            port = config.rabbitmq.port;
            username = config.rabbitmq.user;
            password = config.rabbitmq.password;
            vhost = "/";
          };
        })
  unfolding start init_config get_config transport_options
  start-succeeds p env console opens =
      let config = load_config defaults env in
      ap
        (λ o. then_do o (λ logger. finished (record {
          config = config;
          logger = logger;
          options = transport_options config.rabbitmq;
        })))
        (make_logger-both (log_of p config.logging).0 (log_of p config.logging).1
          (log_of-named p defaults env) console opens)
