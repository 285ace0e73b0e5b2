-- ===== src/Qrm/Config/Laws.antt =====
-- The settings of the broker: the port, which is a number, and the virtual host.
use mqss_integration_deploym.Base.{
  ℕ, Char, suc, [], ◌∷◌, true, String, ◌^◌, ◌<◌, ◌≡◌, refl, List, none, some, arith,
}
use mqss_integration_deploym.Mqss.Config.{Environment, parse_int, parse_uint64}
use mqss_integration_deploym.Qoffload.Decimal.{
  to_string, is_digit, starts_with_digit, digits_start, from_chars-to_string,
}
use mqss_integration_deploym.Qoffload.Path.{chars, text}
use mqss_integration_deploym.Qoffload.Path.Laws.{chars-text}
use mqss_integration_deploym.Qrm.Config.{Defaults, get_env_or_int, load_config, transport_options}

-- A port that is no number is the default one.
port_unreadable :
    (defaults : Defaults) (env : Environment) (v : String)
    → env "QRM_AMQP_PORT" ≡ some v
    → parse_int (chars v) ≡ none
    → (load_config defaults env).rabbitmq.port ≡ defaults.amqp_port
unfolding load_config get_env_or_int
port_unreadable defaults env v there unreadable = rw there (rw unreadable refl)

parse_int-digits :
    (s : List Char) (n : ℕ)
    → starts_with_digit s ≡ true
    → parse_uint64 s ≡ some n
    → n < 2 ^ 31
    → parse_int s ≡ some n
unfolding parse_int is_digit
parse_int-digits [] n h e small = absurd (ground arith)
parse_int-digits (c ∷ s) n h e small = rw e (ground (arith, h, small))

-- A port below 2^31 that is written to the environment as std::to_string prints it is read back.
port_printed :
    (defaults : Defaults) (env : Environment) (n : ℕ)
    → n < 2 ^ 31
    → env "QRM_AMQP_PORT" ≡ some (text (to_string n))
    → (load_config defaults env).rabbitmq.port ≡ n
unfolding load_config get_env_or_int parse_uint64 to_string
port_printed defaults env n small there =
    let printed = chars-text (to_string n) in
    let read =
      parse_int-digits (to_string n) n (digits_start (suc n) n [] (omega arith))
        (rw (from_chars-to_string n (omega arith)) refl) small in
    rw there (rw printed (rw read refl))

-- The virtual host of the environment has no effect on the connections of the workflow.
vhost_ignored :
    (defaults : Defaults) (env : Environment)
    → (transport_options (load_config defaults env).rabbitmq).vhost ≡ "/"
unfolding transport_options
vhost_ignored defaults env = refl
