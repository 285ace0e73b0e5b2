-- ===== src/Mqss/Rabbit/Options.antt =====
-- include/mqss/transport/RabbitMqSimpleTransport.hpp. The port is an `int`, as its bit pattern.
use mqss_integration_deploym.Base.{ℕ, String}

-- `TransportOptions<RabbitMqSimple>`.
pub record TransportOptions : Type 0 where
  pub host : String
  pub port : ℕ
  pub username : String
  pub password : String
  pub vhost : String

-- `TransportOptions<RabbitMqSimple> options;`
abbrev pub default_options : TransportOptions
default_options = record {
  host = "127.0.0.1";
  port = 5672;
  username = "guest";
  password = "guest";
  vhost = "/";
}
