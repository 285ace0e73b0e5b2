-- ===== src/Mqss/Rabbit/Client.antt =====
-- The AMQP client of src/transport/RabbitMqSimpleTransport.cpp as an interface. `W` is the world that
-- a call changes: the broker, the network, the clock and what other threads do in the meantime.
-- `Ch`, `D` and `M` are the client's channels, deliveries and messages.
use mqss_integration_deploym.Base.{ℕ, String, Bool, Option}
use mqss_integration_deploym.Mqss.Rabbit.Options.{TransportOptions}
use mqss_integration_deploym.Mqss.Rabbit.{Outcome, returned, threw, Call, Delivery}

-- A computation on the world that may throw.
abbrev pub Io : Type 0 → Type 0 → Type 0
Io W A = W → Outcome A × W

abbrev pub pure : {W A : Type 0} → A → Io W A
pure a w = (returned a, w)

abbrev pub after : {W A B : Type 0} → Outcome A × W → (A → Io W B) → Outcome B × W
after (returned a, w) k = k a w
after (threw what, w) k = (threw what, w)

infixl 5 ◌>>=◌ ◌>>◌
abbrev pub ◌>>=◌ : {W A B : Type 0} → Io W A → (A → Io W B) → Io W B
◌>>=◌ m k w = after (m w) k

abbrev pub ◌>>◌ : {W B : Type 0} → Io W (Unit {0}) → Io W B → Io W B
m >> k = m >>= λ _. k

-- `catch (...) {}`.
abbrev pub ignored : {W : Type 0} → Io W (Unit {0}) → Io W (Unit {0})
ignored m w = (returned tt, (m w).1)

pub record Client (W Ch D M : Type 0) : Type 0 where
  pub create : (host : String) (port : ℕ) (username password vhost : String) → Io W Ch
  pub declare_queue : Ch → (name : String) → Io W (Unit {0})
  pub basic_publish : Ch → (routing_key : String) → M → Io W (Unit {0})
  pub basic_get : Ch → (queue : String) → (no_ack : Bool) → Io W (Option D)
  pub basic_consume : Ch → (queue : String) → (no_ack : Bool) → Io W String
  pub basic_cancel : Ch → (tag : String) → Io W (Unit {0})
  pub basic_consume_message : Ch → (tag : String) → (timeout_ms : ℕ) → Io W (Option D)
  pub basic_ack : Ch → D → W → Call × W
  pub basic_reject : Ch → D → (again : Bool) → W → Call × W
  pub message : D → M

-- What the transport reads besides: its options, the flag `stopped`, which `shutdown` sets, and the
-- steady clock in nanoseconds.
pub record Surroundings (W : Type 0) : Type 0 where
  pub options : TransportOptions
  pub stopped : W → Bool
  pub clock : W → ℕ
  pub set_stopped : W → W

-- `openChannel`.
abbrev pub open_channel : {W Ch D M : Type 0} → Client W Ch D M → TransportOptions → Io W Ch
open_channel c opts = c.create opts.host opts.port opts.username opts.password opts.vhost

-- What the handlers of a message call.
abbrev pub delivery_on : {W Ch D M : Type 0} → Client W Ch D M → Ch → D → Delivery W
delivery_on c ch d = record { basic_ack = c.basic_ack ch d; basic_reject = c.basic_reject ch d }
