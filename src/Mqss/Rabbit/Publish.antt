-- ===== src/Mqss/Rabbit/Publish.antt =====
-- `send` of src/transport/RabbitMqSimpleTransport.cpp.
use mqss_integration_deploym.Base.{String, Option, none, some, is_empty, if◌then◌else◌}
use mqss_integration_deploym.Mqss.Status
use mqss_integration_deploym.Mqss.Status.{Status}
use mqss_integration_deploym.Mqss.Message.{Address, Envelope}
use mqss_integration_deploym.Mqss.Transport.{SendArgs}
use mqss_integration_deploym.Mqss.Rabbit.{Outcome, returned, threw, concat}
use mqss_integration_deploym.Mqss.Rabbit.Envelopes.{BasicMessages, to_basic_message}
use mqss_integration_deploym.Mqss.Rabbit.Client.{Client, Surroundings, Io, open_channel, ◌>>◌}

-- The sending side of `State`: the shared channel, opened by the first send, and the world.
pub record Sender (W Ch : Type 0) : Type 0 where
  pub send_ch : Option Ch
  pub world : W

module _ {W Ch D M : Type 0} (client : Client W Ch D M) (around : Surroundings W) where
  abbrev pub publish : String → M → Ch → Io W (Unit {0})
  publish name bm ch = do client.declare_queue ch name; client.basic_publish ch name bm

  abbrev pub sent : Ch → Outcome (Unit {0}) × W → Status × Sender W Ch
  sent ch (returned _, w) = (Status.success, record { send_ch = some ch; world = w })
  sent ch (threw what, w) =
      (Status.unavailable (concat "send failed: " what), record { send_ch = some ch; world = w })

  abbrev pub opened : String → M → Outcome Ch × W → Status × Sender W Ch
  opened name bm (returned ch, w) = sent ch (publish name bm ch w)
  opened name bm (threw what, w) =
      (Status.unavailable (concat "send failed: " what), record { send_ch = none; world = w })

  abbrev pub on_channel : String → M → Option Ch → W → Status × Sender W Ch
  on_channel name bm none w = opened name bm (open_channel client around.options w)
  on_channel name bm (some ch) w = sent ch (publish name bm ch w)

  -- The part of `send` under `send_mu`.
  unfoldable pub send_locked : String → M → Sender W Ch → Status × Sender W Ch
  send_locked name bm s =
      if around.stopped s.world
      then (Status.unavailable "transport shut down", s)
      else on_channel name bm s.send_ch s.world

  -- `shutdown`, with the exchange of the flag.
  unfoldable pub shutdown : Option (Sender W Ch) → Option (Sender W Ch)
  shutdown none = none
  shutdown (some s) =
      some (if around.stopped s.world then s else record s { world = around.set_stopped s.world })

  -- `acquire` is what other threads do until the mutex is held.
  unfoldable pub send :
      {T : Type 0} (messages : BasicMessages M T) (acquire : Sender W Ch → Sender W Ch)
      (dest : Address) (envelope : Envelope) (args : SendArgs)
      → Option (Sender W Ch)
      → Status × Option (Sender W Ch)
  unfolding send_locked to_basic_message
  send messages acquire dest envelope args state =
      if is_empty dest.name
      then (Status.invalid_argument "send destination name is empty", state)
      else if args.confirm
      then (Status.unsupported "send confirmation is not supported", state)
      else elim state [
        | none ↦ (Status.unavailable "transport not initialized", none)
        | some s ↦
            if around.stopped s.world
            then (Status.unavailable "transport shut down", some s)
            else let (status, s') =
                send_locked dest.name (to_basic_message messages envelope) (acquire s) in
              (status, some s')
      ]
