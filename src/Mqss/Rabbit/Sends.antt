-- ===== src/Mqss/Rabbit/Sends.antt =====
-- The calls that a send makes.
use mqss_integration_deploym.Base.{
  String, true, false, ◌≡◌, ◌≢◌, ◌⊎◌, List, [], ◌∷◌, ◌++◌, Option, none, some, arith, is_empty,
  is_some,
}
use mqss_integration_deploym.Mqss.Status
use mqss_integration_deploym.Mqss.Status.{Status}
use mqss_integration_deploym.Mqss.Message.{Address, Envelope}
use mqss_integration_deploym.Mqss.Transport.{SendArgs}
use mqss_integration_deploym.Mqss.Rabbit.Envelopes.{BasicMessages, to_basic_message}
use mqss_integration_deploym.Mqss.Rabbit.Client.{Client, Surroundings}
use mqss_integration_deploym.Mqss.Rabbit.Publish.{Sender, send, send_locked, shutdown}
use mqss_integration_deploym.Mqss.Rabbit.Trace.{
  Action, creates, declares, publishes, Logged, logged, seen,
}

-- The calls of a send that succeeds: a channel where there was none, the queue, and one message.
abbrev pub calls_of_send : {Ch : Type 0} → String → Option Ch → List Action
calls_of_send name none = publishes name ∷ declares name ∷ creates ∷ []
calls_of_send name (some ch) = publishes name ∷ declares name ∷ []

module _ {W Ch D M : Type 0} (client : Client W Ch D M) (around : Surroundings W) where
  locked_success :
      (name : String) (bm : M) (s : Sender (Logged W) Ch)
      → (send_locked (logged client) (seen around) name bm s).0 ≡ Status.success
      → ((send_locked (logged client) (seen around) name bm s).1.world.1
          ≡ calls_of_send name s.send_ch ++ s.world.1)
        × (is_some (send_locked (logged client) (seen around) name bm s).1.send_ch ≡ true)
  unfolding send_locked
  locked_success name bm s h = ground arith

  -- A send that succeeds had a named destination, asked for no confirmation and found the transport
  -- running. From the moment that it holds the mutex its calls are the declaration of the queue and
  -- the publication of one message to it, after the opening of a channel if there was none; and the
  -- channel stays for the next send.
  pub rabbit_send-success :
      {T : Type 0} (messages : BasicMessages M T)
      (acquire : Sender (Logged W) Ch → Sender (Logged W) Ch) (dest : Address) (e : Envelope)
      (args : SendArgs) (s : Sender (Logged W) Ch)
      → (send (logged client) (seen around) messages acquire dest e args (some s)).0
        ≡ Status.success
      → (is_empty dest.name ≡ false)
        × (args.confirm ≡ false)
        × (around.stopped s.world.0 ≡ false)
        × ((s' : Sender (Logged W) Ch) × ((send
                (logged client)
                (seen around)
                messages
                acquire
                dest
                e
                args
                (some s)).1
              ≡ some s')
            × (s'.world.1 ≡ calls_of_send dest.name (acquire s).send_ch ++ (acquire s).world.1)
            × (is_some s'.send_ch ≡ true))
  unfolding send
  rabbit_send-success messages acquire dest e args s h =
      let locked = locked_success dest.name (to_basic_message messages e) (acquire s) in
      (
        ground arith,
        ground arith,
        ground arith,
        (
          (send_locked (logged client) (seen around) dest.name (to_basic_message messages e)
              (acquire s)).1,
          ground arith,
          ground (arith, locked),
          ground (arith, locked),
        ),
      )

  shutdown-stopped :
      ((w : W) → around.stopped (around.set_stopped w) ≡ true)
      → (s s' : Sender W Ch) → shutdown client around (some s) ≡ some s'
      → around.stopped s'.world ≡ true
  unfolding shutdown
  shutdown-stopped sets s s' h = ground (arith, sets s.world)

  -- A send to no name, with a confirmation, on a stopped transport does not
  -- succeed, makes no call and leaves the transport as it is.
  pub rabbit_send-refused :
      {T : Type 0} (messages : BasicMessages M T)
      (acquire : Sender (Logged W) Ch → Sender (Logged W) Ch) (dest : Address) (e : Envelope)
      (args : SendArgs) (s : Sender (Logged W) Ch)
      → ((is_empty dest.name ≡ true) ⊎ (args.confirm ≡ true)) ⊎ (around.stopped s.world.0 ≡ true)
      → ((send (logged client) (seen around) messages acquire dest e args (some s)).0
          ≢ Status.success)
        × ((send (logged client) (seen around) messages acquire dest e args (some s)).1 ≡ some s)
  unfolding send
  rabbit_send-refused messages acquire dest e args s h = (ground arith, ground arith)
