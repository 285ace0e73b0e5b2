-- ===== src/Mqss/Message.antt =====
-- include/mqss/Message.hpp. A delivered message carries the completion hooks of its transport; a hook
-- is a function on the transport's own state `S`, and `none` is an empty `std::function`.
use mqss_integration_deploym.Base.{String, Bool, List, [], Option, none, some}
use mqss_integration_deploym.Mqss.Status
use mqss_integration_deploym.Mqss.Status.{Status}

pub record Address : Type 0 where
  pub name : String

abbrev pub Headers : Type 0
Headers = List (String × String)

pub record Envelope : Type 0 where
  pub payload : String
  pub content_type : String
  pub headers : Headers
  pub correlation_id : String
  pub reply_to : Option Address

-- `Envelope envelope;` with no field given.
abbrev pub blank_envelope : Envelope
blank_envelope = record {
  payload = "";
  content_type = "";
  headers = [];
  correlation_id = "";
  reply_to = none;
}

abbrev pub AckFn : Type 0 → Type 0
AckFn S = S → Status × S

abbrev pub NackFn : Type 0 → Type 0
NackFn S = Bool → S → Status × S

pub record Message (S : Type 0) : Type 0 where
  pub envelope : Envelope
  pub ack_impl : Option (AckFn S)
  pub nack_impl : Option (NackFn S)

unfoldable pub ack : {S : Type 0} → Message S → S → Status × S
ack m s = elim m.ack_impl [ none ↦ (Status.unsupported "ack not supported", s) | some f ↦ f s ]

unfoldable pub nack : {S : Type 0} → Message S → Bool → S → Status × S
nack m requeue s = elim m.nack_impl [
  | none ↦ (Status.unsupported "nack not supported", s)
  | some f ↦ f requeue s
]

unfoldable pub set_ack_handlers : {S : Type 0} → Message S → AckFn S → NackFn S → Message S
set_ack_handlers m ack_fn nack_fn = record m { ack_impl = some ack_fn; nack_impl = some nack_fn }
