-- ===== src/Mqss/Transport.antt =====
-- include/mqss/transport/Transport.hpp: features, the arguments of send and receive, and the
-- interface of a transport, whose state is `S`.
use mqss_integration_deploym.Base.{
  ℕ, Bool, true, false, List, [], ◌∷◌, Option, none, if◌then◌else◌, nat_beq,
}
use mqss_integration_deploym.Mqss.Status.{Status, Result}
use mqss_integration_deploym.Mqss.Message.{Address, Envelope, Message}

pub data Feature : Type 0 where
  manual_ack requeue send_confirm : Feature

-- `static_cast<std::size_t>(feature)`.
abbrev pub feature_index : Feature → ℕ
feature_index manual_ack = 0
feature_index requeue = 1
feature_index send_confirm = 2

-- `bits_`, from index 0.
pub record FeatureSet : Type 0 where
  pub bits : ℕ → Bool

abbrev pub no_features : FeatureSet
no_features = record { bits = λ _. false }

unfoldable pub add : FeatureSet → Feature → FeatureSet
add set feature = record {
  bits = λ i. if nat_beq i (feature_index feature) then true else set.bits i;
}

unfoldable pub has : FeatureSet → Feature → Bool
has set feature = set.bits (feature_index feature)

-- The constructor over an initializer list.
unfoldable pub feature_set_from : FeatureSet → List Feature → FeatureSet
unfolding add
feature_set_from set [] = set
feature_set_from set (f ∷ fs) = feature_set_from (add set f) fs

unfoldable pub feature_set : List Feature → FeatureSet
unfolding feature_set_from
feature_set = feature_set_from no_features

pub data AckMode : Type 0 where
  auto manual : AckMode

abbrev pub is_auto : AckMode → Bool
is_auto auto = true
is_auto manual = false

pub record SendArgs : Type 0 where
  pub confirm : Bool

abbrev pub default_send_args : SendArgs
default_send_args = record { confirm = false }

-- The timeout is in milliseconds; a negative one is not modelled.
pub record ReceiveArgs : Type 0 where
  pub timeout : Option ℕ
  pub ack_mode : AckMode

abbrev pub default_receive_args : ReceiveArgs
default_receive_args = record { timeout = none; ack_mode = manual }

-- The abstract class. The state holds what other threads do in the meantime; `none` is a receive
-- that has not returned when that ends.
pub record Transport (S : Type 0) : Type 0 where
  pub features : FeatureSet
  pub send : Address → Envelope → SendArgs → S → Status × S
  pub receive : Address → ReceiveArgs → S → Option (Result (Message S) × S)
