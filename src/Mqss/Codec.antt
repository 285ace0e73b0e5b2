-- ===== src/Mqss/Codec.antt =====
-- include/mqss/protocol/Codec.hpp and ProtoCodec.hpp. The protobuf runtime is a parameter: for each
-- message type its four conversions, which may fail.
use mqss_integration_deploym.Base.{
  String, ◌≡◌, ◌⊎◌, Option, none, some, arith, Option-cases, inl, inr,
}
use mqss_integration_deploym.Mqss.StatusCode.{StatusCode}
use mqss_integration_deploym.Mqss.Status
use mqss_integration_deploym.Mqss.Status.{Status, Result, value, unexpected}
use mqss_integration_deploym.Mqss.Message.{Envelope, blank_envelope}

-- `Codec<T, Format>`.
pub record Codec (T : Type 0) : Type 0 where
  pub encode : T → Result Envelope
  pub decode : Envelope → Result T

-- The format tags.
pub data Format : Type 0 where
  proto_binary proto_json : Format

abbrev pub media_type : Format → String
media_type proto_binary = "application/x-protobuf"
media_type proto_json = "application/json"

-- What the protobuf runtime gives for a message type.
pub record Protobuf (T : Type 0) : Type 0 where
  pub serialize_to_string : T → Option String
  pub parse_from_string : String → Option T
  pub message_to_json_string : T → Option String
  pub json_string_to_message : String → Option T

-- The documented round trips: what was written is read back.
pub record RoundTrips {T : Type 0} (p : Protobuf T) : Type 0 where
  pub binary :
      (msg : T) (s : String) → p.serialize_to_string msg ≡ some s → p.parse_from_string s ≡ some msg
  pub json :
      (msg : T) (s : String)
      → p.message_to_json_string msg ≡ some s
      → p.json_string_to_message s ≡ some msg

module _ {T : Type 0} (p : Protobuf T) where
  unfoldable pub encode_binary : T → Result Envelope
  encode_binary msg = elim (p.serialize_to_string msg) [
    | none ↦ unexpected (Status.serialization "protobuf binary serialization failed")
    | some payload ↦
        value (record blank_envelope { payload = payload; content_type = "application/x-protobuf" })
  ]

  unfoldable pub decode_binary : Envelope → Result T
  decode_binary envelope = elim (p.parse_from_string envelope.payload) [
    | none ↦ unexpected (Status.serialization "protobuf binary parse failed")
    | some msg ↦ value msg
  ]

  unfoldable pub encode_json : T → Result Envelope
  encode_json msg = elim (p.message_to_json_string msg) [
    | none ↦ unexpected (Status.serialization "protobuf JSON serialization failed")
    | some json ↦
        value (record blank_envelope { payload = json; content_type = "application/json" })
  ]

  unfoldable pub decode_json : Envelope → Result T
  decode_json envelope = elim (p.json_string_to_message envelope.payload) [
    | none ↦ unexpected (Status.serialization "protobuf JSON parse failed")
    | some msg ↦ value msg
  ]

  -- `Codec<T, Format>` for the two formats.
  unfoldable pub codec : Format → Codec T
  unfolding encode_binary decode_binary encode_json decode_json
  codec proto_binary = record { encode = encode_binary; decode = decode_binary }
  codec proto_json = record { encode = encode_json; decode = decode_json }

-- What a codec encodes, it decodes to the same message; the envelope declares the media type of the
-- format, and has no header, no correlation id and no reply address.
codec_round_trip :
    {T : Type 0} (p : Protobuf T) (laws : RoundTrips p) (format : Format) (msg : T)
    (envelope : Envelope)
    → (codec p format).encode msg ≡ value envelope
    → ((codec p format).decode envelope ≡ value msg)
      × (envelope
          ≡ record blank_envelope { payload = envelope.payload; content_type = media_type format })
unfolding codec
codec_round_trip p laws proto_binary msg envelope h =
    elim (Option-cases (p.serialize_to_string msg)) [
      | inl e ↦ absurd (ground arith)
      | inr (s, e) ↦ ground (arith, laws.binary msg s e)
    ]
codec_round_trip p laws proto_json msg envelope h =
    elim (Option-cases (p.message_to_json_string msg)) [
      | inl e ↦ absurd (ground arith)
      | inr (s, e) ↦ ground (arith, laws.json msg s e)
    ]

-- Every failure of a codec is a serialization error.
codec_errors :
    {T : Type 0} (p : Protobuf T) (format : Format) (msg : T) (envelope : Envelope)
    (status : Status)
    → ((codec p format).encode msg ≡ unexpected status)
      ⊎ ((codec p format).decode envelope ≡ unexpected status)
    → status.code ≡ StatusCode.serialization
unfolding codec
codec_errors p proto_binary msg envelope status h = ground arith
codec_errors p proto_json msg envelope status h = ground arith
