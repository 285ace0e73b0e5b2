-- ===== src/Mqss/Rabbit/Envelopes.antt =====
-- `toBasicMessage` and `fromBasicMessage` of src/transport/RabbitMqSimpleTransport.cpp. The messages of
-- the AMQP client are a parameter: `M` with its properties, and `T` for the values of a header table.
use mqss_integration_deploym.Base.{
  String, ◌≡◌, List, [], ◌∷◌, Option, none, some, is_empty, is_nil, string_eq, if◌then◌else◌,
}
use mqss_integration_deploym.Dict.{insert_or_assign, emplace}
use mqss_integration_deploym.Mqss.Message.{Address, Headers, Envelope}

abbrev pub Table : Type 0 → Type 0
Table T = List (String × T)

-- What is set in a message: `none` where the property's `IsSet` is false.
pub record Properties (T : Type 0) : Type 0 where
  pub body : String
  pub content_type : Option String
  pub correlation_id : Option String
  pub reply_to : Option String
  pub header_table : Option (Table T)

abbrev pub only_body : {T : Type 0} → String → Properties T
only_body payload = record {
  body = payload;
  content_type = none;
  correlation_id = none;
  reply_to = none;
  header_table = none;
}

-- `get_string` is `none` where the client throws: on a value that is not a string.
pub record BasicMessages (M T : Type 0) : Type 0 where
  pub create : (body : String) → M
  pub set_content_type : String → M → M
  pub set_correlation_id : String → M → M
  pub set_reply_to : String → M → M
  pub set_header_table : Table T → M → M
  pub properties : M → Properties T
  pub table_value : String → T
  pub get_string : T → Option String

-- A message keeps what it is given: each setter sets its own property and no other.
pub record Keeps {M T : Type 0} (messages : BasicMessages M T) : Type 0 where
  pub created : (body : String) → messages.properties (messages.create body) ≡ only_body body
  pub typed :
      (s : String) (m : M)
      → messages.properties (messages.set_content_type s m)
        ≡ record (messages.properties m) { content_type = some s }
  pub correlated :
      (s : String) (m : M)
      → messages.properties (messages.set_correlation_id s m)
        ≡ record (messages.properties m) { correlation_id = some s }
  pub addressed :
      (s : String) (m : M)
      → messages.properties (messages.set_reply_to s m)
        ≡ record (messages.properties m) { reply_to = some s }
  pub headed :
      (t : Table T) (m : M)
      → messages.properties (messages.set_header_table t m)
        ≡ record (messages.properties m) { header_table = some t }
  pub read_back : (s : String) → messages.get_string (messages.table_value s) ≡ some s

module _ {M T : Type 0} (messages : BasicMessages M T) where
  -- `table[k] = TableValue(v)` for each header.
  unfoldable pub table_of : Headers → Table T → Table T
  unfolding insert_or_assign
  table_of [] table = table
  table_of ((k, v) ∷ headers) table =
      table_of headers (insert_or_assign k (messages.table_value v) table)

  abbrev pub with_reply_to : Option Address → M → M
  with_reply_to none m = m
  with_reply_to (some a) m = if is_empty a.name then m else messages.set_reply_to a.name m

  unfoldable pub to_basic_message : Envelope → M
  unfolding table_of
  to_basic_message e =
      let m0 = messages.create e.payload in
      let m1 =
        if is_empty e.content_type then m0 else messages.set_content_type e.content_type m0 in
      let m2 =
        if is_empty e.correlation_id then m1 else messages.set_correlation_id e.correlation_id m1 in
      let m3 = with_reply_to e.reply_to m2 in
      if is_nil e.headers then m3 else messages.set_header_table (table_of e.headers []) m3

  -- The `try` block of one header.
  abbrev pub emplaced : String → Option String → Headers → Headers
  emplaced k none headers = headers
  emplaced k (some v) headers = emplace k v headers

  unfoldable pub headers_of : Table T → Headers → Headers
  unfolding emplace
  headers_of [] headers = headers
  headers_of ((k, v) ∷ table) headers =
      headers_of table (emplaced k (messages.get_string v) headers)

  abbrev pub text_or_empty : Option String → String
  text_or_empty none = ""
  text_or_empty (some s) = s

  abbrev pub address_of : Option String → Option Address
  address_of none = none
  address_of (some name) = some (record { name = name })

  abbrev pub read_headers : Option (Table T) → Headers
  read_headers none = []
  read_headers (some table) = headers_of table []

  unfoldable pub from_basic_message : M → Envelope
  unfolding headers_of
  from_basic_message m =
      let p = messages.properties m in
      record {
        payload = p.body;
        content_type = text_or_empty p.content_type;
        headers = read_headers p.header_table;
        correlation_id = text_or_empty p.correlation_id;
        reply_to = address_of p.reply_to;
      }
