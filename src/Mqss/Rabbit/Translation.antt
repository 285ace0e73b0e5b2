-- ===== src/Mqss/Rabbit/Translation.antt =====
-- What an envelope keeps on its way through a RabbitMQ message.
use mqss_integration_deploym.Base.{
  String, ◌≡◌, refl, ◌∙◌, inl, inr, [], ◌∷◌, Option, none, some, arith, is_empty, is_nil, first_of,
  bind, Option-cases, if◌then◌else◌, string_eq,
}
use mqss_integration_deploym.Dict.{
  find, insert_or_assign, emplace, IsDistinct, find-insert_or_assign, find-emplace,
  insert_or_assign-IsDistinct,
}
use mqss_integration_deploym.Mqss.Message.{Address, Headers, Envelope}
use mqss_integration_deploym.Mqss.Rabbit.Envelopes.{
  Table, Properties, BasicMessages, Keeps, table_of, with_reply_to, to_basic_message, headers_of,
  text_or_empty, address_of, read_headers, from_basic_message,
}

-- A reply address without a name is no reply address.
abbrev pub named : Option Address → Option Address
named none = none
named (some a) = if is_empty a.name then none else some a

module _ {M T : Type 0} (messages : BasicMessages M T) (keeps : Keeps messages) where
  abbrev valued : Option String → Option T
  valued none = none
  valued (some s) = some (messages.table_value s)

  find-table_of :
      (j : String) (headers : Headers) (table : Table T)
      → IsDistinct headers
      → find j (table_of messages headers table) ≡ first_of (valued (find j headers)) (find j table)
  unfolding table_of find
  find-table_of j [] table d = refl
  find-table_of j ((k, v) ∷ headers) table (fresh, d) = ground (
    arith,
    string_eq.decides k j,
    find-table_of j headers (insert_or_assign k (messages.table_value v) table) d,
    find-insert_or_assign k j (messages.table_value v) table,
  )

  table_of-IsDistinct :
      (headers : Headers) (table : Table T)
      → IsDistinct table
      → IsDistinct (table_of messages headers table)
  unfolding table_of
  table_of-IsDistinct [] table d = d
  table_of-IsDistinct ((k, v) ∷ headers) table d =
      table_of-IsDistinct headers (insert_or_assign k (messages.table_value v) table)
        (insert_or_assign-IsDistinct k (messages.table_value v) table d)

  -- The headers that are read of a table are those of its entries that are strings.
  find-headers_of :
      (j : String) (table : Table T) (headers : Headers)
      → IsDistinct table
      → find j (headers_of messages table headers)
        ≡ first_of (find j headers) (bind (find j table) messages.get_string)
  unfolding headers_of find
  find-headers_of j [] headers d = ground arith
  find-headers_of j ((k, v) ∷ table) headers (fresh, d) =
      elim (Option-cases (messages.get_string v)) [
        | inl other ↦
            rw other (
              ground
                (arith, other, fresh, string_eq.decides k j, find-headers_of j table headers d))
        | inr (s, text) ↦ rw text (
            ground (
              arith,
              text,
              fresh,
              string_eq.decides k j,
              find-headers_of j table (emplace k s headers) d,
              find-emplace k j s headers,
            ))
      ]

  table_round_trip :
      (j : String) (headers : Headers)
      → IsDistinct headers
      → find j (headers_of messages (table_of messages headers []) []) ≡ find j headers
  unfolding find
  table_round_trip j headers d =
      find-headers_of j (table_of messages headers []) [] (table_of-IsDistinct headers [] tt)
      ∙ (rw (find-table_of j headers [] d) (valued_back (find j headers)))
    where
      valued_back : (o : Option String) → bind (first_of (valued o) none) messages.get_string ≡ o
      valued_back none = refl
      valued_back (some s) = keeps.read_back s

  abbrev unless_empty : String → Option String
  unless_empty s = if is_empty s then none else some s

  abbrev name_of : Option Address → Option String
  name_of none = none
  name_of (some a) = unless_empty a.name

  abbrev table_unless_empty : Headers → Option (Table T)
  table_unless_empty headers = if is_nil headers then none else some (table_of messages headers [])

  properties-to_basic_message :
      (e : Envelope)
      → messages.properties (to_basic_message messages e) ≡ record {
        body = e.payload;
        content_type = unless_empty e.content_type;
        correlation_id = unless_empty e.correlation_id;
        reply_to = name_of e.reply_to;
        header_table = table_unless_empty e.headers;
      }
  unfolding to_basic_message
  properties-to_basic_message e =
      headed_step _ _
        (addressed_step e.reply_to _ _
          (correlated_step e.correlation_id _ _
            (typed_step e.content_type _ _ (keeps.created e.payload) refl) refl)
          refl)
        refl
    where
      typed_step :
          (s : String) (m : M) (p : Properties T)
          → messages.properties m ≡ p
          → p.content_type ≡ none
          → messages.properties (if is_empty s then m else messages.set_content_type s m)
            ≡ record p { content_type = unless_empty s }
      typed_step s m p h unset = ground (arith, keeps.typed s m)

      correlated_step :
          (s : String) (m : M) (p : Properties T)
          → messages.properties m ≡ p
          → p.correlation_id ≡ none
          → messages.properties (if is_empty s then m else messages.set_correlation_id s m)
            ≡ record p { correlation_id = unless_empty s }
      correlated_step s m p h unset = ground (arith, keeps.correlated s m)

      addressed_step :
          (a : Option Address) (m : M) (p : Properties T)
          → messages.properties m ≡ p
          → p.reply_to ≡ none
          → messages.properties (with_reply_to messages a m) ≡ record p { reply_to = name_of a }
      addressed_step none m p h unset = ground arith
      addressed_step (some a) m p h unset = ground (arith, keeps.addressed a.name m)

      headed_step :
          (m : M) (p : Properties T)
          → messages.properties m ≡ p
          → p.header_table ≡ none
          → messages.properties (
              if is_nil e.headers
              then m
              else messages.set_header_table (table_of messages e.headers []) m)
            ≡ record p { header_table = table_unless_empty e.headers }
      headed_step m p h unset = ground (arith, keeps.headed (table_of messages e.headers []) m)

  text_back : (s : String) → text_or_empty messages (unless_empty s) ≡ s
  text_back String.[] = refl
  text_back (String.◌∷◌ c s) = refl

  address_back : (a : Option Address) → address_of messages (name_of a) ≡ named a
  address_back none = refl
  address_back (some a) = ground arith

  headers_back :
      (headers : Headers) (k : String)
      → IsDistinct headers
      → find k (read_headers messages (table_unless_empty headers)) ≡ find k headers
  headers_back [] k d = refl
  headers_back (h ∷ headers) k d = table_round_trip k (h ∷ headers) d

  -- An envelope with distinct header names that is translated into a message and back keeps the
  -- payload, the content type and the correlation id, and the value of every header; it keeps the
  -- reply address too, unless that has no name.
  pub envelope_round_trip :
      (e : Envelope)
      → IsDistinct e.headers
      → let back = from_basic_message messages (to_basic_message messages e) in
        (back.payload ≡ e.payload)
        × (back.content_type ≡ e.content_type)
        × (back.correlation_id ≡ e.correlation_id)
        × (back.reply_to ≡ named e.reply_to)
        × ((k : String) → find k back.headers ≡ find k e.headers)
  unfolding from_basic_message to_basic_message
  envelope_round_trip e d = rw (properties-to_basic_message e) (
    refl,
    text_back e.content_type,
    text_back e.correlation_id,
    address_back e.reply_to,
    λ k. headers_back e.headers k d,
  )
