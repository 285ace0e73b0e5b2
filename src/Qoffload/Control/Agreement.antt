-- ===== src/Qoffload/Control/Agreement.antt =====
-- The two protocols of the control interface name the same commands.
use mqss_integration_deploym.Base.{
  ℕ, zero, suc, ◌^◌, ◌<◌, ◌%◌, ◌/◌, Char, String, true, false, ◌≡◌, refl, ap, sym, ◌∙◌, List, [],
  ◌∷◌, some, arith, is_nil, ltb, Bool-cases, inl, inr, string_eq,
}
use mqss_integration_deploym.Words.{to_int32, int32_round_trip}
use mqss_integration_deploym.Qoffload.Decimal.{
  digit, digits, to_string, from_chars, from_chars-to_string, digit-is_digit, is_digit,
  digits_start, starts_with_digit,
}
use mqss_integration_deploym.Qoffload.Path.{chars, text, is_slash, split_path}
use mqss_integration_deploym.Qoffload.Path.Laws.{
  chars-text, NoSlash, IsPart, joined, split_path-joined,
}
use mqss_integration_deploym.Qoffload.Proto.{ApiRequest, TypedRequest, Fields}
use mqss_integration_deploym.Qoffload.Protocol.{
  ControlCommand, get_task_status, get_task_result, get_cancel_reason,
}
use mqss_integration_deploym.Qoffload.Rest
use mqss_integration_deploym.Qoffload.Rest.{parse_task_id, command_for, get_command, job_command}
use mqss_integration_deploym.Qoffload.Typed

digit-NoSlash : (d : ℕ) → d < 10 → is_slash (digit d) ≡ false
unfolding is_digit
digit-NoSlash d h = ground (arith, digit-is_digit d h)

digits-NoSlash : (fuel n : ℕ) (out : List Char) → NoSlash out → NoSlash (digits fuel n out)
unfolding digits
digits-NoSlash zero n out h = h
digits-NoSlash (suc fuel) n out h = elim (Bool-cases (ltb n 10)) [
  | inl small ↦ rw small (digit-NoSlash n (ground arith), h)
  | inr large ↦ rw large (
      digits-NoSlash fuel (n / 10) (digit (n % 10) ∷ out) (digit-NoSlash (n % 10) (omega arith), h))
]

nonempty_of_start : (s : List Char) → starts_with_digit s ≡ true → is_nil s ≡ false
nonempty_of_start [] h = cc
nonempty_of_start (c ∷ s) h = refl

to_string-IsPart : (n : ℕ) → IsPart (to_string n)
unfolding to_string
to_string-IsPart n = (
  digits-NoSlash (suc n) n [] tt,
  nonempty_of_start (to_string n) (digits_start (suc n) n [] (omega arith)),
)

parse_of_from_chars :
    (s : List Char) (n : ℕ) → from_chars s ≡ some (n, []) → parse_task_id s ≡ some n
unfolding parse_task_id from_chars
parse_of_from_chars [] n h = cc
parse_of_from_chars (c ∷ s) n h = ground arith

-- The id that a REST client is told, `std::to_string` of a number below 2 ^ 64, is the id that the
-- service reads from the client's paths.
pub parse_task_id-to_string : (n : ℕ) → n < 2 ^ 64 → parse_task_id (to_string n) ≡ some n
parse_task_id-to_string n h = parse_of_from_chars (to_string n) n (from_chars-to_string n h)

-- The three queries about a task, in either protocol.
pub data Query : Type 0 where
  asks_status asks_result asks_reason : Query

abbrev pub word : Query → String
word asks_status = "status"
word asks_result = "result"
word asks_reason = "cancel_reason"

abbrev pub typed : Query → ℕ → TypedRequest
typed asks_status uuid = TypedRequest.task_status uuid
typed asks_result uuid = TypedRequest.task_result uuid
typed asks_reason uuid = TypedRequest.cancel_reason uuid

abbrev slash : Char
slash = "/"

abbrev pub rest_path : Query → ℕ → String
rest_path q id = text (joined slash (chars "job" ∷ to_string id ∷ chars (word q) ∷ []))

word-IsPart : (q : Query) → IsPart (chars (word q))
word-IsPart asks_status = ground arith
word-IsPart asks_result = ground arith
word-IsPart asks_reason = ground arith

split-rest_path :
    (q : Query) (id : ℕ)
    → split_path (chars (rest_path q id)) ≡ chars "job" ∷ to_string id ∷ chars (word q) ∷ []
split-rest_path q id =
    ap split_path (chars-text (joined slash (chars "job" ∷ to_string id ∷ chars (word q) ∷ [])))
    ∙ split_path-joined slash refl (chars "job") (to_string id ∷ chars (word q) ∷ []) (ground arith)
        (to_string-IsPart id, (word-IsPart q, tt))

abbrev command_of_query : Query → ℕ → ControlCommand
command_of_query asks_status id = get_task_status id
command_of_query asks_result id = get_task_result id
command_of_query asks_reason id = get_cancel_reason id

rest-command :
    (q : Query) (id : ℕ) (part : List Char)
    → parse_task_id part ≡ some id
    → get_command (chars "job" ∷ part ∷ chars (word q) ∷ []) ≡ command_of_query q id
unfolding get_command
rest-command asks_status id part h = rw (h, job_command)
rest-command asks_result id part h = rw (h, job_command)
rest-command asks_reason id part h = rw (h, job_command)

decode_lem :
    (r : ApiRequest)
    → Rest.decode r ≡ record {
      command = command_for r (split_path (chars r.request));
      response_queue = r.response_queue;
    }
unfolding Rest.decode
decode_lem r = refl

get_three :
    (a b c : List Char) (r : ApiRequest)
    → r.method ≡ "GET"
    → command_for r (a ∷ b ∷ c ∷ []) ≡ get_command (a ∷ b ∷ c ∷ [])
unfolding command_for
get_three a b c r h = rw h refl

rest_decodes :
    (q : Query) (id : ℕ) (authorization queue : String) (body : Fields)
    → id < 2 ^ 31
    → Rest.decode (record {
      authorization = authorization;
      method = "GET";
      request = rest_path q id;
      body = body;
      response_queue = queue;
      typed_request = TypedRequest.typed_request_not_set;
    })
      ≡ record { command = command_of_query q id; response_queue = queue }
rest_decodes q id authorization queue body small =
    let r : ApiRequest = record {
      authorization = authorization;
      method = "GET";
      request = rest_path q id;
      body = body;
      response_queue = queue;
      typed_request = TypedRequest.typed_request_not_set;
    } in
    let command : command_for r (split_path (chars (rest_path q id))) ≡ command_of_query q id =
      ap (command_for r) (split-rest_path q id)
      ∙ get_three (chars "job") (to_string id) (chars (word q)) r refl
      ∙ rest-command q id (to_string id) (parse_task_id-to_string id (omega arith)) in
    decode_lem r ∙ (λ i. record { command = command i; response_queue = queue })

typed_decodes :
    (q : Query) (id : ℕ) (authorization queue : String) (body : Fields)
    → id < 2 ^ 31
    → Typed.decode (record {
      authorization = authorization;
      method = "";
      request = "";
      body = body;
      response_queue = queue;
      typed_request = typed q (to_int32 id);
    })
      ≡ record { command = command_of_query q id; response_queue = queue }
unfolding Typed.decode
typed_decodes asks_status id authorization queue body small = rw (int32_round_trip id small)
typed_decodes asks_result id authorization queue body small = rw (int32_round_trip id small)
typed_decodes asks_reason id authorization queue body small = rw (int32_round_trip id small)

-- For each of the three queries and an id below 2 ^ 31, a GET of the path of the query, with the id
-- printed as `std::to_string` does, and the typed request with the id are decoded to the same command,
-- and the response goes to the queue that the request names.
pub query_agrees :
    (q : Query) (id : ℕ) (authorization queue : String) (body : Fields)
    → id < 2 ^ 31
    → Rest.decode (record {
      authorization = authorization;
      method = "GET";
      request = rest_path q id;
      body = body;
      response_queue = queue;
      typed_request = TypedRequest.typed_request_not_set;
    })
      ≡ Typed.decode (record {
        authorization = authorization;
        method = "";
        request = "";
        body = body;
        response_queue = queue;
        typed_request = typed q (to_int32 id);
      })
query_agrees q id authorization queue body small =
    rest_decodes q id authorization queue body small
    ∙ sym (typed_decodes q id authorization queue body small)
