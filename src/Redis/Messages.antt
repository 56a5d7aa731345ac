-- ===== src/Redis/Messages.antt =====
-- `_as_text`, `_field_pairs_to_dict`, `_parse_stream_response` and the list of `xrange`. `repr`
-- stands for Python's `str` of a list.
pub mod RoundTrip
use retail_ops_microservices.Base.{
  ℕ, String, Option, none, some, List, [], ◌∷◌, ◌++◌, ◌==◌, if◌then◌else◌, or_else,
}
use retail_ops_microservices.Base.Exec.{Result, ok, err}
use retail_ops_microservices.Base.Utf8.{decode}
use retail_ops_microservices.Base.Decimal.{digits, decimal, int_codes}
use retail_ops_microservices.Redis.Reader.{
  RedisError, unexpected_response, unicode_decode_error, RedisValue, RedisValues, bytes, integer,
  str, null, array, nil, cons,
}
use retail_ops_microservices.Workflow.{Fields, StreamMessage}

infixl 10 ◌then_◌
abbrev pub ◌then_◌ :
    {A B : Type 0} → Result RedisError A → (A → Result RedisError B) → Result RedisError B
(ok a) then_ f = f a
(err e) then_ f = err e

abbrev pub decoded_text : Option String → Result RedisError String
decoded_text none = err unicode_decode_error
decoded_text (some t) = ok t

-- `fields[key] = value`: a key keeps its place.
abbrev pub set_field : String → String → Fields → Fields
set_field key value [] = (key, value) ∷ []
set_field key value ((k, v) ∷ fields) =
    if k == key then (key, value) ∷ fields else (k, v) ∷ set_field key value fields

module _ (repr : RedisValues → String) where
  unfoldable pub as_text : RedisValue → Result RedisError String
  unfolding decode decimal
  as_text (bytes b) = decoded_text (decode b)
  as_text null = ok ""
  as_text (integer z) = ok (or_else (decode (int_codes z)) "")
  as_text (str t) = ok t
  as_text (array values) = ok (repr values)

  -- The pairs from the left; a key without a value at the end is dropped.
  unfoldable pub add_pairs : Fields → RedisValues → Result RedisError Fields
  unfolding as_text
  add_pairs fields nil = ok fields
  add_pairs fields (cons key nil) = ok fields
  add_pairs fields (cons key (cons value rest)) =
      as_text value then_ λ v. as_text key then_ λ k. add_pairs (set_field k v fields) rest

  unfoldable pub field_pairs_to_dict : RedisValues → Result RedisError Fields
  unfolding add_pairs
  field_pairs_to_dict values = add_pairs [] values

  -- A pair of an id and a list of fields is a message, anything else is passed over.
  abbrev pub stream_message : String → RedisValue → Result RedisError (List StreamMessage)
  unfolding as_text field_pairs_to_dict
  stream_message stream (array (cons id (cons (array raw_fields) nil))) =
      as_text id then_ λ message_id. field_pairs_to_dict raw_fields then_ λ fields.
      ok (record { stream = stream; message_id = message_id; fields = fields } ∷ [])
  stream_message stream _ = ok []

  unfoldable stream_messages : String → RedisValues → Result RedisError (List StreamMessage)
  stream_messages stream nil = ok []
  stream_messages stream (cons value values) = stream_message stream value then_ λ first.
      stream_messages stream values then_ λ others. ok (first ++ others)

  abbrev messages_of : String → RedisValue → Result RedisError (List StreamMessage)
  unfolding stream_messages
  messages_of stream (array raw_messages) = stream_messages stream raw_messages
  messages_of stream _ = ok []

  -- The name of the stream is decoded before the messages are looked at.
  abbrev pub stream_entry : RedisValue → Result RedisError (List StreamMessage)
  unfolding as_text stream_messages
  stream_entry (array (cons name (cons raw_messages nil))) =
      as_text name then_ λ stream. messages_of stream raw_messages
  stream_entry _ = ok []

  unfoldable stream_entries : RedisValues → Result RedisError (List StreamMessage)
  stream_entries nil = ok []
  stream_entries (cons value values) =
      stream_entry value then_ λ first. stream_entries values then_ λ others. ok (first ++ others)

  unfoldable pub parse_stream_response : RedisValue → Result RedisError (List StreamMessage)
  unfolding stream_entries
  parse_stream_response null = ok []
  parse_stream_response (array entries) = stream_entries entries
  parse_stream_response _ = err unexpected_response

  -- The answer to XRANGE.
  unfoldable pub range_messages : String → RedisValue → Result RedisError (List StreamMessage)
  unfolding stream_messages
  range_messages stream null = ok []
  range_messages stream (array items) = stream_messages stream items
  range_messages stream _ = err unexpected_response
