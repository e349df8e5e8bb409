-- ===== src/Platform/Event.antt =====
-- The JSON documents that go through Kafka. A document is kept as what `json.Unmarshal` reads from
-- it: an event envelope, or nothing for bytes that are no such document, for want of a payload too.
-- A field that is missing reads as the empty value, as it does in Go.
use Prim.Native.Nat.{ℕ}
use Prim.Native.String.{String}
use mathlib.Core.Option.{Option, none, some}
use mathlib.Core.List.{List, [], ◌∷◌}
use spacetime_node.Prelude.{◌==◌, if◌then◌else◌}

-- `time.Parse(time.RFC3339Nano, s)`: no text, a text that does not parse, or an instant
pub data Timestamp : Type 0 where
  absent unparsable : Timestamp
  at : ℕ → Timestamp

pub data Field : Type 0 where
  text : String → Field
  number : ℕ → Field
  texts : List String → Field
  time : Timestamp → Field

pub record Envelope : Type 0 where
  pub event_id : String
  pub event_type : String
  pub schema_version : ℕ
  pub occurred_at : Timestamp
  pub producer : String
  pub trace_id : String
  pub journey_id : String
  pub recommendation_id : String
  pub user_id_hash : String
  pub payload : List (String × Field)

pub data Message : Type 0 where
  malformed : Message
  event : Envelope → Message

-- the fields of a payload by name: one that is missing, or is no text, is empty for `value` of
-- internal/analytics/events.go
abbrev pub value : List (String × Field) → String → String
value [] key = ""
value ((name, text s) ∷ rest) key = if name == key then s else value rest key
value ((name, _) ∷ rest) key = if name == key then "" else value rest key

-- a text where a structure wants one; none for a value of another kind
abbrev pub text_field : List (String × Field) → String → Option String
text_field [] key = some ""
text_field ((name, text s) ∷ rest) key = if name == key then some s else text_field rest key
text_field ((name, number _) ∷ rest) key = if name == key then none else text_field rest key
text_field ((name, texts _) ∷ rest) key = if name == key then none else text_field rest key
text_field ((name, time _) ∷ rest) key = if name == key then none else text_field rest key
