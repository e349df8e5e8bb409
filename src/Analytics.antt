-- ===== src/Analytics.antt =====
-- internal/analytics/events.go: the events that the analytics consumer accepts.
pub mod Consume
pub mod Covered
pub mod Emitted
mod Tests
use spacetime_node.Prelude.{
  ℕ, String, Bool, true, false, List, [], ◌∷◌, ◌&&◌, ◌||◌, not, ◌==◌, if◌then◌else◌, nat_eq, any,
}
use spacetime_node.Platform.Result.{Result, ok, err, invalid_event, ◌>>=◌, ◌>>◌, fail_if}
use spacetime_node.Platform.Event.{
  Timestamp, absent, unparsable, at, Field, Envelope, Message, malformed, event, value,
}

-- `Topics`
abbrev pub topics : List String
topics =
    "journey.entered.v1" ∷ "recommendation.created.v1" ∷ "notification.sent.v1"
    ∷ "notification.delivered.v1" ∷ "notification.failed.v1" ∷ "recommendation.impressed.v1"
    ∷ "recommendation.clicked.v1" ∷ "recommendation.dismissed.v1" ∷ "redemption.succeeded.v1"
    ∷ "merchant.verified.v1" ∷ "visit.attributed.v1" ∷ []

-- the payload is kept as its fields
pub record ProductEvent : Type 0 where
  pub event_id : String
  pub event_type : String
  pub occurred_at : ℕ
  pub producer : String
  pub trace_id : String
  pub journey_id : String
  pub recommendation_id : String
  pub user_id_hash : String
  pub offer_id : String
  pub redemption_id : String
  pub merchant_id : String
  pub copy_source : String
  pub experiment_id : String
  pub variant : String
  pub attribution_type : String
  pub payload : List (String × Field)

-- `knownTopic`
unfoldable pub known_topic : String → Bool
known_topic topic = any (λ candidate. topic == candidate) topics

abbrev pub is_absent : Timestamp → Bool
is_absent absent = true
is_absent unparsable = false
is_absent (at _) = false

-- the first test
unfoldable pub is_incomplete : Envelope → Bool
is_incomplete e =
    e.event_id == ""
    || not (nat_eq e.schema_version 1)
    || is_absent e.occurred_at
    || e.producer == ""
    || e.trace_id == ""
    || not (known_topic e.event_type)

abbrev pub parse_time : Timestamp → Result ℕ
parse_time absent = err invalid_event
parse_time unparsable = err invalid_event
parse_time (at instant) = ok instant

-- `attributionType`
unfoldable pub attribution_type_of : Envelope → String
attribution_type_of e =
    if e.event_type == "merchant.verified.v1"
    then "observed_pos_verified"
    else value e.payload "attribution_type"

abbrev pub product_event : Envelope → ℕ → ProductEvent
product_event e instant = record {
  event_id = e.event_id;
  event_type = e.event_type;
  occurred_at = instant;
  producer = e.producer;
  trace_id = e.trace_id;
  journey_id = e.journey_id;
  recommendation_id = e.recommendation_id;
  user_id_hash = e.user_id_hash;
  offer_id = value e.payload "offer_id";
  redemption_id = value e.payload "redemption_id";
  merchant_id = value e.payload "merchant_id";
  copy_source = value e.payload "copy_source";
  experiment_id = value e.payload "experiment_id";
  variant = value e.payload "variant";
  attribution_type = attribution_type_of e;
  payload = e.payload;
}

-- `DecodeEvent`
unfoldable pub decode_event : Message → Result ProductEvent
decode_event malformed = err invalid_event
decode_event (event e) = do
  fail_if (is_incomplete e) invalid_event
  instant ← parse_time e.occurred_at
  fail_if (e.journey_id == "") invalid_event
  fail_if (e.event_type == "visit.attributed.v1" && not (attribution_type_of e == "inferred_visit"))
      invalid_event
  ok (product_event e instant)
