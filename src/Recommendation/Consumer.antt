-- ===== src/Recommendation/Consumer.antt =====
-- internal/recommendation/consumer.go: the messages of one partition of the topic
-- journey.entered.v1. The query vector comes in as an argument, and so does which commits of an
-- offset are refused.
pub mod Committed
pub mod Once
mod Tests
use spacetime_node.Prelude.{
  ℕ, suc, drop, String, Bool, true, false, Option, none, some, List, [], ◌∷◌, ◌&&◌, ◌||◌, not, ◌==◌,
  if◌then◌else◌, nat_eq, any,
}
use spacetime_node.Platform.Env.{Env, select_recommendation}
use spacetime_node.Platform.Result.{
  Result, ok, err, invalid_event, or_invalid, ◌>>=◌, ◌>>◌, fail_if,
}
use spacetime_node.Platform.Event.{Envelope, Message, malformed, event, text_field}
use spacetime_node.Platform.Database.{Db, RecommendationRow}
use spacetime_node.Recommendation.Recommend.{
  Service, Request, Recommendation, candidate_limit_of, recommend,
}

-- what the consumer reads of an event
pub record EntryEvent : Type 0 where
  pub event_id : String
  pub trace_id : String
  pub journey_id : String
  pub user_id_hash : String
  pub station_id : String

abbrev pub lacks_entry_part : Envelope → String → Bool
lacks_entry_part e station_id =
    e.event_id == ""
    || not (e.event_type == "journey.entered.v1")
    || not (nat_eq e.schema_version 1)
    || e.trace_id == ""
    || e.journey_id == ""
    || e.user_id_hash == ""
    || station_id == ""

-- `DecodeEntryEvent`; the payload's line and position have to be texts too
unfoldable pub decode_entry_event : Message → Result EntryEvent
decode_entry_event malformed = err invalid_event
decode_entry_event (event e) = do
  station_id ← or_invalid (text_field e.payload "station_id")
  _ ← or_invalid (text_field e.payload "line_id")
  _ ← or_invalid (text_field e.payload "position_id")
  fail_if (lacks_entry_part e station_id) invalid_event
  ok (record {
    event_id = e.event_id;
    trace_id = e.trace_id;
    journey_id = e.journey_id;
    user_id_hash = e.user_id_hash;
    station_id = station_id;
  })

abbrev pub of_journey : String → RecommendationRow → Bool
of_journey journey_id r = r.journey_id == journey_id

-- `GetLatest` returns no error
unfoldable pub has_latest : Env → String → Db → Bool
has_latest env journey_id db =
    not (journey_id == "" || env.fails select_recommendation)
    && any (of_journey journey_id) db.recommendations

-- what the message has come to: handled, left without a commit, or the end of the loop
pub data Handled : Type 0 where
  done left ended : Handled

abbrev pub request_of : Service → EntryEvent → Bool → Request
request_of s e has_vector = record {
  user_id_hash = e.user_id_hash;
  journey_id = e.journey_id;
  station_id = e.station_id;
  trace_id = e.trace_id;
  has_vector = has_vector;
  limit = candidate_limit_of s;
}

abbrev pub unless_left : Result Recommendation × Db → Handled × Db
unless_left (err _, db) = (left, db)
unless_left (ok _, db) = (done, db)

-- `QueryVector` and `Recommend`
unfoldable pub recommend_entry :
    Service → (EntryEvent → Result Bool) → Env → EntryEvent → Db → Handled × Db
recommend_entry s vector env e db = elim (vector e) [
  | err _ ↦ (ended, db)
  | ok has_vector ↦ unless_left (recommend s env (request_of s e has_vector) db)
]

unfoldable pub handle_entry :
    Service → (EntryEvent → Result Bool) → Env → Result EntryEvent → Db → Handled × Db
handle_entry s vector env (err _) db = (done, db)
handle_entry s vector env (ok e) db =
    if has_latest env e.journey_id db then (done, db) else recommend_entry s vector env e db

-- the database, and the committed offset of the group
pub record EntryReader : Type 0 where
  pub db : Db
  pub committed : ℕ

-- `reader.CommitMessages`; false if the loop ends
abbrev pub commit_entry : (ℕ → Bool) → ℕ → EntryReader → Handled × Db → Bool × EntryReader
commit_entry refuses offset r (ended, db) = (false, record r { db = db })
commit_entry refuses offset r (left, db) = (true, record r { db = db })
commit_entry refuses offset r (done, db) =
    if refuses offset
    then (false, record r { db = db })
    else (true, record { db = db; committed = suc offset })

unfoldable pub consume_entry :
    Service
    → (EntryEvent → Result Bool)
    → (ℕ → Env)
    → (ℕ → Bool)
    → ℕ
    → Message
    → EntryReader
    → Bool × EntryReader
consume_entry s vector envs refuses offset message r =
    commit_entry refuses offset r
      (handle_entry s vector (envs offset) (decode_entry_event message) r.db)

unfoldable pub consume_entries :
    Service
    → (EntryEvent → Result Bool)
    → (ℕ → Env)
    → (ℕ → Bool)
    → ℕ
    → List Message
    → EntryReader
    → EntryReader
consume_entries s vector envs refuses offset [] r = r
consume_entries s vector envs refuses offset (m ∷ ms) r =
    let (goes_on, r') = consume_entry s vector envs refuses offset m r in
    let rest = consume_entries s vector envs refuses (suc offset) ms r' in
    if goes_on then rest else r'

-- `RunEntryConsumer`, from the committed offset on
unfoldable pub run_entry_consumer :
    Service
    → (EntryEvent → Result Bool)
    → (ℕ → Env)
    → (ℕ → Bool)
    → List Message
    → EntryReader
    → EntryReader
run_entry_consumer s vector envs refuses topic r =
    consume_entries s vector envs refuses r.committed (drop r.committed topic) r
