-- ===== src/Notification/Worker.antt =====
-- internal/notification/worker.go, `DecodeRecommendationCreatedEvent` and `RunWithProvider`: the
-- messages of the topic, with what a commit of an offset refuses as an argument. The texts of the
-- payload's structure have to be texts, and the reasons a list of them, or the document is refused.
use spacetime_node.Prelude.{
  ℕ, suc, drop, String, Bool, true, false, List, [], ◌∷◌, ◌||◌, not, ◌==◌, if◌then◌else◌, nat_eq,
}
use spacetime_node.Platform.Env.{Env}
use spacetime_node.Platform.Result.{
  Result, ok, err, invalid_event, or_invalid, ◌>>=◌, ◌>>◌, fail_if,
}
use spacetime_node.Platform.Event.{
  Field, text, number, texts, time, Envelope, Message, malformed, event, text_field,
}
use spacetime_node.Platform.Database.{Db}
use spacetime_node.Platform.Outbox.Process.{process}
use spacetime_node.Notification.Window.{Zones}
use spacetime_node.Notification.Deliver.{Created, PushProvider}
use spacetime_node.Notification.Push.{deliver}

abbrev pub are_texts : List (String × Field) → String → Bool
are_texts [] key = true
are_texts ((name, texts _) ∷ rest) key = if name == key then true else are_texts rest key
are_texts ((name, text _) ∷ rest) key = if name == key then false else are_texts rest key
are_texts ((name, number _) ∷ rest) key = if name == key then false else are_texts rest key
are_texts ((name, time _) ∷ rest) key = if name == key then false else are_texts rest key

-- the id of the event, and what `deliver` reads of it
abbrev pub Decoded : Type 0
Decoded = record { event_id : String; created : Created }

abbrev pub lacks_part : Envelope → String → String → Bool
lacks_part e recommended offer_id =
    e.event_id == ""
    || not (e.event_type == "recommendation.created.v1")
    || not (nat_eq e.schema_version 1)
    || e.trace_id == ""
    || e.journey_id == ""
    || e.recommendation_id == ""
    || e.user_id_hash == ""
    || recommended == ""
    || offer_id == ""

-- `DecodeRecommendationCreatedEvent`
unfoldable pub decode_created_event : Message → Result Decoded
decode_created_event malformed = err invalid_event
decode_created_event (event e) = do
  recommended ← or_invalid (text_field e.payload "recommendation_id")
  offer_id ← or_invalid (text_field e.payload "offer_id")
  _ ← or_invalid (text_field e.payload "copy_source")
  fail_if (not (are_texts e.payload "reasons")) invalid_event
  fail_if (lacks_part e recommended offer_id) invalid_event
  ok (record {
    event_id = e.event_id;
    created = record {
      trace_id = e.trace_id;
      journey_id = e.journey_id;
      recommendation_id = e.recommendation_id;
      user_id_hash = e.user_id_hash;
      offer_id = offer_id;
    };
  })

-- `NotificationConsumer`
abbrev pub notification_consumer : String
notification_consumer = "notification-worker-v1"

-- false if the loop ends with an error
abbrev pub unless_failed {ℓ} : {A : Type ℓ} → Result A × Db → Bool × Db
unless_failed (err _, db) = (false, db)
unless_failed (ok _, db) = (true, db)

-- the event of a message, handled or skipped
unfoldable pub handle_decoded : Zones → PushProvider → Env → Result Decoded → Db → Bool × Db
handle_decoded zones provider env (err _) db = (true, db)
handle_decoded zones provider env (ok d) db =
    unless_failed
      (process env notification_consumer d.event_id (deliver env zones provider d.created) db)

unfoldable pub handle_message : Zones → PushProvider → Env → Message → Db → Bool × Db
handle_message zones provider env message =
    handle_decoded zones provider env (decode_created_event message)

-- the database, and the committed offset of the group
pub record Worker : Type 0 where
  pub db : Db
  pub committed : ℕ

-- `reader.CommitMessages`, or the end of the loop
abbrev pub commit_offset : (ℕ → Bool) → ℕ → Worker → Bool × Db → Bool × Worker
commit_offset refuses offset w (false, db) = (false, record w { db = db })
commit_offset refuses offset w (true, db) =
    if refuses offset
    then (false, record w { db = db })
    else (true, record { db = db; committed = suc offset })

unfoldable pub work_message :
    Zones → PushProvider → (ℕ → Env) → (ℕ → Bool) → ℕ → Message → Worker → Bool × Worker
work_message zones provider envs refuses offset message w =
    commit_offset refuses offset w (handle_message zones provider (envs offset) message w.db)

unfoldable pub work_from :
    Zones → PushProvider → (ℕ → Env) → (ℕ → Bool) → ℕ → List Message → Worker → Worker
work_from zones provider envs refuses offset [] w = w
work_from zones provider envs refuses offset (m ∷ ms) w =
    let (goes_on, w') = work_message zones provider envs refuses offset m w in
    let rest = work_from zones provider envs refuses (suc offset) ms w' in
    if goes_on then rest else w'

-- `RunWithProvider`
unfoldable pub run_with_provider :
    Zones → PushProvider → (ℕ → Env) → (ℕ → Bool) → List Message → Worker → Worker
run_with_provider zones provider envs refuses topic w =
    work_from zones provider envs refuses w.committed (drop w.committed topic) w
