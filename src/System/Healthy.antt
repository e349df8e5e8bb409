-- ===== src/System/Healthy.antt =====
-- What holds of the tables whatever the services do: the events of the outbox are complete, every
-- redemption has its journey, and the learned weights are in their range.
use mathlib.Core.Path.{subst}
use spacetime_node.Prelude.{◌≡◌, sym, String, false, [], ◌∷◌, ◌==◌, All, All-append, inl, inr}
use spacetime_node.Platform.Env.{Env}
use spacetime_node.Platform.Result.{Result, ok, settle, Result-cases}
use spacetime_node.Platform.Event.{Envelope, event}
use spacetime_node.Platform.Database.{Db, OutboxRow, RedemptionRow}
use spacetime_node.Platform.Outbox.{Event, new_row, enqueue}
use spacetime_node.Platform.Outbox.Enqueue.{enqueue_lem}
use spacetime_node.Platform.Outbox.Publish.{event_of}
use spacetime_node.Recommendation.Feedback.{apply_preference_feedback}
use spacetime_node.Recommendation.Feedback.Bounds.{IsBounded, apply_preference_feedback-IsBounded}
use spacetime_node.Recommendation.Feedback.Frame.{apply_preference_feedback-OnlyWeights}
use spacetime_node.Analytics.Emitted.{IsAccepted, IsComplete, enqueue-IsAccepted}

abbrev pub IsEmitted : OutboxRow → Type 0
IsEmitted row = IsAccepted (event_of row)

abbrev pub IsPlaced : RedemptionRow → Type 0
IsPlaced r = (r.journey_id == "") ≡ false

pub record IsHealthy (db : Db) : Type 0 where
  pub emitted : All IsEmitted db.outbox_events
  pub placed : All IsPlaced db.redemptions
  pub bounded : All IsBounded db.user_preference_weights

-- the three tables are as they were
pub record Keeps (db db' : Db) : Type 0 where
  pub outbox : db'.outbox_events ≡ db.outbox_events
  pub redemptions : db'.redemptions ≡ db.redemptions
  pub weights : db'.user_preference_weights ≡ db.user_preference_weights

pub Keeps-IsHealthy : {db db' : Db} → Keeps db db' → IsHealthy db → IsHealthy db'
Keeps-IsHealthy k h = record {
  emitted = rw k.outbox h.emitted;
  placed = rw k.redemptions h.placed;
  bounded = rw k.weights h.bounded;
}

pub enqueue-IsHealthy :
    (env : Env) (ev : Event) (envelope : Envelope) (db : Db) {db' : Db}
    → enqueue env ev db ≡ ok db'
    → ev.payload ≡ event envelope
    → envelope.event_id ≡ ev.id
    → envelope.event_type ≡ ev.topic
    → IsComplete envelope env.now
    → IsHealthy db
    → IsHealthy db'
enqueue-IsHealthy env ev envelope db done carries same_id same_topic c h =
    let a = enqueue-IsAccepted env ev envelope db done carries same_id same_topic c in
    rw (enqueue_lem env ev db done) (record {
      emitted = All-append IsEmitted db.outbox_events (new_row env ev ∷ []) h.emitted (a, tt);
      placed = h.placed;
      bounded = h.bounded;
    })

pub feedback-IsHealthy :
    (env : Env) (user_id_hash offer_id event_type : String) (db : Db) {db' : Db}
    → apply_preference_feedback env user_id_hash offer_id event_type db ≡ ok db'
    → IsHealthy db
    → IsHealthy db'
feedback-IsHealthy env user_id_hash offer_id event_type db {db'} e h =
    let only = apply_preference_feedback-OnlyWeights env user_id_hash offer_id event_type db e in
    let b =
      apply_preference_feedback-IsBounded env user_id_hash offer_id event_type db h.bounded e in
    subst IsHealthy (sym only) (record { emitted = h.emitted; placed = h.placed; bounded = b })

-- a transaction that is rolled back changes nothing
pub settle-IsHealthy {ℓ} :
    {A : Type ℓ} (db : Db) (m : Result (A × Db))
    → ((a : A) (db' : Db) → m ≡ ok (a, db') → IsHealthy db')
    → IsHealthy db
    → IsHealthy (settle db m).1
settle-IsHealthy db m commits h = elim (Result-cases m) [
  | inl ((a, db'), done) ↦ rw done (commits a db' done)
  | inr (_, failed) ↦ rw failed h
]
