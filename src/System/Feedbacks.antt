-- ===== src/System/Feedbacks.antt =====
-- internal/journey/service.go, `RecordRecommendationEvent`, keeps the tables healthy.
use mathlib.Core.Path.{subst}
use spacetime_node.Prelude.{
  ◌≡◌, refl, sym, ◌⊎◌, String, true, false, List, ◌==◌, any, arith, inl, inr, Bool-cases,
  Option-cases, eq_iff,
}
use spacetime_node.Prelude.Table.{find}
use spacetime_node.Platform.Env.{Env, begin_tx, commit_tx, insert_processed, insert_dismissal}
use spacetime_node.Platform.Result.{ok, unavailable, >>=-ok, fail_if-ok, ok-state}
use spacetime_node.Platform.Database.{Db, JourneyRow, DismissalRow}
use spacetime_node.Platform.Outbox.Process.{is_claim, claim}
use spacetime_node.Recommendation.Feedback.{apply_preference_feedback}
use spacetime_node.Journey.Feedback.{
  FeedbackRequest, valid_recommendation_event_type, is_invalid, select_row, offer_of, add_dismissal,
  dismiss, dismissal_of, is_same_dismissal, record_dismissal, feedback_event, consumer,
  feedback_event_id, apply_feedback, claim_and_apply, record_event_tx, record_event,
}
use spacetime_node.Analytics.{known_topic}
use spacetime_node.Analytics.Emitted.{IsComplete}
use spacetime_node.System.Healthy.{
  IsHealthy, Keeps, Keeps-IsHealthy, enqueue-IsHealthy, feedback-IsHealthy, settle-IsHealthy,
}
use spacetime_node.System.Entries.{IsRandom, trace-given}

add_dismissal-Keeps : (row : DismissalRow) (db : Db) → Keeps db (add_dismissal row db)
unfolding add_dismissal
add_dismissal-Keeps row db =
    elim (Bool-cases (any (is_same_dismissal row) db.recommendation_dismissals)) [
      | inl known ↦ rw known (record { outbox = refl; redemptions = refl; weights = refl })
      | inr new ↦ rw new (record { outbox = refl; redemptions = refl; weights = refl })
    ]

dismiss-Keeps :
    (req : FeedbackRequest) (offer_id : String) (db : Db) → Keeps db (dismiss req offer_id db)
unfolding dismiss
dismiss-Keeps req offer_id db =
    elim (Option-cases (find (λ (j : JourneyRow). j.journey_id == req.journey_id) db.journeys)) [
      | inl nothing ↦
          rw (nothing, dismiss) (record { outbox = refl; redemptions = refl; weights = refl })
      | inr (j, found) ↦ rw (found, dismiss) (add_dismissal-Keeps (dismissal_of req offer_id j) db)
    ]

record_dismissal-Keeps :
    (env : Env) (req : FeedbackRequest) (offer_id : String) (db : Db) {db' : Db}
    → record_dismissal env req offer_id db ≡ ok db'
    → Keeps db db'
unfolding record_dismissal
record_dismissal-Keeps env req offer_id db {db'} e =
    elim (Bool-cases (req.event_type == "recommendation.dismissed.v1")) [
      | inr other ↦
          let same : db ≡ db' = ground arith in
          subst (Keeps db) same (record { outbox = refl; redemptions = refl; weights = refl })
      | inl dismissed ↦
          let (_, e₁) =
            fail_if-ok (env.fails insert_dismissal) (unavailable insert_dismissal) _
              (rw dismissed at e) in
          let same : dismiss req offer_id db ≡ db' = ground arith in
          subst (Keeps db) same (dismiss-Keeps req offer_id db)
    ]

event_type-cases :
    (t : String)
    → valid_recommendation_event_type t ≡ true
    → (t ≡ "recommendation.impressed.v1")
      ⊎ ((t ≡ "recommendation.clicked.v1") ⊎ (t ≡ "recommendation.dismissed.v1"))
unfolding valid_recommendation_event_type
event_type-cases t h = ground (
  arith,
  eq_iff t "recommendation.impressed.v1",
  eq_iff t "recommendation.clicked.v1",
  eq_iff t "recommendation.dismissed.v1",
)

abbrev IsFeedback : String → Type 0
IsFeedback t = (known_topic t ≡ true) × ((t == "visit.attributed.v1") ≡ false)

event_type-IsFeedback : (t : String) → valid_recommendation_event_type t ≡ true → IsFeedback t
unfolding known_topic
event_type-IsFeedback t h = elim (event_type-cases t h) [
  | inl a ↦ subst IsFeedback (sym a) (refl, refl)
  | inr (inl b) ↦ subst IsFeedback (sym b) (refl, refl)
  | inr (inr c) ↦ subst IsFeedback (sym c) (refl, refl)
]

feedback-IsComplete :
    (env : Env) (req : FeedbackRequest) (id offer_id : String)
    → IsRandom env
    → is_invalid req ≡ false
    → IsComplete (feedback_event env req id offer_id) env.now
feedback-IsComplete env req id offer_id r valid =
    let (known, no_visit) = event_type-IsFeedback req.event_type (ground arith) in
    record {
      version = refl;
      occurred = refl;
      producer = refl;
      trace = trace-given env req.trace_id r;
      known = known;
      journey = ground arith;
      no_visit = no_visit;
    }

apply_feedback-IsHealthy :
    (env : Env) (req : FeedbackRequest) (id offer_id : String) (db : Db) {db' : Db}
    → IsRandom env
    → is_invalid req ≡ false
    → apply_feedback env req id offer_id db ≡ ok db'
    → IsHealthy db
    → IsHealthy db'
unfolding apply_feedback
apply_feedback-IsHealthy env req id offer_id db {db'} r valid e h =
    let (db₁, weighed, e₁) =
      >>=-ok (apply_preference_feedback env req.user_id_hash offer_id req.event_type db) _ e in
    let (db₂, off, e₂) = >>=-ok (record_dismissal env req offer_id db₁) _ e₁ in
    let h₁ = feedback-IsHealthy env req.user_id_hash offer_id req.event_type db weighed h in
    let h₂ = Keeps-IsHealthy (record_dismissal-Keeps env req offer_id db₁ off) h₁ in
    enqueue-IsHealthy env _ (feedback_event env req id offer_id) db₂ e₂ refl refl refl
      (feedback-IsComplete env req id offer_id r valid) h₂

claim_and_apply-IsHealthy :
    (env : Env) (req : FeedbackRequest) (id offer_id : String) (db : Db) {x : String} {db' : Db}
    → IsRandom env
    → is_invalid req ≡ false
    → claim_and_apply env req id offer_id db ≡ ok (x, db')
    → IsHealthy db
    → IsHealthy db'
unfolding claim_and_apply
claim_and_apply-IsHealthy env req id offer_id db {x} {db'} r valid e h =
    let (_, e₁) = fail_if-ok (env.fails insert_processed) _ _ e in
    elim (Bool-cases (any (is_claim consumer id) db.processed_events)) [
      | inl claimed ↦ let same : db ≡ db' = ground arith in subst IsHealthy same h
      | inr new ↦
          let (db₁, applied, e₂) =
            >>=-ok (apply_feedback env req id offer_id (claim consumer id db)) _ (rw new at e₁) in
          let (_, e₃) = fail_if-ok (env.fails commit_tx) (unavailable commit_tx) _ e₂ in
          let h₁ =
            apply_feedback-IsHealthy env req id offer_id (claim consumer id db) r valid applied
              (record { emitted = h.emitted; placed = h.placed; bounded = h.bounded }) in
          subst IsHealthy (ok-state e₃) h₁
    ]

record_event_tx-IsHealthy :
    (hash : List String → String) (env : Env) (req : FeedbackRequest) (db : Db) (x : String)
    (db' : Db)
    → IsRandom env
    → IsHealthy db
    → record_event_tx hash env req db ≡ ok (x, db')
    → IsHealthy db'
unfolding record_event_tx
record_event_tx-IsHealthy hash env req db x db' r h e =
    let (valid, e₁) = fail_if-ok (is_invalid req) _ _ e in
    let (_, e₂) = fail_if-ok (env.fails begin_tx) _ _ e₁ in
    let (row, _, e₃) = >>=-ok (select_row env req db) _ e₂ in
    let (offer_id, _, e₄) = >>=-ok (offer_of req row) _ e₃ in
    claim_and_apply-IsHealthy env req (feedback_event_id hash req offer_id) offer_id db r valid e₄ h

pub record_event-IsHealthy :
    (hash : List String → String) (env : Env) (req : FeedbackRequest) (db : Db)
    → IsRandom env
    → IsHealthy db
    → IsHealthy (record_event hash env req db).1
unfolding record_event
record_event-IsHealthy hash env req db r h =
    settle-IsHealthy db (record_event_tx hash env req db)
      (λ x db' e. record_event_tx-IsHealthy hash env req db x db' r h e) h
