-- ===== src/Journey/Retry.antt =====
-- A feedback event that is sent again (internal/journey/service.go, `RecordRecommendationEvent`).
use spacetime_node.Prelude.{
  ◌≡◌, refl, sym, ◌∙◌, String, true, false, List, ◌==◌, any, arith, Bool-cases, Option-cases, inl,
  inr,
}
use mathlib.Core.Path.{subst}
use spacetime_node.Prelude.Table.{find}
use spacetime_node.Platform.Env.{
  Env, begin_tx, commit_tx, select_recommendation, insert_processed, insert_dismissal,
}
use spacetime_node.Platform.Result.{ok, >>=-ok, fail_if-ok, Result-cases}
use spacetime_node.Platform.Database.{Db, RecommendationRow, JourneyRow, DismissalRow}
use spacetime_node.Platform.Outbox.Enqueue.{enqueue_lem}
use spacetime_node.Platform.Outbox.Process.{is_claim, claim, claimed-claim}
use spacetime_node.Recommendation.Feedback.{apply_preference_feedback}
use spacetime_node.Recommendation.Feedback.Frame.{apply_preference_feedback-OnlyWeights}
use spacetime_node.Journey.Feedback.{
  FeedbackRequest, is_invalid, select_row, offer_of, is_same_dismissal, add_dismissal, dismissal_of,
  dismiss, record_dismissal, consumer, feedback_event_id, apply_feedback, claim_and_apply,
  record_event_tx, record_event,
}

-- The tables that a feedback event leaves alone, and that it claims the event.
record IsKept (db db' : Db) : Type 0 where
  users : db'.users ≡ db.users
  journeys : db'.journeys ≡ db.journeys
  recommendations : db'.recommendations ≡ db.recommendations
  claims : db'.processed_events ≡ db.processed_events

add_dismissal-IsKept : (row : DismissalRow) (db : Db) → IsKept db (add_dismissal row db)
unfolding add_dismissal
add_dismissal-IsKept row db =
    elim (Bool-cases (any (is_same_dismissal row) db.recommendation_dismissals)) [
      | inl known ↦
          rw known record { users = refl; journeys = refl; recommendations = refl; claims = refl }
      | inr new ↦
          rw new record { users = refl; journeys = refl; recommendations = refl; claims = refl }
    ]

dismiss-IsKept :
    (req : FeedbackRequest) (offer_id : String) (db : Db) → IsKept db (dismiss req offer_id db)
unfolding dismiss
dismiss-IsKept req offer_id db =
    elim (Option-cases (find (λ (j : JourneyRow). j.journey_id == req.journey_id) db.journeys)) [
      | inl nowhere ↦
          rw (nowhere, dismiss)
            record { users = refl; journeys = refl; recommendations = refl; claims = refl }
      | inr (j, found) ↦ rw (found, dismiss) (add_dismissal-IsKept (dismissal_of req offer_id j) db)
    ]

record_dismissal-IsKept :
    (env : Env) (req : FeedbackRequest) (offer_id : String) (db : Db) {db' : Db}
    → record_dismissal env req offer_id db ≡ ok db'
    → IsKept db db'
unfolding record_dismissal
record_dismissal-IsKept env req offer_id db {db'} e =
    elim (Bool-cases (req.event_type == "recommendation.dismissed.v1")) [
      | inl mine ↦
          let (_, e₁) = fail_if-ok (env.fails insert_dismissal) _ _ (rw mine at e) in
          let done : dismiss req offer_id db ≡ db' = ground arith in
          subst (λ (z : Db). IsKept db z) done (dismiss-IsKept req offer_id db)
      | inr other ↦
          let same : db ≡ db' = ground arith in
          let still : IsKept db db = record {
            users = refl;
            journeys = refl;
            recommendations = refl;
            claims = refl;
          } in
          subst (λ (z : Db). IsKept db z) same still
    ]

apply_feedback-IsKept :
    (env : Env) (req : FeedbackRequest) (id offer_id : String) (db : Db) {db' : Db}
    → apply_feedback env req id offer_id db ≡ ok db'
    → IsKept db db'
unfolding apply_feedback
apply_feedback-IsKept env req id offer_id db {db'} e =
    let (db₁, weighed, e₁) =
      >>=-ok (apply_preference_feedback env req.user_id_hash offer_id req.event_type db) _ e in
    let (db₂, off, e₂) = >>=-ok (record_dismissal env req offer_id db₁) _ e₁ in
    let w =
      apply_preference_feedback-OnlyWeights env req.user_id_hash offer_id req.event_type db
        weighed in
    let d = record_dismissal-IsKept env req offer_id db₁ off in
    let q = enqueue_lem env _ db₂ e₂ in
    record {
      users = rw q (d.users ∙ rw w refl);
      journeys = rw q (d.journeys ∙ rw w refl);
      recommendations = rw q (d.recommendations ∙ rw w refl);
      claims = rw q (d.claims ∙ rw w refl);
    }

-- The calls of a repeated event do not fail.
pub record CanRepeat (env : Env) : Type 0 where
  pub begins : env.fails begin_tx ≡ false
  pub selects : env.fails select_recommendation ≡ false
  pub claims : env.fails insert_processed ≡ false
  pub commits : env.fails commit_tx ≡ false

-- what a call leaves: its event claimed, and the tables that it reads as they were
pub record IsClaimed (id : String) (db : Db) (x : String) (db' : Db) : Type 0 where
  pub named : x ≡ id
  claimed : any (is_claim consumer id) db'.processed_events ≡ true
  users : db'.users ≡ db.users
  journeys : db'.journeys ≡ db.journeys
  recommendations : db'.recommendations ≡ db.recommendations

pub claim_and_apply-IsClaimed :
    (env : Env) (req : FeedbackRequest) (id offer_id : String) (db : Db) {x : String} {db' : Db}
    → claim_and_apply env req id offer_id db ≡ ok (x, db')
    → IsClaimed id db x db'
unfolding claim_and_apply
claim_and_apply-IsClaimed env req id offer_id db {x} {db'} e =
    let (_, e₁) = fail_if-ok (env.fails insert_processed) _ _ e in
    elim (Bool-cases (any (is_claim consumer id) db.processed_events)) [
      | inl known ↦
          let (_, e₂) = fail_if-ok (env.fails commit_tx) _ _ (rw known at e₁) in
          record {
            named = ground arith;
            claimed = ground arith;
            users = ground arith;
            journeys = ground arith;
            recommendations = ground arith;
          }
      | inr new ↦
          let (db₁, done, e₂) =
            >>=-ok (apply_feedback env req id offer_id (claim consumer id db)) _ (rw new at e₁) in
          let (_, e₃) = fail_if-ok (env.fails commit_tx) _ _ e₂ in
          let k = apply_feedback-IsKept env req id offer_id (claim consumer id db) done in
          let same : db₁ ≡ db' = ground arith in
          record {
            named = ground arith;
            claimed = rw (sym same, k.claims) (claimed-claim consumer id db);
            users = rw (sym same) k.users;
            journeys = rw (sym same) k.journeys;
            recommendations = rw (sym same) k.recommendations;
          }
    ]

claim_and_apply-again :
    (env : Env) (req : FeedbackRequest) (id offer_id : String) (db : Db)
    → CanRepeat env
    → any (is_claim consumer id) db.processed_events ≡ true
    → claim_and_apply env req id offer_id db ≡ ok (id, db)
unfolding claim_and_apply
claim_and_apply-again env req id offer_id db s h = rw (s.claims, h, s.commits) refl

select_row-again :
    (env env' : Env) (req : FeedbackRequest) (db db' : Db) {r : RecommendationRow}
    → CanRepeat env'
    → db'.users ≡ db.users
    → db'.journeys ≡ db.journeys
    → db'.recommendations ≡ db.recommendations
    → select_row env req db ≡ ok r
    → select_row env' req db' ≡ ok r
unfolding select_row
select_row-again env env' req db db' s u j c e =
    let (_, e₁) = fail_if-ok (env.fails select_recommendation) _ _ e in rw (s.selects, u, j, c) e₁

record_event_tx-again :
    (hash : List String → String) (env env' : Env) (req : FeedbackRequest) (db : Db) {x : String}
    {db' : Db}
    → CanRepeat env'
    → record_event_tx hash env req db ≡ ok (x, db')
    → record_event_tx hash env' req db' ≡ ok (x, db')
unfolding record_event_tx
record_event_tx-again hash env env' req db {x} {db'} s e =
    let (valid, e₁) = fail_if-ok (is_invalid req) _ _ e in
    let (_, e₂) = fail_if-ok (env.fails begin_tx) _ _ e₁ in
    let (r, read, e₃) = >>=-ok (select_row env req db) _ e₂ in
    let (offer_id, about, e₄) = >>=-ok (offer_of req r) _ e₃ in
    let id = feedback_event_id hash req offer_id in
    let k = claim_and_apply-IsClaimed env req id offer_id db e₄ in
    let reread = select_row-again env env' req db db' s k.users k.journeys k.recommendations read in
    rw (valid, s.begins, reread, about, k.named)
      (claim_and_apply-again env' req id offer_id db' s k.claimed)

-- A RecordRecommendationEvent that has succeeded and is sent again, at another time, returns the
-- same event id and leaves the database as it is: no weight, dismissal or event is written twice,
-- provided the calls that the repetition makes do not fail.
pub record_event-retry :
    (hash : List String → String) (env env' : Env) (req : FeedbackRequest) (db : Db) {x : String}
    {db' : Db}
    → CanRepeat env'
    → record_event hash env req db ≡ (ok x, db')
    → record_event hash env' req db' ≡ (ok x, db')
unfolding record_event
record_event-retry hash env env' req db {x} {db'} s e =
    elim (Result-cases (record_event_tx hash env req db)) [
      | inr (_, failed) ↦ absurd (ground arith)
      | inl ((x₁, db₁), done) ↦
          let same_id : x₁ ≡ x = ground arith in
          let same_db : db₁ ≡ db' = ground arith in
          let again = record_event_tx-again hash env env' req db s done in
          rw (sym same_id, sym same_db, again) refl
    ]
