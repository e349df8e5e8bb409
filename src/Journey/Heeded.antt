-- ===== src/Journey/Heeded.antt =====
-- internal/journey/service.go, `RecordRecommendationEvent`: the record of a dismissal, where
-- `GetLatestRecommendation` looks for it.
use spacetime_node.Prelude.{
  if◌then◌else◌, ◌≡◌, refl, sym, String, true, false, some, List, [], ◌∷◌, ◌&&◌, ◌==◌, any,
  any-append, arith, Bool-cases, Option-cases, inl, inr, eq_iff,
}
use spacetime_node.Prelude.Table.{find, find-holds}
use spacetime_node.Platform.Env.{
  Env, begin_tx, commit_tx, select_recommendation, insert_processed, insert_dismissal,
}
use spacetime_node.Platform.Result.{ok, >>=-ok, fail_if-ok}
use spacetime_node.Platform.Database.{Db, UserRow, RecommendationRow, JourneyRow, DismissalRow}
use spacetime_node.Platform.Outbox.Enqueue.{enqueue_lem}
use spacetime_node.Platform.Outbox.Process.{is_claim, claim}
use spacetime_node.Recommendation.Feedback.{apply_preference_feedback}
use spacetime_node.Recommendation.Feedback.Frame.{apply_preference_feedback-OnlyWeights}
use spacetime_node.Journey.Feedback.{
  FeedbackRequest, is_invalid, joined_row, joins, owns_journey, select_row, offer_of,
  is_same_dismissal, add_dismissal, dismissal_of, dismiss, record_dismissal, consumer,
  feedback_event_id, apply_feedback, claim_and_apply, record_event_tx,
}
use spacetime_node.Journey.Latest.{is_dismissed}
use spacetime_node.Journey.Dismissed.{has_dismissal}
use spacetime_node.Journey.Retry.{claim_and_apply-IsClaimed}

same_dismissal_counts :
    (req : FeedbackRequest) (offer_id : String) (j : JourneyRow) (ds : List DismissalRow)
    → any (is_same_dismissal (dismissal_of req offer_id j)) ds ≡ true
    → any
        (λ (d : DismissalRow).
          d.journey_id == req.journey_id
          && d.recommendation_id == req.recommendation_id
          && d.offer_id == offer_id)
        ds
      ≡ true
same_dismissal_counts req offer_id j [] h = cc
same_dismissal_counts req offer_id j (d ∷ ds) h =
    ground (arith, same_dismissal_counts req offer_id j ds)

add_dismissal-is_dismissed :
    (req : FeedbackRequest) (offer_id : String) (j : JourneyRow) (db : Db)
    → is_dismissed req.journey_id req.recommendation_id
        (add_dismissal (dismissal_of req offer_id j) db)
        offer_id
      ≡ true
unfolding add_dismissal is_dismissed
add_dismissal-is_dismissed req offer_id j db =
    let row = dismissal_of req offer_id j in
    elim (Bool-cases (any (is_same_dismissal row) db.recommendation_dismissals)) [
      | inl known ↦
          rw known (same_dismissal_counts req offer_id j db.recommendation_dismissals known)
      | inr new ↦ rw new ground (
        arith,
        any-append
            (λ (d : DismissalRow).
              d.journey_id == req.journey_id
              && d.recommendation_id == req.recommendation_id
              && d.offer_id == offer_id)
            db.recommendation_dismissals (row ∷ []),
        eq_iff req.journey_id req.journey_id,
        eq_iff req.recommendation_id req.recommendation_id,
        eq_iff offer_id offer_id,
      )
    ]

find-journey :
    (users : List UserRow) (hash id : String) (js : List JourneyRow)
    → any (λ (j : JourneyRow). j.journey_id == id && owns_journey users hash j) js ≡ true
    → (j : JourneyRow) × (find (λ (j : JourneyRow). j.journey_id == id) js ≡ some j)
find-journey users hash id [] h = absurd (ground arith)
find-journey users hash id (j ∷ js) h = elim (Bool-cases (j.journey_id == id)) [
  | inl mine ↦ (j, rw mine refl)
  | inr other ↦ let (k, found) = find-journey users hash id js (ground arith) in (k, rw other found)
]

select_row-journey :
    (env : Env) (req : FeedbackRequest) (db : Db) {r : RecommendationRow}
    → select_row env req db ≡ ok r
    → (j : JourneyRow) × (find (λ (j : JourneyRow). j.journey_id == req.journey_id) db.journeys
        ≡ some j)
unfolding select_row joined_row
select_row-journey env req db {r} e =
    let (_, e₁) = fail_if-ok (env.fails select_recommendation) _ _ e in
    elim (Option-cases (find (joins req db.users db.journeys) db.recommendations)) [
      | inl nothing ↦ absurd (ground arith)
      | inr (q, found) ↦
          let holds = find-holds (joins req db.users db.journeys) db.recommendations found in
          let same : q.journey_id ≡ req.journey_id =
            ground (arith, eq_iff q.journey_id req.journey_id) in
          let there : any
                (λ (j : JourneyRow).
                  j.journey_id == q.journey_id && owns_journey db.users req.user_id_hash j)
                db.journeys
              ≡ true =
            ground arith in
          find-journey db.users req.user_id_hash req.journey_id db.journeys (rw same at there)
    ]

dismiss_known :
    (req : FeedbackRequest) (offer_id : String) (db : Db) {j : JourneyRow}
    → find (λ (j : JourneyRow). j.journey_id == req.journey_id) db.journeys ≡ some j
    → dismiss req offer_id db ≡ add_dismissal (dismissal_of req offer_id j) db
unfolding dismiss
dismiss_known req offer_id db found = rw (found, dismiss) refl

-- the event puts the dismissal on record
apply_feedback-is_dismissed :
    (env : Env) (req : FeedbackRequest) (id offer_id : String) (db : Db) {db' : Db} {j : JourneyRow}
    → req.event_type ≡ "recommendation.dismissed.v1"
    → find (λ (j : JourneyRow). j.journey_id == req.journey_id) db.journeys ≡ some j
    → apply_feedback env req id offer_id db ≡ ok db'
    → is_dismissed req.journey_id req.recommendation_id db' offer_id ≡ true
unfolding apply_feedback record_dismissal is_dismissed
apply_feedback-is_dismissed env req id offer_id db {db'} {j} type_is found e =
    let (db₁, weighed, e₁) =
      >>=-ok (apply_preference_feedback env req.user_id_hash offer_id req.event_type db) _ e in
    let (db₂, off, e₂) = >>=-ok (record_dismissal env req offer_id db₁) _ e₁ in
    let w =
      apply_preference_feedback-OnlyWeights env req.user_id_hash offer_id req.event_type db
        weighed in
    let q = enqueue_lem env _ db₂ e₂ in
    let wanted : (req.event_type == "recommendation.dismissed.v1") ≡ true =
      (eq_iff req.event_type "recommendation.dismissed.v1").1 type_is in
    let (_, e₃) = fail_if-ok (env.fails insert_dismissal) _ _ (rw wanted at off) in
    let done : dismiss req offer_id db₁ ≡ db₂ = ground arith in
    let there : find (λ (j : JourneyRow). j.journey_id == req.journey_id) db₁.journeys ≡ some j =
      rw w found in
    let added : dismiss req offer_id db₁ ≡ add_dismissal (dismissal_of req offer_id j) db₁ =
      dismiss_known req offer_id db₁ there in
    rw (q, sym done, added) (add_dismissal-is_dismissed req offer_id j db₁)

-- The recommendation of the request has a row, and the offer that the request names, or the recommended
-- one if it names none, has a dismissal under the journey and the recommendation.
pub record IsPutOnRecord (req : FeedbackRequest) (db db' : Db) : Type 0 where
  pub row : RecommendationRow
  pub read :
      find
        (λ (r : RecommendationRow).
          r.recommendation_id == req.recommendation_id
          && r.journey_id == req.journey_id
          && any
              (λ (j : JourneyRow).
                j.journey_id == r.journey_id
                && any
                    (λ (u : UserRow). u.user_id == j.user_id && u.user_id_hash == req.user_id_hash)
                    db.users)
              db.journeys)
        db.recommendations
      ≡ some row
  pub put :
      has_dismissal req.journey_id req.recommendation_id db'
        (if req.offer_id == "" then row.offer_id else req.offer_id)
      ≡ true

-- the offer that a request is about
offer_of_lem :
    (req : FeedbackRequest) (r : RecommendationRow) {offer_id : String}
    → offer_of req r ≡ ok offer_id
    → offer_id ≡ (if req.offer_id == "" then r.offer_id else req.offer_id)
unfolding offer_of
offer_of_lem req r h = ground (arith, eq_iff req.offer_id r.offer_id)

select_row-joined :
    (env : Env) (req : FeedbackRequest) (db : Db) {r : RecommendationRow}
    → select_row env req db ≡ ok r
    → find (joins req db.users db.journeys) db.recommendations ≡ some r
unfolding select_row joined_row
select_row-joined env req db {r} e =
    let (_, e₁) = fail_if-ok (env.fails select_recommendation) _ _ e in
    elim (Option-cases (find (joins req db.users db.journeys) db.recommendations)) [
      | inl nothing ↦ absurd (ground arith)
      | inr (q, found) ↦ ground arith
    ]

-- After a RecordRecommendationEvent that dismisses an offer, sent for the first time, the offer
-- that the request names has a dismissal under the journey and the recommendation, or, if it names
-- none, the offer of the recommendation of this journey of the user has one.
pub record_event_tx-is_dismissed :
    (hash : List String → String) (env : Env) (req : FeedbackRequest) (db : Db) {id : String}
    {db' : Db}
    → req.event_type ≡ "recommendation.dismissed.v1"
    → any (is_claim consumer id) db.processed_events ≡ false
    → record_event_tx hash env req db ≡ ok (id, db')
    → IsPutOnRecord req db db'
unfolding record_event_tx claim_and_apply is_dismissed
record_event_tx-is_dismissed hash env req db {id} {db'} type_is new e =
    let (_, e₁) = fail_if-ok (is_invalid req) _ _ e in
    let (_, e₂) = fail_if-ok (env.fails begin_tx) _ _ e₁ in
    let (r, read, e₃) = >>=-ok (select_row env req db) _ e₂ in
    let (offer_id, about, e₄) = >>=-ok (offer_of req r) _ e₃ in
    let (j, found) = select_row-journey env req db read in
    let id₁ = feedback_event_id hash req offer_id in
    let named : id ≡ id₁ = (claim_and_apply-IsClaimed env req id₁ offer_id db e₄).named in
    let (_, e₅) = fail_if-ok (env.fails insert_processed) _ _ e₄ in
    let fresh : any (is_claim consumer id₁) db.processed_events ≡ false = rw named at new in
    let (db₁, done, e₆) =
      >>=-ok (apply_feedback env req id₁ offer_id (claim consumer id₁ db)) _ (rw fresh at e₅) in
    let (_, e₇) = fail_if-ok (env.fails commit_tx) _ _ e₆ in
    let same : db₁ ≡ db' = ground arith in
    let there = rw same at (
      apply_feedback-is_dismissed env req id₁ offer_id (claim consumer id₁ db) type_is found
        done) in
    let named_offer = offer_of_lem req r about in
    record { row = r; read = select_row-joined env req db read; put = rw named_offer at there }
