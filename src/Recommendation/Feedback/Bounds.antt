-- ===== src/Recommendation/Feedback/Bounds.antt =====
-- internal/recommendation/feedback.go: the range of the learned weights.
use spacetime_node.Prelude.{
  String, ◌≡◌, Bool, false, Option, none, some, List, [], ◌∷◌, arith, All, All-append, inl, inr,
  Bool-cases, ◌||◌, ◌==◌,
}
use spacetime_node.Prelude.Int.{ℤ, pos, negsuc, ltb_ℤ, ◌+ℤ◌}
use spacetime_node.Prelude.Table.{find, update_where}
use spacetime_node.Platform.Env.{Env, select_weight_keys, upsert_weight}
use spacetime_node.Platform.Result.{ok, >>=-ok, fail_if-ok}
use spacetime_node.Platform.Database.{Db, WeightRow, UserRow, OfferRow}
use spacetime_node.Recommendation.Feedback.{
  Delta, feedback_delta, clamp, merge_weight, upsert_weight_row, record_feedback,
  apply_preference_feedback, has_weight_key, is_neutral, upsert_row, first_weight, or_no_rows,
}

abbrev pub IsWithin : ℤ → Type 0
IsWithin z = (ltb_ℤ z (negsuc 49999) ≡ false) × (ltb_ℤ (pos 50000) z ≡ false)

clamp-IsWithin : (z : ℤ) → IsWithin (clamp z)
unfolding clamp
clamp-IsWithin (pos n) = ground arith
clamp-IsWithin (negsuc n) = ground arith

feedback_delta-IsWithin : (event_type : String) → IsWithin (feedback_delta event_type).weight
unfolding feedback_delta
feedback_delta-IsWithin event_type = ground arith

abbrev pub IsBounded : WeightRow → Type 0
IsBounded w = IsWithin w.weight

merge_weight-IsBounded : (d : Delta) (w : WeightRow) → IsBounded (merge_weight d w)
unfolding merge_weight
merge_weight-IsBounded d w = clamp-IsWithin (w.weight +ℤ d.weight)

update_where-All :
    (p : WeightRow → Bool) (d : Delta) (ws : List WeightRow)
    → All IsBounded ws
    → All IsBounded (update_where p (merge_weight d) ws)
update_where-All p d [] h = tt
update_where-All p d (w ∷ ws) (b, h) =
    let rest = update_where-All p d ws h in
    elim (Bool-cases (p w)) [
      | inl mine ↦ rw mine (merge_weight-IsBounded d w, rest)
      | inr other ↦ rw other (b, rest)
    ]

upsert_row-IsBounded :
    (d : Delta) (user_id category : String) (o : Option WeightRow) (db : Db)
    → IsWithin d.weight
    → All IsBounded db.user_preference_weights
    → All IsBounded (upsert_row d user_id category o db).user_preference_weights
unfolding upsert_row
upsert_row-IsBounded d user_id category none db k h =
    All-append IsBounded db.user_preference_weights (first_weight d user_id category ∷ []) h (k, tt)
upsert_row-IsBounded d user_id category (some _) db k h =
    update_where-All (has_weight_key user_id category) d db.user_preference_weights h

record_feedback-IsBounded :
    (env : Env) (d : Delta) (user_id_hash offer_id : String) (db : Db) {db' : Db}
    → IsWithin d.weight
    → All IsBounded db.user_preference_weights
    → record_feedback env d user_id_hash offer_id db ≡ ok db'
    → All IsBounded db'.user_preference_weights
unfolding record_feedback upsert_weight_row
record_feedback-IsBounded env d user_id_hash offer_id db {db'} k h e =
    let (_, e₁) = fail_if-ok (env.fails select_weight_keys) _ _ e in
    let (user, _, e₂) =
      >>=-ok (or_no_rows (find (λ (u : UserRow). u.user_id_hash == user_id_hash) db.users)) _ e₁ in
    let (offer, _, e₃) =
      >>=-ok (or_no_rows (find (λ (o : OfferRow). o.offer_id == offer_id) db.offers)) _ e₂ in
    let (_, e₄) = fail_if-ok (env.fails upsert_weight) _ _ e₃ in
    let done : upsert_weight_row d user.user_id offer.category db ≡ db' = ground arith in
    rw done at (
      upsert_row-IsBounded d user.user_id offer.category
        (find (has_weight_key user.user_id offer.category) db.user_preference_weights) db k h)

-- If every learned weight is between -5 and 5, then every one is after ApplyPreferenceFeedback, for
-- any event type and whether or not the user had a weight for the category.
pub apply_preference_feedback-IsBounded :
    (env : Env) (user_id_hash offer_id event_type : String) (db : Db) {db' : Db}
    → All IsBounded db.user_preference_weights
    → apply_preference_feedback env user_id_hash offer_id event_type db ≡ ok db'
    → All IsBounded db'.user_preference_weights
unfolding apply_preference_feedback
apply_preference_feedback-IsBounded env user_id_hash offer_id event_type db {db'} h e =
    let d = feedback_delta event_type in
    let (_, e₁) = fail_if-ok (user_id_hash == "" || offer_id == "") _ _ e in
    elim (Bool-cases (is_neutral d)) [
      | inl neutral ↦ let same : db ≡ db' = ground arith in rw same at h
      | inr counted ↦
          record_feedback-IsBounded env d user_id_hash offer_id db
            (feedback_delta-IsWithin event_type) h (rw counted at e₁)
    ]
