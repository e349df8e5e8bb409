-- ===== src/Recommendation/Feedback.antt =====
-- internal/recommendation/feedback.go, `ApplyPreferenceFeedback`. A weight is an integer of
-- ten-thousandths, the unit of its column `NUMERIC(8, 4)`.
pub mod Frame
pub mod Bounds
use spacetime_node.Prelude.{
  ℕ, ◌+◌, String, Bool, false, Option, none, some, ◌&&◌, ◌||◌, ◌==◌, if◌then◌else◌, nat_eq,
}
use spacetime_node.Prelude.Int.{ℤ, pos, negsuc, ◌+ℤ◌, ltb_ℤ}
use spacetime_node.Prelude.Table.{find, update_where, insert_row}
use spacetime_node.Platform.Env.{Env, select_weight_keys, upsert_weight}
use spacetime_node.Platform.Result.{
  Result, ok, err, unavailable, no_rows, invalid_feedback_event, ◌>>=◌, ◌>>◌, fail_if,
}
use spacetime_node.Platform.Database.{Db, UserRow, OfferRow, WeightRow}

pub record Delta : Type 0 where
  pub weight : ℤ
  pub clicks : ℕ
  pub dismisses : ℕ
  pub redemptions : ℕ

-- `feedbackDelta`: 0.5, -0.75 and 1.5
unfoldable pub feedback_delta : String → Delta
feedback_delta event_type =
    if event_type == "recommendation.clicked.v1"
    then record { weight = pos 5000; clicks = 1; dismisses = 0; redemptions = 0 }
    else if event_type == "recommendation.dismissed.v1"
    then record { weight = negsuc 7499; clicks = 0; dismisses = 1; redemptions = 0 }
    else if event_type == "redemption.succeeded.v1"
    then record { weight = pos 15000; clicks = 0; dismisses = 0; redemptions = 1 }
    else record { weight = pos 0; clicks = 0; dismisses = 0; redemptions = 0 }

abbrev is_zero : ℤ → Bool
is_zero (pos n) = nat_eq n 0
is_zero (negsuc n) = false

-- the test that skips an event type without feedback
abbrev pub is_neutral : Delta → Bool
is_neutral d =
    is_zero d.weight && nat_eq d.clicks 0 && nat_eq d.dismisses 0 && nat_eq d.redemptions 0

-- LEAST(5, GREATEST(-5, w))
unfoldable pub clamp : ℤ → ℤ
clamp w =
    let lower = if ltb_ℤ w (negsuc 49999) then negsuc 49999 else w in
    if ltb_ℤ (pos 50000) lower then pos 50000 else lower

-- DO UPDATE SET ...
unfoldable pub merge_weight : Delta → WeightRow → WeightRow
unfolding clamp
merge_weight d w = record w {
  weight = clamp (w.weight +ℤ d.weight);
  click_count = w.click_count + d.clicks;
  dismiss_count = w.dismiss_count + d.dismisses;
  redemption_count = w.redemption_count + d.redemptions;
}

abbrev pub has_weight_key : String → String → WeightRow → Bool
has_weight_key user_id category w = w.user_id == user_id && w.category == category

abbrev pub first_weight : Delta → String → String → WeightRow
first_weight d user_id category = record {
  user_id = user_id;
  category = category;
  weight = d.weight;
  click_count = d.clicks;
  dismiss_count = d.dismisses;
  redemption_count = d.redemptions;
}

-- INSERT ... ON CONFLICT (user_id, category) DO UPDATE, by whether the key is there
upsert_row : Delta → String → String → Option WeightRow → Db → Db
upsert_row d user_id category none db = record db {
  user_preference_weights = insert_row (first_weight d user_id category) db.user_preference_weights;
}
upsert_row d user_id category (some _) db = record db {
  user_preference_weights =
      update_where (has_weight_key user_id category) (merge_weight d) db.user_preference_weights;
}

unfoldable pub upsert_weight_row : Delta → String → String → Db → Db
unfolding upsert_row merge_weight
upsert_weight_row d user_id category db =
    upsert_row d user_id category
      (find (has_weight_key user_id category) db.user_preference_weights) db

abbrev pub or_no_rows {ℓ} : {A : Type ℓ} → Option A → Result A
or_no_rows none = err no_rows
or_no_rows (some a) = ok a

-- the join of `users` and `offers`, and the upsert
unfoldable pub record_feedback : Env → Delta → String → String → Db → Result Db
unfolding upsert_weight_row
record_feedback env d user_id_hash offer_id db = do
  fail_if (env.fails select_weight_keys) (unavailable select_weight_keys)
  user ← or_no_rows (find (λ (u : UserRow). u.user_id_hash == user_id_hash) db.users)
  offer ← or_no_rows (find (λ (o : OfferRow). o.offer_id == offer_id) db.offers)
  fail_if (env.fails upsert_weight) (unavailable upsert_weight)
  ok (upsert_weight_row d user.user_id offer.category db)

-- `ApplyPreferenceFeedback`
unfoldable pub apply_preference_feedback : Env → String → String → String → Db → Result Db
unfolding record_feedback feedback_delta
apply_preference_feedback env user_id_hash offer_id event_type db = do
  fail_if (user_id_hash == "" || offer_id == "") invalid_feedback_event
  if is_neutral (feedback_delta event_type)
      then ok db
      else record_feedback env (feedback_delta event_type) user_id_hash offer_id db
