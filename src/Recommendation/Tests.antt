-- ===== src/Recommendation/Tests.antt =====
-- A run of `Recommend` and one of `ApplyPreferenceFeedback`, and the theorems at these runs.
use spacetime_node.Prelude.{◌≡◌, refl, [], ◌∷◌, All}
use spacetime_node.Prelude.Int.{pos, ◌+ℤ◌}
use spacetime_node.Platform.Result.{ok}
use spacetime_node.Platform.Database.{Db}
use spacetime_node.Recommendation.Feedback.{apply_preference_feedback}
use spacetime_node.Recommendation.Feedback.Bounds.{IsBounded, apply_preference_feedback-IsBounded}
use spacetime_node.Recommendation.Promised.{Promises, recommend_tx-Promises}
use spacetime_node.Fixtures.{healthy, shop, rider_hash}
use spacetime_node.Recommendation.Sample.{service, ask, advice, first_advice}

recommend_tx-Promises_example : Promises healthy ask shop advice
recommend_tx-Promises_example = recommend_tx-Promises service healthy ask shop first_advice

-- a weight near the bound
abbrev fond : Db
fond = record shop {
  user_preference_weights =
      record {
        user_id = "user-1";
        category = "coffee";
        weight = pos 48000;
        click_count = 9;
        dismiss_count = 0;
        redemption_count = 0;
      }
      ∷ [];
}

abbrev fonder : Db
fonder = record shop {
  user_preference_weights =
      record {
        user_id = "user-1";
        category = "coffee";
        weight = pos 50000;
        click_count = 10;
        dismiss_count = 0;
        redemption_count = 0;
      }
      ∷ [];
}

click_counted :
    apply_preference_feedback healthy rider_hash "offer-coffee-xinyi" "recommendation.clicked.v1"
      fond
    ≡ ok fonder
unfolding apply_preference_feedback ◌+ℤ◌
click_counted = refl

apply_preference_feedback-IsBounded_example : All IsBounded fonder.user_preference_weights
apply_preference_feedback-IsBounded_example =
    apply_preference_feedback-IsBounded healthy rider_hash "offer-coffee-xinyi"
      "recommendation.clicked.v1" fond ((refl, refl), tt) click_counted
