-- ===== src/Recommendation/Stored/Tests.antt =====
-- A store whose Redis is out, and one that holds another user's preference, and the theorems at them.
use spacetime_node.Prelude.{◌≡◌, refl, some, [], ◌∷◌, true}
use spacetime_node.Platform.Result.{ok}
use spacetime_node.Recommendation.Stored.{
  hit, broken, PreferenceStore, demo_preference, weights_of, load_preference_weights, get_saved,
  after_read, get_preference,
}
use spacetime_node.Recommendation.Stored.Own.{
  AreOwn, get_preference-AreOwn, without_redis, get_preference-outage,
}
use spacetime_node.Fixtures.{healthy, shop, rider_hash}

-- Redis answers every key with the preference of someone else
abbrev mixed_up : PreferenceStore
mixed_up = record {
  redis = some (λ key. hit (demo_preference healthy 900 "sha256:bb"));
  has_db = true;
  ttl = 900;
}

saved_stations :
    (get_preference mixed_up healthy rider_hash shop).0
    ≡ ok (record {
      user_id_hash = rider_hash;
      preference = record {
        predicted_destination = "R04";
        preferred_categories = "coffee" ∷ "lunch" ∷ [];
        category_weights = [];
        budget_min_points = 80;
        budget_max_points = 300;
      };
      generated_at = 50;
      expires_at = 950;
      source = "postgres";
    })
unfolding get_preference after_read get_saved load_preference_weights weights_of demo_preference
saved_stations = refl

abbrev cut_off : PreferenceStore
cut_off = record { redis = some (λ key. broken); has_db = true; ttl = 900 }

get_preference-outage_example :
    (get_preference cut_off healthy rider_hash shop).0
    ≡ (get_preference (without_redis cut_off) healthy rider_hash shop).0
get_preference-outage_example = get_preference-outage cut_off healthy rider_hash shop tt

get_preference-AreOwn_example : AreOwn rider_hash (get_preference mixed_up healthy rider_hash shop)
get_preference-AreOwn_example = get_preference-AreOwn mixed_up healthy rider_hash shop
