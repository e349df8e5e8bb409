-- ===== src/User/Tests.antt =====
-- A run of `UpdateUserPreferences`, and the theorem at it.
use spacetime_node.Prelude.{◌≡◌, refl, true, some, [], ◌∷◌}
use spacetime_node.Prelude.Int.{pos}
use spacetime_node.Prelude.Text.{trim_space, drop_space, is_space}
use spacetime_node.Platform.Result.{ok}
use spacetime_node.Platform.Database.{Db}
use spacetime_node.Notification.Window.{Zones, parse_hhmm, parse_minute}
use spacetime_node.User.{valid_user_id_hash, ensure_demo_user}
use spacetime_node.User.Preferences.{
  PreferencesRequest, UserProfile, valid_preferences, update_user_rows, profile, update_known,
  after_ensure, update_user_preferences, get_user_profile,
}
use spacetime_node.User.ReadBack.{IsAsked, update_user_preferences-IsAsked}
use spacetime_node.Fixtures.{healthy, shop, rider_hash}

abbrev noon : Zones
noon timezone now = some 720

abbrev wishes : PreferencesRequest
wishes = record {
  user_id_hash = rider_hash;
  favorite_station_ids = "R05" ∷ [];
  preferred_categories = "tea" ∷ [];
  budget_min_points = pos 10;
  budget_max_points = pos 90;
  timezone = "Asia/Taipei";
  notifications_enabled = true;
  notification_start_local = "7:30";
  notification_end_local = "21:00";
}

abbrev wished : UserProfile
wished = record {
  user_id = "user-1";
  user_id_hash = rider_hash;
  display_name = "Demo Rider";
  favorite_station_ids = "R05" ∷ [];
  preferred_categories = "tea" ∷ [];
  budget_min_points = 10;
  budget_max_points = 90;
  timezone = "Asia/Taipei";
  notifications_enabled = true;
  notification_start_local = "7:30";
  notification_end_local = "21:00";
}

granted : Db
granted = (update_user_preferences noon healthy wishes shop).1

wishes_taken : update_user_preferences noon healthy wishes shop ≡ (ok wished, granted)
unfolding update_user_preferences valid_user_id_hash valid_preferences parse_hhmm parse_minute
    trim_space drop_space is_space after_ensure ensure_demo_user update_known update_user_rows
    profile granted
wishes_taken = refl

update_user_preferences-IsAsked_example :
    IsAsked wishes wished × (get_user_profile healthy rider_hash granted ≡ (ok wished, granted))
update_user_preferences-IsAsked_example =
    update_user_preferences-IsAsked noon healthy healthy wishes shop
      (record { ensures = refl; selects = refl }) wishes_taken
