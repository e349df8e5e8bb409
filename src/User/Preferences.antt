-- ===== src/User/Preferences.antt =====
-- internal/user/service.go, `UpdateUserPreferences` and `GetUserProfile`. The time zone database is
-- an argument. The three statements of an update commit one by one. A profile is without the times
-- of creation and of the last update, which the table's defaults set.
use spacetime_node.Prelude.{
  ℕ, String, Bool, true, false, Option, none, some, List, [], ◌∷◌, ◌++◌, ◌&&◌, ◌||◌, not, ◌==◌,
  if◌then◌else◌, ltb, nat_eq, length, count_where, all, any,
}
use spacetime_node.Prelude.Int.{ℤ, pos, pos_part, ltb_ℤ}
use spacetime_node.Prelude.Text.{codes, trim_space, is_empty, byte_length}
use spacetime_node.Prelude.Table.{find, update_where}
use spacetime_node.Platform.Env.{Env, update_preferences, select_profile}
use spacetime_node.Platform.Result.{
  Result, ok, err, unavailable, constraint, invalid_request, user_not_found, ◌>>◌, fail_if,
}
use spacetime_node.Platform.Database.{Db, UserRow}
use spacetime_node.Notification.Window.{Zones, parse_hhmm}
use spacetime_node.User.{valid_user_id_hash, ensure_demo_user}

pub record PreferencesRequest : Type 0 where
  pub user_id_hash : String
  pub favorite_station_ids : List String
  pub preferred_categories : List String
  pub budget_min_points : ℤ
  pub budget_max_points : ℤ
  pub timezone : String
  pub notifications_enabled : Bool
  pub notification_start_local : String
  pub notification_end_local : String

pub record UserProfile : Type 0 where
  pub user_id : String
  pub user_id_hash : String
  pub display_name : String
  pub favorite_station_ids : List String
  pub preferred_categories : List String
  pub budget_min_points : ℕ
  pub budget_max_points : ℕ
  pub timezone : String
  pub notifications_enabled : Bool
  pub notification_start_local : String
  pub notification_end_local : String

abbrev is_some {ℓ} : {A : Type ℓ} → Option A → Bool
is_some none = false
is_some (some a) = true

abbrev pub is_value : String → Bool
is_value value = not (is_empty (trim_space (codes value)) || ltb 80 (byte_length (codes value)))

-- no text, or a time of the day
abbrev pub is_time : String → Bool
is_time value = value == "" || is_some (parse_hhmm (codes value))

abbrev same_bool : Bool → Bool → Bool
same_bool true b = b
same_bool false b = not b

-- `validatePreferences` returns no error
unfoldable pub valid_preferences : Zones → ℕ → PreferencesRequest → Bool
valid_preferences zones now req =
    not (ltb_ℤ req.budget_min_points (pos 0))
    && not (ltb_ℤ req.budget_max_points req.budget_min_points)
    && not (req.timezone == "")
    && is_some (zones req.timezone now)
    && not (ltb 20 (length req.favorite_station_ids))
    && not (ltb 20 (length req.preferred_categories))
    && all is_value (req.favorite_station_ids ++ req.preferred_categories)
    && same_bool (req.notification_start_local == "") (req.notification_end_local == "")
    && is_time req.notification_start_local
    && is_time req.notification_end_local
    && not (req.notifications_enabled && req.notification_start_local == "")

-- NULLIF(s, '')
abbrev pub null_if_empty : String → Option String
null_if_empty s = if s == "" then none else some s

-- `sql.NullString`
abbrev pub string_of : Option String → String
string_of none = ""
string_of (some s) = s

abbrev pub of_hash : String → UserRow → Bool
of_hash user_id_hash u = u.user_id_hash == user_id_hash

-- SET ...
abbrev pub preferring : PreferencesRequest → UserRow → UserRow
preferring req u = record u {
  favorite_station_ids = req.favorite_station_ids;
  preferred_categories = req.preferred_categories;
  budget_min_points = pos_part req.budget_min_points;
  budget_max_points = pos_part req.budget_max_points;
  timezone = req.timezone;
  notifications_enabled = req.notifications_enabled;
  notification_start_local = null_if_empty req.notification_start_local;
  notification_end_local = null_if_empty req.notification_end_local;
}

unfoldable pub update_user_rows : PreferencesRequest → Db → Db
update_user_rows req db = record db {
  users = update_where (of_hash req.user_id_hash) (preferring req) db.users;
}

abbrev pub profile_of : UserRow → UserProfile
profile_of u = record {
  user_id = u.user_id;
  user_id_hash = u.user_id_hash;
  display_name = u.display_name;
  favorite_station_ids = u.favorite_station_ids;
  preferred_categories = u.preferred_categories;
  budget_min_points = u.budget_min_points;
  budget_max_points = u.budget_max_points;
  timezone = u.timezone;
  notifications_enabled = u.notifications_enabled;
  notification_start_local = string_of u.notification_start_local;
  notification_end_local = string_of u.notification_end_local;
}

abbrev pub found_profile : Option UserRow → Result UserProfile
found_profile none = err user_not_found
found_profile (some u) = ok (profile_of u)

-- `profile`
unfoldable pub profile : Env → String → Db → Result UserProfile
profile env user_id_hash db = do
  fail_if (env.fails select_profile) (unavailable select_profile)
  found_profile (find (of_hash user_id_hash) db.users)

-- `json.Marshal` of a list from the wire, whose getter gives nil for an empty one: null, and not an
-- array
abbrev pub is_null : List String → Bool
is_null [] = true
is_null (_ ∷ _) = false

-- the checks of migration 000006 on a row that is written
abbrev pub breaks_check : PreferencesRequest → Db → Bool
breaks_check req db =
    (is_null req.favorite_station_ids || is_null req.preferred_categories)
    && any (of_hash req.user_id_hash) db.users

-- from the second statement on
unfoldable pub update_known : Env → PreferencesRequest → Db → Result UserProfile × Db
update_known env req db =
    let db' = update_user_rows req db in
    if env.fails update_preferences
    then (err (unavailable update_preferences), db)
    else if breaks_check req db
    then (err constraint, db)
    else if not (nat_eq (count_where (of_hash req.user_id_hash) db.users) 1)
    then (err user_not_found, db')
    else (profile env req.user_id_hash db', db')

unfoldable pub after_ensure :
    (Db → Result UserProfile × Db) → Result Db → Db → Result UserProfile × Db
after_ensure rest (err e) db = (err e, db)
after_ensure rest (ok db₁) db = rest db₁

-- `UpdateUserPreferences`
unfoldable pub update_user_preferences :
    Zones → Env → PreferencesRequest → Db → Result UserProfile × Db
update_user_preferences zones env req db =
    if not (valid_user_id_hash req.user_id_hash) || not (valid_preferences zones env.now req)
    then (err invalid_request, db)
    else after_ensure (update_known env req) (ensure_demo_user env req.user_id_hash db) db

-- `GetUserProfile`
unfoldable pub get_user_profile : Env → String → Db → Result UserProfile × Db
get_user_profile env user_id_hash db =
    if not (valid_user_id_hash user_id_hash)
    then (err invalid_request, db)
    else after_ensure (λ db₁. (profile env user_id_hash db₁, db₁))
        (ensure_demo_user env user_id_hash db) db
