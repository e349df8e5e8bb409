-- ===== src/User/ReadBack.antt =====
-- internal/user/service.go: the profile after `UpdateUserPreferences`.
use spacetime_node.Prelude.{
  ℕ, ◌≡◌, ◌<◌, any, length, List, [], ◌∷◌, refl, sym, String, true, false, some, ◌==◌, arith,
  Bool-cases, Option-cases, inl, inr, eq_iff,
}
use spacetime_node.Prelude.Int.{pos, pos_part}
use spacetime_node.Prelude.Table.{find, find-holds, find-update_where}
use spacetime_node.Prelude.Search.{find-any}
use spacetime_node.Platform.Env.{Env, ensure_user, select_profile}
use spacetime_node.Platform.Result.{ok, fail_if-ok, Result-cases}
use spacetime_node.Platform.Database.{Db, UserRow}
use spacetime_node.Notification.Window.{Zones}
use spacetime_node.User.{valid_user_id_hash, ensure_demo_user}
use spacetime_node.User.Preferences.{
  PreferencesRequest, UserProfile, valid_preferences, null_if_empty, string_of, of_hash, preferring,
  update_user_rows, is_null, breaks_check, profile_of, profile, update_known, after_ensure,
  update_user_preferences, get_user_profile,
}

-- the profile is what was asked for, and no list of the request was empty
pub record IsAsked (req : PreferencesRequest) (p : UserProfile) : Type 0 where
  pub some_stations : 0 < length req.favorite_station_ids
  pub some_categories : 0 < length req.preferred_categories
  pub hash : p.user_id_hash ≡ req.user_id_hash
  pub stations : p.favorite_station_ids ≡ req.favorite_station_ids
  pub categories : p.preferred_categories ≡ req.preferred_categories
  pub budget_min : pos p.budget_min_points ≡ req.budget_min_points
  pub budget_max : pos p.budget_max_points ≡ req.budget_max_points
  pub zone : p.timezone ≡ req.timezone
  pub enabled : p.notifications_enabled ≡ req.notifications_enabled
  pub start : p.notification_start_local ≡ req.notification_start_local
  pub end_local : p.notification_end_local ≡ req.notification_end_local

string_of-null_if_empty : (s : String) → string_of (null_if_empty s) ≡ s
string_of-null_if_empty s = elim (Bool-cases (s == "")) [
  | inl empty ↦ rw empty (sym ((eq_iff s "").0 empty))
  | inr named ↦ rw named refl
]

valid_budget :
    (zones : Zones) (now : ℕ) (req : PreferencesRequest)
    → valid_preferences zones now req ≡ true
    → (pos (pos_part req.budget_min_points) ≡ req.budget_min_points)
      × (pos (pos_part req.budget_max_points) ≡ req.budget_max_points)
unfolding valid_preferences
valid_budget zones now req h = ground arith

preferring-IsAsked :
    (zones : Zones) (now : ℕ) (req : PreferencesRequest) (u : UserRow)
    → valid_preferences zones now req ≡ true
    → u.user_id_hash ≡ req.user_id_hash
    → (0 < length req.favorite_station_ids) × (0 < length req.preferred_categories)
    → IsAsked req (profile_of (preferring req u))
preferring-IsAsked zones now req u v h given =
    let budget = valid_budget zones now req v in
    record {
      some_stations = given.0;
      some_categories = given.1;
      hash = h;
      stations = refl;
      categories = refl;
      budget_min = budget.0;
      budget_max = budget.1;
      zone = refl;
      enabled = refl;
      start = string_of-null_if_empty req.notification_start_local;
      end_local = string_of-null_if_empty req.notification_end_local;
    }

-- the user's row after the update
updated_row :
    (req : PreferencesRequest) (db : Db) {u : UserRow}
    → find (of_hash req.user_id_hash) (update_user_rows req db).users ≡ some u
    → (u₀ : UserRow) × (u₀.user_id_hash ≡ req.user_id_hash)
      × (u ≡ preferring req u₀)
      × (any (of_hash req.user_id_hash) db.users ≡ true)
unfolding update_user_rows
updated_row req db {u} h =
    let mine = of_hash req.user_id_hash in
    let seen = find-update_where mine mine (preferring req) db.users (λ x. refl) in
    elim (Option-cases (find mine db.users)) [
      | inl gone ↦ absurd (ground (arith, seen))
      | inr (u₀, found) ↦
          let own = find-holds mine db.users found in
          (
            u₀,
            (eq_iff u₀.user_id_hash req.user_id_hash).0 own,
            ground (arith, seen),
            find-any mine db.users found,
          )
    ]

-- The calls that read a profile do not fail.
pub record CanRead (env : Env) : Type 0 where
  pub ensures : env.fails ensure_user ≡ false
  pub selects : env.fails select_profile ≡ false

profile-found :
    (env : Env) (user_id_hash : String) (db : Db) {p : UserProfile}
    → profile env user_id_hash db ≡ ok p
    → (u : UserRow) × (find (of_hash user_id_hash) db.users ≡ some u) × (p ≡ profile_of u)
unfolding profile
profile-found env user_id_hash db {p} e =
    let (_, e₁) = fail_if-ok (env.fails select_profile) _ _ e in
    elim (Option-cases (find (of_hash user_id_hash) db.users)) [
      | inl nobody ↦ absurd (ground arith)
      | inr (u, found) ↦ (u, found, ground arith)
    ]

get_known_profile :
    (env : Env) (user_id_hash : String) (db : Db) {u : UserRow}
    → CanRead env
    → valid_user_id_hash user_id_hash ≡ true
    → find (of_hash user_id_hash) db.users ≡ some u
    → get_user_profile env user_id_hash db ≡ (ok (profile_of u), db)
unfolding get_user_profile after_ensure profile ensure_demo_user
get_known_profile env user_id_hash db s valid found =
    let known = find-any (of_hash user_id_hash) db.users found in
    rw (valid, s.ensures, known, s.selects, found) refl

-- the database from which the second statement on ran
update_user_preferences-ok :
    (zones : Zones) (env : Env) (req : PreferencesRequest) (db : Db) {p : UserProfile} {db' : Db}
    → update_user_preferences zones env req db ≡ (ok p, db')
    → (valid_user_id_hash req.user_id_hash ≡ true)
      × (valid_preferences zones env.now req ≡ true)
      × (db₁ : Db) × (ensure_demo_user env req.user_id_hash db ≡ ok db₁)
      × (profile env req.user_id_hash db' ≡ ok p)
      × (db' ≡ update_user_rows req db₁)
      × (breaks_check req db₁ ≡ false)
unfolding update_user_preferences after_ensure update_known
update_user_preferences-ok zones env req db e =
    elim (Result-cases (ensure_demo_user env req.user_id_hash db)) [
      | inr (_, failed) ↦ absurd (ground arith)
      | inl (db₁, ensured) ↦
          (ground arith, ground arith, db₁, ensured, ground arith, ground arith, ground arith)
    ]

not_empty : (xs : List String) → is_null xs ≡ false → 0 < length xs
not_empty [] h = absurd (ground arith)
not_empty (x ∷ xs) h = omega arith

lists_given :
    (req : PreferencesRequest) (db : Db)
    → any (of_hash req.user_id_hash) db.users ≡ true
    → breaks_check req db ≡ false
    → (0 < length req.favorite_station_ids) × (0 < length req.preferred_categories)
lists_given req db known h = (
  not_empty req.favorite_station_ids (ground arith),
  not_empty req.preferred_categories (ground arith),
)

-- The profile that UpdateUserPreferences returns has the preferences that were asked for, neither
-- list of the request was empty, and a later GetUserProfile of the user returns the same profile
-- and changes nothing, if its statements do not fail.
pub update_user_preferences-IsAsked :
    (zones : Zones) (env env' : Env) (req : PreferencesRequest) (db : Db) {p : UserProfile}
    {db' : Db}
    → CanRead env'
    → update_user_preferences zones env req db ≡ (ok p, db')
    → IsAsked req p × (get_user_profile env' req.user_id_hash db' ≡ (ok p, db'))
update_user_preferences-IsAsked zones env env' req db {p} {db'} s e =
    let (valid, asked, db₁, ensured, read, wrote, checked) =
      update_user_preferences-ok zones env req db e in
    let (u, found, shown) = profile-found env req.user_id_hash db' read in
    let (u₀, own, changed, known) = updated_row req db₁ (rw wrote at found) in
    (
      rw (shown, changed)
          (preferring-IsAsked zones env.now req u₀ asked own (lists_given req db₁ known checked)),
      rw shown (get_known_profile env' req.user_id_hash db' s valid found),
    )
