-- ===== src/User.antt =====
-- internal/user/service.go: the user id hash, and the user that a first visit makes.
pub mod Preferences
pub mod ReadBack
mod Tests
use spacetime_node.Prelude.{
  ℕ, String, Bool, true, false, none, List, [], ◌∷◌, ◌&&◌, ◌||◌, not, ◌==◌, if◌then◌else◌, leb,
  nat_eq, any, length, all,
}
use spacetime_node.Prelude.Int.{pos}
use spacetime_node.Prelude.Text.{codes}
use spacetime_node.Prelude.Table.{insert_row}
use spacetime_node.Platform.Env.{Env, ensure_user, user_id}
use spacetime_node.Platform.Result.{
  Result, ok, unavailable, constraint, invalid_request, ◌>>◌, fail_if,
}
use spacetime_node.Platform.Database.{Db, UserRow, LedgerRow}

abbrev pub hash_prefix : List ℕ
hash_prefix = codes "sha256:"

abbrev is_hex : ℕ → Bool
is_hex c = (leb b'0' c && leb c b'9') || (leb b'a' c && leb c b'f')

abbrev pub after_prefix : List ℕ → List ℕ → Bool × List ℕ
after_prefix [] cs = (true, cs)
after_prefix (p ∷ ps) [] = (false, [])
after_prefix (p ∷ ps) (c ∷ cs) = if nat_eq p c then after_prefix ps cs else (false, [])

-- `validUserIDHash`: the prefix `sha256:` and 64 digits. The length that Go tests is that of the
-- bytes; a text with the prefix and hexadecimal digits alone has as many characters as bytes.
unfoldable pub valid_user_id_hash : String → Bool
valid_user_id_hash value =
    let (has_prefix, digits) = after_prefix hash_prefix (codes value) in
    nat_eq (length (codes value)) 71 && has_prefix && all is_hex digits

abbrev pub initial_points : ℕ
initial_points = 1200

-- the columns that `EnsureDemoUser` gives, and the defaults of migration 000006
abbrev pub demo_user : Env → String → UserRow
demo_user env user_id_hash = record {
  user_id = env.uuid user_id;
  user_id_hash = user_id_hash;
  display_name = "Demo Rider";
  point_balance = initial_points;
  favorite_station_ids = [];
  preferred_categories = [];
  budget_min_points = 0;
  budget_max_points = 0;
  timezone = "Asia/Taipei";
  notifications_enabled = false;
  notification_start_local = none;
  notification_end_local = none;
}

abbrev pub initial_entry : Env → LedgerRow
initial_entry env = record {
  user_id = env.uuid user_id;
  redemption_id = none;
  delta = pos initial_points;
  balance_after = initial_points;
  reason = "demo_initial_balance";
}

-- the two INSERTs for a hash that is new; the primary key is the id
unfoldable pub insert_demo_user : Env → String → Db → Result Db
insert_demo_user env user_id_hash db = do
  fail_if (any (λ (u : UserRow). u.user_id == env.uuid user_id) db.users) constraint
  ok (record db {
    users = insert_row (demo_user env user_id_hash) db.users;
    points_ledger = insert_row (initial_entry env) db.points_ledger;
  })

-- `EnsureDemoUser`: ON CONFLICT (user_id_hash) DO NOTHING
unfoldable pub ensure_demo_user : Env → String → Db → Result Db
ensure_demo_user env user_id_hash db = do
  fail_if (not (valid_user_id_hash user_id_hash)) invalid_request
  fail_if (env.fails ensure_user) (unavailable ensure_user)
  if any (λ (u : UserRow). u.user_id_hash == user_id_hash) db.users
      then ok db
      else insert_demo_user env user_id_hash db
