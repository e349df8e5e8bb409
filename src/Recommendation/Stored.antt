-- ===== src/Recommendation/Stored.antt =====
-- internal/recommendation/preference.go and `LoadPreferenceWeights` of feedback.go: the preference
-- of a user from Redis, PostgreSQL or the default. What Redis answers is an argument, and what is
-- sent to it is part of the result. Redis keeps the JSON of a preference, which has no source.
pub mod Own
mod Tests
use Prim.Native.String.{◌++◌}
use spacetime_node.Prelude.{
  ℕ, ◌+◌, String, Bool, true, false, Option, none, some, List, [], ◌∷◌, ◌&&◌, ◌==◌, if◌then◌else◌,
  any,
}
use spacetime_node.Prelude.Int.{ℤ}
use spacetime_node.Prelude.Table.{find}
use spacetime_node.Platform.Env.{Env, select_preferences, select_weights}
use spacetime_node.Platform.Result.{
  Result, ok, err, unavailable, invalid_user_id_hash, ◌>>◌, fail_if,
}
use spacetime_node.Platform.Database.{Db, UserRow, WeightRow}
use spacetime_node.Redemption.Rows.{has_hash}
use spacetime_node.Recommendation.Rules.{Preference}

pub record StoredPreference : Type 0 where
  pub user_id_hash : String
  pub preference : Preference
  pub generated_at : ℕ
  pub expires_at : ℕ
  pub source : String

-- `GET`: a value that decodes, one that does not, no value, or an error
pub data Read : Type 0 where
  hit : StoredPreference → Read
  unreadable missing broken : Read

-- `SET` of a key to a value for a time
pub record Write : Type 0 where
  pub key : String
  pub value : StoredPreference
  pub ttl : ℕ

-- `redis` is none without a client, and `has_db` tells whether there is a database
pub record PreferenceStore : Type 0 where
  pub redis : Option (String → Read)
  pub has_db : Bool
  pub ttl : ℕ

-- `DemoUserIDHash`
abbrev pub demo_user_id_hash : String
demo_user_id_hash = "sha256:aaaaaaaaaaaaaaaaaaaaaaaaaaaaaaaaaaaaaaaaaaaaaaaaaaaaaaaaaaaaaaaa"

-- `preferenceKey`
abbrev pub preference_key : String → String
preference_key user_id_hash = "preference:" ++ user_id_hash

-- `DemoPreference`, with the time of expiry that `Get` gives it
unfoldable pub demo_preference : Env → ℕ → String → StoredPreference
demo_preference env ttl user_id_hash = record {
  user_id_hash = user_id_hash;
  preference = record {
    predicted_destination = if user_id_hash == demo_user_id_hash then "R04" else "";
    preferred_categories =
        if user_id_hash == demo_user_id_hash then "coffee" ∷ "lunch" ∷ [] else "general" ∷ [];
    category_weights = [];
    budget_min_points = 80;
    budget_max_points = 300;
  };
  generated_at = env.now;
  expires_at = env.now + ttl;
  source = "fallback";
}

-- the rows of the join for a user
unfoldable pub weights_of : String → List UserRow → List WeightRow → List (String × ℤ)
weights_of user_id_hash users [] = []
weights_of user_id_hash users (w ∷ ws) =
    let rest = weights_of user_id_hash users ws in
    if any (λ (u : UserRow). u.user_id == w.user_id && u.user_id_hash == user_id_hash) users
    then (w.category, w.weight) ∷ rest
    else rest

-- `LoadPreferenceWeights`
unfoldable pub load_preference_weights :
    PreferenceStore → Env → String → Db → Result (List (String × ℤ))
load_preference_weights store env user_id_hash db =
    if store.has_db
    then (if env.fails select_weights
        then err (unavailable select_weights)
        else ok (weights_of user_id_hash db.users db.user_preference_weights))
    else ok []

abbrev pub with_weights : StoredPreference → List (String × ℤ) → StoredPreference
with_weights p weights = record p {
  preference = record p.preference { category_weights = weights };
}

-- a hit, with the weights of now if they can be read
abbrev pub refreshed : StoredPreference → Result (List (String × ℤ)) → StoredPreference
refreshed p (err _) = record p { source = "redis" }
refreshed p (ok weights) = record (with_weights p weights) { source = "redis" }

abbrev pub first_station : List String → String
first_station [] = ""
first_station (s ∷ _) = s

abbrev pub preference_of : Env → ℕ → UserRow → List (String × ℤ) → StoredPreference
preference_of env ttl u weights = record {
  user_id_hash = u.user_id_hash;
  preference = record {
    predicted_destination = first_station u.favorite_station_ids;
    preferred_categories = u.preferred_categories;
    category_weights = weights;
    budget_min_points = u.budget_min_points;
    budget_max_points = u.budget_max_points;
  };
  generated_at = env.now;
  expires_at = env.now + ttl;
  source = "postgres";
}

-- the `SET` after a miss
abbrev pub remember : PreferenceStore → StoredPreference → List Write
remember store p = elim store.redis [
  | none ↦ []
  | some _ ↦ record { key = preference_key p.user_id_hash; value = p; ttl = store.ttl } ∷ []
]

abbrev pub fall_back : PreferenceStore → Env → String → Result StoredPreference × List Write
fall_back store env user_id_hash =
    let p = demo_preference env store.ttl user_id_hash in (ok p, remember store p)

abbrev pub from_row :
    PreferenceStore
    → Env
    → UserRow
    → Result (List (String × ℤ))
    → Result StoredPreference × List Write
from_row store env u (err e) = (err e, [])
from_row store env u (ok weights) =
    let p = preference_of env store.ttl u weights in (ok p, remember store p)

abbrev pub saved_or_default :
    PreferenceStore → Env → String → Db → Option UserRow → Result StoredPreference × List Write
saved_or_default store env user_id_hash db none = fall_back store env user_id_hash
saved_or_default store env user_id_hash db (some u) =
    from_row store env u (load_preference_weights store env user_id_hash db)

-- from the query of the user on
unfoldable pub get_saved :
    PreferenceStore → Env → String → Db → Result StoredPreference × List Write
get_saved store env user_id_hash db =
    if store.has_db
    then (if env.fails select_preferences
        then fall_back store env user_id_hash
        else saved_or_default store env user_id_hash db (find (has_hash user_id_hash) db.users))
    else fall_back store env user_id_hash

abbrev pub read : Option (String → Read) → String → Read
read none key = missing
read (some answers) key = answers key

unfoldable pub after_read :
    PreferenceStore → Env → String → Db → Read → Result StoredPreference × List Write
after_read store env user_id_hash db (hit p) =
    if p.user_id_hash == user_id_hash
    then (ok (refreshed p (load_preference_weights store env user_id_hash db)), [])
    else get_saved store env user_id_hash db
after_read store env user_id_hash db unreadable = get_saved store env user_id_hash db
after_read store env user_id_hash db missing = get_saved store env user_id_hash db
after_read store env user_id_hash db broken = get_saved store env user_id_hash db

-- `PreferenceStore.Get`
unfoldable pub get_preference :
    PreferenceStore → Env → String → Db → Result StoredPreference × List Write
get_preference store env user_id_hash db =
    if user_id_hash == ""
    then (err invalid_user_id_hash, [])
    else after_read store env user_id_hash db (read store.redis (preference_key user_id_hash))
