-- ===== src/Recommendation/Stored/Own.antt =====
-- internal/recommendation/preference.go: whose preference `Get` returns, and a cache that does not
-- answer.
use spacetime_node.Prelude.{
  ◌≡◌, refl, inl, inr, String, Bool, true, false, Option, none, some, List, [], ◌==◌, if◌then◌else◌,
  All, eq_iff, Bool-cases, Option-cases,
}
use spacetime_node.Prelude.Int.{ℤ}
use spacetime_node.Prelude.Table.{find, find-holds}
use spacetime_node.Platform.Env.{Env, select_preferences}
use spacetime_node.Platform.Result.{Result, ok, err}
use spacetime_node.Platform.Database.{Db, UserRow}
use spacetime_node.Redemption.Rows.{has_hash}
use spacetime_node.Recommendation.Stored.{
  StoredPreference, Read, hit, unreadable, missing, broken, Write, PreferenceStore, preference_key,
  demo_preference, load_preference_weights, refreshed, preference_of, remember, fall_back, from_row,
  saved_or_default, get_saved, read, after_read, get_preference,
}

-- a preference of the user, and one that is stored under the user's key
abbrev IsOwn : String → StoredPreference → Type 0
IsOwn user_id_hash p = p.user_id_hash ≡ user_id_hash

abbrev IsOwnWrite : String → Write → Type 0
IsOwnWrite user_id_hash w = (w.key ≡ preference_key user_id_hash) × IsOwn user_id_hash w.value

-- what `Get` returns and sends to Redis is the user's
unfoldable pub AreOwn : String → Result StoredPreference × List Write → Type 0
AreOwn user_id_hash (err _, writes) = writes ≡ []
AreOwn user_id_hash (ok p, writes) = IsOwn user_id_hash p × All (IsOwnWrite user_id_hash) writes

remember-IsOwn :
    (user_id_hash : String) (store : PreferenceStore) (p : StoredPreference)
    → IsOwn user_id_hash p
    → All (IsOwnWrite user_id_hash) (remember store p)
remember-IsOwn user_id_hash store p own = elim (Option-cases store.redis) [
  | inl no_client ↦ rw no_client tt
  | inr (_, client) ↦ rw client ((rw own refl, own), tt)
]

fall_back-AreOwn :
    (store : PreferenceStore) (env : Env) (user_id_hash : String)
    → AreOwn user_id_hash (fall_back store env user_id_hash)
unfolding AreOwn demo_preference
fall_back-AreOwn store env user_id_hash =
    (refl, remember-IsOwn user_id_hash store (demo_preference env store.ttl user_id_hash) refl)

from_row-AreOwn :
    (store : PreferenceStore) (env : Env) (user_id_hash : String) (u : UserRow)
    (weights : Result (List (String × ℤ)))
    → u.user_id_hash ≡ user_id_hash
    → AreOwn user_id_hash (from_row store env u weights)
unfolding AreOwn
from_row-AreOwn store env user_id_hash u (err e) own = refl
from_row-AreOwn store env user_id_hash u (ok weights) own =
    (own, remember-IsOwn user_id_hash store (preference_of env store.ttl u weights) own)

saved_or_default-AreOwn :
    (store : PreferenceStore) (env : Env) (user_id_hash : String) (db : Db)
    → AreOwn user_id_hash
        (saved_or_default store env user_id_hash db (find (has_hash user_id_hash) db.users))
saved_or_default-AreOwn store env user_id_hash db =
    elim (Option-cases (find (has_hash user_id_hash) db.users)) [
      | inl unknown ↦ rw unknown (fall_back-AreOwn store env user_id_hash)
      | inr (u, found) ↦
          let own =
            (eq_iff u.user_id_hash user_id_hash).0
              (find-holds (has_hash user_id_hash) db.users found) in
          rw found (
            from_row-AreOwn store env user_id_hash u
              (load_preference_weights store env user_id_hash db) own)
    ]

AreOwn-if :
    (user_id_hash : String) (b : Bool) (x y : Result StoredPreference × List Write)
    → AreOwn user_id_hash x
    → AreOwn user_id_hash y
    → AreOwn user_id_hash (if b then x else y)
AreOwn-if user_id_hash true x y h k = h
AreOwn-if user_id_hash false x y h k = k

get_saved-AreOwn :
    (store : PreferenceStore) (env : Env) (user_id_hash : String) (db : Db)
    → AreOwn user_id_hash (get_saved store env user_id_hash db)
unfolding get_saved
get_saved-AreOwn store env user_id_hash db =
    let default_own = fall_back-AreOwn store env user_id_hash in
    AreOwn-if user_id_hash store.has_db _ _
      (AreOwn-if user_id_hash (env.fails select_preferences) _ _ default_own
        (saved_or_default-AreOwn store env user_id_hash db))
      default_own

refreshed-IsOwn :
    (user_id_hash : String) (p : StoredPreference) (weights : Result (List (String × ℤ)))
    → IsOwn user_id_hash p
    → IsOwn user_id_hash (refreshed p weights)
refreshed-IsOwn user_id_hash p (err _) own = own
refreshed-IsOwn user_id_hash p (ok _) own = own

after_read-AreOwn :
    (store : PreferenceStore) (env : Env) (user_id_hash : String) (db : Db) (r : Read)
    → AreOwn user_id_hash (after_read store env user_id_hash db r)
unfolding after_read AreOwn
after_read-AreOwn store env user_id_hash db unreadable = get_saved-AreOwn store env user_id_hash db
after_read-AreOwn store env user_id_hash db missing = get_saved-AreOwn store env user_id_hash db
after_read-AreOwn store env user_id_hash db broken = get_saved-AreOwn store env user_id_hash db
after_read-AreOwn store env user_id_hash db (hit p) =
    elim (Bool-cases (p.user_id_hash == user_id_hash)) [
      | inr other ↦ rw other (get_saved-AreOwn store env user_id_hash db)
      | inl mine ↦
          let own = (eq_iff p.user_id_hash user_id_hash).0 mine in
          rw mine (
            refreshed-IsOwn user_id_hash p (load_preference_weights store env user_id_hash db) own,
            tt,
          )
    ]

-- Whatever Redis and the database answer, a preference that PreferenceStore.Get returns is that of
-- the user who was asked for, and what it sends to Redis is a preference of that user under the key
-- of that user; an error sends nothing.
pub get_preference-AreOwn :
    (store : PreferenceStore) (env : Env) (user_id_hash : String) (db : Db)
    → AreOwn user_id_hash (get_preference store env user_id_hash db)
unfolding get_preference AreOwn
get_preference-AreOwn store env user_id_hash db = elim (Bool-cases (user_id_hash == "")) [
  | inl unnamed ↦ rw unnamed refl
  | inr named ↦
      rw named (
        after_read-AreOwn store env user_id_hash db
          (read store.redis (preference_key user_id_hash)))
]

-- Redis has no value of the user for the key
abbrev pub IsMiss : String → Read → Type 0
IsMiss user_id_hash (hit p) = (p.user_id_hash == user_id_hash) ≡ false
IsMiss user_id_hash unreadable = Unit
IsMiss user_id_hash missing = Unit
IsMiss user_id_hash broken = Unit

after_read-miss :
    (store : PreferenceStore) (env : Env) (user_id_hash : String) (db : Db) (r : Read)
    → IsMiss user_id_hash r
    → after_read store env user_id_hash db r ≡ get_saved store env user_id_hash db
unfolding after_read
after_read-miss store env user_id_hash db unreadable m = refl
after_read-miss store env user_id_hash db missing m = refl
after_read-miss store env user_id_hash db broken m = refl
after_read-miss store env user_id_hash db (hit p) m = rw m refl

abbrev pub without_redis : PreferenceStore → PreferenceStore
without_redis store = record store { redis = none }

-- the same preference with and without a client
from_row-same :
    (store : PreferenceStore) (env : Env) (u : UserRow) (weights : Result (List (String × ℤ)))
    → (from_row store env u weights).0 ≡ (from_row (without_redis store) env u weights).0
from_row-same store env u (err _) = refl
from_row-same store env u (ok _) = refl

saved_or_default-same :
    (store : PreferenceStore) (env : Env) (user_id_hash : String) (db : Db) (o : Option UserRow)
    → (saved_or_default store env user_id_hash db o).0
      ≡ (saved_or_default (without_redis store) env user_id_hash db o).0
unfolding load_preference_weights
saved_or_default-same store env user_id_hash db none = refl
saved_or_default-same store env user_id_hash db (some u) =
    from_row-same store env u (load_preference_weights store env user_id_hash db)

same_if :
    (b : Bool) (x y x' y' : Result StoredPreference × List Write)
    → x.0 ≡ x'.0
    → y.0 ≡ y'.0
    → (if b then x else y).0 ≡ (if b then x' else y').0
same_if true x y x' y' e f = e
same_if false x y x' y' e f = f

get_saved-same :
    (store : PreferenceStore) (env : Env) (user_id_hash : String) (db : Db)
    → (get_saved store env user_id_hash db).0
      ≡ (get_saved (without_redis store) env user_id_hash db).0
unfolding get_saved
get_saved-same store env user_id_hash db =
    let out = without_redis store in
    let default_of = λ (q : PreferenceStore). fall_back q env user_id_hash in
    let saved_of = λ (q : PreferenceStore).
      saved_or_default q env user_id_hash db (find (has_hash user_id_hash) db.users) in
    let tried_of =
      λ (q : PreferenceStore). if env.fails select_preferences then default_of q else saved_of q in
    same_if store.has_db (tried_of store) (default_of store) (tried_of out) (default_of out)
      (same_if (env.fails select_preferences) (default_of store) (saved_of store) (default_of out)
        (saved_of out) refl
        (saved_or_default-same store env user_id_hash db (find (has_hash user_id_hash) db.users)))
      refl

-- If Redis fails, or has no value, one that does not decode or one of another user for the key,
-- PreferenceStore.Get returns what it returns without Redis.
pub get_preference-outage :
    (store : PreferenceStore) (env : Env) (user_id_hash : String) (db : Db)
    → IsMiss user_id_hash (read store.redis (preference_key user_id_hash))
    → (get_preference store env user_id_hash db).0
      ≡ (get_preference (without_redis store) env user_id_hash db).0
unfolding get_preference after_read
get_preference-outage store env user_id_hash db m = elim (Bool-cases (user_id_hash == "")) [
  | inl unnamed ↦ rw unnamed refl
  | inr named ↦
      rw
        (
          named,
          after_read-miss store env user_id_hash db (read store.redis (preference_key user_id_hash))
              m,
        )
        (get_saved-same store env user_id_hash db)
]
