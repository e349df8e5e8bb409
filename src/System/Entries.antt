-- ===== src/System/Entries.antt =====
-- internal/journey/service.go, `CreateEntryEvent`, and internal/user/service.go keep the tables healthy.
use mathlib.Core.Path.{subst}
use spacetime_node.Prelude.{
  any, ◌≡◌, refl, String, false, ◌||◌, not, ◌==◌, if◌then◌else◌, arith, inl, inr, Bool-cases,
}
use spacetime_node.Prelude.Table.{find}
use spacetime_node.Platform.Env.{
  Env, begin_tx, commit_tx, select_user, select_station, insert_journey, trace_id, journey_id,
}
use spacetime_node.Platform.Result.{
  Result, ok, unavailable, >>=-ok, fail_if-ok, ok-state, Result-cases,
}
use spacetime_node.Platform.Database.{Db, UserRow, StationRow, JourneyRow}
use spacetime_node.Platform.Outbox.{enqueue}
use spacetime_node.User.{valid_user_id_hash, ensure_demo_user, insert_demo_user}
use spacetime_node.User.Preferences.{
  PreferencesRequest, UserProfile, valid_preferences, update_user_rows, profile, update_known,
  after_ensure, update_user_preferences, get_user_profile,
}
use spacetime_node.Notification.Window.{Zones}
use spacetime_node.Journey.Entry.{
  Place, EntryRequest, or_error, resolve_entry_context, entry_event, enter, create_entry_event_tx,
  create_entry_event,
}
use spacetime_node.Analytics.{known_topic}
use spacetime_node.Analytics.Emitted.{IsComplete}
use spacetime_node.System.Healthy.{
  IsHealthy, Keeps, Keeps-IsHealthy, enqueue-IsHealthy, settle-IsHealthy,
}

-- `uuid.NewString` returns no empty text.
pub record IsRandom (env : Env) : Type 0 where
  pub traces : (env.uuid trace_id == "") ≡ false
  pub journeys : (env.uuid journey_id == "") ≡ false

pub trace-given :
    (env : Env) (trace : String)
    → IsRandom env
    → ((if trace == "" then env.uuid trace_id else trace) == "") ≡ false
trace-given env trace r = elim (Bool-cases (trace == "")) [
  | inl absent ↦ rw absent (r.traces)
  | inr given ↦ rw given given
]

pub ensure-Keeps :
    (env : Env) (hash : String) (db : Db) {db' : Db}
    → ensure_demo_user env hash db ≡ ok db'
    → Keeps db db'
unfolding ensure_demo_user insert_demo_user
ensure-Keeps env hash db {db'} e = record {
  outbox = ground arith;
  redemptions = ground arith;
  weights = ground arith;
}

entry-IsComplete :
    (env : Env) (req : EntryRequest) (place : Place)
    → IsRandom env
    → IsComplete (entry_event env req place) env.now
unfolding known_topic
entry-IsComplete env req place r = record {
  version = refl;
  occurred = refl;
  producer = refl;
  trace = trace-given env req.trace_id r;
  known = refl;
  journey = r.journeys;
  no_visit = refl;
}

enter-IsHealthy :
    (env : Env) (req : EntryRequest) (place : Place) (db : Db) {id : String} {db' : Db}
    → IsRandom env
    → enter env req place db ≡ ok (id, db')
    → IsHealthy db
    → IsHealthy db'
unfolding enter
enter-IsHealthy env req place db {id} {db'} r e h =
    let (_, e₁) = fail_if-ok (env.fails begin_tx) _ _ e in
    let (db₁, ensured, e₂) = >>=-ok (ensure_demo_user env req.user_id_hash db) _ e₁ in
    let (_, e₃) = fail_if-ok (env.fails select_user) _ _ e₂ in
    let (user, _, e₄) =
      >>=-ok (or_error (find (λ (u : UserRow). u.user_id_hash == req.user_id_hash) db₁.users) _) _
        e₃ in
    let (_, e₅) = fail_if-ok (env.fails select_station) _ _ e₄ in
    let (station, _, e₆) =
      >>=-ok (or_error (find (λ (s : StationRow). s.station_id == place.station_id) db₁.stations) _)
        _ e₅ in
    let (_, e₇) = fail_if-ok (env.fails insert_journey) _ _ e₆ in
    let at_line : Place = record place {
      line_id = if place.line_id == "" then station.line_id else place.line_id;
    } in
    let (_, e₀) =
      fail_if-ok (any (λ (j : JourneyRow). j.journey_id == env.uuid journey_id) db₁.journeys) _ _
        e₇ in
    let (db₂, sent, e₈) = >>=-ok (enqueue env _ _) _ e₀ in
    let (_, e₉) = fail_if-ok (env.fails commit_tx) (unavailable commit_tx) _ e₈ in
    let h₁ = Keeps-IsHealthy (ensure-Keeps env req.user_id_hash db ensured) h in
    let h₂ =
      enqueue-IsHealthy env _ (entry_event env req at_line) _ sent refl refl refl
        (entry-IsComplete env req at_line r)
        (record { emitted = h₁.emitted; placed = h₁.placed; bounded = h₁.bounded }) in
    subst IsHealthy (ok-state e₉) h₂

create_entry_event_tx-IsHealthy :
    (env : Env) (req : EntryRequest) (db : Db) (id : String) (db' : Db)
    → IsRandom env
    → IsHealthy db
    → create_entry_event_tx env req db ≡ ok (id, db')
    → IsHealthy db'
unfolding create_entry_event_tx
create_entry_event_tx-IsHealthy env req db id db' r h e =
    let (_, e₁) = fail_if-ok (req.user_id_hash == "") _ _ e in
    let (_, e₂) = fail_if-ok (not (valid_user_id_hash req.user_id_hash)) _ _ e₁ in
    let (place, _, e₃) = >>=-ok (resolve_entry_context req) _ e₂ in
    let (_, e₄) = fail_if-ok (place.station_id == "") _ _ e₃ in
    enter-IsHealthy env req place db r e₄ h

pub create_entry_event-IsHealthy :
    (env : Env) (req : EntryRequest) (db : Db)
    → IsRandom env
    → IsHealthy db
    → IsHealthy (create_entry_event env req db).1
unfolding create_entry_event
create_entry_event-IsHealthy env req db r h =
    settle-IsHealthy db (create_entry_event_tx env req db)
      (λ id db' e. create_entry_event_tx-IsHealthy env req db id db' r h e) h

-- from `EnsureDemoUser` on
after_ensure-IsHealthy :
    (rest : Db → Result UserProfile × Db) (env : Env) (hash : String) (db : Db)
    → ((db₁ : Db) → Keeps db₁ (rest db₁).1)
    → IsHealthy db
    → IsHealthy (after_ensure rest (ensure_demo_user env hash db) db).1
unfolding after_ensure
after_ensure-IsHealthy rest env hash db keeps h =
    elim (Result-cases (ensure_demo_user env hash db)) [
      | inr (_, failed) ↦ rw failed h
      | inl (db₁, ensured) ↦
          rw ensured
            (Keeps-IsHealthy (keeps db₁) (Keeps-IsHealthy (ensure-Keeps env hash db ensured) h))
    ]

update_known-Keeps :
    (env : Env) (req : PreferencesRequest) (db : Db) → Keeps db (update_known env req db).1
unfolding update_known update_user_rows
update_known-Keeps env req db = record {
  outbox = ground arith;
  redemptions = ground arith;
  weights = ground arith;
}

pub update_user_preferences-IsHealthy :
    (zones : Zones) (env : Env) (req : PreferencesRequest) (db : Db)
    → IsHealthy db
    → IsHealthy (update_user_preferences zones env req db).1
unfolding update_user_preferences
update_user_preferences-IsHealthy zones env req db h =
    elim (Bool-cases
      (not (valid_user_id_hash req.user_id_hash) || not (valid_preferences zones env.now req))) [
        | inl invalid ↦ rw invalid h
        | inr valid ↦ rw valid (
            after_ensure-IsHealthy (update_known env req) env req.user_id_hash db
              (update_known-Keeps env req) h)
      ]

pub get_user_profile-IsHealthy :
    (env : Env) (hash : String) (db : Db)
    → IsHealthy db
    → IsHealthy (get_user_profile env hash db).1
unfolding get_user_profile
get_user_profile-IsHealthy env hash db h = elim (Bool-cases (not (valid_user_id_hash hash))) [
  | inl invalid ↦ rw invalid h
  | inr valid ↦ rw valid (
      after_ensure-IsHealthy (λ db₁. (profile env hash db₁, db₁)) env hash db
        (λ db₁. record { outbox = refl; redemptions = refl; weights = refl }) h)
]
