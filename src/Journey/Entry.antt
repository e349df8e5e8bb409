-- ===== src/Journey/Entry.antt =====
-- internal/journey/service.go, `CreateEntryEvent`. The beacon resolver comes in as an argument.
use spacetime_node.Prelude.{
  String, Option, none, some, List, [], ◌∷◌, ◌&&◌, not, ◌==◌, if◌then◌else◌, any,
}
use spacetime_node.Prelude.Table.{find, insert_row}
use spacetime_node.Platform.Env.{
  Env, begin_tx, commit_tx, select_user, select_station, insert_journey, event_id, trace_id,
  journey_id,
}
use spacetime_node.Platform.Result.{
  Result, ok, err, unavailable, constraint, invalid_request, journey_not_found, ◌>>=◌, ◌>>◌,
  fail_if, settle,
}
use spacetime_node.Platform.Event.{Field, Envelope, at, text, event}
use spacetime_node.Platform.Database.{Db, UserRow, StationRow, JourneyRow}
use spacetime_node.Platform.Outbox.{enqueue}
use spacetime_node.User.{valid_user_id_hash, ensure_demo_user}

pub record Place : Type 0 where
  pub station_id : String
  pub line_id : String
  pub position_id : String

-- `Beacon` is what the beacon of a request resolves to; `none` is a request without a beacon, and
-- an error one that cannot be resolved, be it for want of a resolver.
pub record EntryRequest : Type 0 where
  pub user_id_hash : String
  pub place : Place
  pub trace_id : String
  pub beacon : Option (Result Place)

abbrev pub or_error {ℓ} : {A : Type ℓ} → Option A → Result A → Result A
or_error none e = e
or_error (some a) e = ok a

-- a resolved beacon wins, unless the request names another station
unfoldable pub place_of_beacon : Place → Result Place → Result Place
place_of_beacon asked (err _) = err invalid_request
place_of_beacon asked (ok found) =
    if not (asked.station_id == "") && not (asked.station_id == found.station_id)
    then err invalid_request
    else ok found

-- `resolveEntryContext`
unfoldable pub resolve_entry_context : EntryRequest → Result Place
resolve_entry_context req = elim req.beacon [
  | none ↦ ok req.place
  | some b ↦ place_of_beacon req.place b
]

-- `omitempty`
abbrev pub optional : String → String → List (String × Field) → List (String × Field)
optional name value rest = if value == "" then rest else (name, text value) ∷ rest

abbrev pub entry_event : Env → EntryRequest → Place → Envelope
entry_event env req place = record {
  event_id = env.uuid event_id;
  event_type = "journey.entered.v1";
  schema_version = 1;
  occurred_at = at env.now;
  producer = "gateway-service";
  trace_id = if req.trace_id == "" then env.uuid trace_id else req.trace_id;
  journey_id = env.uuid journey_id;
  recommendation_id = "";
  user_id_hash = req.user_id_hash;
  payload =
      ("station_id", text place.station_id)
      ∷ optional "line_id" place.line_id (optional "position_id" place.position_id []);
}

-- the transaction, with the primary key of `journeys`; it returns the id of the journey
unfoldable pub enter : Env → EntryRequest → Place → Db → Result (String × Db)
enter env req place db = do
  fail_if (env.fails begin_tx) (unavailable begin_tx)
  db₁ ← ensure_demo_user env req.user_id_hash db
  fail_if (env.fails select_user) (unavailable select_user)
  user ←
      or_error (find (λ (u : UserRow). u.user_id_hash == req.user_id_hash) db₁.users)
        (err journey_not_found)
  fail_if (env.fails select_station) (unavailable select_station)
  station ←
      or_error (find (λ (s : StationRow). s.station_id == place.station_id) db₁.stations)
        (err invalid_request)
  let at_line = record place {
    line_id = if place.line_id == "" then station.line_id else place.line_id;
  }
  fail_if (env.fails insert_journey) (unavailable insert_journey)
  fail_if (any (λ (j : JourneyRow). j.journey_id == env.uuid journey_id) db₁.journeys) constraint
  db₂ ←
      enqueue env
        (record {
          id = env.uuid event_id;
          topic = "journey.entered.v1";
          key = req.user_id_hash;
          payload = event (entry_event env req at_line);
        })
        (record db₁ {
          journeys =
              insert_row
                (record {
                  journey_id = env.uuid journey_id;
                  user_id = user.user_id;
                  station_id = at_line.station_id;
                  line_id = at_line.line_id;
                  position_id = at_line.position_id;
                })
                db₁.journeys;
        })
  fail_if (env.fails commit_tx) (unavailable commit_tx)
  ok (env.uuid journey_id, db₂)

-- `CreateEntryEvent`, without the rollback
unfoldable pub create_entry_event_tx : Env → EntryRequest → Db → Result (String × Db)
create_entry_event_tx env req db = do
  fail_if (req.user_id_hash == "") invalid_request
  fail_if (not (valid_user_id_hash req.user_id_hash)) invalid_request
  place ← resolve_entry_context req
  fail_if (place.station_id == "") invalid_request
  enter env req place db

-- `CreateEntryEvent`
unfoldable pub create_entry_event : Env → EntryRequest → Db → Result String × Db
create_entry_event env req db = settle db (create_entry_event_tx env req db)
