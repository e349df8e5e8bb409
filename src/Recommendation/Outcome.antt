-- ===== src/Recommendation/Outcome.antt =====
-- What a call of `Recommend` that returns has decided and written
-- (internal/recommendation/recommendation.go).
use spacetime_node.Prelude.{
  ℕ, any, ◌≡◌, refl, not, String, Bool, true, false, Option, none, some, List, ◌∷◌, arith, eq_iff,
  inl, inr, Option-cases, ◌==◌,
}
use spacetime_node.Prelude.Table.{find, insert_row}
use spacetime_node.Platform.Env.{
  Env, event_id, begin_tx, commit_tx, select_user, select_offers, insert_recommendation,
}
use spacetime_node.Platform.Result.{
  Error, ok, Result-cases, fail_if-ok, >>=-ok, user_not_found, constraint,
}
use spacetime_node.Platform.Event.{event}
use spacetime_node.Platform.Database.{Db, UserRow}
use spacetime_node.Platform.Outbox.{Event, enqueue, new_row}
use spacetime_node.Platform.Outbox.Enqueue.{enqueue_lem}
use spacetime_node.Redemption.Rows.{has_hash, or_error}
use spacetime_node.Recommendation.Rules.{Preference, Candidate}
use spacetime_node.Recommendation.Choice.{Evaluation, ranking, first_eligible}
use spacetime_node.Recommendation.Copy.{Copy}
use spacetime_node.Recommendation.Recommend.{
  Service, Request, Recommendation, StationName, select_offer, select_journey_station, facts_of,
  row_of, has_recommendation_id, created_event, store, assemble, conclude, decide, recommend_tx,
  search_limit, lacks_field, is_nil,
}

-- the tables after the call, `r` being the recommendation
abbrev pub stored : Env → Request → Recommendation → ℕ → Db → Db
stored env req r score db = record db {
  recommendations = row_of r score ∷ db.recommendations;
  outbox_events =
      insert_row
        (new_row env (record {
          id = (created_event env req r).event_id;
          topic = "recommendation.created.v1";
          key = req.user_id_hash;
          payload = event (created_event env req r);
        }))
        db.outbox_events;
}

pub or_error-ok :
    {A : Type 0} (problem : Error) (o : Option A) {a : A} → or_error problem o ≡ ok a → o ≡ some a
or_error-ok problem none e = absurd (ground arith)
or_error-ok problem (some a) e = ground arith

store-stored :
    (s : Service) (env : Env) (req : Request) (r : Recommendation) (db : Db) {r' : Recommendation}
    {db' : Db}
    → store s env req r db ≡ ok (r', db')
    → (r' ≡ r) × (score : ℕ) × (s.numeric r.score ≡ some score) × (db' ≡ stored env req r score db)
unfolding store
store-stored s env req r db {r'} {db'} e =
    let (_, e₁) = fail_if-ok (env.fails insert_recommendation) _ _ e in
    let (_, e₂) = fail_if-ok (any (has_recommendation_id r.id) db.recommendations) _ _ e₁ in
    let (score, kept, e₃) = >>=-ok (or_error constraint (s.numeric r.score)) _ e₂ in
    let ev : Event = record {
      id = env.uuid event_id;
      topic = "recommendation.created.v1";
      key = req.user_id_hash;
      payload = event (created_event env req r);
    } in
    let inserted : Db = record db { recommendations = row_of r score ∷ db.recommendations } in
    let (db₁, done, e₄) = >>=-ok (enqueue env ev inserted) _ e₃ in
    let (_, e₅) = fail_if-ok (env.fails commit_tx) _ _ e₄ in
    (
      ground arith,
      score,
      or_error-ok constraint _ kept,
      ground (arith, enqueue_lem env ev inserted done),
    )

not-false : (b : Bool) → not b ≡ false → b ≡ true
not-false true e = refl
not-false false e = cc

-- What the call has read, chosen and written.
pub record Recommends (s : Service) (env : Env) (req : Request) (db : Db) (r : Recommendation)
    (db' : Db) : Type 0 where
  pub user : UserRow
  pub station : StationName
  pub preference : Preference
  pub candidates : List Candidate
  pub chosen : Evaluation
  pub copy : Copy
  pub preferred : s.preference ≡ ok preference
  pub searched : s.search (search_limit s req) ≡ ok candidates
  pub found : find (has_hash req.user_id_hash) db.users ≡ some user
  pub entered : select_journey_station env req.journey_id user.user_id db ≡ ok station
  pub at_station : station.station_id ≡ req.station_id
  pub picks :
      first_eligible (
        ranking s.floats preference env.now user.point_balance
          (select_offer station.station_id user.user_id db)
          candidates)
      ≡ some chosen
  pub copied : s.generate_copy (facts_of station.name chosen.summary) ≡ ok copy
  pub result :
      r
      ≡ assemble s env req
          (ranking s.floats preference env.now user.point_balance
            (select_offer station.station_id user.user_id db)
            candidates)
          chosen.summary
          copy
  pub score : ℕ
  pub kept : s.numeric r.score ≡ some score
  pub written : db' ≡ stored env req r score db

abbrev Concludes :
    Service → Env → Request → String → List Evaluation → Db → Recommendation → Db → Type 0
Concludes s env req name ranked db r db' =
    (chosen : Evaluation) × (copy : Copy) × (first_eligible ranked ≡ some chosen)
    × (s.generate_copy (facts_of name chosen.summary) ≡ ok copy)
    × (r ≡ assemble s env req ranked chosen.summary copy)
    × (score : ℕ) × (s.numeric r.score ≡ some score)
    × (db' ≡ stored env req r score db)

conclude-Concludes :
    (s : Service) (env : Env) (req : Request) (name : String) (ranked : List Evaluation) (db : Db)
    {r : Recommendation} {db' : Db}
    → conclude s env req name ranked db ≡ ok (r, db')
    → Concludes s env req name ranked db r db'
unfolding conclude
conclude-Concludes s env req name ranked db {r} {db'} e =
    elim (Option-cases (first_eligible ranked)) [
      | inl nothing ↦ absurd (ground arith)
      | inr (chosen, first) ↦ elim (Result-cases (s.generate_copy (facts_of name chosen.summary))) [
        | inr (_, failed) ↦ absurd (ground arith)
        | inl (copy, made) ↦
            let r₀ = assemble s env req ranked chosen.summary copy in
            let done : store s env req r₀ db ≡ ok (r, db') = ground arith in
            let (same, score, kept, wrote) = store-stored s env req r₀ db done in
            (chosen, copy, first, made, same, score, rw same kept, rw same wrote)
      ]
    ]

decide-Recommends :
    (s : Service) (env : Env) (req : Request) (p : Preference) (cs : List Candidate) (db : Db)
    {r : Recommendation} {db' : Db}
    → s.preference ≡ ok p
    → s.search (search_limit s req) ≡ ok cs
    → decide s env req p cs db ≡ ok (r, db')
    → Recommends s env req db r db'
unfolding decide
decide-Recommends s env req p cs db {r} {db'} liked listed e =
    let (_, e₁) = fail_if-ok (env.fails begin_tx) _ _ e in
    let (_, e₂) = fail_if-ok (env.fails select_user) _ _ e₁ in
    let (user, found, e₃) =
      >>=-ok (or_error user_not_found (find (has_hash req.user_id_hash) db.users)) _ e₂ in
    let (station, entered, e₄) =
      >>=-ok (select_journey_station env req.journey_id user.user_id db) _ e₃ in
    let (same_station, e₅) = fail_if-ok (not (station.station_id == req.station_id)) _ _ e₄ in
    let (_, e₆) = fail_if-ok (env.fails select_offers) _ _ e₅ in
    let (chosen, copy, first, made, same, score, kept, wrote) =
      conclude-Concludes s env req station.name _ db e₆ in
    record {
      user = user;
      station = station;
      preference = p;
      candidates = cs;
      chosen = chosen;
      copy = copy;
      preferred = liked;
      searched = listed;
      found = or_error-ok user_not_found _ found;
      entered = entered;
      at_station = (eq_iff station.station_id req.station_id).0 (not-false _ same_station);
      picks = first;
      copied = made;
      result = same;
      score = score;
      kept = kept;
      written = wrote;
    }

-- a Recommend that returns
pub recommend_tx-Recommends :
    (s : Service) (env : Env) (req : Request) (db : Db) {r : Recommendation} {db' : Db}
    → recommend_tx s env req db ≡ ok (r, db')
    → Recommends s env req db r db'
unfolding recommend_tx
recommend_tx-Recommends s env req db {r} {db'} e =
    let (_, e₁) = fail_if-ok (lacks_field req) _ _ e in
    let (p, liked, e₂) = >>=-ok s.preference _ e₁ in
    let (cs, listed, e₃) = >>=-ok (s.search (search_limit s req)) _ e₂ in
    let (_, e₄) = fail_if-ok (is_nil cs) _ _ e₃ in
    decide-Recommends s env req p cs db liked listed e₄
