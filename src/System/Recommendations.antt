-- ===== src/System/Recommendations.antt =====
-- internal/recommendation/recommendation.go, `Recommend`, keeps the tables healthy.
use mathlib.Core.Path.{subst}
use spacetime_node.Prelude.{any, ◌≡◌, refl, String, false, List, ◌∷◌, not, ◌==◌, arith}
use spacetime_node.Prelude.Table.{find}
use spacetime_node.Platform.Env.{
  Env, begin_tx, commit_tx, select_user, select_offers, insert_recommendation,
}
use spacetime_node.Platform.Result.{
  constraint, ok, unavailable, no_eligible_offer, user_not_found, >>=-ok, fail_if-ok, ok-state,
}
use spacetime_node.Platform.Database.{Db}
use spacetime_node.Platform.Outbox.{enqueue}
use spacetime_node.Recommendation.Rules.{Preference, Candidate}
use spacetime_node.Recommendation.Choice.{Evaluation, first_eligible}
use spacetime_node.Recommendation.Recommend.{
  Service, Request, Recommendation, row_of, has_recommendation_id, created_event, store, conclude,
  facts_of, assemble, search_limit, is_nil, select_journey_station, decide, recommend_tx, recommend,
}
use spacetime_node.Recommendation.Recommend as R
use spacetime_node.Redemption.Rows.{has_hash}
use spacetime_node.Redemption.Rows
use spacetime_node.Analytics.{known_topic}
use spacetime_node.Analytics.Emitted.{IsComplete}
use spacetime_node.System.Healthy.{IsHealthy, enqueue-IsHealthy, settle-IsHealthy}

created-IsComplete :
    (env : Env) (req : Request) (r : Recommendation)
    → R.lacks_field req ≡ false
    → IsComplete (created_event env req r) env.now
unfolding known_topic
created-IsComplete env req r given = record {
  version = refl;
  occurred = refl;
  producer = refl;
  trace = ground arith;
  known = refl;
  journey = ground arith;
  no_visit = refl;
}

store-IsHealthy :
    (s : Service) (env : Env) (req : Request) (r : Recommendation) (db : Db) {x : Recommendation}
    {db' : Db}
    → R.lacks_field req ≡ false
    → store s env req r db ≡ ok (x, db')
    → IsHealthy db
    → IsHealthy db'
unfolding store
store-IsHealthy s env req r db given e h =
    let (_, e₁) = fail_if-ok (env.fails insert_recommendation) _ _ e in
    let (_, e₂) = fail_if-ok (any (has_recommendation_id r.id) db.recommendations) _ _ e₁ in
    let (score, _, e₃) = >>=-ok (Rows.or_error constraint (s.numeric r.score)) _ e₂ in
    let (db₁, sent, e₄) = >>=-ok (enqueue env _ _) _ e₃ in
    let (_, e₅) = fail_if-ok (env.fails commit_tx) (unavailable commit_tx) _ e₄ in
    let h₁ =
      enqueue-IsHealthy env _ (created_event env req r)
        (record db { recommendations = row_of r score ∷ db.recommendations }) sent refl refl refl
        (created-IsComplete env req r given)
        (record { emitted = h.emitted; placed = h.placed; bounded = h.bounded }) in
    subst IsHealthy (ok-state e₅) h₁

conclude-IsHealthy :
    (s : Service) (env : Env) (req : Request) (name : String) (ranked : List Evaluation) (db : Db)
    {r : Recommendation} {db' : Db}
    → R.lacks_field req ≡ false
    → conclude s env req name ranked db ≡ ok (r, db')
    → IsHealthy db
    → IsHealthy db'
unfolding conclude
conclude-IsHealthy s env req name ranked db {r} {db'} given e h =
    let (chosen, _, e₁) = >>=-ok (Rows.or_error no_eligible_offer (first_eligible ranked)) _ e in
    let (copy, _, e₂) = >>=-ok (s.generate_copy (facts_of name chosen.summary)) _ e₁ in
    store-IsHealthy s env req (assemble s env req ranked chosen.summary copy) db given e₂ h

decide-IsHealthy :
    (s : Service) (env : Env) (req : Request) (p : Preference) (cs : List Candidate) (db : Db)
    {r : Recommendation} {db' : Db}
    → R.lacks_field req ≡ false
    → decide s env req p cs db ≡ ok (r, db')
    → IsHealthy db
    → IsHealthy db'
unfolding decide
decide-IsHealthy s env req p cs db {r} {db'} given e h =
    let (_, e₁) = fail_if-ok (env.fails begin_tx) _ _ e in
    let (_, e₂) = fail_if-ok (env.fails select_user) _ _ e₁ in
    let (user, found, e₃) =
      >>=-ok (Rows.or_error user_not_found (find (has_hash req.user_id_hash) db.users)) _ e₂ in
    let (station, entered, e₄) =
      >>=-ok (select_journey_station env req.journey_id user.user_id db) _ e₃ in
    let (same_station, e₅) = fail_if-ok (not (station.station_id == req.station_id)) _ _ e₄ in
    let (_, e₆) = fail_if-ok (env.fails select_offers) _ _ e₅ in
    conclude-IsHealthy s env req station.name _ db given e₆ h

recommend_tx-IsHealthy :
    (s : Service) (env : Env) (req : Request) (db : Db) (r : Recommendation) (db' : Db)
    → IsHealthy db
    → recommend_tx s env req db ≡ ok (r, db')
    → IsHealthy db'
unfolding recommend_tx
recommend_tx-IsHealthy s env req db r db' h e =
    let (given, e₁) = fail_if-ok (R.lacks_field req) _ _ e in
    let (p, _, e₂) = >>=-ok s.preference _ e₁ in
    let (cs, _, e₃) = >>=-ok (s.search (search_limit s req)) _ e₂ in
    let (_, e₄) = fail_if-ok (is_nil cs) _ _ e₃ in decide-IsHealthy s env req p cs db given e₄ h

pub recommend-IsHealthy :
    (s : Service) (env : Env) (req : Request) (db : Db)
    → IsHealthy db
    → IsHealthy (recommend s env req db).1
unfolding recommend
recommend-IsHealthy s env req db h =
    settle-IsHealthy db (recommend_tx s env req db)
      (λ r db' e. recommend_tx-IsHealthy s env req db r db' h e) h
