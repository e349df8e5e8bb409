-- ===== src/Recommendation/Offered.antt =====
-- The offers of a recommendation, against the candidates of the search
-- (internal/recommendation/recommendation.go).
use mathlib.Core.List.{Perm}
use spacetime_node.Prelude.{
  ℕ, ◌≤◌, ◌≡◌, String, some, List, ◌∷◌, map, ◌==◌, take, select, nat_eq, if◌then◌else◌,
}
use spacetime_node.Prelude.Sort.Laws.{IsSorted}
use spacetime_node.Prelude.Table.{find}
use spacetime_node.Platform.Env.{Env}
use spacetime_node.Platform.Result.{ok}
use spacetime_node.Platform.Database.{Db, UserRow}
use spacetime_node.Recommendation.Rules.{Preference, Candidate}
use spacetime_node.Recommendation.Choice.{Evaluation, RecommendedOffer, evaluate_all, goes_before}
use spacetime_node.Recommendation.Offers.{is_eligible}
use spacetime_node.Recommendation.Recommend.{Service, Request, Recommendation, select_offer}

-- the ids of the eligible evaluations, in their order
abbrev pub eligible_ids : List Evaluation → List String
eligible_ids es = map (λ (e : Evaluation). e.summary.offer_id) (select is_eligible es)

abbrev pub ids : List RecommendedOffer → List String
ids os = map (λ (o : RecommendedOffer). o.offer_id) os

-- The limit of the search: what was asked for, if that is from 1 to 50.
pub record IsSearchLimit (asked limit : ℕ) : Type 0 where
  pub some_limit : 1 ≤ limit
  pub bounded : limit ≤ 50
  pub as_asked : 1 ≤ asked → asked ≤ 50 → limit ≡ asked

-- What the offers of a recommendation are: all that the search has found at its limit is evaluated
-- with the stored preference, sorted, and cut to the service's limit; the recommended offer is first.
pub record Offers (s : Service) (env : Env) (req : Request) (db : Db) (r : Recommendation)
    : Type 0 where
  pub limit : ℕ
  pub user : UserRow
  pub preference : Preference
  pub candidates : List Candidate
  pub ranked : List Evaluation
  pub rest : List String
  pub limited : IsSearchLimit req.limit limit
  pub searched : s.search limit ≡ ok candidates
  pub preferred : s.preference ≡ ok preference
  pub known : find (λ (u : UserRow). u.user_id_hash == req.user_id_hash) db.users ≡ some user
  pub evaluated : Perm ranked (
      evaluate_all s.floats preference env.now user.point_balance
        (select_offer req.station_id user.user_id db)
        candidates)
  pub sorted : IsSorted (goes_before s.floats) ranked
  pub offered :
      ids r.offers
      ≡ take (if nat_eq s.candidate_limit 0 then 10 else s.candidate_limit) (eligible_ids ranked)
  pub first : ids r.offers ≡ r.offer_id ∷ rest
  pub listed : r.candidates ≡ map (λ (e : Evaluation). e.summary) ranked
