-- ===== src/Recommendation/Choice.antt =====
-- internal/recommendation/recommendation.go, `Recommend`: the order of the evaluations, the chosen
-- offer and the list of offers.
use spacetime_node.Prelude.{
  ℕ, String, Bool, Option, none, some, List, [], ◌∷◌, ◌++◌, ◌&&◌, ◌==◌, if◌then◌else◌, ltb, length,
}
use spacetime_node.Prelude.Text.{codes, codes_less}
use spacetime_node.Prelude.Sort.{stable_sort}
use spacetime_node.Platform.Database.{CandidateSummary}
use spacetime_node.Recommendation.Copy.{CopyOutput}
use spacetime_node.Recommendation.Rules.{Floats, Preference, Candidate, Offer, evaluate}

-- the type `evaluation`; without an offer it holds Go's zero value, which nothing reads
pub record Evaluation : Type 0 where
  pub offer : Option Offer
  pub summary : CandidateSummary

-- the comparison of `sort.SliceStable`: the higher score first, then the smaller id
unfoldable pub goes_before : Floats → Evaluation → Evaluation → Bool
goes_before fl a b =
    if fl.eq a.summary.rule_score b.summary.rule_score
    then codes_less (codes a.summary.offer_id) (codes b.summary.offer_id)
    else fl.less b.summary.rule_score a.summary.rule_score

-- the loop over the candidates; `offers` is the map from the ids of the query's rows
unfoldable pub evaluate_all :
    Floats → Preference → ℕ → ℕ → (String → Option Offer) → List Candidate → List Evaluation
evaluate_all fl p now balance offers [] = []
evaluate_all fl p now balance offers (c ∷ cs) =
    record { offer = offers c.offer_id; summary = evaluate fl p now balance (offers c.offer_id) c }
    ∷ evaluate_all fl p now balance offers cs

unfoldable pub ranking :
    Floats → Preference → ℕ → ℕ → (String → Option Offer) → List Candidate → List Evaluation
ranking fl p now balance offers cs =
    stable_sort (goes_before fl) (evaluate_all fl p now balance offers cs)

-- the search for `chosenIndex`
unfoldable pub first_eligible : List Evaluation → Option Evaluation
first_eligible [] = none
first_eligible (e ∷ es) = if e.summary.eligible then some e else first_eligible es

pub record RecommendedOffer : Type 0 where
  pub offer_id : String
  pub title : String
  pub body : String
  pub reasons : List String
  pub score : ℕ
  pub points_cost : ℕ
  pub station_id : String

-- an element of `recommendation.Offers`; the chosen offer carries the generated copy
abbrev pub offer_view : String → CopyOutput → List String → CandidateSummary → RecommendedOffer
offer_view chosen_id copy reasons s =
    let mine = s.offer_id == chosen_id in
    record {
      offer_id = s.offer_id;
      title = if mine then copy.title else s.title;
      body = if mine then copy.body else s.description;
      reasons = if mine then reasons else s.reasons;
      score = s.rule_score;
      points_cost = s.points_cost;
      station_id = s.station_id;
    }

-- the loop that appends to `recommendation.Offers`
unfoldable pub collect_offers :
    ℕ
    → (CandidateSummary → RecommendedOffer)
    → List RecommendedOffer
    → List Evaluation
    → List RecommendedOffer
collect_offers limit f out [] = out
collect_offers limit f out (e ∷ es) =
    collect_offers limit f
      (if e.summary.eligible && ltb (length out) limit then out ++ f e.summary ∷ [] else out) es
