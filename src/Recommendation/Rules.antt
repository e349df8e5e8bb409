-- ===== src/Recommendation/Rules.antt =====
-- internal/recommendation/recommendation.go: the rules that score a candidate. A float64 is its bit
-- pattern; the arithmetic on it is a parameter.
use spacetime_node.Prelude.{
  ℕ, String, Bool, true, false, not, Option, none, some, List, [], ◌∷◌, ◌++◌, ◌&&◌, ◌||◌, ◌==◌,
  if◌then◌else◌, ltb, leb, nat_eq, any,
}
use text.Mathlib.Text.{starts_with}
use spacetime_node.Prelude.Int.{ℤ, pos, negsuc}
use spacetime_node.Prelude.Text.{codes, trim_space, to_lower, codes_eq, is_empty}
use spacetime_node.Platform.Database.{CandidateSummary}

-- The operations on float64 that the rules use: a literal in hundredths, `x + y`, and
-- `weight * 0.05` for a weight in ten-thousandths.
pub record Floats : Type 0 where
  pub hundredths : ℕ → ℕ
  pub add : ℕ → ℕ → ℕ
  pub weigh : ℤ → ℕ
  pub eq : ℕ → ℕ → Bool
  pub less : ℕ → ℕ → Bool

pub record Preference : Type 0 where
  pub predicted_destination : String
  pub preferred_categories : List String
  pub category_weights : List (String × ℤ)
  pub budget_min_points : ℕ
  pub budget_max_points : ℕ

pub record Candidate : Type 0 where
  pub offer_id : String
  pub vector_score : ℕ

-- the type `offer` of `Recommend`, a row of its query
pub record Offer : Type 0 where
  pub id : String
  pub title : String
  pub description : String
  pub category : String
  pub station_id : String
  pub points_cost : ℕ
  pub active : Bool
  pub starts_at : ℕ
  pub ends_at : ℕ
  pub available_quantity : ℕ

abbrev pub fold : String → List ℕ
fold s = to_lower (trim_space (codes s))

-- `matchesPreferredCategory`
unfoldable pub matches_preferred_category : String → List String → Bool
matches_preferred_category category preferred =
    not (is_empty (fold category)) && any (λ p. codes_eq (fold category) (fold p)) preferred

-- `preference.CategoryWeights[...]`, with Go's zero for a missing key
unfoldable pub weight_for : String → List (String × ℤ) → ℤ
weight_for category [] = pos 0
weight_for category ((k, w) ∷ rest) =
    if codes_eq (codes k) (fold category) then w else weight_for category rest

abbrev pub is_zero : ℤ → Bool
is_zero (pos n) = nat_eq n 0
is_zero (negsuc n) = false

abbrev pub is_positive : ℤ → Bool
is_positive (pos n) = ltb 0 n
is_positive (negsuc n) = false

abbrev pub is_rejection : String → Bool
is_rejection reason =
    starts_with reason "offer_inactive"
    || reason == "out_of_stock"
    || reason == "insufficient_points"

-- `containsRejection`
unfoldable pub contains_rejection : List String → Bool
contains_rejection reasons = any is_rejection reasons

-- `if test { summary.Reasons = append(summary.Reasons, reason) }`
unfoldable pub add_reason : Bool → String → CandidateSummary → CandidateSummary
add_reason test reason s = if test then record s { reasons = s.reasons ++ reason ∷ [] } else s

-- the same with `summary.RuleScore += bonus`
unfoldable pub boost : Floats → Bool → ℕ → String → CandidateSummary → CandidateSummary
boost fl test bonus reason s =
    add_reason test reason (if test then record s { rule_score = fl.add s.rule_score bonus } else s)

abbrev pub new_summary : Candidate → CandidateSummary
new_summary c = record {
  offer_id = c.offer_id;
  title = "";
  description = "";
  station_id = "";
  points_cost = 0;
  vector_score = c.vector_score;
  rule_score = c.vector_score;
  eligible = false;
  reasons = [];
}

abbrev pub describe : Offer → CandidateSummary → CandidateSummary
describe item s = record s {
  title = item.title;
  description = item.description;
  station_id = item.station_id;
  points_cost = item.points_cost;
}

-- `!item.Active || now.Before(item.StartsAt) || !now.Before(item.EndsAt)`
abbrev pub is_closed : ℕ → Offer → Bool
is_closed now item = not item.active || ltb now item.starts_at || not (ltb now item.ends_at)

-- the three tests that reject
unfoldable pub reject : ℕ → ℕ → Offer → CandidateSummary → CandidateSummary
reject now balance item s = add_reason (ltb balance item.points_cost) "insufficient_points" (
    add_reason (nat_eq item.available_quantity 0) "out_of_stock"
      (add_reason (is_closed now item) "offer_inactive_or_expired" s))

-- the five tests that raise or lower the score
unfoldable pub score : Floats → Preference → Offer → CandidateSummary → CandidateSummary
score fl p item s =
    let w = weight_for item.category p.category_weights in
    boost fl (not (is_zero w)) (fl.weigh w)
      (if is_positive w then "learned_category_preference" else "learned_category_avoidance")
      (boost fl (matches_preferred_category item.category p.preferred_categories) (fl.hundredths 10)
        "preferred_category"
        (boost fl (ltb 0 item.available_quantity && leb item.available_quantity 5) (fl.hundredths 5)
          "inventory_urgency"
          (boost fl
            (leb p.budget_min_points item.points_cost && leb item.points_cost p.budget_max_points)
            (fl.hundredths 10) "within_budget"
            (boost fl
              (item.station_id == p.predicted_destination && not (p.predicted_destination == ""))
              (fl.hundredths 20) "near_predicted_destination" s))))

abbrev pub is_nil : List String → Bool
is_nil [] = true
is_nil (_ ∷ _) = false

-- `summary.Eligible = ...`, and the reason of an eligible offer
unfoldable pub decide_eligible : CandidateSummary → CandidateSummary
decide_eligible s =
    let e = is_nil s.reasons || not (contains_rejection s.reasons) in
    add_reason e "within_points" (record s { eligible = e })

-- one round of the loop over the candidates
unfoldable pub evaluate : Floats → Preference → ℕ → ℕ → Option Offer → Candidate → CandidateSummary
evaluate fl p now balance none c = record (new_summary c) {
  reasons = "stale_candidate" ∷ [];
  eligible = false;
}
evaluate fl p now balance (some item) c =
    decide_eligible (score fl p item (reject now balance item (describe item (new_summary c))))
