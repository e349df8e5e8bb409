-- ===== src/Recommendation/Eligible.antt =====
-- When a candidate is eligible (internal/recommendation/recommendation.go, `Recommend`).
use spacetime_node.Prelude.{
  ℕ, String, ◌≡◌, refl, ◌∙◌, none, Bool, true, false, not, some, List, [], ◌∷◌, ◌&&◌, ◌||◌,
  if◌then◌else◌, ltb, nat_eq, any-append, arith,
}
use spacetime_node.Platform.Database.{CandidateSummary}
use spacetime_node.Recommendation.Rules.{
  Floats, Preference, Candidate, Offer, is_rejection, contains_rejection, add_reason, boost,
  new_summary, describe, is_closed, reject, score, decide_eligible, evaluate, weight_for, is_nil,
  is_positive,
}

-- `containsRejection` after one more test
contains_rejection-add_reason :
    (test : Bool) (reason : String) (s : CandidateSummary)
    → contains_rejection (add_reason test reason s).reasons
      ≡ (contains_rejection s.reasons || (test && is_rejection reason))
unfolding contains_rejection add_reason
contains_rejection-add_reason true reason s =
    ground (arith, any-append is_rejection s.reasons (reason ∷ []))
contains_rejection-add_reason false reason s = ground arith

contains_rejection-boost :
    (fl : Floats) (test : Bool) (bonus : ℕ) (reason : String) (s : CandidateSummary)
    → is_rejection reason ≡ false
    → contains_rejection (boost fl test bonus reason s).reasons ≡ contains_rejection s.reasons
unfolding boost
contains_rejection-boost fl true bonus reason s h = ground (
  arith,
  contains_rejection-add_reason true reason (record s { rule_score = fl.add s.rule_score bonus }),
)
contains_rejection-boost fl false bonus reason s h =
    ground (arith, contains_rejection-add_reason false reason s)

learned_rejects_not :
    (b : Bool)
    → is_rejection (if b then "learned_category_preference" else "learned_category_avoidance")
      ≡ false
learned_rejects_not true = refl
learned_rejects_not false = refl

-- no test that scores rejects
contains_rejection-score :
    (fl : Floats) (p : Preference) (item : Offer) (s : CandidateSummary)
    → contains_rejection (score fl p item s).reasons ≡ contains_rejection s.reasons
unfolding score
contains_rejection-score fl p item s =
    contains_rejection-boost fl _ _ _ _
      (learned_rejects_not (is_positive (weight_for item.category p.category_weights)))
    ∙ contains_rejection-boost fl _ _ _ _ refl
    ∙ contains_rejection-boost fl _ _ _ _ refl
    ∙ contains_rejection-boost fl _ _ _ _ refl
    ∙ contains_rejection-boost fl _ _ _ _ refl

-- the three tests
abbrev pub is_open : ℕ → ℕ → Offer → Bool
is_open now balance item =
    not (is_closed now item)
    && not (nat_eq item.available_quantity 0)
    && not (ltb balance item.points_cost)

contains_rejection-reject :
    (now balance : ℕ) (item : Offer) (s : CandidateSummary)
    → contains_rejection s.reasons ≡ false
    → contains_rejection (reject now balance item s).reasons ≡ not (is_open now balance item)
unfolding reject
contains_rejection-reject now balance item s h = ground (
  arith,
  contains_rejection-add_reason (is_closed now item) "offer_inactive_or_expired" s,
  contains_rejection-add_reason (nat_eq item.available_quantity 0) "out_of_stock"
      (add_reason (is_closed now item) "offer_inactive_or_expired" s),
  contains_rejection-add_reason (ltb balance item.points_cost) "insufficient_points" (
      add_reason (nat_eq item.available_quantity 0) "out_of_stock"
        (add_reason (is_closed now item) "offer_inactive_or_expired" s)),
)

eligible-add_reason :
    (test : Bool) (reason : String) (s : CandidateSummary)
    → (add_reason test reason s).eligible ≡ s.eligible
unfolding add_reason
eligible-add_reason true reason s = refl
eligible-add_reason false reason s = refl

nil_or_not :
    (r : List String) → (is_nil r || not (contains_rejection r)) ≡ not (contains_rejection r)
unfolding contains_rejection
nil_or_not [] = refl
nil_or_not (x ∷ r) = refl

eligible-decide_eligible :
    (s : CandidateSummary) → (decide_eligible s).eligible ≡ not (contains_rejection s.reasons)
unfolding decide_eligible
eligible-decide_eligible s = eligible-add_reason _ _ _ ∙ nil_or_not s.reasons

pub eligible-evaluate :
    (fl : Floats) (p : Preference) (now balance : ℕ) (item : Offer) (c : Candidate)
    → (evaluate fl p now balance (some item) c).eligible ≡ is_open now balance item
unfolding evaluate
eligible-evaluate fl p now balance item c =
    let s = describe item (new_summary c) in
    ground (
      arith,
      eligible-decide_eligible (score fl p item (reject now balance item s)),
      contains_rejection-score fl p item (reject now balance item s),
      contains_rejection-reject now balance item s (unfold contains_rejection in refl),
    )

-- A candidate that the query did not find is never eligible.
pub eligible-stale :
    (fl : Floats) (p : Preference) (now balance : ℕ) (c : Candidate)
    → (evaluate fl p now balance none c).eligible ≡ false
unfolding evaluate
eligible-stale fl p now balance c = refl
