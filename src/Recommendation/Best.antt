-- ===== src/Recommendation/Best.antt =====
-- The offer that `Recommend` chooses (internal/recommendation/recommendation.go).
use spacetime_node.Prelude.{
  ℕ, String, ◌≡◌, refl, ◌∙◌, Bool, true, false, Option, none, some, List, [], ◌∷◌, arith, All,
}
use spacetime_node.Prelude.Sort.Laws.{All-stable_sort}
use spacetime_node.Platform.Database.{CandidateSummary}
use spacetime_node.Recommendation.Rules.{
  Floats, Preference, Candidate, Offer, add_reason, boost, reject, score, decide_eligible, evaluate,
}
use spacetime_node.Recommendation.Choice.{
  Evaluation, evaluate_all, ranking, first_eligible, goes_before,
}
use spacetime_node.Recommendation.Eligible.{is_open, eligible-evaluate, eligible-stale}
use spacetime_node.Recommendation.Order.{first_eligible-eligible, first_eligible-All}

id-add_reason :
    (test : Bool) (reason : String) (s : CandidateSummary)
    → (add_reason test reason s).offer_id ≡ s.offer_id
unfolding add_reason
id-add_reason true reason s = refl
id-add_reason false reason s = refl

id-boost :
    (fl : Floats) (test : Bool) (bonus : ℕ) (reason : String) (s : CandidateSummary)
    → (boost fl test bonus reason s).offer_id ≡ s.offer_id
unfolding boost add_reason
id-boost fl true bonus reason s = refl
id-boost fl false bonus reason s = refl

id-score :
    (fl : Floats) (p : Preference) (item : Offer) (s : CandidateSummary)
    → (score fl p item s).offer_id ≡ s.offer_id
unfolding score
id-score fl p item s =
    id-boost fl _ _ _ _
    ∙ id-boost fl _ _ _ _
    ∙ id-boost fl _ _ _ _
    ∙ id-boost fl _ _ _ _
    ∙ id-boost fl _ _ _ _

id-reject :
    (now balance : ℕ) (item : Offer) (s : CandidateSummary)
    → (reject now balance item s).offer_id ≡ s.offer_id
unfolding reject
id-reject now balance item s = id-add_reason _ _ _ ∙ id-add_reason _ _ _ ∙ id-add_reason _ _ _

id-evaluate :
    (fl : Floats) (p : Preference) (now balance : ℕ) (o : Option Offer) (c : Candidate)
    → (evaluate fl p now balance o c).offer_id ≡ c.offer_id
unfolding evaluate decide_eligible
id-evaluate fl p now balance none c = refl
id-evaluate fl p now balance (some item) c =
    id-add_reason _ _ _ ∙ id-score fl p item _ ∙ id-reject now balance item _

module _ (fl : Floats) (p : Preference) (now balance : ℕ) (offers : String → Option Offer) where
  -- the query has found the evaluation's offer, and it is open
  abbrev pub IsOpenOffer : Evaluation → Type 0
  IsOpenOffer e =
      (item : Offer) × (offers e.summary.offer_id ≡ some item) × (is_open now balance item ≡ true)

  -- the same for an evaluation that is eligible
  abbrev IsSound : Evaluation → Type 0
  IsSound e = e.summary.eligible ≡ true → IsOpenOffer e

  evaluate-IsSound :
      (c : Candidate) (o : Option Offer)
      → offers c.offer_id ≡ o
      → (evaluate fl p now balance o c).eligible ≡ true
      → (item : Offer) × (offers (evaluate fl p now balance o c).offer_id ≡ some item)
        × (is_open now balance item ≡ true)
  evaluate-IsSound c none h e = absurd (ground (arith, eligible-stale fl p now balance c))
  evaluate-IsSound c (some item) h e = (
    item,
    rw (id-evaluate fl p now balance (some item) c) h,
    ground (arith, eligible-evaluate fl p now balance item c),
  )

  evaluate_all-IsSound :
      (cs : List Candidate) → All IsSound (evaluate_all fl p now balance offers cs)
  unfolding evaluate_all
  evaluate_all-IsSound [] = tt
  evaluate_all-IsSound (c ∷ cs) =
      (evaluate-IsSound c (offers c.offer_id) refl, evaluate_all-IsSound cs)

  -- the first eligible one of the ranking, in whatever order the scores come
  pub ranking-IsOpenOffer :
      (cs : List Candidate) {e : Evaluation}
      → first_eligible (ranking fl p now balance offers cs) ≡ some e
      → IsOpenOffer e
  unfolding ranking
  ranking-IsOpenOffer cs {e} h =
      let es = evaluate_all fl p now balance offers cs in
      let sound = All-stable_sort (goes_before fl) IsSound es (evaluate_all-IsSound cs) in
      first_eligible-All IsSound _ sound h (first_eligible-eligible _ h)
