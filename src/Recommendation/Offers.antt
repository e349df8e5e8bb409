-- ===== src/Recommendation/Offers.antt =====
-- The list of offers of a recommendation (internal/recommendation/recommendation.go).
use spacetime_node.Prelude.{
  ℕ, zero, suc, ◌-◌, ◌≤◌, ◌<◌, ◌≡◌, refl, ◌∙◌, Bool, List, [], ◌∷◌, ◌++◌, inl, inr, arith, ltb,
  length, take, select, map, Bool-cases, length-append, sym,
}
use mathlib.Core.Path.{subst}
use mathlib.Core.List.{append-nil, append_assoc}
use spacetime_node.Platform.Database.{CandidateSummary}
use spacetime_node.Recommendation.Choice.{Evaluation, RecommendedOffer, collect_offers}

abbrev pub is_eligible : Evaluation → Bool
is_eligible e = e.summary.eligible

-- the views of the eligible evaluations, in their order
abbrev pub eligible_offers :
    (CandidateSummary → RecommendedOffer) → List Evaluation → List RecommendedOffer
eligible_offers f es = map (λ (e : Evaluation). f e.summary) (select is_eligible es)

take_nil : {A : Type 0} (n : ℕ) → take {A = A} n [] ≡ []
take_nil zero = refl
take_nil (suc n) = refl

-- one round on an eligible evaluation while there is room
collect_room :
    (limit : ℕ) (v : RecommendedOffer) (out rest : List RecommendedOffer)
    → length out < limit
    → (out ++ v ∷ []) ++ take (limit - length (out ++ v ∷ [])) rest
      ≡ out ++ take (limit - length out) (v ∷ rest)
collect_room limit v out rest h =
    let more : length (out ++ v ∷ []) ≡ suc (length out) =
      omega (arith, length-append out (v ∷ [])) in
    let left : limit - length out ≡ suc (limit - suc (length out)) = omega arith in
    rw (more, left) (append_assoc out (v ∷ []) (take (limit - suc (length out)) rest))

collect_offers-append :
    (limit : ℕ) (f : CandidateSummary → RecommendedOffer) (out : List RecommendedOffer)
    (es : List Evaluation)
    → length out ≤ limit
    → collect_offers limit f out es ≡ out ++ take (limit - length out) (eligible_offers f es)
unfolding collect_offers
collect_offers-append limit f out [] h = rw take_nil (sym (append-nil out))
collect_offers-append limit f out (e ∷ es) h = elim (Bool-cases e.summary.eligible) [
  | inr other ↦ simp other (collect_offers-append limit f out es h)
  | inl mine ↦ elim (Bool-cases (ltb (length out) limit)) [
    | inl room ↦
        let fits : length (out ++ f e.summary ∷ []) ≤ limit =
          ground (arith, length-append out (f e.summary ∷ [])) in
        simp (mine, room)
          (collect_offers-append limit f (out ++ f e.summary ∷ []) es fits
            ∙ collect_room limit (f e.summary) out (eligible_offers f es) (ground arith))
    | inr full ↦
        let none_left : limit - length out ≡ 0 = ground arith in
        simp (mine, full) (rw none_left (rw none_left at (collect_offers-append limit f out es h)))
  ]
]

-- the views of the first eligible evaluations
pub collect_offers_lem :
    (limit : ℕ) (f : CandidateSummary → RecommendedOffer) (es : List Evaluation)
    → collect_offers limit f [] es ≡ take limit (eligible_offers f es)
collect_offers_lem limit f es =
    let whole : limit - 0 ≡ limit = omega arith in
    subst (λ n. collect_offers limit f [] es ≡ take n (eligible_offers f es)) whole
      (collect_offers-append limit f [] es (omega arith))
