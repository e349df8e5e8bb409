-- ===== src/Recommendation/Order.antt =====
-- The order of the evaluations (internal/recommendation/recommendation.go, `Recommend`).
use spacetime_node.Prelude.{
  ℕ, ◌≡◌, refl, true, false, some, List, [], ◌∷◌, ◌⊎◌, inl, inr, arith, ltb, nat_eq, All,
  Bool-cases,
}
use mathlib.Core.Path.{subst}
use spacetime_node.Prelude.Text.{codes, codes_less}
use spacetime_node.Prelude.Sort.Laws.{IsOrder, IsSorted}
use spacetime_node.Recommendation.Rules.{Floats}
use spacetime_node.Recommendation.Choice.{Evaluation, goes_before, first_eligible}

codes_less-asym : (a b : List ℕ) → codes_less a b ≡ true → codes_less b a ≡ false
unfolding codes_less
codes_less-asym [] [] h = refl
codes_less-asym [] (d ∷ ds) h = refl
codes_less-asym (c ∷ cs) [] h = cc
codes_less-asym (c ∷ cs) (d ∷ ds) h = ground (arith, codes_less-asym cs ds)

codes_less_trans :
    (a b c : List ℕ) → codes_less b a ≡ false → codes_less c b ≡ false → codes_less c a ≡ false
unfolding codes_less
codes_less_trans [] b c h k = nothing_below c
  where
    nothing_below : (c : List ℕ) → codes_less c [] ≡ false
    nothing_below [] = refl
    nothing_below (x ∷ c) = refl
codes_less_trans (x ∷ a) [] c h k = cc
codes_less_trans (x ∷ a) (y ∷ b) [] h k = cc
codes_less_trans (x ∷ a) (y ∷ b) (z ∷ c) h k = ground (arith, codes_less_trans a b c)

-- Scores are compared as numbers: Go's `==` and `<` on float64 agree with a ranking of the values.
-- NaN has no rank; a score is read from JSON, which has none, and sums of such scores are none.
pub record IsRanked (fl : Floats) : Type 0 where
  pub rank : ℕ → ℕ
  pub less_rank : (a b : ℕ) → fl.less a b ≡ ltb (rank a) (rank b)
  pub eq_rank : (a b : ℕ) → fl.eq a b ≡ nat_eq (rank a) (rank b)

pub goes_before-IsOrder : (fl : Floats) → IsRanked fl → IsOrder (goes_before fl)
unfolding goes_before
goes_before-IsOrder fl r = record {
  asym = λ a b h. ground (
    arith,
    r.less_rank a.summary.rule_score b.summary.rule_score,
    r.less_rank b.summary.rule_score a.summary.rule_score,
    r.eq_rank a.summary.rule_score b.summary.rule_score,
    r.eq_rank b.summary.rule_score a.summary.rule_score,
    codes_less-asym (codes a.summary.offer_id) (codes b.summary.offer_id),
  );
  trans = λ a b c h k. ground (
    arith,
    r.less_rank a.summary.rule_score b.summary.rule_score,
    r.less_rank b.summary.rule_score c.summary.rule_score,
    r.less_rank a.summary.rule_score c.summary.rule_score,
    r.eq_rank b.summary.rule_score a.summary.rule_score,
    r.eq_rank c.summary.rule_score b.summary.rule_score,
    r.eq_rank c.summary.rule_score a.summary.rule_score,
    codes_less_trans (codes a.summary.offer_id) (codes b.summary.offer_id)
        (codes c.summary.offer_id),
  );
}

pub first_eligible-eligible :
    (es : List Evaluation) {e : Evaluation} → first_eligible es ≡ some e → e.summary.eligible ≡ true
unfolding first_eligible
first_eligible-eligible [] h = cc
first_eligible-eligible (x ∷ es) {e} h = ground (arith, first_eligible-eligible es {e = e})

pub first_eligible-All :
    (P : Evaluation → Type 0) (es : List Evaluation) {e : Evaluation}
    → All P es
    → first_eligible es ≡ some e
    → P e
unfolding first_eligible
first_eligible-All P [] h k = absurd (ground arith)
first_eligible-All P (x ∷ es) {e} h k = elim (Bool-cases x.summary.eligible) [
  | inl mine ↦ let same : x ≡ e = ground arith in rw same at h.0
  | inr other ↦ first_eligible-All P es h.1 (ground arith)
]

-- an evaluation that may not stand before the chosen one
abbrev pub IsBehind : Floats → Evaluation → Evaluation → Type 0
IsBehind fl chosen e = (e.summary.eligible ≡ false) ⊎ (goes_before fl e chosen ≡ false)

All-IsBehind :
    (fl : Floats) (x : Evaluation) (es : List Evaluation)
    → All (λ y. goes_before fl y x ≡ false) es
    → All (IsBehind fl x) es
All-IsBehind fl x [] h = tt
All-IsBehind fl x (y ∷ es) (p, h) = (inr p, All-IsBehind fl x es h)

pub first_eligible-best :
    (fl : Floats) (es : List Evaluation) {e : Evaluation}
    → IsOrder (goes_before fl)
    → IsSorted (goes_before fl) es
    → first_eligible es ≡ some e
    → All (IsBehind fl e) es
unfolding first_eligible
first_eligible-best fl [] o s h = tt
first_eligible-best fl (x ∷ es) {e} o s h = elim (Bool-cases x.summary.eligible) [
  | inl mine ↦
      let same : x ≡ e = ground arith in
      let self : goes_before fl x x ≡ false = ground (arith, o.asym x x) in
      subst (λ (z : Evaluation). All (IsBehind fl z) (x ∷ es)) same
        (inr self, All-IsBehind fl x es s.0)
  | inr other ↦ (inl other, first_eligible-best fl es o s.1 (ground arith))
]
