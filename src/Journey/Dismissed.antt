-- ===== src/Journey/Dismissed.antt =====
-- internal/journey/service.go, `GetLatestRecommendation`: the offers of a response.
use spacetime_node.Prelude.{
  ℕ, any, ◌⊎◌, ◌≡◌, refl, sym, String, Bool, true, false, Option, none, some, List, [], ◌∷◌, ◌&&◌,
  ◌||◌, not, ◌==◌, leb, length, Option-cases, All, All-append, Option-cases, arith, Bool-cases, inl,
  inr,
}
use mathlib.Core.Path.{subst}
use spacetime_node.Platform.Env.{Env, select_dismissals}
use spacetime_node.Platform.Result.{ok, >>=-ok, fail_if-ok}
use spacetime_node.Platform.Database.{DismissalRow, Db, RecommendationRow, CandidateSummary}
use spacetime_node.Journey.Latest.{
  LatestOffer, Response, Scan, is_dismissed, mark_dismissed, latest_offer, offer_candidate,
  is_offered, scan, respond, start, or_first, select_latest, response_of, get_latest,
}

module _ (r : RecommendationRow) (dismissed : String → Bool) where
  -- no offer, nor the selected candidate, is dismissed
  abbrev IsKept : LatestOffer → Type 0
  IsKept o = dismissed o.offer_id ≡ false

  abbrev IsKeptChoice : Option CandidateSummary → Type 0
  IsKeptChoice none = Unit
  IsKeptChoice (some c) = dismissed c.offer_id ≡ false

  record IsClean (acc : Scan) : Type 0 where
    offers : All IsKept acc.offers
    selected : IsKeptChoice acc.selected

  eligible-mark_dismissed :
      (c : CandidateSummary)
      → is_offered (mark_dismissed dismissed c) ≡ true
      → dismissed (mark_dismissed dismissed c).offer_id ≡ false
  unfolding mark_dismissed
  eligible-mark_dismissed c h = ground arith

  or_first-IsKeptChoice :
      (s : Option CandidateSummary) (c : CandidateSummary)
      → IsKeptChoice s
      → dismissed c.offer_id ≡ false
      → IsKeptChoice (or_first s c)
  or_first-IsKeptChoice none c k h = elim (Bool-cases (c.offer_id == "")) [
    | inl nameless ↦ rw nameless tt
    | inr named ↦ rw named h
  ]
  or_first-IsKeptChoice (some s) c k h = k

  offer_candidate-IsClean :
      (c : CandidateSummary) (acc : Scan)
      → (is_offered c ≡ true → dismissed c.offer_id ≡ false)
      → IsClean acc
      → IsClean (offer_candidate r c acc)
  unfolding offer_candidate latest_offer
  offer_candidate-IsClean c acc h k = elim (Bool-cases (not c.eligible || c.title == "")) [
    | inl passed ↦ rw passed record { offers = k.offers; selected = k.selected }
    | inr kept ↦
        let clean = h (rw kept refl) in
        rw kept record {
          offers = All-append IsKept acc.offers (latest_offer r c ∷ []) k.offers (clean, tt);
          selected = or_first-IsKeptChoice acc.selected c k.selected clean;
        }
  ]

  scan-IsClean :
      (limit : ℕ) (cs : List CandidateSummary) (acc : Scan)
      → IsClean acc
      → IsClean (scan limit r dismissed cs acc)
  unfolding scan
  scan-IsClean limit [] acc k = k
  scan-IsClean limit (c₀ ∷ cs) acc k =
      let c = mark_dismissed dismissed c₀ in
      let acc' = offer_candidate r c acc in
      let k' = offer_candidate-IsClean c acc (eligible-mark_dismissed c₀) k in
      let rest = scan-IsClean limit cs acc' k' in
      elim (Bool-cases (is_offered c && leb limit (length acc'.offers))) [
        | inl full ↦ rw full k'
        | inr more ↦ rw more rest
      ]

-- the response has no offer at its head
pub record IsHeadless (resp : Response) : Type 0 where
  pub offer_id : resp.offer_id ≡ ""
  pub title : resp.title ≡ ""
  pub body : resp.body ≡ ""
  pub reasons : resp.reasons ≡ "no_eligible_offers_remaining" ∷ []

-- neither the list nor the head of the response has a dismissed offer
abbrev pub Heeds : (String → Bool) → Response → Type 0
Heeds dismissed resp =
    All (λ (o : LatestOffer). dismissed o.offer_id ≡ false) resp.offers
    × (IsHeadless resp ⊎ (dismissed resp.offer_id ≡ false))

respond-Heeds :
    (r : RecommendationRow) (dismissed : String → Bool) (acc : Scan)
    → (s : Option CandidateSummary) → All (IsKept r dismissed) acc.offers
    → IsKeptChoice r dismissed s
    → Heeds dismissed (respond r acc s)
unfolding respond
respond-Heeds r dismissed acc none h k =
    (h, inl (record { offer_id = refl; title = refl; body = refl; reasons = refl }))
respond-Heeds r dismissed acc (some c) h k = (h, inr k)

response_of-Heeds :
    (limit : ℕ) (r : RecommendationRow) (dismissed : String → Bool)
    → Heeds dismissed (response_of limit r dismissed)
unfolding response_of
response_of-Heeds limit r dismissed =
    let k =
      scan-IsClean r dismissed limit r.candidate_summary start
        record { offers = tt; selected = tt } in
    let acc = scan limit r dismissed r.candidate_summary start in
    respond-Heeds r dismissed acc acc.selected k.offers k.selected

response_of-recommendation_id :
    (limit : ℕ) (r : RecommendationRow) (dismissed : String → Bool)
    → (response_of limit r dismissed).recommendation_id ≡ r.recommendation_id
unfolding response_of respond
response_of-recommendation_id limit r dismissed =
    elim (Option-cases (scan limit r dismissed r.candidate_summary start).selected) [
      | inl none_left ↦ rw none_left refl
      | inr (c, some_left) ↦ rw some_left refl
    ]

-- the table has a dismissal of the offer for the journey and the recommendation
abbrev pub has_dismissal : String → String → Db → String → Bool
has_dismissal journey_id recommendation_id db offer_id =
    any
      (λ (d : DismissalRow).
        d.journey_id == journey_id
        && d.recommendation_id == recommendation_id
        && d.offer_id == offer_id)
      db.recommendation_dismissals

-- Neither the offers of a response of GetLatestRecommendation nor the offer at its head are
-- dismissed in the database for its journey and recommendation, whatever the limit, or the response
-- has no offer at its head and says so.
pub get_latest-dismissed :
    (env : Env) (limit : ℕ) (journey_id : String) (db : Db) {resp : Response}
    → get_latest env limit journey_id db ≡ ok resp
    → Heeds (has_dismissal journey_id resp.recommendation_id db) resp
unfolding get_latest is_dismissed
get_latest-dismissed env limit journey_id db {resp} e =
    let (_, e₁) = fail_if-ok (journey_id == "") _ _ e in
    let (r, _, e₂) = >>=-ok (select_latest env journey_id db) _ e₁ in
    let (_, e₃) = fail_if-ok (env.fails select_dismissals) _ _ e₂ in
    let gone = is_dismissed journey_id r.recommendation_id db in
    let built : response_of limit r gone ≡ resp = ground arith in
    let same : r.recommendation_id ≡ (response_of limit r gone).recommendation_id =
      sym (response_of-recommendation_id limit r gone) in
    subst (λ (q : Response). Heeds (has_dismissal journey_id q.recommendation_id db) q) built
      (subst (λ (id : String). Heeds (has_dismissal journey_id id db) (response_of limit r gone))
        same (response_of-Heeds limit r gone))
