-- ===== src/Journey/Latest.antt =====
-- internal/journey/service.go, `GetLatestRecommendation`.
use spacetime_node.Prelude.{
  ℕ, String, Bool, false, Option, none, some, List, [], ◌∷◌, ◌++◌, ◌&&◌, ◌||◌, not, ◌==◌,
  if◌then◌else◌, any, leb, length,
}
use spacetime_node.Prelude.Table.{find}
use spacetime_node.Platform.Env.{Env, select_recommendation, select_dismissals}
use spacetime_node.Platform.Result.{
  Result, ok, err, unavailable, invalid_request, recommendation_not_found, ◌>>=◌, ◌>>◌, fail_if,
}
use spacetime_node.Platform.Database.{Db, RecommendationRow, CandidateSummary, DismissalRow}

-- an element of `response.Offers`
pub record LatestOffer : Type 0 where
  pub offer_id : String
  pub title : String
  pub body : String
  pub reasons : List String
  pub score : ℕ
  pub points_cost : ℕ
  pub station_id : String

pub record Response : Type 0 where
  pub recommendation_id : String
  pub journey_id : String
  pub offer_id : String
  pub title : String
  pub body : String
  pub reasons : List String
  pub copy_source : String
  pub decision_latency_ms : ℕ
  pub candidates : List CandidateSummary
  pub offers : List LatestOffer

-- `loadDismissedOffers`, as the test of the set that it loads
unfoldable pub is_dismissed : String → String → Db → String → Bool
is_dismissed journey_id recommendation_id db offer_id =
    any
      (λ (d : DismissalRow).
        d.journey_id == journey_id
        && d.recommendation_id == recommendation_id
        && d.offer_id == offer_id)
      db.recommendation_dismissals

-- `appendUniqueReason`
unfoldable pub append_unique_reason : List String → String → List String
append_unique_reason reasons reason =
    if any (λ r. r == reason) reasons then reasons else reasons ++ reason ∷ []

unfoldable pub mark_dismissed : (String → Bool) → CandidateSummary → CandidateSummary
mark_dismissed dismissed c =
    if dismissed c.offer_id
    then record c { eligible = false; reasons = append_unique_reason c.reasons "dismissed_by_user" }
    else c

-- the view of a candidate; the recommended offer carries the generated copy
unfoldable pub latest_offer : RecommendationRow → CandidateSummary → LatestOffer
latest_offer r c =
    let mine = c.offer_id == r.offer_id in
    record {
      offer_id = c.offer_id;
      title = if mine then r.copy_title else c.title;
      body = if mine then r.copy_body else c.description;
      reasons = if mine then r.reasons else c.reasons;
      score = c.rule_score;
      points_cost = c.points_cost;
      station_id = c.station_id;
    }

-- the variables of the loop
pub record Scan : Type 0 where
  pub candidates : List CandidateSummary
  pub offers : List LatestOffer
  pub selected : Option CandidateSummary

-- the first offered candidate that has an id
abbrev pub or_first : Option CandidateSummary → CandidateSummary → Option CandidateSummary
or_first none c = if c.offer_id == "" then none else some c
or_first (some s) c = some s

-- one round, on a candidate that is marked: passed over, or offered
unfoldable pub offer_candidate : RecommendationRow → CandidateSummary → Scan → Scan
offer_candidate r c acc =
    let seen = acc.candidates ++ c ∷ [] in
    if not c.eligible || c.title == "" then record acc { candidates = seen } else record {
      candidates = seen;
      offers = acc.offers ++ latest_offer r c ∷ [];
      selected = or_first acc.selected c;
    }

abbrev pub is_offered : CandidateSummary → Bool
is_offered c = not (not c.eligible || c.title == "")

-- the loop; it breaks when an offer has filled the limit
unfoldable pub scan : ℕ → RecommendationRow → (String → Bool) → List CandidateSummary → Scan → Scan
scan limit r dismissed [] acc = acc
scan limit r dismissed (c₀ ∷ cs) acc =
    let c = mark_dismissed dismissed c₀ in
    let acc' = offer_candidate r c acc in
    let rest = scan limit r dismissed cs acc' in
    if is_offered c && leb limit (length acc'.offers) then acc' else rest

abbrev no_offers : List String
no_offers = "no_eligible_offers_remaining" ∷ []

-- the response after the loop, by the selected candidate
unfoldable pub respond : RecommendationRow → Scan → Option CandidateSummary → Response
respond r acc none = record {
  recommendation_id = r.recommendation_id;
  journey_id = r.journey_id;
  offer_id = "";
  title = "";
  body = "";
  reasons = no_offers;
  copy_source = r.copy_source;
  decision_latency_ms = r.decision_latency_ms;
  candidates = acc.candidates;
  offers = acc.offers;
}
respond r acc (some c) =
    let original = c.offer_id == r.offer_id in
    record {
      recommendation_id = r.recommendation_id;
      journey_id = r.journey_id;
      offer_id = c.offer_id;
      title = if original then r.copy_title else c.title;
      body = if original then r.copy_body else c.description;
      reasons = if original then r.reasons else c.reasons;
      copy_source = r.copy_source;
      decision_latency_ms = r.decision_latency_ms;
      candidates = acc.candidates;
      offers = acc.offers;
    }

abbrev pub start : Scan
start = record { candidates = []; offers = []; selected = none }

unfoldable pub select_latest : Env → String → Db → Result RecommendationRow
select_latest env journey_id db = do
  fail_if (env.fails select_recommendation) (unavailable select_recommendation)
  elim (find (λ (r : RecommendationRow). r.journey_id == journey_id) db.recommendations) [
    | none ↦ err recommendation_not_found
    | some r ↦ ok r
  ]

-- the body after the row is read
unfoldable pub response_of : ℕ → RecommendationRow → (String → Bool) → Response
response_of limit r dismissed =
    let acc = scan limit r dismissed r.candidate_summary start in respond r acc acc.selected

-- `GetLatestRecommendation`
unfoldable pub get_latest : Env → ℕ → String → Db → Result Response
get_latest env limit journey_id db = do
  fail_if (journey_id == "") invalid_request
  r ← select_latest env journey_id db
  fail_if (env.fails select_dismissals) (unavailable select_dismissals)
  ok (response_of limit r (is_dismissed journey_id r.recommendation_id db))
