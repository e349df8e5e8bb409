-- ===== src/Recommendation/Recommend.antt =====
-- internal/recommendation/recommendation.go, `Recommend`. The vector search, the stored preference
-- and the copy of the chosen offer come in as arguments.
use spacetime_node.Prelude.{
  ℕ, String, Bool, true, false, not, Option, none, some, List, [], ◌∷◌, ◌&&◌, ◌||◌, ◌==◌,
  if◌then◌else◌, ltb, map, take, any,
}
use spacetime_node.Prelude.Int.{pos}
use spacetime_node.Prelude.Table.{find}
use spacetime_node.Platform.Env.{
  Env, begin_tx, commit_tx, select_user, select_journey, select_offers, insert_recommendation,
  recommendation_id, event_id,
}
use spacetime_node.Platform.Result.{
  Result, ok, unavailable, constraint, invalid_request, no_eligible_offer, user_not_found,
  journey_not_found, journey_station_mismatch, ◌>>=◌, ◌>>◌, fail_if, settle,
}
use spacetime_node.Platform.Event.{Envelope, at, text, texts, event}
use spacetime_node.Platform.Database.{
  Db, OfferRow, InventoryRow, JourneyRow, RecommendationRow, CandidateSummary,
}
use spacetime_node.Platform.Outbox.{enqueue}
use spacetime_node.Redemption.Rows.{or_error, has_hash, has_offer, has_stock, redeems}
use spacetime_node.Recommendation.Rules.{Floats, Preference, Candidate, Offer}
use spacetime_node.Recommendation.Copy.{CopyFacts, Copy}
use spacetime_node.Recommendation.Choice.{
  Evaluation, RecommendedOffer, ranking, first_eligible, offer_view, collect_offers,
}

pub record Request : Type 0 where
  pub user_id_hash : String
  pub journey_id : String
  pub station_id : String
  pub trace_id : String
  pub has_vector : Bool
  pub limit : ℕ

-- The service's fields, and what it is given: `Search` of the vector index at a limit, the stored
-- preference, and the copy for the chosen facts. `numeric` is the score as NUMERIC(8, 4) keeps it, and
-- nothing where that overflows. `latency` is what `time.Since` measures.
pub record Service : Type 0 where
  pub candidate_limit : ℕ
  pub floats : Floats
  pub search : ℕ → Result (List Candidate)
  pub preference : Result Preference
  pub generate_copy : CopyFacts → Result Copy
  pub numeric : ℕ → Option ℕ
  pub latency : ℕ

-- `CandidateLimit`
unfoldable pub candidate_limit_of : Service → ℕ
candidate_limit_of s = if ltb s.candidate_limit 1 then 10 else s.candidate_limit

-- the limit of the search
unfoldable pub search_limit : Service → Request → ℕ
search_limit s req =
    let limit = if ltb req.limit 1 then candidate_limit_of s else req.limit in
    if ltb 50 limit then 50 else limit

pub record Recommendation : Type 0 where
  pub id : String
  pub journey_id : String
  pub offer_id : String
  pub score : ℕ
  pub reasons : List String
  pub copy : Copy
  pub latency : ℕ
  pub candidates : List CandidateSummary
  pub offers : List RecommendedOffer

abbrev pub offer_of : OfferRow → InventoryRow → Offer
offer_of o i = record {
  id = o.offer_id;
  title = o.title;
  description = o.description;
  category = o.category;
  station_id = o.station_id;
  points_cost = o.points_cost;
  active = o.is_active;
  starts_at = o.starts_at;
  ends_at = o.ends_at;
  available_quantity = i.available_quantity;
}

abbrev pub join_stock : Option OfferRow → Option InventoryRow → Option Offer
join_stock none _ = none
join_stock (some o) none = none
join_stock (some o) (some i) = some (offer_of o i)

-- The row of the query for an id: offers of the station, joined with the stock, that the user has
-- not redeemed.
unfoldable pub select_offer : String → String → Db → String → Option Offer
select_offer station_id user_id db offer_id =
    if any (redeems user_id offer_id) db.redemptions
    then none
    else join_stock
        (find (λ (o : OfferRow). has_offer offer_id o && o.station_id == station_id) db.offers)
        (find (has_stock offer_id) db.inventory)

abbrev pub own_journey : String → String → JourneyRow → Bool
own_journey journey_id user_id j = j.journey_id == journey_id && j.user_id == user_id

abbrev pub StationName : Type 0
StationName = record { station_id : String; name : String }

-- the station of the journey, and its name
unfoldable pub select_journey_station : Env → String → String → Db → Result StationName
select_journey_station env journey_id user_id db = do
  fail_if (env.fails select_journey) (unavailable select_journey)
  j ← or_error journey_not_found (find (own_journey journey_id user_id) db.journeys)
  s ← or_error journey_not_found (find (λ s. s.station_id == j.station_id) db.stations)
  ok (record { station_id = j.station_id; name = s.name_zh })

-- the facts for the copy: at most three of the reasons
abbrev pub facts_of : String → CandidateSummary → CopyFacts
facts_of station_name s = record {
  station_name = station_name;
  offer_name = s.title;
  points_cost = pos s.points_cost;
  discount_description = s.description;
  reason_labels = take 3 s.reasons;
  time_context = "";
}

abbrev pub row_of : Recommendation → ℕ → RecommendationRow
row_of r score = record {
  recommendation_id = r.id;
  journey_id = r.journey_id;
  offer_id = r.offer_id;
  score = score;
  reasons = r.reasons;
  copy_title = r.copy.output.title;
  copy_body = r.copy.output.body;
  copy_tone = r.copy.output.tone;
  copy_source = r.copy.source;
  candidate_summary = r.candidates;
  decision_latency_ms = r.latency;
}

abbrev pub has_recommendation_id : String → RecommendationRow → Bool
has_recommendation_id id r = r.recommendation_id == id

-- the event of `enqueueRecommendationEvent`
abbrev pub created_event : Env → Request → Recommendation → Envelope
created_event env req r = record {
  event_id = env.uuid event_id;
  event_type = "recommendation.created.v1";
  schema_version = 1;
  occurred_at = at env.now;
  producer = "recommendation-service";
  trace_id = req.trace_id;
  journey_id = req.journey_id;
  recommendation_id = r.id;
  user_id_hash = req.user_id_hash;
  payload =
      ("recommendation_id", text r.id)
      ∷ ("offer_id", text r.offer_id)
      ∷ ("reasons", texts r.reasons)
      ∷ ("copy_source", text r.copy.source)
      ∷ [];
}

-- the INSERT, with the primary key of the table, the event and the commit
unfoldable pub store : Service → Env → Request → Recommendation → Db → Result (Recommendation × Db)
store s env req r db = do
  fail_if (env.fails insert_recommendation) (unavailable insert_recommendation)
  fail_if (any (has_recommendation_id r.id) db.recommendations) constraint
  score ← or_error constraint (s.numeric r.score)
  db₁ ←
      enqueue env
        (record {
          id = env.uuid event_id;
          topic = "recommendation.created.v1";
          key = req.user_id_hash;
          payload = event (created_event env req r);
        })
        (record db { recommendations = row_of r score ∷ db.recommendations })
  fail_if (env.fails commit_tx) (unavailable commit_tx)
  ok (r, db₁)

-- the value of `recommendation`
abbrev pub assemble :
    Service → Env → Request → List Evaluation → CandidateSummary → Copy → Recommendation
assemble s env req ranked chosen copy = record {
  id = env.uuid recommendation_id;
  journey_id = req.journey_id;
  offer_id = chosen.offer_id;
  score = chosen.rule_score;
  reasons = chosen.reasons;
  copy = copy;
  latency = s.latency;
  candidates = map (λ (e : Evaluation). e.summary) ranked;
  offers =
      collect_offers (candidate_limit_of s) (offer_view chosen.offer_id copy.output chosen.reasons)
        [] ranked;
}

-- from the ranked evaluations on
unfoldable pub conclude :
    Service → Env → Request → String → List Evaluation → Db → Result (Recommendation × Db)
conclude s env req station_name ranked db = do
  chosen ← or_error no_eligible_offer (first_eligible ranked)
  copy ← s.generate_copy (facts_of station_name chosen.summary)
  store s env req (assemble s env req ranked chosen.summary copy) db

abbrev pub lacks_field : Request → Bool
lacks_field req =
    req.user_id_hash == ""
    || req.journey_id == ""
    || req.station_id == ""
    || req.trace_id == ""
    || not req.has_vector

abbrev pub is_nil : List Candidate → Bool
is_nil [] = true
is_nil (_ ∷ _) = false

-- the transaction, on the preference and the candidates
unfoldable pub decide :
    Service → Env → Request → Preference → List Candidate → Db → Result (Recommendation × Db)
decide s env req preference candidates db = do
  fail_if (env.fails begin_tx) (unavailable begin_tx)
  fail_if (env.fails select_user) (unavailable select_user)
  user ← or_error user_not_found (find (has_hash req.user_id_hash) db.users)
  station ← select_journey_station env req.journey_id user.user_id db
  fail_if (not (station.station_id == req.station_id)) journey_station_mismatch
  fail_if (env.fails select_offers) (unavailable select_offers)
  conclude s env req station.name
      (ranking s.floats preference env.now user.point_balance
        (select_offer station.station_id user.user_id db) candidates)
      db

-- `Recommend`, without the rollback
unfoldable pub recommend_tx : Service → Env → Request → Db → Result (Recommendation × Db)
recommend_tx s env req db = do
  fail_if (lacks_field req) invalid_request
  preference ← s.preference
  candidates ← s.search (search_limit s req)
  fail_if (is_nil candidates) no_eligible_offer
  decide s env req preference candidates db

-- `Recommend`
unfoldable pub recommend : Service → Env → Request → Db → Result Recommendation × Db
recommend s env req db = settle db (recommend_tx s env req db)
