-- ===== src/Recommendation/Sample.antt =====
-- A service and a request, and a run of `Recommend` at them.
use spacetime_node.Prelude.{◌+◌, ◌≡◌, refl, true, some, List, [], ◌∷◌, ltb, nat_eq, take}
use spacetime_node.Prelude.Int.{pos, negsuc}
use spacetime_node.Prelude.Sort.{stable_sort}
use spacetime_node.Prelude.Text.{codes_less, to_lower, trim_space}
use spacetime_node.Platform.Env.{Env}
use spacetime_node.Platform.Result.{ok}
use spacetime_node.Platform.Database.{Db}
use spacetime_node.Platform.Outbox.{enqueue}
use spacetime_node.Recommendation.Rules.{
  Floats, Preference, Candidate, Offer, matches_preferred_category, weight_for, contains_rejection,
  add_reason, boost, reject, score, decide_eligible, evaluate,
}
use spacetime_node.Recommendation.Choice.{
  Evaluation, goes_before, evaluate_all, ranking, first_eligible, collect_offers,
}
use spacetime_node.Recommendation.Copy.{Copy}
use spacetime_node.Recommendation.Recommend.{
  Service, Request, Recommendation, candidate_limit_of, search_limit, offer_of, select_offer,
  select_journey_station, store, assemble, conclude, decide, recommend, recommend_tx,
}
use spacetime_node.Recommendation.Order.{IsRanked}
use spacetime_node.Fixtures.{healthy, shop, coffee, rider_hash}

-- scores as whole hundredths
abbrev pub sample_floats : Floats
sample_floats = record {
  hundredths = λ n. n;
  add = λ a b. a + b;
  weigh = λ w. elim w [ pos n ↦ n | negsuc n ↦ 0 ];
  eq = nat_eq;
  less = ltb;
}

pub sample_floats-IsRanked : IsRanked sample_floats
sample_floats-IsRanked = record { rank = λ n. n; less_rank = λ a b. refl; eq_rank = λ a b. refl }

abbrev pub taste : Preference
taste = record {
  predicted_destination = "R04";
  preferred_categories = "Coffee" ∷ [];
  category_weights = ("coffee", pos 5000) ∷ [];
  budget_min_points = 50;
  budget_max_points = 100;
}

-- a candidate that no offer has, which scores best, and the coffee
abbrev pub candidates : List Candidate
candidates =
    record { offer_id = "offer-gone"; vector_score = 99999 }
    ∷ record { offer_id = "offer-coffee-xinyi"; vector_score = 80 }
    ∷ []

abbrev pub sample_copy : Copy
sample_copy = record {
  output = record { title = "A coffee"; body = "Near your stop"; tone = "friendly" };
  source = "template";
}

abbrev pub service : Service
service = record {
  candidate_limit = 10;
  floats = sample_floats;
  search = λ limit. ok (take limit candidates);
  preference = ok taste;
  generate_copy = λ facts. ok sample_copy;
  numeric = λ score. some score;
  latency = 3;
}

abbrev pub ask : Request
ask = record {
  user_id_hash = rider_hash;
  journey_id = "journey-1";
  station_id = "R04";
  trace_id = "trace-1";
  has_vector = true;
  limit = 5;
}

abbrev pub coffee_offer : Offer
coffee_offer =
    offer_of coffee
      (record { offer_id = "offer-coffee-xinyi"; available_quantity = 50; version = 1 })

abbrev pub coffee_candidate : Candidate
coffee_candidate = record { offer_id = "offer-coffee-xinyi"; vector_score = 80 }

abbrev pub choice : Evaluation
choice = record {
  offer = some coffee_offer;
  summary = evaluate sample_floats taste 50 1200 (some coffee_offer) coffee_candidate;
}

abbrev pub ranked : List Evaluation
ranked = ranking sample_floats taste 50 1200 (select_offer "R04" "user-1" shop) candidates

abbrev pub advice : Recommendation
advice = assemble service healthy ask ranked choice.summary sample_copy

pub advised : Db
advised = (recommend service healthy ask shop).1

unfoldable pub recommend_run : Service → Env → Request → Db → Db
unfolding recommend recommend_tx search_limit candidate_limit_of decide select_journey_station
    select_offer ranking evaluate_all evaluate reject score decide_eligible boost add_reason
    contains_rejection matches_preferred_category weight_for goes_before first_eligible conclude
    collect_offers store enqueue advised stable_sort codes_less to_lower trim_space
recommend_run s env req db = (recommend s env req db).1

pub first_advice : recommend_tx service healthy ask shop ≡ ok (advice, advised)
unfolding recommend_run
first_advice = refl
