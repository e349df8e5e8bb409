-- ===== src/Mobility/Tests.antt =====
-- Runs of the resolver, and the theorems at them.
use spacetime_node.Prelude.{ℕ, ◌+◌, ◌≡◌, refl, true, false, none, some, [], nat_eq, ltb, All, arith}
use spacetime_node.Prelude.Int.{pos, negsuc}
use spacetime_node.Prelude.Text.{codes, is_space, drop_space, trim_space, to_lower, to_upper}
use spacetime_node.Platform.Result.{ok}
use spacetime_node.Recommendation.Rules.{Floats}
use spacetime_node.Mobility.Key.{Observation, digits_before, format_int, fold_uuid, observation_key}
use spacetime_node.Mobility.Decimal.{read_decimal, read_decimal-format_int, observation_key-same}
use spacetime_node.Mobility.Resolver.{
  ProviderResponse, Context, Resolver, Cache, lookup, own_mapping, mapped, normalize, with_station,
  from_provider, resolve_new, resolve_uncached, resolve_key, resolve,
}
use spacetime_node.Mobility.Cached.{IsPlaced, IsPlacedEntry, resolve-IsPlaced}
use spacetime_node.Mobility.Remembered.{resolve-remembered}

read_decimal-format_int_example : read_decimal 0 (format_int (pos 1040)) ≡ 1040
read_decimal-format_int_example = read_decimal-format_int 1040 (omega arith)

same_beacon :
    observation_key (record { uuid = codes " A:1"; major = pos 12; minor = pos 0 })
    ≡ observation_key (record { uuid = codes "a:1 "; major = pos 12; minor = pos 0 })
unfolding observation_key format_int digits_before trim_space drop_space is_space to_lower
same_beacon = refl

observation_key-same_example :
    (fold_uuid (codes " A:1") ≡ fold_uuid (codes "a:1 ")) × (◌≡◌ {A = ℕ} 12 12) × (◌≡◌ {A = ℕ} 0 0)
observation_key-same_example =
    observation_key-same (codes " A:1") (codes "a:1 ") 12 12 0 0 (omega arith) (omega arith)
      (omega arith) (omega arith) same_beacon

abbrev sample_floats : Floats
sample_floats = record {
  hundredths = λ n. n;
  add = λ a b. a + b;
  weigh = λ w. elim w [ pos n ↦ n | negsuc n ↦ 0 ];
  eq = nat_eq;
  less = ltb;
}

abbrev exit_three : ProviderResponse
exit_three = record {
  sid = codes "r04";
  lid = codes "r";
  posino = [];
  position = codes "Exit 3";
  station_name = codes "Xinyi Anhe";
  station_name_legacy = [];
}

abbrev no_context : Context
no_context = record {
  station_id = [];
  line_id = [];
  position_id = [];
  station_name = [];
  source = "";
  confidence = 0;
  near_exit = false;
}

-- neither mappings, fixtures, a fallback nor Redis
abbrev bare : Resolver
bare = record {
  floats = sample_floats;
  provider = λ o. some exit_three;
  mappings = λ key. none;
  fixtures = λ key. none;
  fallback = no_context;
  redis = λ key. none;
}

-- the provider is down
abbrev down : Resolver
down = record bare { provider = λ o. none }

abbrev seen : Observation
seen = record { uuid = codes "beacon"; major = pos 1; minor = pos 2 }

abbrev empty_cache : Cache
empty_cache = record { entries = []; sent = [] }

abbrev at_exit : Context
at_exit = record {
  station_id = codes "R04";
  line_id = codes "R";
  position_id = codes "Exit 3";
  station_name = codes "Xinyi Anhe";
  source = "provider";
  confidence = 95;
  near_exit = true;
}

after : Cache
after = (resolve bare seen empty_cache).1

resolved : resolve bare seen empty_cache ≡ (ok at_exit, after)
unfolding resolve resolve_key resolve_uncached resolve_new from_provider normalize mapped
    own_mapping with_station lookup trim_space drop_space is_space to_lower to_upper after
resolved = refl

resolve-remembered_example :
    resolve down seen after ≡ (ok (record at_exit { source = "cache" }), after)
resolve-remembered_example = resolve-remembered bare down seen empty_cache resolved refl

resolve-IsPlaced_example : IsPlaced at_exit × All IsPlacedEntry after.entries
resolve-IsPlaced_example =
    resolve-IsPlaced bare seen empty_cache (λ key c h. absurd (cc)) tt resolved
