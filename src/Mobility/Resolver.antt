-- ===== src/Mobility/Resolver.antt =====
-- internal/mobility/resolver.go, `Resolve`. The provider and Redis are arguments: what they answer
-- at this call. Confidences are float64 values, as in the recommendation rules.
use spacetime_node.Prelude.{
  ℕ, String, Bool, true, false, Option, none, some, List, [], ◌∷◌, ◌++◌, ◌&&◌, ◌||◌, if◌then◌else◌,
  nat_eq,
}
use spacetime_node.Prelude.Int.{ℤ, pos, negsuc}
use spacetime_node.Prelude.Text.{codes, codes_eq, trim_space, to_lower, to_upper, is_empty}
use spacetime_node.Platform.Result.{Result, ok, err, invalid_observation, beacon_unavailable}
use spacetime_node.Recommendation.Rules.{Floats}
use spacetime_node.Mobility.Key.{Text, Observation, observation_key}

pub record ProviderResponse : Type 0 where
  pub sid : Text
  pub lid : Text
  pub posino : Text
  pub position : Text
  pub station_name : Text
  pub station_name_legacy : Text

pub record Context : Type 0 where
  pub station_id : Text
  pub line_id : Text
  pub position_id : Text
  pub station_name : Text
  pub source : String
  pub confidence : ℕ
  pub near_exit : Bool

pub record StationMapping : Type 0 where
  pub station_id : Text
  pub line_id : Text
  pub station_name : Text

-- the fields that do not change, and the answers of the provider and of Redis; `none` is a missing
-- client, an error or a value that does not decode
pub record Resolver : Type 0 where
  pub floats : Floats
  pub provider : Observation → Option ProviderResponse
  pub mappings : Text → Option StationMapping
  pub fixtures : Text → Option Context
  pub fallback : Context
  pub redis : Text → Option Context

-- the cache of the process, the newest entry first, and what was sent to Redis
pub record Cache : Type 0 where
  pub entries : List (Text × Context)
  pub sent : List (Text × Context)

unfoldable pub lookup : Text → List (Text × Context) → Option Context
lookup key [] = none
lookup key ((k, c) ∷ rest) = if codes_eq k key then some c else lookup key rest

abbrev is_prefix : Text → Text → Bool
is_prefix [] cs = true
is_prefix (p ∷ ps) [] = false
is_prefix (p ∷ ps) (c ∷ cs) = nat_eq p c && is_prefix ps cs

-- `strings.Contains`
abbrev pub contains : Text → Text → Bool
contains part [] = is_empty part
contains part (c ∷ cs) = is_prefix part (c ∷ cs) || contains part cs

abbrev pub or_text : Text → Text → Text
or_text a b = if is_empty a then b else a

-- the mapping of a station that is not configured
unfoldable pub own_mapping : Text → Text → ProviderResponse → Option StationMapping
own_mapping sid lid response =
    let name =
      or_text (trim_space response.station_name) (trim_space response.station_name_legacy) in
    if is_empty sid || is_empty lid || is_empty name
    then none
    else some (record { station_id = sid; line_id = lid; station_name = name })

abbrev pub or_else : Option StationMapping → Option StationMapping → Option StationMapping
or_else none m = m
or_else (some m) _ = some m

abbrev pub context_of : Floats → Text → StationMapping → Context
context_of fl position m = record {
  station_id = m.station_id;
  line_id = m.line_id;
  position_id = position;
  station_name = m.station_name;
  source = "provider";
  confidence = fl.hundredths 95;
  near_exit =
      contains (codes "exit") (to_lower position)
      || contains (codes "出口") position
      || contains (codes "出站") position;
}

-- the test of the mapping, and the context
unfoldable pub mapped : Floats → Text → Option StationMapping → Option Context
mapped fl position none = none
mapped fl position (some m) =
    if is_empty m.station_id then none else some (context_of fl position m)

-- `normalize`, which is called with the source `provider`
unfoldable pub normalize : Resolver → ProviderResponse → Option Context
normalize r response =
    let sid = to_upper (trim_space response.sid) in
    let lid = to_upper (trim_space response.lid) in
    mapped r.floats (or_text (trim_space response.posino) (trim_space response.position))
      (or_else (r.mappings (sid ++ b'|' ∷ lid)) (own_mapping sid lid response))

unfoldable pub with_station : Option Context → Option Context
with_station none = none
with_station (some c) = if is_empty c.station_id then none else some c

-- `loadRedis`
abbrev pub load_redis : Resolver → Text → Option Context
load_redis r key = with_station (r.redis key)

unfoldable pub from_provider : Resolver → Observation → Option Context
from_provider r o = elim (r.provider o) [ none ↦ none | some response ↦ normalize r response ]

abbrev pub store_local : Text → Context → Cache → Cache
store_local key c s = record s { entries = (key, c) ∷ s.entries }

-- `store`; the write to Redis may be lost
abbrev pub store : Text → Context → Cache → Cache
store key c s = record { entries = (key, c) ∷ s.entries; sent = s.sent ++ (key, c) ∷ [] }

-- `if Confidence == 0`
abbrev pub at_least_sure : Floats → ℕ → ℕ → ℕ
at_least_sure fl hundredths confidence =
    if fl.eq confidence (fl.hundredths 0) then fl.hundredths hundredths else confidence

-- the fixture, then the fallback
unfoldable pub from_fixtures : Resolver → Option Context → Result Context
from_fixtures r (some f) =
    ok (record f { source = "fixture"; confidence = at_least_sure r.floats 75 f.confidence })
from_fixtures r none =
    if is_empty r.fallback.station_id
    then err beacon_unavailable
    else ok (record r.fallback {
      source = "station_fixture";
      confidence = at_least_sure r.floats 50 r.fallback.confidence;
    })

-- what follows the caches
unfoldable pub resolve_new : Resolver → Text → Option Context → Cache → Result Context × Cache
resolve_new r key (some c) s = (ok c, store key c s)
resolve_new r key none s = (from_fixtures r (r.fixtures key), s)

-- what follows the cache of the process
unfoldable pub resolve_uncached :
    Resolver → Observation → Text → Option Context → Cache → Result Context × Cache
resolve_uncached r o key (some c) s = (ok (record c { source = "cache" }), store_local key c s)
resolve_uncached r o key none s = resolve_new r key (from_provider r o) s

unfoldable pub resolve_key :
    Resolver → Observation → Text → Option Context → Cache → Result Context × Cache
resolve_key r o key (some c) s = (ok (record c { source = "cache" }), s)
resolve_key r o key none s = resolve_uncached r o key (load_redis r key) s

abbrev pub is_negative : ℤ → Bool
is_negative (pos n) = false
is_negative (negsuc n) = true

-- `Resolve`
unfoldable pub resolve : Resolver → Observation → Cache → Result Context × Cache
resolve r o s =
    if is_empty (trim_space o.uuid) || is_negative o.major || is_negative o.minor
    then (err invalid_observation, s)
    else resolve_key r o (observation_key o) (lookup (observation_key o) s.entries) s
