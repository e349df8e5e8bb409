-- ===== src/Mobility/Cached.antt =====
-- internal/mobility/resolver.go, `Resolve`: the stations of its answers and of its cache.
use spacetime_node.Prelude.{
  ◌≡◌, false, Option, none, some, List, [], ◌∷◌, ◌||◌, All, arith, Bool-cases, Option-cases, inl,
  inr,
}
use mathlib.Core.Path.{subst}
use spacetime_node.Prelude.Text.{codes_eq, trim_space, is_empty}
use spacetime_node.Platform.Result.{Result, ok, err}
use spacetime_node.Mobility.Key.{Text, Observation, observation_key}
use spacetime_node.Mobility.Resolver.{
  Context, StationMapping, Resolver, Cache, lookup, mapped, normalize, with_station, load_redis,
  from_provider, from_fixtures, resolve_new, resolve_uncached, resolve_key, resolve, is_negative,
}

-- A context names a station.
abbrev pub IsPlaced : Context → Type 0
IsPlaced c = is_empty c.station_id ≡ false

abbrev pub IsPlacedEntry : Text × Context → Type 0
IsPlacedEntry e = IsPlaced e.1

abbrev IsPlacedOption : Option Context → Type 0
IsPlacedOption none = Unit
IsPlacedOption (some c) = IsPlaced c

lookup-IsPlaced :
    (key : Text) (es : List (Text × Context))
    → All IsPlacedEntry es
    → IsPlacedOption (lookup key es)
unfolding lookup
lookup-IsPlaced key [] h = tt
lookup-IsPlaced key ((k, c) ∷ es) h =
    let rest = lookup-IsPlaced key es h.1 in
    elim (Bool-cases (codes_eq k key)) [ inl here ↦ rw here h.0 | inr other ↦ rw other rest ]

with_station-IsPlaced : (o : Option Context) → IsPlacedOption (with_station o)
unfolding with_station
with_station-IsPlaced none = tt
with_station-IsPlaced (some c) = elim (Bool-cases (is_empty c.station_id)) [
  | inl nowhere ↦ rw nowhere tt
  | inr placed ↦ rw placed placed
]

mapped-IsPlaced :
    (r : Resolver) (position : Text) (m : Option StationMapping)
    → IsPlacedOption (mapped r.floats position m)
unfolding mapped
mapped-IsPlaced r position none = tt
mapped-IsPlaced r position (some m) = elim (Bool-cases (is_empty m.station_id)) [
  | inl nowhere ↦ rw nowhere tt
  | inr placed ↦ rw placed placed
]

from_provider-IsPlaced : (r : Resolver) (o : Observation) → IsPlacedOption (from_provider r o)
unfolding from_provider normalize
from_provider-IsPlaced r o = elim (Option-cases (r.provider o)) [
  | inl nothing ↦ rw (nothing, from_provider) tt
  | inr (response, got) ↦ rw (got, from_provider) (mapped-IsPlaced r _ _)
]

-- the answer of a call names a station, and so does all that it remembers
abbrev IsPlacedAnswer : Result Context × Cache → Type 0
IsPlacedAnswer (ok c, s) = IsPlaced c × All IsPlacedEntry s.entries
IsPlacedAnswer (err e, s) = Unit

abbrev pub IsPlacedFixture : Resolver → Type 0
IsPlacedFixture r = (key : Text) (c : Context) → r.fixtures key ≡ some c → IsPlaced c

module _ (r : Resolver) (s : Cache) (h : All IsPlacedEntry s.entries) where
  fixture_answer :
      (key : Text) → IsPlacedFixture r → IsPlacedAnswer (from_fixtures r (r.fixtures key), s)
  unfolding from_fixtures
  fixture_answer key f = elim (Option-cases (r.fixtures key)) [
    | inr (c, found) ↦ rw found (f key c found, h)
    | inl nothing ↦ elim (Bool-cases (is_empty r.fallback.station_id)) [
      | inl nowhere ↦ rw (nothing, nowhere) tt
      | inr placed ↦ rw (nothing, placed) (placed, h)
    ]
  ]

  resolve_new-IsPlacedAnswer :
      (key : Text) (o : Option Context)
      → IsPlacedFixture r
      → IsPlacedOption o
      → IsPlacedAnswer (resolve_new r key o s)
  unfolding resolve_new
  resolve_new-IsPlacedAnswer key (some c) f k = (k, (k, h))
  resolve_new-IsPlacedAnswer key none f k = fixture_answer key f

  resolve_uncached-IsPlacedAnswer :
      (o : Observation) (key : Text) (c : Option Context)
      → IsPlacedFixture r
      → IsPlacedOption c
      → IsPlacedAnswer (resolve_uncached r o key c s)
  unfolding resolve_uncached
  resolve_uncached-IsPlacedAnswer o key (some c) f k = (k, (k, h))
  resolve_uncached-IsPlacedAnswer o key none f k =
      resolve_new-IsPlacedAnswer key (from_provider r o) f (from_provider-IsPlaced r o)

  resolve_key-IsPlacedAnswer :
      (o : Observation) (key : Text) (c : Option Context)
      → IsPlacedFixture r
      → IsPlacedOption c
      → IsPlacedAnswer (resolve_key r o key c s)
  unfolding resolve_key
  resolve_key-IsPlacedAnswer o key (some c) f k = (k, h)
  resolve_key-IsPlacedAnswer o key none f k =
      resolve_uncached-IsPlacedAnswer o key (load_redis r key) f
        (with_station-IsPlaced (r.redis key))

-- If the fixtures and what is in the cache name stations, then a Resolve that answers names a
-- station, and all that is in the cache after it does too: whatever the provider and Redis return,
-- an answer without a station is neither given nor remembered.
pub resolve-IsPlaced :
    (r : Resolver) (o : Observation) (s : Cache) {c : Context} {s' : Cache}
    → IsPlacedFixture r
    → All IsPlacedEntry s.entries
    → resolve r o s ≡ (ok c, s')
    → IsPlaced c × All IsPlacedEntry s'.entries
unfolding resolve
resolve-IsPlaced r o s {c} {s'} f h e =
    elim (Bool-cases (is_empty (trim_space o.uuid) || is_negative o.major || is_negative o.minor)) [
      | inl invalid ↦ absurd (ground arith)
      | inr valid ↦
          let key = observation_key o in
          let answer =
            resolve_key-IsPlacedAnswer r s h o key (lookup key s.entries) f
              (lookup-IsPlaced key s.entries h) in
          subst IsPlacedAnswer (rw valid at e) answer
    ]
