-- ===== src/Mobility/Remembered.antt =====
-- internal/mobility/resolver.go, `Resolve`: what it puts into its cache.
use spacetime_node.Prelude.{
  ◌≡◌, refl, true, Option, none, some, [], ◌∷◌, ◌||◌, arith, Bool-cases, Option-cases, inl, inr,
}
use mathlib.Core.Path.{subst}
use spacetime_node.Prelude.Text.{codes_eq, trim_space, is_empty}
use spacetime_node.Platform.Result.{Result, ok, err}
use spacetime_node.Mobility.Key.{Text, Observation, observation_key}
use spacetime_node.Mobility.Resolver.{
  Context, Resolver, Cache, lookup, load_redis, from_provider, from_fixtures, resolve_new,
  resolve_uncached, resolve_key, resolve, is_negative,
}

codes_eq_refl : (key : Text) → codes_eq key key ≡ true
codes_eq_refl [] = refl
codes_eq_refl (c ∷ key) = ground (arith, codes_eq_refl key)

module _ (later : Resolver) (o : Observation) (key : Text) where
  -- an answer of the provider is what a later call finds
  abbrev IsRemembered : Result Context × Cache → Type 0
  IsRemembered (ok c, s) =
      c.source ≡ "provider"
      → resolve_key later o key (lookup key s.entries) s ≡ (ok (record c { source = "cache" }), s)
  IsRemembered (err e, s) = Unit

  module _ (r : Resolver) (s : Cache) where
    fixture-IsRemembered : (f : Option Context) → IsRemembered (from_fixtures r f, s)
    unfolding from_fixtures
    fixture-IsRemembered (some c) = λ h. absurd (cc)
    fixture-IsRemembered none = elim (Bool-cases (is_empty r.fallback.station_id)) [
      | inl nowhere ↦ rw nowhere tt
      | inr placed ↦ rw placed (λ h. absurd (cc))
    ]

    resolve_new-IsRemembered : (c : Option Context) → IsRemembered (resolve_new r key c s)
    unfolding resolve_new resolve_key lookup
    resolve_new-IsRemembered (some c) = λ h. rw (codes_eq_refl key) refl
    resolve_new-IsRemembered none = fixture-IsRemembered (r.fixtures key)

    resolve_key-IsRemembered : (c : Option Context) → IsRemembered (resolve_key r o key c s)
    unfolding resolve_key resolve_uncached
    resolve_key-IsRemembered (some c) = λ h. absurd (cc)
    resolve_key-IsRemembered none = elim (Option-cases (load_redis r key)) [
      | inl nothing ↦ rw (nothing, resolve_uncached) (resolve_new-IsRemembered (from_provider r o))
      | inr (c, got) ↦ rw (got, resolve_uncached) (λ h. absurd (cc))
    ]

-- What Resolve has from the provider is remembered: the next Resolve of the observation returns it
-- as a cached context and changes nothing, whatever the provider, Redis and the fixtures are then.
pub resolve-remembered :
    (r later : Resolver) (o : Observation) (s : Cache) {c : Context} {s' : Cache}
    → resolve r o s ≡ (ok c, s')
    → c.source ≡ "provider"
    → resolve later o s' ≡ (ok (record c { source = "cache" }), s')
unfolding resolve
resolve-remembered r later o s {c} {s'} e h =
    elim (Bool-cases (is_empty (trim_space o.uuid) || is_negative o.major || is_negative o.minor)) [
      | inl invalid ↦ absurd (ground arith)
      | inr valid ↦
          let key = observation_key o in
          let known = resolve_key-IsRemembered later o key r s (lookup key s.entries) in
          rw valid (subst (IsRemembered later o key) (rw valid at e) known h)
    ]
