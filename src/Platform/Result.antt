-- ===== src/Platform/Result.antt =====
-- Go's `(value, error)` results: a value or one of the program's error values.
use mathlib.Core.Path.{◌≡◌, refl}
use mathlib.Core.Logic.{◌⊎◌, inl, inr}
use mathlib.Core.Option.{Option, none, some}
use mathlib.Core.Bool.{Bool, true, false}
use native.Mathlib.Omega.{arith}
use spacetime_node.Platform.Env.{Call}

-- The sentinel errors of the services. `unavailable` is an error that the database driver, the
-- broker or another remote end returns at that call; `constraint` is a violated table constraint.
pub data Error : Type 0 where
  unavailable : Call → Error
  constraint no_rows : Error
  invalid_request invalid_outbox_input invalid_feedback_event invalid_user_id_hash : Error
  user_not_found journey_not_found offer_unavailable offer_already_redeemed : Error
  insufficient_points idempotency_key_conflict redemption_not_found : Error
  verification_failed redemption_not_verifiable : Error
  journey_station_mismatch no_eligible_offer embedding_unavailable : Error
  recommendation_not_found invalid_event publish_failed : Error
  invalid_observation beacon_unavailable unmapped_beacon : Error
  invalid_subscription subscription_not_found : Error
  invalid_copy_facts invalid_copy_output copy_generation : Error

pub data Result {ℓ} (V : Type ℓ) : Type ℓ where
  err : Error → Result V
  ok : V → Result V

-- `v, err := m; if err != nil { return err }`, before the rest
infixl 5 ◌>>=◌
abbrev pub ◌>>=◌ {ℓ κ} : {V : Type ℓ} {W : Type κ} → Result V → (V → Result W) → Result W
err problem >>= rest = err problem
ok v >>= rest = rest v

-- the same where there is only an error
infixl 5 ◌>>◌
abbrev pub ◌>>◌ {κ} : {W : Type κ} → Result (Unit {0}) → Result W → Result W
err problem >> rest = err problem
ok done >> rest = rest

-- `if b { return err }`
abbrev pub fail_if : Bool → Error → Result (Unit {0})
fail_if true e = err e
fail_if false e = ok tt

-- `defer tx.Rollback()` with the commit: the state of a failed transaction is the old one.
abbrev pub settle {ℓ κ} : {S : Type ℓ} {A : Type κ} → S → Result (A × S) → Result A × S
settle s (ok (a, s')) = (ok a, s')
settle s (err e) = (err e, s)

pub Result-cases {ℓ} :
    {A : Type ℓ} (m : Result A) → ((a : A) × (m ≡ ok a)) ⊎ ((e : Error) × (m ≡ err e))
Result-cases (ok a) = inl (a, refl)
Result-cases (err e) = inr (e, refl)

-- a call before which another one could return its error: both have succeeded
pub >>=-ok {ℓ κ} :
    {V : Type ℓ} {W : Type κ} (m : Result V) (rest : V → Result W) {w : W}
    → (m >>= rest) ≡ ok w
    → (v : V) × (m ≡ ok v) × (rest v ≡ ok w)
>>=-ok (err problem) rest e = absurd (ground arith)
>>=-ok (ok v) rest e = (v, refl, e)

pub fail_if-ok {κ} :
    (test : Bool) (problem : Error) {W : Type κ} (rest : Result W) {w : W}
    → (fail_if test problem >> rest) ≡ ok w
    → (test ≡ false) × (rest ≡ ok w)
fail_if-ok true problem rest e = absurd (ground arith)
fail_if-ok false problem rest e = (refl, e)

pub settle-ok {ℓ κ} :
    {S : Type ℓ} {A : Type κ} (s : S) (m : Result (A × S)) {a : A} {s' : S}
    → settle s m ≡ (ok a, s')
    → m ≡ ok (a, s')
settle-ok s (ok (a, t)) h = ground arith
settle-ok s (err e) h = ground arith

-- the state of a result
pub ok-state {ℓ κ} :
    {A : Type ℓ} {S : Type κ} {a b : A} {s t : S}
    → ◌≡◌ {A = Result (A × S)} (ok (a, s)) (ok (b, t))
    → s ≡ t
ok-state e = cc

-- what a document lacks
abbrev pub or_invalid {ℓ} : {A : Type ℓ} → Option A → Result A
or_invalid none = err invalid_event
or_invalid (some a) = ok a
