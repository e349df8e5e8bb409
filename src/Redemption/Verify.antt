-- ===== src/Redemption/Verify.antt =====
-- internal/redemption/service.go, `Get` and `Verify`.
use spacetime_node.Prelude.{String, Bool, not, [], ◌∷◌, ◌&&◌, ◌||◌, ◌==◌}
use spacetime_node.Prelude.Table.{find, update_where}
use spacetime_node.Platform.Env.{
  Env, begin_tx, commit_tx, select_redemption, update_redemption, event_id,
}
use spacetime_node.Platform.Result.{
  Result, ok, err, unavailable, invalid_request, redemption_not_found, verification_failed,
  redemption_not_verifiable, ◌>>=◌, ◌>>◌, fail_if, settle,
}
use spacetime_node.Platform.Event.{Envelope, at, text, time, event}
use spacetime_node.Platform.Database.{
  Db, UserRow, Status, pending, succeeded, rejected, verified, RedemptionRow,
}
use spacetime_node.Platform.Outbox.{enqueue}
use spacetime_node.Redemption.Rows.{VerifyRequest, Redemption, view, or_error, has_offer}

abbrev pub has_id : String → RedemptionRow → Bool
has_id id r = r.redemption_id == id

-- `Get`
unfoldable pub get : Env → String → Db → Result Redemption
get env id db = do
  fail_if (id == "") invalid_request
  fail_if (env.fails select_redemption) (unavailable select_redemption)
  r ← or_error redemption_not_found (find (has_id id) db.redemptions)
  ok (view r)

-- the row of the join of `redemptions`, `offers` and `users`
abbrev pub Joined : Type 0
Joined = record { row : RedemptionRow; merchant_id : String; user_id_hash : String }

unfoldable pub select_joined : Env → String → Db → Result Joined
select_joined env id db = do
  fail_if (env.fails select_redemption) (unavailable select_redemption)
  r ← or_error redemption_not_found (find (has_id id) db.redemptions)
  offer ← or_error redemption_not_found (find (has_offer r.offer_id) db.offers)
  user ← or_error redemption_not_found (find (λ (u : UserRow). u.user_id == r.user_id) db.users)
  ok (record { row = r; merchant_id = offer.merchant_id; user_id_hash = user.user_id_hash })

abbrev pub mark_verified : RedemptionRow → RedemptionRow
mark_verified r = record r { status = verified }

unfoldable pub update_status_row : Env → String → Db → Result Db
update_status_row env id db = do
  fail_if (env.fails update_redemption) (unavailable update_redemption)
  ok (record db { redemptions = update_where (has_id id) mark_verified db.redemptions })

-- the event of `enqueueVerifiedEvent`
abbrev pub verified_event : Env → VerifyRequest → RedemptionRow → String → Envelope
verified_event env req r user_id_hash = record {
  event_id = env.uuid event_id;
  event_type = "merchant.verified.v1";
  schema_version = 1;
  occurred_at = at env.now;
  producer = "redemption-service";
  trace_id = req.trace_id;
  journey_id = r.journey_id;
  recommendation_id = "";
  user_id_hash = user_id_hash;
  payload =
      ("redemption_id", text r.redemption_id)
      ∷ ("merchant_id", text req.merchant_id)
      ∷ ("verified_at", time (at env.now))
      ∷ [];
}

unfoldable pub enqueue_verified_event :
    Env → VerifyRequest → RedemptionRow → String → Db → Result Db
enqueue_verified_event env req r user_id_hash = enqueue env (record {
  id = env.uuid event_id;
  topic = "merchant.verified.v1";
  key = r.journey_id;
  payload = event (verified_event env req r user_id_hash);
})

-- what follows the test of the code, by the status that was read
unfoldable pub verify_status :
    Env → VerifyRequest → RedemptionRow → String → Status → Db → Result (Redemption × Db)
verify_status env req r user_id_hash verified db = do
  fail_if (env.fails commit_tx) (unavailable commit_tx)
  ok (view r, db)
verify_status env req r user_id_hash succeeded db = do
  db₁ ← update_status_row env r.redemption_id db
  db₂ ← enqueue_verified_event env req (mark_verified r) user_id_hash db₁
  fail_if (env.fails commit_tx) (unavailable commit_tx)
  ok (view (mark_verified r), db₂)
verify_status env req r user_id_hash pending db = err redemption_not_verifiable
verify_status env req r user_id_hash rejected db = err redemption_not_verifiable

abbrev pub lacks_field : VerifyRequest → Bool
lacks_field req =
    req.redemption_id == ""
    || req.merchant_id == ""
    || req.verification_code == ""
    || req.trace_id == ""

-- `Verify`, without the rollback
unfoldable pub verify_tx : Env → VerifyRequest → Db → Result (Redemption × Db)
verify_tx env req db = do
  fail_if (lacks_field req) invalid_request
  fail_if (env.fails begin_tx) (unavailable begin_tx)
  found ← select_joined env req.redemption_id db
  fail_if
      (not (
        found.merchant_id == req.merchant_id
        && found.row.merchant_verification_code == req.verification_code))
      verification_failed
  verify_status env req found.row found.user_id_hash found.row.status db

-- `Verify`
unfoldable pub verify : Env → VerifyRequest → Db → Result Redemption × Db
verify env req db = settle db (verify_tx env req db)
