-- ===== src/Platform/Env.antt =====
-- What a call gets from outside: the clock, the random ids, and which remote calls fail.
use Prim.Native.Nat.{ℕ}
use Prim.Native.String.{String}
use mathlib.Core.Bool.{Bool}

-- The statements and remote calls at which the driver may return an error.
pub data Call : Type 0 where
  begin_tx commit_tx : Call
  lock_user select_existing select_journey select_redeemed lock_stock : Call
  insert_redemption update_balance update_stock insert_ledger : Call
  select_weight_keys upsert_weight insert_outbox : Call
  select_redemption update_redemption : Call
  select_pending insert_processed : Call
  write_message mark_failed mark_published : String → Call
  update_preferences select_profile select_preferences : Call
  ensure_user select_user select_station insert_journey : Call
  select_recommendation insert_dismissal select_dismissals : Call
  search_candidates select_offers insert_recommendation select_weights : Call
  select_settings select_subscriptions upsert_subscription : Call
  select_delivery send_push update_subscription insert_delivery insert_event : String → Call

-- The calls of `uuid.NewString`.
pub data Fresh : Type 0 where
  redemption_id verification_code event_id trace_id journey_id user_id : Fresh
  recommendation_id subscription_id : Fresh
  notification_id : String → Fresh
  notification_event : String → String → Fresh

-- `now` is `time.Now`, and the database's `current_timestamp`, in nanoseconds.
pub record Env : Type 0 where
  pub now : ℕ
  pub fails : Call → Bool
  pub uuid : Fresh → String
