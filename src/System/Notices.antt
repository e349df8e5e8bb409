-- ===== src/System/Notices.antt =====
-- internal/notification: the worker and the subscriptions keep the tables healthy.
use mathlib.Core.Path.{subst}
use spacetime_node.Prelude.{
  ℕ, ◌≡◌, refl, String, Bool, true, false, Option, List, [], ◌∷◌, not, ◌==◌, any, arith, inl, inr,
  Bool-cases,
}
use spacetime_node.Prelude.Table.{find}
use spacetime_node.Platform.Env.{
  Env, insert_delivery, select_delivery, select_subscriptions, select_settings,
}
use spacetime_node.Platform.Result.{or_invalid, ok, unavailable, user_not_found, >>=-ok, fail_if-ok}
use spacetime_node.Platform.Event.{text_field, Message, malformed, event}
use spacetime_node.Platform.Database.{Db, SubscriptionRow}
use spacetime_node.Redemption.Rows.{or_error, has_hash}
use spacetime_node.Notification.Window.{Zones}
use spacetime_node.Notification.Deliver.{
  Created, PushPayload, Push, pushed, refused, PushProvider, is_due, is_delivery, is_refused,
  insert_delivery_row, Notice, notice_event, enqueue_notification_event,
}
use spacetime_node.Notification.Push.{
  deactivate, announce, record_push, push_subscription, push_one, push_all, deliver_due, deliver,
}
use spacetime_node.Notification.Worker.{Decoded, are_texts, lacks_part, decode_created_event}
use spacetime_node.Analytics.{known_topic}
use spacetime_node.System.Healthy.{IsHealthy, Keeps, Keeps-IsHealthy, enqueue-IsHealthy}

-- the event of a recommendation names its journey and its trace
abbrev pub IsTraced : Created → Type 0
IsTraced ev = ((ev.trace_id == "") ≡ false) × ((ev.journey_id == "") ≡ false)

-- the topics of the worker
abbrev IsNotice : String → Type 0
IsNotice t = (known_topic t ≡ true) × ((t == "visit.attributed.v1") ≡ false)

notices_known :
    IsNotice "notification.sent.v1"
    × (IsNotice "notification.delivered.v1" × IsNotice "notification.failed.v1")
unfolding known_topic
notices_known = ((refl, refl), ((refl, refl), (refl, refl)))

notice-IsHealthy :
    (env : Env) (ev : Created) (id : String) (n : Notice) (db : Db) {db' : Db}
    → IsTraced ev
    → IsNotice n.event_type
    → enqueue_notification_event env ev id n db ≡ ok db'
    → IsHealthy db
    → IsHealthy db'
unfolding enqueue_notification_event
notice-IsHealthy env ev id n db t k e h =
    enqueue-IsHealthy env _ (notice_event env ev id n) db e refl refl refl
      (record {
        version = refl;
        occurred = refl;
        producer = refl;
        trace = t.0;
        known = k.0;
        journey = t.1;
        no_visit = k.1;
      })
      h

announce-IsHealthy :
    (env : Env) (ev : Created) (id : String) (demo : Bool) (db : Db) {db' : Db}
    → IsTraced ev
    → announce env ev id demo db ≡ ok db'
    → IsHealthy db
    → IsHealthy db'
unfolding announce
announce-IsHealthy env ev id true db t e h =
    let (db₁, first, second) = >>=-ok (enqueue_notification_event env ev id _ db) _ e in
    notice-IsHealthy env ev id _ db₁ t notices_known.1.0 second
      (notice-IsHealthy env ev id _ db t notices_known.0 first h)
announce-IsHealthy env ev id false db t e h = notice-IsHealthy env ev id _ db t notices_known.0 e h

deactivate-Keeps :
    (env : Env) (id : String) (code : Option ℕ) (db : Db) {db' : Db}
    → deactivate env id code db ≡ ok db'
    → Keeps db db'
unfolding deactivate
deactivate-Keeps env id code db e = record {
  outbox = ground arith;
  redemptions = ground arith;
  weights = ground arith;
}

insert_delivery_row-Keeps :
    (env : Env) (ev : Created) (user_id id status : String) (db : Db) {db' : Db}
    → insert_delivery_row env ev user_id id status db ≡ ok db'
    → Keeps db db'
unfolding insert_delivery_row
insert_delivery_row-Keeps env ev user_id id status db {db'} e =
    let (_, e₁) = fail_if-ok (env.fails (insert_delivery id)) _ _ e in
    let (_, e₂) = fail_if-ok (is_refused env ev id status db) _ _ e₁ in
    record { outbox = ground arith; redemptions = ground arith; weights = ground arith }

record_push-IsHealthy :
    (env : Env) (ev : Created) (user_id id : String) (answer : Push) (db : Db) {db' : Db}
    → IsTraced ev
    → record_push env ev user_id id answer db ≡ ok db'
    → IsHealthy db
    → IsHealthy db'
unfolding record_push
record_push-IsHealthy env ev user_id id (refused code) db t e h =
    let (db₁, off, e₁) = >>=-ok (deactivate env id code db) _ e in
    let (db₂, wrote, e₂) = >>=-ok (insert_delivery_row env ev user_id id "failed" db₁) _ e₁ in
    let h₁ = Keeps-IsHealthy (deactivate-Keeps env id code db off) h in
    let h₂ = Keeps-IsHealthy (insert_delivery_row-Keeps env ev user_id id "failed" db₁ wrote) h₁ in
    notice-IsHealthy env ev id _ db₂ t notices_known.1.1 e₂ h₂
record_push-IsHealthy env ev user_id id (pushed status) db t e h =
    let (db₁, wrote, e₁) = >>=-ok (insert_delivery_row env ev user_id id status db) _ e in
    announce-IsHealthy env ev id (status == "delivered") db₁ t e₁
      (Keeps-IsHealthy (insert_delivery_row-Keeps env ev user_id id status db wrote) h)

push_one-IsHealthy :
    (env : Env) (provider : PushProvider) (ev : Created) (user_id : String) (payload : PushPayload)
    (s : SubscriptionRow) (db : Db) {db' : Db}
    → IsTraced ev
    → push_one env provider ev user_id payload s db ≡ ok db'
    → IsHealthy db
    → IsHealthy db'
unfolding push_one
push_one-IsHealthy env provider ev user_id payload s db {db'} t e h =
    let id = s.subscription_id in
    let (_, e₁) = fail_if-ok (env.fails (select_delivery id)) _ _ e in
    elim (Bool-cases (any (is_delivery id ev.recommendation_id) db.notification_deliveries)) [
      | inl before ↦ let same : db ≡ db' = ground arith in subst IsHealthy same h
      | inr new ↦
          record_push-IsHealthy env ev user_id id (provider (push_subscription s) payload) db t
            (rw new at e₁) h
    ]

push_all-IsHealthy :
    (env : Env) (provider : PushProvider) (ev : Created) (user_id : String) (payload : PushPayload)
    (ss : List SubscriptionRow) (db : Db) {db' : Db}
    → IsTraced ev
    → push_all env provider ev user_id payload ss db ≡ ok db'
    → IsHealthy db
    → IsHealthy db'
unfolding push_all
push_all-IsHealthy env provider ev user_id payload [] db {db'} t e h =
    let same : db ≡ db' = cc in subst IsHealthy same h
push_all-IsHealthy env provider ev user_id payload (s ∷ ss) db {db'} t e h =
    let (db₁, one, rest) = >>=-ok (push_one env provider ev user_id payload s db) _ e in
    push_all-IsHealthy env provider ev user_id payload ss db₁ {db' = db'} t rest
      (push_one-IsHealthy env provider ev user_id payload s db t one h)

pub deliver-IsHealthy :
    (env : Env) (zones : Zones) (provider : PushProvider) (ev : Created) (db db' : Db)
    → IsTraced ev
    → IsHealthy db
    → deliver env zones provider ev db ≡ ok db'
    → IsHealthy db'
unfolding deliver deliver_due
deliver-IsHealthy env zones provider ev db db' t h e =
    let (_, e₁) = fail_if-ok (env.fails select_settings) _ _ e in
    let (u, _, e₂) =
      >>=-ok (or_error user_not_found (find (has_hash ev.user_id_hash) db.users)) _ e₁ in
    elim (Bool-cases (is_due zones env.now u)) [
      | inr closed ↦ let same : db ≡ db' = ground arith in subst IsHealthy same h
      | inl due ↦
          let (_, e₃) =
            fail_if-ok (env.fails select_subscriptions) (unavailable select_subscriptions) _
              (rw due at e₂) in
          push_all-IsHealthy env provider ev u.user_id _ _ db t e₃ h
    ]

pub decode_created_event-IsTraced :
    (m : Message) {d : Decoded} → decode_created_event m ≡ ok d → IsTraced d.created
unfolding decode_created_event
decode_created_event-IsTraced malformed e = absurd (ground arith)
decode_created_event-IsTraced (event v) {d} e =
    let (recommended, _, e₁) = >>=-ok (or_invalid (text_field v.payload "recommendation_id")) _ e in
    let (offer_id, _, e₂) = >>=-ok (or_invalid (text_field v.payload "offer_id")) _ e₁ in
    let (_, _, e₃) = >>=-ok (or_invalid (text_field v.payload "copy_source")) _ e₂ in
    let (_, e₄) = fail_if-ok (not (are_texts v.payload "reasons")) _ _ e₃ in
    let (given, e₅) = fail_if-ok (lacks_part v recommended offer_id) _ _ e₄ in
    let trace : (v.trace_id == "") ≡ false = ground arith in
    let journey : (v.journey_id == "") ≡ false = ground arith in (ground arith, ground arith)
