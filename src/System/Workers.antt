-- ===== src/System/Workers.antt =====
-- internal/notification/worker.go and internal/platform/outbox/outbox.go, `Process`: the loop of the
-- worker keeps the tables healthy.
use mathlib.Core.Path.{subst}
use spacetime_node.Prelude.{
  ℕ, suc, drop, ◌≡◌, String, Bool, true, false, List, [], ◌∷◌, ◌||◌, ◌==◌, any, arith, inl, inr,
  Bool-cases,
}
use spacetime_node.Platform.Env.{Env, begin_tx, commit_tx, insert_processed}
use spacetime_node.Platform.Result.{
  Result, ok, err, unavailable, >>=-ok, fail_if-ok, ok-state, Result-cases,
}
use spacetime_node.Platform.Event.{Message}
use spacetime_node.Platform.Database.{Db}
use spacetime_node.Platform.Outbox.Process.{is_claim, claim, process_tx, process}
use spacetime_node.Notification.Window.{Zones}
use spacetime_node.Notification.Deliver.{PushProvider}
use spacetime_node.Notification.Push.{deliver}
use spacetime_node.Notification.Worker.{
  Worker, unless_failed, commit_offset, work_message, work_from, run_with_provider,
  decode_created_event, notification_consumer, handle_decoded, handle_message,
}
use spacetime_node.System.Healthy.{IsHealthy, settle-IsHealthy}
use spacetime_node.System.Notices.{deliver-IsHealthy, decode_created_event-IsTraced}

process_tx-IsHealthy :
    (env : Env) (c id : String) (handler : Db → Result Db) (db : Db) (b : Bool) (db' : Db)
    → ((d d' : Db) → IsHealthy d → handler d ≡ ok d' → IsHealthy d')
    → IsHealthy db
    → process_tx env c id handler db ≡ ok (b, db')
    → IsHealthy db'
unfolding process_tx
process_tx-IsHealthy env c id handler db b db' keeps h e =
    let (_, e₁) = fail_if-ok (c == "" || id == "") _ _ e in
    let (_, e₂) = fail_if-ok (env.fails begin_tx) _ _ e₁ in
    let (_, e₃) = fail_if-ok (env.fails insert_processed) _ _ e₂ in
    elim (Bool-cases (any (is_claim c id) db.processed_events)) [
      | inl claimed ↦ let same : db ≡ db' = ground arith in subst IsHealthy same h
      | inr new ↦
          let (db₁, ran, e₄) = >>=-ok (handler (claim c id db)) _ (rw new at e₃) in
          let (_, e₅) = fail_if-ok (env.fails commit_tx) (unavailable commit_tx) _ e₄ in
          subst IsHealthy (ok-state e₅) (
            keeps (claim c id db) db₁
              (record { emitted = h.emitted; placed = h.placed; bounded = h.bounded }) ran)
    ]

process-IsHealthy :
    (env : Env) (c id : String) (handler : Db → Result Db) (db : Db)
    → ((d d' : Db) → IsHealthy d → handler d ≡ ok d' → IsHealthy d')
    → IsHealthy db
    → IsHealthy (process env c id handler db).1
unfolding process
process-IsHealthy env c id handler db keeps h =
    settle-IsHealthy db (process_tx env c id handler db)
      (λ b db' e. process_tx-IsHealthy env c id handler db b db' keeps h e) h

unless_failed-IsHealthy : (x : Result Bool × Db) → IsHealthy x.1 → IsHealthy (unless_failed x).1
unless_failed-IsHealthy (err _, db) h = h
unless_failed-IsHealthy (ok _, db) h = h

handle_message-IsHealthy :
    (zones : Zones) (provider : PushProvider) (env : Env) (m : Message) (db : Db)
    → IsHealthy db
    → IsHealthy (handle_message zones provider env m db).1
unfolding handle_message handle_decoded
handle_message-IsHealthy zones provider env m db h = elim (Result-cases (decode_created_event m)) [
  | inr (_, invalid) ↦ rw invalid h
  | inl (d, decoded) ↦
      let handler = deliver env zones provider d.created in
      let keeps : (a b : Db) → IsHealthy a → handler a ≡ ok b → IsHealthy b = λ a b k e.
        deliver-IsHealthy env zones provider d.created a b (decode_created_event-IsTraced m decoded)
          k e in
      let handled = process-IsHealthy env notification_consumer d.event_id handler db keeps h in
      rw decoded
        (unless_failed-IsHealthy (process env notification_consumer d.event_id handler db) handled)
]

commit_offset-IsHealthy :
    (refuses : ℕ → Bool) (offset : ℕ) (w : Worker) (goes_on : Bool) (db : Db)
    → IsHealthy db
    → IsHealthy (commit_offset refuses offset w (goes_on, db)).1.db
commit_offset-IsHealthy refuses offset w false db h = h
commit_offset-IsHealthy refuses offset w true db h = elim (Bool-cases (refuses offset)) [
  | inl refused_now ↦ rw refused_now h
  | inr taken ↦ rw taken h
]

work_from-IsHealthy :
    (zones : Zones) (provider : PushProvider) (envs : ℕ → Env) (refuses : ℕ → Bool) (offset : ℕ)
    (ms : List Message) (w : Worker)
    → IsHealthy w.db
    → IsHealthy (work_from zones provider envs refuses offset ms w).db
unfolding work_from work_message
work_from-IsHealthy zones provider envs refuses offset [] w h = h
work_from-IsHealthy zones provider envs refuses offset (m ∷ ms) w h =
    let handled = handle_message zones provider (envs offset) m w.db in
    let next = commit_offset refuses offset w handled in
    let h₁ = handle_message-IsHealthy zones provider (envs offset) m w.db h in
    let h₂ = commit_offset-IsHealthy refuses offset w handled.0 handled.1 h₁ in
    let h₃ = work_from-IsHealthy zones provider envs refuses (suc offset) ms next.1 h₂ in
    elim (Bool-cases next.0) [ inl goes ↦ rw goes h₃ | inr ends ↦ rw ends h₂ ]

pub run_with_provider-IsHealthy :
    (zones : Zones) (provider : PushProvider) (envs : ℕ → Env) (refuses : ℕ → Bool)
    (topic : List Message) (w : Worker)
    → IsHealthy w.db
    → IsHealthy (run_with_provider zones provider envs refuses topic w).db
unfolding run_with_provider
run_with_provider-IsHealthy zones provider envs refuses topic w h =
    work_from-IsHealthy zones provider envs refuses w.committed (drop w.committed topic) w h
