-- ===== src/Platform/Outbox/Process.antt =====
-- internal/platform/outbox/outbox.go, `Process`.
use spacetime_node.Prelude.{
  String, Bool, true, false, ◌≡◌, ◌⊎◌, All, refl, List, Among, Bool-cases, inl, inr, ◌||◌, ◌&&◌,
  ◌==◌, any, any-append, if◌then◌else◌, arith, eq_refl, ◌∷◌, [],
}
use spacetime_node.Prelude.Table.{insert_row}
use spacetime_node.Platform.Env.{Env, begin_tx, commit_tx, insert_processed}
use spacetime_node.Platform.Result.{
  Result, ok, unavailable, invalid_outbox_input, ◌>>=◌, ◌>>◌, fail_if, settle, Result-cases,
  settle-ok,
}
use spacetime_node.Platform.Database.{Db, ProcessedRow}

abbrev pub is_claim : String → String → ProcessedRow → Bool
is_claim consumer_name event_id row = row.consumer_name == consumer_name && row.event_id == event_id

abbrev pub claim : String → String → Db → Db
claim consumer_name event_id db = record db {
  processed_events =
      insert_row (record { consumer_name = consumer_name; event_id = event_id })
        db.processed_events;
}

-- INSERT ... ON CONFLICT DO NOTHING claims the event; the handler runs in the same transaction.
unfoldable pub process_tx : Env → String → String → (Db → Result Db) → Db → Result (Bool × Db)
process_tx env consumer_name event_id handler db = do
  fail_if (consumer_name == "" || event_id == "") invalid_outbox_input
  fail_if (env.fails begin_tx) (unavailable begin_tx)
  fail_if (env.fails insert_processed) (unavailable insert_processed)
  if any (is_claim consumer_name event_id) db.processed_events
      then (do fail_if (env.fails commit_tx) (unavailable commit_tx); ok (false, db))
      else (do
        db₁ ← handler (claim consumer_name event_id db)
        fail_if (env.fails commit_tx) (unavailable commit_tx)
        ok (true, db₁))

-- `Process`
unfoldable pub process : Env → String → String → (Db → Result Db) → Db → Result Bool × Db
process env consumer_name event_id handler db =
    settle db (process_tx env consumer_name event_id handler db)

pub claimed-claim :
    (c e : String) (db : Db) → any (is_claim c e) (claim c e db).processed_events ≡ true
claimed-claim c e db = ground (
  arith,
  any-append (is_claim c e) db.processed_events (record { consumer_name = c; event_id = e } ∷ []),
  eq_refl c,
  eq_refl e,
)

-- an event that was handled, now or before, is claimed
process-claimed :
    (env : Env) (c e : String) (handler : Db → Result Db) (db : Db) {b : Bool} {db' : Db}
    → ((d d' : Db) → handler d ≡ ok d' → d'.processed_events ≡ d.processed_events)
    → process_tx env c e handler db ≡ ok (b, db')
    → any (is_claim c e) db'.processed_events ≡ true
unfolding process_tx
process-claimed env c e handler db {b} {db'} keeps h =
    elim (Result-cases (handler (claim c e db))) [
      | inl (db₁, ran) ↦ ground (arith, keeps (claim c e db) db₁ ran, claimed-claim c e db)
      | inr (_, failed) ↦ ground arith
    ]

-- The calls that a second delivery makes do not fail.
pub record CanSkip (env : Env) : Type 0 where
  pub begins : env.fails begin_tx ≡ false
  pub inserts : env.fails insert_processed ≡ false
  pub commits : env.fails commit_tx ≡ false

skips_claimed :
    (env : Env) (c e : String) (handler : Db → Result Db) (db : Db)
    → CanSkip env
    → (c == "" || e == "") ≡ false
    → any (is_claim c e) db.processed_events ≡ true
    → process env c e handler db ≡ (ok false, db)
unfolding process process_tx
skips_claimed env c e handler db s l h = ground arith

process_tx-named :
    (env : Env) (c e : String) (handler : Db → Result Db) (db : Db) {b : Bool} {db' : Db}
    → process_tx env c e handler db ≡ ok (b, db')
    → (c == "" || e == "") ≡ false
unfolding process_tx
process_tx-named env c e handler db h = ground arith

process-ok :
    (env : Env) (c e : String) (handler : Db → Result Db) (db : Db) {b : Bool} {db' : Db}
    → process env c e handler db ≡ (ok b, db')
    → process_tx env c e handler db ≡ ok (b, db')
unfolding process
process-ok env c e handler db h = settle-ok db (process_tx env c e handler db) h

-- An event that Process has handled or skipped is skipped at its next delivery, with any handler
-- and with the database unchanged, provided that the first handler leaves the claims alone and the
-- calls of the second delivery do not fail.
pub process-twice :
    (env env' : Env) (c e : String) (handler handler' : Db → Result Db) (db : Db) {b : Bool}
    {db' : Db}
    → ((d d' : Db) → handler d ≡ ok d' → d'.processed_events ≡ d.processed_events)
    → CanSkip env'
    → process env c e handler db ≡ (ok b, db')
    → process env' c e handler' db' ≡ (ok false, db')
process-twice env env' c e handler handler' db {b} {db'} keeps s h =
    let done = process-ok env c e handler db h in
    skips_claimed env' c e handler' db' s (process_tx-named env c e handler db done)
      (process-claimed env c e handler db keeps done)

-- the deliveries of one event, each with what fails at that time, and the database after them
abbrev pub deliver_all : String → String → (Env → Db → Result Db) → List Env → Db → Db
deliver_all c e handler [] db = db
deliver_all c e handler (env ∷ envs) db =
    deliver_all c e handler envs (process env c e (handler env) db).1

process_claimed :
    (env : Env) (c e : String) (handler : Db → Result Db) (db : Db)
    → any (is_claim c e) db.processed_events ≡ true
    → (process env c e handler db).1 ≡ db
unfolding process process_tx
process_claimed env c e handler db known = ground arith

claimed_stays :
    (c e : String) (handler : Env → Db → Result Db) (envs : List Env) (db : Db)
    → any (is_claim c e) db.processed_events ≡ true
    → deliver_all c e handler envs db ≡ db
claimed_stays c e handler [] db known = refl
claimed_stays c e handler (env ∷ envs) db known =
    rw (process_claimed env c e (handler env) db known) (claimed_stays c e handler envs db known)

-- at this delivery no call of Process fails, and the handler succeeds on the claimed database
abbrev pub Works : String → String → (Env → Db → Result Db) → Db → Env → Type 0
Works c e handler db env = CanSkip env × ((db' : Db) × (handler env (claim c e db) ≡ ok db'))

-- one delivery of an event that is not claimed
process_new :
    (env : Env) (c e : String) (handler : Env → Db → Result Db) (db : Db)
    → (c == "" || e == "") ≡ false
    → any (is_claim c e) db.processed_events ≡ false
    → (((process env c e (handler env) db).1 ≡ db) × ¬ (Works c e handler db env))
      ⊎ ((db' : Db) × (handler env (claim c e db) ≡ ok db')
          × ((process env c e (handler env) db).1 ≡ db'))
unfolding process process_tx
process_new env c e handler db named new = elim (Result-cases (handler env (claim c e db))) [
  | inr (x, failed) ↦ inl (ground arith, λ w. ground (arith, w.1.1))
  | inl (db', ran) ↦ elim (Bool-cases (env.fails begin_tx || env.fails insert_processed)) [
    | inl down ↦ inl (ground arith, λ w. ground (arith, w.0.begins, w.0.inserts))
    | inr up ↦ elim (Bool-cases (env.fails commit_tx)) [
      | inl lost ↦ inl (ground arith, λ w. ground (arith, w.0.commits))
      | inr kept ↦ inr (db', ran, ground arith)
    ]
  ]
]

-- However often a new event is delivered and whatever fails at each delivery, the handler takes
-- effect at most once: either one delivery of it has run the handler on the claimed database, and
-- the result is the database at the end, or nothing has changed, and then at no delivery did all
-- calls of Process and the handler succeed. The handler is taken to leave the claims alone.
pub deliver_all-once :
    (c e : String) (handler : Env → Db → Result Db) (envs : List Env) (db : Db)
    → ((env : Env) (d d' : Db) → handler env d ≡ ok d' → d'.processed_events ≡ d.processed_events)
    → (c == "" || e == "") ≡ false
    → any (is_claim c e) db.processed_events ≡ false
    → ((deliver_all c e handler envs db ≡ db) × All (λ env. ¬ (Works c e handler db env)) envs)
      ⊎ ((env : Env) × Among env envs
          × (handler env (claim c e db) ≡ ok (deliver_all c e handler envs db)))
deliver_all-once c e handler [] db keeps named new = inl (refl, tt)
deliver_all-once c e handler (env ∷ envs) db keeps named new =
    elim (process_new env c e handler db named new) [
      | inl (same, not_now) ↦ elim (deliver_all-once c e handler envs db keeps named new) [
        | inl (never, not_later) ↦ inl (rw same never, (not_now, not_later))
        | inr (later, there, ran) ↦ inr (later, inr there, rw same ran)
      ]
      | inr (db', ran, now) ↦
          let known : any (is_claim c e) db'.processed_events ≡ true =
            rw (keeps env (claim c e db) db' ran) (claimed-claim c e db) in
          let stays = claimed_stays c e handler envs db' known in
          inr (env, inl refl, rw (now, stays) ran)
    ]
