-- ===== src/System/Published.antt =====
-- internal/platform/outbox/outbox.go: `PublishPending` sends what the outbox holds.
use mathlib.Core.Path.{subst}
use spacetime_node.Prelude.{
  ℕ, ◌+◌, ◌≡◌, refl, sym, Bool, List, [], ◌∷◌, ltb, not, ◌&&◌, inl, inr, Bool-cases, All,
  All-append, All-take, All-select,
}
use spacetime_node.Prelude.Table.{update_where}
use spacetime_node.Prelude.Sort.Laws.{All-stable_sort}
use spacetime_node.Platform.Env.{
  Env, begin_tx, commit_tx, select_pending, write_message, mark_failed, mark_published,
}
use spacetime_node.Platform.Database.{Db, OutboxRow}
use spacetime_node.Platform.Outbox.Publish.{
  World, Stop, finished, write_failed, statement_failed, Session, is_pending, event_of,
  has_event_id, publish_at, note_failure, send, with_rows, publish_events, close_batch,
  pending_batch, publish_pending,
}
use spacetime_node.Analytics.Emitted.{IsAccepted}
use spacetime_node.System.Healthy.{IsEmitted, IsHealthy}

-- the tables are healthy, and DecodeEvent accepts what has been sent
pub record IsSound (w : World) : Type 0 where
  pub healthy : IsHealthy w.db
  pub logged : All IsAccepted w.log

-- a change of the marks of a row leaves its event
update_where-IsEmitted :
    (p : OutboxRow → Bool) (f : OutboxRow → OutboxRow) (rows : List OutboxRow)
    → ((r : OutboxRow) → event_of (f r) ≡ event_of r)
    → All IsEmitted rows
    → All IsEmitted (update_where p f rows)
update_where-IsEmitted p f [] same h = tt
update_where-IsEmitted p f (r ∷ rows) same (a, h) = elim (Bool-cases (p r)) [
  | inl mine ↦ rw mine (subst IsAccepted (sym (same r)) a, update_where-IsEmitted p f rows same h)
  | inr other ↦ rw other (a, update_where-IsEmitted p f rows same h)
]

with_rows-IsSound :
    (p : OutboxRow → Bool) (f : OutboxRow → OutboxRow) (w : World)
    → ((r : OutboxRow) → event_of (f r) ≡ event_of r)
    → IsSound w
    → IsSound (with_rows (update_where p f) w)
with_rows-IsSound p f w same s = record {
  healthy = record {
    emitted = update_where-IsEmitted p f w.db.outbox_events same s.healthy.emitted;
    placed = s.healthy.placed;
    bounded = s.healthy.bounded;
  };
  logged = s.logged;
}

send-IsSound : (row : OutboxRow) (w : World) → IsEmitted row → IsSound w → IsSound (send row w)
send-IsSound row w a s = record {
  healthy = s.healthy;
  logged = All-append IsAccepted w.log (event_of row ∷ []) s.logged (a, tt);
}

publish_events-IsSound :
    (env : Env) (rows : List OutboxRow) (n : ℕ) (w : World)
    → All IsEmitted rows
    → IsSound w
    → IsSound (publish_events env rows n w).2
unfolding publish_events
publish_events-IsSound env [] n w h s = s
publish_events-IsSound env (row ∷ rows) n w (a, h) s =
    let mine = has_event_id row.event_id in
    let sent = send row w in
    let s₁ = send-IsSound row w a s in
    let rest =
      publish_events-IsSound env rows (n + 1)
        (with_rows (update_where mine (publish_at env.now)) sent) h
        (with_rows-IsSound mine (publish_at env.now) sent (λ r. refl) s₁) in
    elim (Bool-cases (env.fails (write_message row.event_id))) [
      | inl unsent ↦ elim (Bool-cases (env.fails (mark_failed row.event_id))) [
        | inl lost ↦ rw (unsent, lost) s
        | inr noted ↦ rw (unsent, noted) (with_rows-IsSound mine note_failure w (λ r. refl) s)
      ]
      | inr written ↦ elim (Bool-cases (env.fails (mark_published row.event_id))) [
        | inl lost ↦ rw (written, lost) s₁
        | inr marked ↦ rw (written, marked) rest
      ]
    ]

close_batch-IsSound :
    (env : Env) (old : Db) (stop : Stop) (n : ℕ) (w : World)
    → IsHealthy old
    → IsSound w
    → IsSound (close_batch env old (stop, n, w)).1
unfolding close_batch
close_batch-IsSound env old finished n w o s = elim (Bool-cases (env.fails commit_tx)) [
  | inl lost ↦ rw lost (record { healthy = o; logged = s.logged })
  | inr done ↦ rw done s
]
close_batch-IsSound env old (write_failed e) n w o s = elim (Bool-cases (env.fails commit_tx)) [
  | inl lost ↦ rw lost (record { healthy = o; logged = s.logged })
  | inr done ↦ rw done s
]
close_batch-IsSound env old (statement_failed e) n w o s = record { healthy = o; logged = s.logged }

pending_batch-IsEmitted :
    (session : Session) (limit : ℕ) (db : Db)
    → All IsEmitted db.outbox_events
    → All IsEmitted (pending_batch session limit db)
unfolding pending_batch
pending_batch-IsEmitted session limit db h =
    let open_row : OutboxRow → Bool = λ row. is_pending row && not (session.locked row) in
    let chosen = All-select IsEmitted open_row db.outbox_events h in
    All-take IsEmitted limit _ (All-stable_sort session.before IsEmitted _ chosen)

pub publish_pending-IsSound :
    (env : Env) (session : Session) (limit : ℕ) (w : World)
    → IsSound w
    → IsSound (publish_pending env session limit w).1
unfolding publish_pending
publish_pending-IsSound env session limit w s = elim (Bool-cases (ltb limit 1)) [
  | inl nothing ↦ rw nothing s
  | inr asked ↦ elim (Bool-cases (env.fails begin_tx)) [
    | inl lost ↦ rw (asked, lost) s
    | inr begun ↦ elim (Bool-cases (env.fails select_pending)) [
      | inl lost ↦ rw (asked, begun, lost) s
      | inr read ↦
          let batch = pending_batch session limit w.db in
          let out = publish_events env batch 0 w in
          let sent =
            publish_events-IsSound env batch 0 w
              (pending_batch-IsEmitted session limit w.db s.healthy.emitted) s in
          rw (asked, begun, read) (close_batch-IsSound env w.db out.0 out.1 out.2 s.healthy sent)
    ]
  ]
]
