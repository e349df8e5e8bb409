-- ===== src/Platform/Outbox/Delivery.antt =====
-- internal/platform/outbox/outbox.go: the published events of the table against those in Kafka.
use spacetime_node.Prelude.{
  ℕ, ◌+◌, ◌≡◌, refl, ap, sym, ◌∙◌, Option-cases, ltb, String, true, some, List, [], ◌∷◌, ◌++◌, ◌⊎◌,
  inl, inr, arith, eq_iff, All, All-take, All-select, Bool-cases, ◌==◌,
}
use mathlib.Core.Option
use mathlib.Core.List.{append-nil, append_assoc}
use spacetime_node.Prelude.Table.{
  find, find-update_where, with_key, Keyed, Keyed-found, Keyed-update_where, update_where,
}
use spacetime_node.Prelude.Sort.Laws.{All-stable_sort}
use spacetime_node.Platform.Env.{
  Env, begin_tx, commit_tx, select_pending, write_message, mark_failed, mark_published,
}
use spacetime_node.Platform.Database.{Db, OutboxRow}
use spacetime_node.Platform.Outbox.{Event}
use spacetime_node.Platform.Outbox.Publish.{
  World, Stop, finished, write_failed, statement_failed, Session, Tick, is_pending, event_of,
  has_event_id, publish_at, note_failure, send, with_rows, publish_events, close_batch,
  pending_batch, publish_pending, run_publisher,
}

-- the event is in the log
abbrev pub In : Event → List Event → Type 0
In e [] = ⊥
In e (x ∷ xs) = (x ≡ e) ⊎ In e xs

In-append_left : (e : Event) (xs ys : List Event) → In e xs → In e (xs ++ ys)
In-append_left e (x ∷ xs) ys (inl p) = inl p
In-append_left e (x ∷ xs) ys (inr h) = inr (In-append_left e xs ys h)
In-append_left e [] ys h = absurd h

In-append_last : (e : Event) (xs : List Event) → In e (xs ++ e ∷ [])
In-append_last e [] = inl refl
In-append_last e (x ∷ xs) = inr (In-append_last e xs)

-- still pending, or sent
abbrev pub IsAccounted : List Event → OutboxRow → Type 0
IsAccounted log row = (is_pending row ≡ true) ⊎ In (event_of row) log

abbrev pub id_of : OutboxRow → String
id_of row = row.event_id

-- Event ids are unique, and every row that is marked as published is in the log.
pub record NoLoss (w : World) : Type 0 where
  pub keyed : Keyed id_of w.db.outbox_events
  pub accounted : All (IsAccounted w.log) w.db.outbox_events

-- a longer log accounts for the same rows
IsAccounted-more :
    (log more : List Event) (rows : List OutboxRow)
    → All (IsAccounted log) rows
    → All (IsAccounted (log ++ more)) rows
IsAccounted-more log more [] h = tt
IsAccounted-more log more (row ∷ rows) (inl p, h) = (inl p, IsAccounted-more log more rows h)
IsAccounted-more log more (row ∷ rows) (inr p, h) =
    (inr (In-append_left (event_of row) log more p), IsAccounted-more log more rows h)

-- the row that the table holds under an id carries this event, or there is none
abbrev Holds : Event → List OutboxRow → Type 0
Holds e rows =
    Option.map event_of (find (with_key id_of e.id) rows)
    ≡ Option.map (λ (_ : OutboxRow). e) (find (with_key id_of e.id) rows)

-- the loop's step on a sent event
publish-IsAccounted :
    (now : ℕ) (e : Event) (log : List Event) (rows : List OutboxRow)
    → Keyed id_of rows
    → Holds e rows
    → All (IsAccounted log) rows
    → All (IsAccounted (log ++ e ∷ [])) (update_where (has_event_id e.id) (publish_at now) rows)
publish-IsAccounted now e log [] k s h = tt
publish-IsAccounted now e log (row ∷ rows) k s (a, h) = elim (Bool-cases (row.event_id == e.id)) [
  | inl same ↦
      let rest : Holds e rows = ground (arith, eq_iff row.event_id e.id) in
      let mine : event_of row ≡ e = ground arith in
      rw same (inr (rw mine (In-append_last e log)), publish-IsAccounted now e log rows k.1 rest h)
  | inr other ↦
      let rest : Holds e rows = ground arith in
      rw other (
        (IsAccounted-more log (e ∷ []) (row ∷ []) (a, tt)).0,
        publish-IsAccounted now e log rows k.1 rest h,
      )
]

-- a failure noted in a row leaves it pending or sent as it was
note-IsAccounted :
    (id : String) (log : List Event) (rows : List OutboxRow)
    → All (IsAccounted log) rows
    → All (IsAccounted log) (update_where (has_event_id id) note_failure rows)
note-IsAccounted id log [] h = tt
note-IsAccounted id log (row ∷ rows) (a, h) = elim (Bool-cases (row.event_id == id)) [
  | inl same ↦ rw same (a, note-IsAccounted id log rows h)
  | inr other ↦ rw other (a, note-IsAccounted id log rows h)
]

abbrev rows_of : World → List OutboxRow
rows_of w = w.db.outbox_events

-- an update of other columns keeps what a table holds
Holds-update_where :
    (id : String) (f : OutboxRow → OutboxRow) (e : Event) (rows : List OutboxRow)
    → ((row : OutboxRow) → event_of (f row) ≡ event_of row)
    → Holds e rows
    → Holds e (update_where (has_event_id id) f rows)
Holds-update_where id f e rows same h =
    let seen =
      find-update_where (has_event_id id) (with_key id_of e.id) f rows
        (λ row. ap (λ (v : Event). v.id == e.id) (same row)) in
    elim (Option-cases (find (with_key id_of e.id) rows)) [
      | inl missing ↦ ground (arith, seen)
      | inr (row, found) ↦ ground (arith, seen, same row)
    ]

All-Holds-update_where :
    (id : String) (now : ℕ) (batch rows : List OutboxRow)
    → All (λ r. Holds (event_of r) rows) batch
    → All (λ r. Holds (event_of r) (update_where (has_event_id id) (publish_at now) rows)) batch
All-Holds-update_where id now [] rows h = tt
All-Holds-update_where id now (r ∷ batch) rows h = (
  Holds-update_where id (publish_at now) (event_of r) rows (λ row. refl) h.0,
  All-Holds-update_where id now batch rows h.1,
)

-- the loop only appends to the log
log_grows :
    (env : Env) (batch : List OutboxRow) (n : ℕ) (w : World)
    → (more : List Event) × ((publish_events env batch n w).2.log ≡ w.log ++ more)
unfolding publish_events
log_grows env [] n w = ([], sym (append-nil w.log))
log_grows env (r ∷ batch) n w = elim (Bool-cases (env.fails (write_message r.event_id))) [
  | inl unsent ↦ elim (Bool-cases (env.fails (mark_failed r.event_id))) [
    | inl a ↦ ([], rw (unsent, a) (sym (append-nil w.log)))
    | inr a ↦ ([], rw (unsent, a) (sym (append-nil w.log)))
  ]
  | inr sent ↦ elim (Bool-cases (env.fails (mark_published r.event_id))) [
    | inl a ↦ (event_of r ∷ [], rw (sent, a))
    | inr a ↦
        let w' =
          with_rows (update_where (has_event_id r.event_id) (publish_at env.now)) (send r w) in
        let (more, p) = log_grows env batch (n + 1) w' in
        (event_of r ∷ more, rw (sent, a) (p ∙ append_assoc w.log (event_of r ∷ []) more))
  ]
]

publish_events-NoLoss :
    (env : Env) (batch : List OutboxRow) (n : ℕ) (w : World)
    → NoLoss w
    → All (λ r. Holds (event_of r) w.db.outbox_events) batch
    → NoLoss (publish_events env batch n w).2
unfolding publish_events
publish_events-NoLoss env [] n w h b = h
publish_events-NoLoss env (r ∷ batch) n w h b =
    let marks = update_where (has_event_id r.event_id) (publish_at env.now) in
    let w' = with_rows marks (send r w) in
    let next : NoLoss w' = record {
      keyed =
          Keyed-update_where id_of (has_event_id r.event_id) (publish_at env.now) w.db.outbox_events
            (λ row. refl) h.keyed;
      accounted =
          publish-IsAccounted env.now (event_of r) w.log w.db.outbox_events h.keyed b.0 h.accounted;
    } in
    let noted : NoLoss (with_rows (update_where (has_event_id r.event_id) note_failure) w) =
      record {
        keyed =
            Keyed-update_where id_of (has_event_id r.event_id) note_failure w.db.outbox_events
              (λ row. refl) h.keyed;
        accounted = note-IsAccounted r.event_id w.log w.db.outbox_events h.accounted;
      } in
    let longer : NoLoss (send r w) = record {
      keyed = h.keyed;
      accounted = IsAccounted-more w.log (event_of r ∷ []) w.db.outbox_events h.accounted;
    } in
    let rest =
      publish_events-NoLoss env batch (n + 1) w' next
        (All-Holds-update_where r.event_id env.now batch w.db.outbox_events b.1) in
    elim (Bool-cases (env.fails (write_message r.event_id))) [
      | inl unsent ↦ elim (Bool-cases (env.fails (mark_failed r.event_id))) [
        | inl a ↦ rw (unsent, a) h
        | inr a ↦ rw (unsent, a) noted
      ]
      | inr sent ↦ elim (Bool-cases (env.fails (mark_published r.event_id))) [
        | inl a ↦ rw (sent, a) longer
        | inr a ↦ rw (sent, a) rest
      ]
    ]

-- a rollback brings the old table back, with a log that may be longer
rolled_back :
    (w : World) (w' : World) (more : List Event)
    → w'.log ≡ w.log ++ more
    → NoLoss w
    → NoLoss (record w' { db = w.db })
rolled_back w w' more p h = record {
  keyed = h.keyed;
  accounted = rw p (IsAccounted-more w.log more w.db.outbox_events h.accounted);
}

close_batch-NoLoss :
    (env : Env) (w : World) (s : Stop) (n : ℕ) (w' : World) (more : List Event)
    → w'.log ≡ w.log ++ more
    → NoLoss w
    → NoLoss w'
    → NoLoss (close_batch env w.db (s, n, w')).1
unfolding close_batch
close_batch-NoLoss env w finished n w' more p h k = elim (Bool-cases (env.fails commit_tx)) [
  | inl a ↦ rw a (rolled_back w w' more p h)
  | inr a ↦ rw a k
]
close_batch-NoLoss env w (write_failed e) n w' more p h k =
    elim (Bool-cases (env.fails commit_tx)) [
      | inl a ↦ rw a (rolled_back w w' more p h)
      | inr a ↦ rw a k
    ]
close_batch-NoLoss env w (statement_failed e) n w' more p h k = rolled_back w w' more p h

found-Holds :
    (rows batch : List OutboxRow)
    → All (λ r. find (with_key id_of (id_of r)) rows ≡ some r) batch
    → All (λ r. Holds (event_of r) rows) batch
found-Holds rows [] h = tt
found-Holds rows (r ∷ batch) h = (rw h.0, found-Holds rows batch h.1)

-- what holds of all rows of the table holds of the batch
pub All-pending_batch :
    (P : OutboxRow → Type 0) (session : Session) (limit : ℕ) (db : Db)
    → All P db.outbox_events
    → All P (pending_batch session limit db)
unfolding pending_batch
All-pending_batch P session limit db h =
    All-take P limit _ (All-stable_sort session.before P _ (All-select P _ db.outbox_events h))

-- Whatever calls fail, an event that is marked as published has been written to Kafka.
pub publish_pending-NoLoss :
    (env : Env) (session : Session) (limit : ℕ) (w : World)
    → NoLoss w
    → NoLoss (publish_pending env session limit w).1
unfolding publish_pending
publish_pending-NoLoss env session limit w h =
    let batch = pending_batch session limit w.db in
    let held =
      found-Holds w.db.outbox_events batch
        (All-pending_batch _ session limit w.db (Keyed-found id_of w.db.outbox_events h.keyed)) in
    let (s, n, w') = publish_events env batch 0 w in
    let (more, p) = log_grows env batch 0 w in
    let closed =
      close_batch-NoLoss env w s n w' more p h (publish_events-NoLoss env batch 0 w h held) in
    elim (Bool-cases (ltb limit 1)) [
      | inl a ↦ rw a h
      | inr a ↦ elim (Bool-cases (env.fails begin_tx)) [
        | inl b ↦ rw (a, b) h
        | inr b ↦ elim (Bool-cases (env.fails select_pending)) [
          | inl c ↦ rw (a, b, c) h
          | inr c ↦ rw (a, b, c) closed
        ]
      ]
    ]

-- Over any number of rounds of the publisher, whatever calls fail in each, event ids stay unique
-- and every event that is marked as published has been written to Kafka, if this held at the start.
pub run_publisher-NoLoss :
    (limit : ℕ) (ticks : List Tick) (w : World) → NoLoss w → NoLoss (run_publisher limit ticks w)
unfolding run_publisher
run_publisher-NoLoss limit [] w h = h
run_publisher-NoLoss limit (t ∷ ts) w h =
    run_publisher-NoLoss limit ts (publish_pending t.env t.session limit w).1
      (publish_pending-NoLoss t.env t.session limit w h)
