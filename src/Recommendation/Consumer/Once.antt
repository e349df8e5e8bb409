-- ===== src/Recommendation/Consumer/Once.antt =====
-- internal/recommendation/consumer.go: how many recommendations a journey gets.
use spacetime_node.Prelude.{
  ℕ, suc, drop, ◌≤◌, ◌≡◌, refl, sym, ap, String, Bool, false, List, [], ◌∷◌, ◌==◌, any, count_where,
  count_where-none, arith, inl, inr, Bool-cases, eq_iff,
}
use spacetime_node.Platform.Env.{Env, select_recommendation}
use spacetime_node.Platform.Result.{Result, ok, err, Result-cases, >>=-ok, fail_if-ok, or_invalid}
use spacetime_node.Platform.Event.{Message, malformed, event, text_field}
use spacetime_node.Platform.Database.{Db}
use spacetime_node.Recommendation.Recommend.{
  Service, Request, Recommendation, recommend, recommend_tx,
}
use spacetime_node.Recommendation.Outcome.{recommend_tx-Recommends}
use spacetime_node.Recommendation.Consumer.{
  EntryEvent, lacks_entry_part, decode_entry_event, of_journey, has_latest, Handled, done, left,
  ended, request_of, unless_left, recommend_entry, handle_entry, EntryReader, commit_entry,
  consume_entry, consume_entries, run_entry_consumer,
}

-- no journey has two recommendations
unfoldable pub IsOnce : Db → Type 0
IsOnce db = (journey_id : String) → count_where (of_journey journey_id) db.recommendations ≤ 1

-- a new recommendation of the journey, and none of another
record Adds (journey_id : String) (db db' : Db) : Type 0 where
  own :
      count_where (of_journey journey_id) db'.recommendations
      ≤ suc (count_where (of_journey journey_id) db.recommendations)
  other :
      (k : String)
      → (journey_id == k) ≡ false
      → count_where (of_journey k) db'.recommendations
        ≡ count_where (of_journey k) db.recommendations

recommend-Adds :
    (s : Service) (env : Env) (req : Request) (db : Db)
    → Adds req.journey_id db (recommend s env req db).1
unfolding recommend
recommend-Adds s env req db = elim (Result-cases (recommend_tx s env req db)) [
  | inr (_, failed) ↦ rw failed (record { own = omega arith; other = λ k e. refl })
  | inl ((r, db'), worked) ↦
      let w = recommend_tx-Recommends s env req db worked in
      let mine : r.journey_id ≡ req.journey_id =
        ap (λ (x : Recommendation). x.journey_id) w.result in
      rw worked (record {
        own = rw w.written (ground (arith, mine));
        other = λ k e. rw (w.written, mine, e) refl;
      })
]

unless_left_db : (x : Result Recommendation × Db) → (unless_left x).1 ≡ x.1
unless_left_db (err _, db) = refl
unless_left_db (ok _, db) = refl

recommend_entry-Adds :
    (s : Service) (vector : EntryEvent → Result Bool) (env : Env) (e : EntryEvent) (db : Db)
    → Adds e.journey_id db (recommend_entry s vector env e db).1
unfolding recommend_entry
recommend_entry-Adds s vector env e db = elim (Result-cases (vector e)) [
  | inr (_, failed) ↦
      rw (failed, recommend_entry) (record { own = omega arith; other = λ k e. refl })
  | inl (has_vector, made) ↦
      rw (made, recommend_entry)
        (rw (unless_left_db (recommend s env (request_of s e has_vector) db))
          (recommend-Adds s env (request_of s e has_vector) db))
]

-- the journey of the event has none yet
Adds-IsOnce :
    (journey_id : String) (db db' : Db)
    → any (of_journey journey_id) db.recommendations ≡ false
    → Adds journey_id db db'
    → IsOnce db
    → IsOnce db'
unfolding IsOnce
Adds-IsOnce journey_id db db' nothing a h = λ k. elim (Bool-cases (journey_id == k)) [
  | inr other ↦ rw (a.other k other) (h k)
  | inl mine ↦
      let same : journey_id ≡ k = (eq_iff journey_id k).0 mine in
      let zero_before = count_where-none (of_journey journey_id) db.recommendations nothing in
      rw (sym same) (omega (arith, a.own, zero_before))
]

handle_entry-IsOnce :
    (s : Service) (vector : EntryEvent → Result Bool) (env : Env) (d : Result EntryEvent) (db : Db)
    → env.fails select_recommendation ≡ false
    → ((e : EntryEvent) → d ≡ ok e → (e.journey_id == "") ≡ false)
    → IsOnce db
    → IsOnce (handle_entry s vector env d db).1
unfolding handle_entry has_latest
handle_entry-IsOnce s vector env (err _) db answers named h = h
handle_entry-IsOnce s vector env (ok e) db answers named h =
    let given = named e refl in
    elim (Bool-cases (any (of_journey e.journey_id) db.recommendations)) [
      | inl there ↦ rw (given, answers, there) h
      | inr nothing ↦
          rw (given, answers, nothing)
            (Adds-IsOnce e.journey_id db (recommend_entry s vector env e db).1 nothing
              (recommend_entry-Adds s vector env e db) h)
    ]

-- `DecodeEntryEvent` refuses a message without a journey
decode_entry_event_named :
    (m : Message) {e : EntryEvent} → decode_entry_event m ≡ ok e → (e.journey_id == "") ≡ false
unfolding decode_entry_event
decode_entry_event_named malformed h = absurd (ground arith)
decode_entry_event_named (event v) {e} h =
    let (station_id, _, h₁) = >>=-ok (or_invalid (text_field v.payload "station_id")) _ h in
    let (_, _, h₂) = >>=-ok (or_invalid (text_field v.payload "line_id")) _ h₁ in
    let (_, _, h₃) = >>=-ok (or_invalid (text_field v.payload "position_id")) _ h₂ in
    let (given, h₄) = fail_if-ok (lacks_entry_part v station_id) _ _ h₃ in
    let named : (v.journey_id == "") ≡ false = ground arith in
    let same : v.journey_id ≡ e.journey_id = ground arith in rw (sym same) named

commit_entry_db :
    (refuses : ℕ → Bool) (offset : ℕ) (r : EntryReader) (x : Handled × Db)
    → (commit_entry refuses offset r x).1.db ≡ x.1
commit_entry_db refuses offset r (ended, db) = refl
commit_entry_db refuses offset r (left, db) = refl
commit_entry_db refuses offset r (done, db) = ground arith

module _ (s : Service) (vector : EntryEvent → Result Bool) (envs : ℕ → Env) (refuses : ℕ → Bool)
    (answers : (n : ℕ) → (envs n).fails select_recommendation ≡ false) where
  consume_entry-IsOnce :
      (offset : ℕ) (m : Message) (r : EntryReader)
      → IsOnce r.db
      → IsOnce (consume_entry s vector envs refuses offset m r).1.db
  unfolding consume_entry
  consume_entry-IsOnce offset m r h =
      let handled = handle_entry s vector (envs offset) (decode_entry_event m) r.db in
      rw (commit_entry_db refuses offset r handled) (
        handle_entry-IsOnce s vector (envs offset) (decode_entry_event m) r.db (answers offset)
          (λ e. decode_entry_event_named m) h)

  consume_entries-IsOnce :
      (offset : ℕ) (ms : List Message) (r : EntryReader)
      → IsOnce r.db
      → IsOnce (consume_entries s vector envs refuses offset ms r).db
  unfolding consume_entries
  consume_entries-IsOnce offset [] r h = h
  consume_entries-IsOnce offset (m ∷ ms) r h =
      let (goes_on, r') = consume_entry s vector envs refuses offset m r in
      let one : IsOnce r'.db = consume_entry-IsOnce offset m r h in
      elim (Bool-cases goes_on) [
        | inl on ↦ rw on (consume_entries-IsOnce (suc offset) ms r' one)
        | inr over ↦ rw over one
      ]

  -- If no journey has two recommendations and the query of GetLatest does not fail, then no journey
  -- has two after a run of RunEntryConsumer, whatever events are delivered again, whatever other
  -- statements and commits fail, and whatever QueryVector and the search answer.
  pub run_entry_consumer-IsOnce :
      (topic : List Message) (r : EntryReader)
      → IsOnce r.db
      → IsOnce (run_entry_consumer s vector envs refuses topic r).db
  unfolding run_entry_consumer
  run_entry_consumer-IsOnce topic r h =
      consume_entries-IsOnce r.committed (drop r.committed topic) r h
