-- ===== src/Recommendation/Consumer/Committed.antt =====
-- internal/recommendation/consumer.go: which messages are committed.
use spacetime_node.Prelude.{
  String, ℕ, suc, refl, ◌==◌, ◌⊎◌, ◌≡◌, ap, Bool, true, any, arith, inl, inr, Bool-cases, eq_iff,
}
use spacetime_node.Platform.Env.{Env}
use spacetime_node.Platform.Result.{Result, ok, err, settle-ok, Result-cases}
use spacetime_node.Platform.Event.{Message}
use spacetime_node.Platform.Database.{Db, RecommendationRow}
use spacetime_node.Recommendation.Recommend.{Service, Recommendation, recommend, recommend_tx}
use spacetime_node.Recommendation.Outcome.{recommend_tx-Recommends}
use spacetime_node.Recommendation.Consumer.{
  EntryEvent, of_journey, has_latest, done, request_of, unless_left, Handled, ended, left,
  EntryReader, commit_entry, consume_entry, decode_entry_event, recommend_entry, handle_entry,
}

unless_left-done :
    (x : Result Recommendation × Db) {db' : Db}
    → unless_left x ≡ (done, db')
    → (r : Recommendation) × (x ≡ (ok r, db'))
unless_left-done (err _, db) h = absurd (ground arith)
unless_left-done (ok r, db) h = (r, ground arith)

recommend_entry-done :
    (s : Service) (vector : EntryEvent → Result Bool) (env : Env) (e : EntryEvent) (db : Db)
    {db' : Db}
    → recommend_entry s vector env e db ≡ (done, db')
    → any (of_journey e.journey_id) db'.recommendations ≡ true
unfolding recommend_entry recommend
recommend_entry-done s vector env e db {db'} h = elim (Result-cases (vector e)) [
  | inr (_, failed) ↦ absurd (let k = rw (failed, recommend_entry) at h in ground arith)
  | inl (has_vector, made) ↦
      let req = request_of s e has_vector in
      let (r, worked) =
        unless_left-done (recommend s env req db) (rw (made, recommend_entry) at h) in
      let w =
        recommend_tx-Recommends s env req db (settle-ok db (recommend_tx s env req db) worked) in
      let mine : r.journey_id ≡ e.journey_id = ap (λ (x : Recommendation). x.journey_id) w.result in
      rw w.written (ground (arith, mine, eq_iff r.journey_id e.journey_id))
]

handle_entry-done :
    (s : Service) (vector : EntryEvent → Result Bool) (env : Env) (e : EntryEvent) (db : Db)
    {db' : Db}
    → handle_entry s vector env (ok e) db ≡ (done, db')
    → any (of_journey e.journey_id) db'.recommendations ≡ true
unfolding handle_entry has_latest
handle_entry-done s vector env e db {db'} h = elim (Bool-cases (has_latest env e.journey_id db)) [
  | inr new ↦ recommend_entry-done s vector env e db (rw new at h)
  | inl known ↦ ground arith
]

abbrev pub is_recommended : String → Db → Bool
is_recommended journey_id db =
    any (λ (q : RecommendationRow). q.journey_id == journey_id) db.recommendations

-- the offset after a round whose event is given
pub Commits : ℕ → EntryEvent → EntryReader → EntryReader → Type 0
Commits offset e r r' =
    (r'.committed ≡ r.committed)
    ⊎ ((r'.committed ≡ suc offset) × (is_recommended e.journey_id r'.db ≡ true))

commit_entry-Commits :
    (refuses : ℕ → Bool) (offset : ℕ) (e : EntryEvent) (r : EntryReader) (x : Handled × Db)
    → ((db' : Db) → x ≡ (done, db') → is_recommended e.journey_id db' ≡ true)
    → Commits offset e r (commit_entry refuses offset r x).1
unfolding Commits
commit_entry-Commits refuses offset e r (ended, db) h = inl refl
commit_entry-Commits refuses offset e r (left, db) h = inl refl
commit_entry-Commits refuses offset e r (done, db) h = elim (Bool-cases (refuses offset)) [
  | inl refused ↦ rw refused (inl refl)
  | inr taken ↦ rw taken (inr (refl, h db refl))
]

-- A round of the loop of RunEntryConsumer on a valid event leaves the committed offset as it is, or
-- commits the offset of this message, and then the journey of the event has a recommendation in the
-- database after the round.
pub consume_entry-Commits :
    (s : Service) (vector : EntryEvent → Result Bool) (envs : ℕ → Env) (refuses : ℕ → Bool)
    (offset : ℕ) (message : Message) (r : EntryReader) {e : EntryEvent}
    → decode_entry_event message ≡ ok e
    → Commits offset e r (consume_entry s vector envs refuses offset message r).1
unfolding consume_entry
consume_entry-Commits s vector envs refuses offset message r {e} decoded = rw decoded (
    commit_entry-Commits refuses offset e r (handle_entry s vector (envs offset) (ok e) r.db)
      (λ db' finished. handle_entry-done s vector (envs offset) e r.db finished))
