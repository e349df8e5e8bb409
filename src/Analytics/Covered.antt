-- ===== src/Analytics/Covered.antt =====
-- internal/analytics/consumer.go: what has been written when an offset is committed.
use spacetime_node.Prelude.{
  ℕ, suc, ◌+◌, ◌≤◌, ◌≡◌, refl, sym, ◌∙◌, Bool, true, false, List, [], ◌∷◌, ◌++◌, take, drop, length,
  take-drop_cons, take_all, length-drop, Among, Among-append_left, Among-append_last, All,
  All-append, arith, Bool-cases, inl, inr,
}
use mathlib.Core.List.{append-nil}
use mathlib.Core.Path.{subst}
use spacetime_node.Platform.Result.{Error, Result, ok, err, Result-cases}
use spacetime_node.Platform.Event.{Message}
use spacetime_node.Analytics.{ProductEvent, decode_event}
use spacetime_node.Analytics.Consume.{
  Consumed, Faults, commit, consume_message, consume_from, consume_topic, consume_topic_again,
}

-- a message that is an event has its row
abbrev pub IsCovered : List ProductEvent → Message → Type 0
IsCovered rows m = (p : ProductEvent) → decode_event m ≡ ok p → Among p rows

-- every message before the committed offset is covered
abbrev pub Covers : List Message → Consumed → Type 0
Covers topic s = All (IsCovered s.rows) (take s.committed topic)

IsCovered-more :
    (rows more : List ProductEvent) (ms : List Message)
    → All (IsCovered rows) ms
    → All (IsCovered (rows ++ more)) ms
IsCovered-more rows more [] h = tt
IsCovered-more rows more (m ∷ ms) (c, h) =
    (λ p e. Among-append_left p rows more (c p e), IsCovered-more rows more ms h)

-- what a round does: rows are added, and the next offset is committed if the message is covered
record Rounds (offset : ℕ) (m : Message) (s : Consumed) (goes_on : Bool) (s' : Consumed)
    : Type 0 where
  more : List ProductEvent
  rows : s'.rows ≡ s.rows ++ more
  stays : goes_on ≡ false → s'.committed ≡ s.committed
  moves : goes_on ≡ true → (s'.committed ≡ suc offset) × IsCovered s'.rows m

commit-Rounds :
    (faults : Faults) (offset : ℕ) (m : Message) (s s₁ : Consumed) (more : List ProductEvent)
    → s₁.rows ≡ s.rows ++ more
    → s₁.committed ≡ s.committed
    → IsCovered s₁.rows m
    → Rounds offset m s (commit faults offset (true, s₁)).0 (commit faults offset (true, s₁)).1
commit-Rounds faults offset m s s₁ more grown same c =
    elim (Bool-cases (faults.commit_fails offset)) [
      | inl failed ↦ rw failed (record {
        more = more;
        rows = grown;
        stays = λ _. same;
        moves = λ e. absurd (ground arith);
      })
      | inr done ↦ rw done (record {
        more = more;
        rows = grown;
        stays = λ e. absurd (ground arith);
        moves = λ _. (refl, c);
      })
    ]

ok_same : {p q : ProductEvent} → ◌≡◌ {A = Result ProductEvent} (ok p) (ok q) → p ≡ q
ok_same e = cc

err≢ok : {e : Error} {p : ProductEvent} → ¬ (err e ≡ ok p)
err≢ok h = absurd (ground arith)

fresh :
    (m : Message) {p : ProductEvent}
    → decode_event m ≡ ok p
    → (rows : List ProductEvent) → IsCovered (rows ++ p ∷ []) m
fresh m {p} valid rows q e =
    let same : p ≡ q = ok_same (sym valid ∙ e) in
    subst (λ r. Among r (rows ++ p ∷ [])) same (Among-append_last p rows)

consume_message-Rounds :
    (faults : Faults) (offset : ℕ) (m : Message) (s : Consumed)
    → Rounds offset m s (consume_message faults offset m s).0 (consume_message faults offset m s).1
unfolding consume_message
consume_message-Rounds faults offset m s = elim (Result-cases (decode_event m)) [
  | inr (_, invalid) ↦ rw invalid (
      commit-Rounds faults offset m s s [] (sym (append-nil s.rows)) refl
        (λ p e. absurd (err≢ok (sym invalid ∙ e))))
  | inl (p, valid) ↦ elim (Bool-cases (faults.insert_fails offset)) [
    | inl failed ↦
        rw (valid, failed)
          (record {
            more = [];
            rows = sym (append-nil s.rows);
            stays = λ _. refl;
            moves = λ e. absurd (ground arith);
          })
    | inr done ↦
        rw (valid, done)
          (commit-Rounds faults offset m s (record s { rows = s.rows ++ p ∷ [] }) (p ∷ []) refl refl
            (fresh m valid s.rows))
  ]
]

Rounds-Covers :
    (topic : List Message) (m : Message) (rest : List Message) (s : Consumed) {b : Bool}
    {s' : Consumed}
    → drop s.committed topic ≡ m ∷ rest
    → Covers topic s
    → Rounds s.committed m s b s'
    → Covers topic s'
Rounds-Covers topic m rest s {b} {s'} left h r =
    let kept = IsCovered-more s.rows r.more (take s.committed topic) h in
    elim (Bool-cases b) [
      | inl goes ↦
          let (next, c) = r.moves goes in
          let (one_more, _) = take-drop_cons s.committed topic left in
          rw (next, one_more)
            (All-append (IsCovered s'.rows) (take s.committed topic) (m ∷ []) (rw r.rows kept)
              (c, tt))
      | inr ends ↦ rw (r.stays ends, r.rows) kept
    ]

consume_from-Covers :
    (faults : Faults) (topic ms : List Message) (s : Consumed)
    → drop s.committed topic ≡ ms
    → Covers topic s
    → Covers topic (consume_from faults s.committed ms s)
unfolding consume_from
consume_from-Covers faults topic [] s left h = h
consume_from-Covers faults topic (m ∷ ms) s left h =
    let r = consume_message-Rounds faults s.committed m s in
    let (goes_on, s') = consume_message faults s.committed m s in
    let c = Rounds-Covers topic m ms s left h r in
    elim (Bool-cases goes_on) [
      | inl goes ↦
          let (next, _) = r.moves goes in
          let (_, dropped) = take-drop_cons s.committed topic left in
          rw goes (
            subst (λ n. Covers topic (consume_from faults n ms s')) next
              (consume_from-Covers faults topic ms s' (rw next dropped) c))
      | inr ends ↦ rw ends c
    ]

consume_topic-Covers :
    (faults : Faults) (topic : List Message) (s : Consumed)
    → Covers topic s
    → Covers topic (consume_topic faults topic s)
unfolding consume_topic
consume_topic-Covers faults topic s h =
    consume_from-Covers faults topic (drop s.committed topic) s refl h

-- If every event of a topic before the committed offset has its row, then the same holds after any
-- number of runs of consumeTopic from the committed offset on, whatever inserts and commits fail:
-- no event is passed over.
pub consume_topic_again-Covers :
    (fs : List Faults) (topic : List Message) (s : Consumed)
    → Covers topic s
    → Covers topic (consume_topic_again fs topic s)
unfolding consume_topic_again
consume_topic_again-Covers [] topic s h = h
consume_topic_again-Covers (f ∷ fs) topic s h =
    consume_topic_again-Covers fs topic (consume_topic f topic s) (consume_topic-Covers f topic s h)

-- Nothing is refused.
pub record Answers (faults : Faults) : Type 0 where
  pub inserts : (offset : ℕ) → faults.insert_fails offset ≡ false
  pub commits : (offset : ℕ) → faults.commit_fails offset ≡ false

consume_message-goes_on :
    (faults : Faults) (offset : ℕ) (m : Message) (s : Consumed)
    → Answers faults
    → (consume_message faults offset m s).0 ≡ true
unfolding consume_message
consume_message-goes_on faults offset m s a = elim (Result-cases (decode_event m)) [
  | inr (_, invalid) ↦ rw (invalid, a.commits offset) refl
  | inl (p, valid) ↦ rw (valid, a.inserts offset, a.commits offset) refl
]

committed-consume_from :
    (faults : Faults) (ms : List Message) (s : Consumed)
    → Answers faults
    → (consume_from faults s.committed ms s).committed ≡ s.committed + length ms
unfolding consume_from
committed-consume_from faults [] s a = omega arith
committed-consume_from faults (m ∷ ms) s a =
    let goes = consume_message-goes_on faults s.committed m s a in
    let r = consume_message-Rounds faults s.committed m s in
    let (next, _) = r.moves goes in
    let s' = (consume_message faults s.committed m s).1 in
    let rest = committed-consume_from faults ms s' a in
    rw (goes, sym next) (rest ∙ rw next (omega arith))

-- If no insert and no commit fails, a run of consumeTopic goes through the topic to its end:
-- afterwards every message of it that DecodeEvent accepts has its row, if those before the
-- committed offset had theirs.
pub consume_topic-drains :
    (faults : Faults) (topic : List Message) (s : Consumed)
    → Answers faults
    → s.committed ≤ length topic
    → Covers topic s
    → All (IsCovered (consume_topic faults topic s).rows) topic
unfolding consume_topic
consume_topic-drains faults topic s a h c =
    let s' = consume_topic faults topic s in
    let at_end : s'.committed ≡ length topic =
      committed-consume_from faults (drop s.committed topic) s a
      ∙ length-drop s.committed topic h in
    let covered = consume_topic-Covers faults topic s c in
    subst (λ ms. All (IsCovered s'.rows) ms) (rw at_end (take_all topic)) covered
