-- ===== src/System/Redemptions.antt =====
-- internal/redemption/service.go: `Create` and `Verify` keep the tables healthy.
use mathlib.Core.Path.{subst}
use spacetime_node.Prelude.{
  ℕ, ◌-◌, ◌≡◌, refl, String, Bool, false, Option, none, some, List, [], ◌∷◌, ◌&&◌, not, ◌==◌, any,
  nat_eq, ltb, All, All-append, arith, inl, inr, Bool-cases,
}
use spacetime_node.Prelude.Table.{find, update_where}
use spacetime_node.Platform.Env.{Env, begin_tx, commit_tx, select_journey, select_redeemed}
use spacetime_node.Platform.Result.{ok, unavailable, >>=-ok, fail_if-ok}
use spacetime_node.Platform.Database.{
  Db, UserRow, JourneyRow, RedemptionRow, Status, pending, succeeded, rejected, verified,
}
use spacetime_node.Redemption.Rows.{
  CreateRequest, VerifyRequest, Redemption, new_redemption, redeems, lock_user_row,
  existing_redemption, lock_stock_row, insert_redemption_row, succeeded_event,
  enqueue_succeeded_event,
}
use spacetime_node.Redemption.Create.{
  write_redemption, create_new, replay, create_or_replay, create_tx, create,
}
use spacetime_node.Redemption.Create as C
use spacetime_node.Redemption.Effect.{
  insert_redemption_row_lem, update_balance_row_lem, update_stock_row_lem, insert_ledger_row_lem,
}
use spacetime_node.Redemption.Verify.{
  Joined, has_id, select_joined, mark_verified, update_status_row, verified_event,
  enqueue_verified_event, verify_status, verify_tx, verify,
}
use spacetime_node.Redemption.Verify as V
use spacetime_node.Redemption.Verified.{select_joined_row}
use spacetime_node.Analytics.{known_topic}
use spacetime_node.Analytics.Emitted.{IsComplete}
use spacetime_node.System.Healthy.{
  IsHealthy, IsPlaced, Keeps, Keeps-IsHealthy, enqueue-IsHealthy, feedback-IsHealthy,
  settle-IsHealthy,
}

insert-IsHealthy :
    (env : Env) (row : RedemptionRow) (db : Db) {db' : Db}
    → IsPlaced row
    → insert_redemption_row env row db ≡ ok db'
    → IsHealthy db
    → IsHealthy db'
insert-IsHealthy env row db p e h = rw (insert_redemption_row_lem env row db e) (record {
  emitted = h.emitted;
  placed = All-append IsPlaced db.redemptions (row ∷ []) h.placed (p, tt);
  bounded = h.bounded;
})

succeeded-IsComplete :
    (env : Env) (req : CreateRequest) (row : RedemptionRow)
    → (req.trace_id == "") ≡ false
    → IsPlaced row
    → IsComplete (succeeded_event env req row) env.now
unfolding known_topic
succeeded-IsComplete env req row traced p = record {
  version = refl;
  occurred = refl;
  producer = refl;
  trace = traced;
  known = refl;
  journey = p;
  no_visit = refl;
}

write_redemption-IsHealthy :
    (env : Env) (req : CreateRequest) (user : UserRow) (cost : ℕ) (db : Db) {r : Redemption}
    {db' : Db}
    → C.lacks_field req ≡ false
    → write_redemption env req user cost db ≡ ok (r, db')
    → IsHealthy db
    → IsHealthy db'
unfolding write_redemption enqueue_succeeded_event
write_redemption-IsHealthy env req user cost db {r} {db'} given e h =
    let row = new_redemption env req user cost in
    let placed : IsPlaced row = ground arith in
    let traced : (req.trace_id == "") ≡ false = ground arith in
    let (db₁, e₁, k₁) = >>=-ok _ _ e in
    let (db₂, e₂, k₂) = >>=-ok _ _ k₁ in
    let (db₃, e₃, k₃) = >>=-ok _ _ k₂ in
    let (db₄, e₄, k₄) = >>=-ok _ _ k₃ in
    let (db₅, e₅, k₅) = >>=-ok _ _ k₄ in
    let (db₆, e₆, k₆) = >>=-ok _ _ k₅ in
    let h₁ = insert-IsHealthy env row db placed e₁ h in
    let kept₂ : Keeps db₁ db₂ =
      rw (update_balance_row_lem env user.user_id (user.point_balance - cost) db₁ e₂)
        (record { outbox = refl; redemptions = refl; weights = refl }) in
    let kept₃ : Keeps db₂ db₃ =
      rw (update_stock_row_lem env row.offer_id db₂ e₃)
        (record { outbox = refl; redemptions = refl; weights = refl }) in
    let kept₄ : Keeps db₃ db₄ =
      rw ((insert_ledger_row_lem env user row db₃ e₄).1)
        (record { outbox = refl; redemptions = refl; weights = refl }) in
    let h₄ = Keeps-IsHealthy kept₄ (Keeps-IsHealthy kept₃ (Keeps-IsHealthy kept₂ h₁)) in
    let h₅ =
      feedback-IsHealthy env req.user_id_hash row.offer_id "redemption.succeeded.v1" db₄ e₅ h₄ in
    let h₆ =
      enqueue-IsHealthy env _ (succeeded_event env req row) db₅ e₆ refl refl refl
        (succeeded-IsComplete env req row traced placed) h₅ in
    let (_, done) = fail_if-ok (env.fails commit_tx) (unavailable commit_tx) _ k₆ in
    let same : db₆ ≡ db' = cc in subst IsHealthy same h₆

create_new-IsHealthy :
    (env : Env) (req : CreateRequest) (user : UserRow) (db : Db) {r : Redemption} {db' : Db}
    → C.lacks_field req ≡ false
    → create_new env req user db ≡ ok (r, db')
    → IsHealthy db
    → IsHealthy db'
unfolding create_new
create_new-IsHealthy env req user db {r} {db'} given e h =
    let (_, e₁) = fail_if-ok (env.fails select_journey) _ _ e in
    let (_, e₂) =
      fail_if-ok
        (not (
          any (λ (j : JourneyRow). j.journey_id == req.journey_id && j.user_id == user.user_id)
            db.journeys))
        _ _ e₁ in
    let (_, e₃) = fail_if-ok (env.fails select_redeemed) _ _ e₂ in
    let (_, e₄) = fail_if-ok (any (redeems user.user_id req.offer_id) db.redemptions) _ _ e₃ in
    let (stock, _, e₅) = >>=-ok (lock_stock_row env req.offer_id db) _ e₄ in
    let (_, e₆) = fail_if-ok (nat_eq stock.available_quantity 0) _ _ e₅ in
    let (_, e₇) = fail_if-ok (ltb user.point_balance stock.points_cost) _ _ e₆ in
    write_redemption-IsHealthy env req user stock.points_cost db given e₇ h

create_or_replay-IsHealthy :
    (env : Env) (req : CreateRequest) (user : UserRow) (o : Option RedemptionRow) (db : Db)
    {r : Redemption} {db' : Db}
    → C.lacks_field req ≡ false
    → create_or_replay env req user o db ≡ ok (r, db')
    → IsHealthy db
    → IsHealthy db'
unfolding create_or_replay replay
create_or_replay-IsHealthy env req user none db {r} {db'} given e h =
    create_new-IsHealthy env req user db given e h
create_or_replay-IsHealthy env req user (some row) db {r} {db'} given e h =
    let same : db ≡ db' = ground arith in subst IsHealthy same h

create_tx-IsHealthy :
    (env : Env) (req : CreateRequest) (db : Db) (r : Redemption) (db' : Db)
    → IsHealthy db
    → create_tx env req db ≡ ok (r, db')
    → IsHealthy db'
unfolding create_tx
create_tx-IsHealthy env req db r db' h e =
    let (given, e₁) = fail_if-ok (C.lacks_field req) _ _ e in
    let (_, e₂) = fail_if-ok (env.fails begin_tx) _ _ e₁ in
    let (user, _, e₃) = >>=-ok (lock_user_row env req.user_id_hash db) _ e₂ in
    let (existing, _, e₄) =
      >>=-ok (existing_redemption env user.user_id req.idempotency_key db) _ e₃ in
    create_or_replay-IsHealthy env req user existing db given e₄ h

pub create-IsHealthy :
    (env : Env) (req : CreateRequest) (db : Db) → IsHealthy db → IsHealthy (create env req db).1
unfolding create
create-IsHealthy env req db h =
    settle-IsHealthy db (create_tx env req db) (λ r db' e. create_tx-IsHealthy env req db r db' h e)
      h

All-find :
    (p : RedemptionRow → Bool) (rs : List RedemptionRow) {r : RedemptionRow}
    → All IsPlaced rs
    → find p rs ≡ some r
    → IsPlaced r
All-find p [] h e = absurd (ground arith)
All-find p (x ∷ rs) {r} (placed, h) e = elim (Bool-cases (p x)) [
  | inl mine ↦ let same : x ≡ r = ground arith in subst IsPlaced same placed
  | inr other ↦ All-find p rs {r = r} h (ground arith)
]

marked-All :
    (id : String) (rs : List RedemptionRow)
    → All IsPlaced rs
    → All IsPlaced (update_where (has_id id) mark_verified rs)
marked-All id [] h = tt
marked-All id (r ∷ rs) (p, h) = elim (Bool-cases (has_id id r)) [
  | inl mine ↦ rw mine (p, marked-All id rs h)
  | inr other ↦ rw other (p, marked-All id rs h)
]

verified-IsComplete :
    (env : Env) (req : VerifyRequest) (row : RedemptionRow) (user_id_hash : String)
    → (req.trace_id == "") ≡ false
    → IsPlaced row
    → IsComplete (verified_event env req (mark_verified row) user_id_hash) env.now
unfolding known_topic
verified-IsComplete env req row user_id_hash traced p = record {
  version = refl;
  occurred = refl;
  producer = refl;
  trace = traced;
  known = refl;
  journey = p;
  no_visit = refl;
}

verify_status-IsHealthy :
    (env : Env) (req : VerifyRequest) (row : RedemptionRow) (hash : String) (s : Status) (db : Db)
    {r : Redemption} {db' : Db}
    → (req.trace_id == "") ≡ false
    → IsPlaced row
    → verify_status env req row hash s db ≡ ok (r, db')
    → IsHealthy db
    → IsHealthy db'
unfolding verify_status update_status_row enqueue_verified_event
verify_status-IsHealthy env req row hash verified db {r} {db'} traced p e h =
    let same : db ≡ db' = ground arith in subst IsHealthy same h
verify_status-IsHealthy env req row hash pending db traced p e h = absurd (ground arith)
verify_status-IsHealthy env req row hash rejected db traced p e h = absurd (ground arith)
verify_status-IsHealthy env req row hash succeeded db {r} {db'} traced p e h =
    let (db₁, e₁, k₁) = >>=-ok (update_status_row env row.redemption_id db) _ e in
    let (db₂, e₂, k₂) = >>=-ok (enqueue_verified_event env req (mark_verified row) hash db₁) _ k₁ in
    let (_, k₃) = fail_if-ok (env.fails commit_tx) (unavailable commit_tx) _ k₂ in
    let marked : record db {
      redemptions = update_where (has_id row.redemption_id) mark_verified db.redemptions;
    }
        ≡ db₁ =
      ground arith in
    let h₁ = subst IsHealthy marked (record {
      emitted = h.emitted;
      placed = marked-All row.redemption_id db.redemptions h.placed;
      bounded = h.bounded;
    }) in
    let h₂ =
      enqueue-IsHealthy env _ (verified_event env req (mark_verified row) hash) db₁ e₂ refl refl
        refl (verified-IsComplete env req row hash traced p) h₁ in
    let same : db₂ ≡ db' = cc in subst IsHealthy same h₂

verify_tx-IsHealthy :
    (env : Env) (req : VerifyRequest) (db : Db) (r : Redemption) (db' : Db)
    → IsHealthy db
    → verify_tx env req db ≡ ok (r, db')
    → IsHealthy db'
unfolding verify_tx
verify_tx-IsHealthy env req db r db' h e =
    let (given, e₁) = fail_if-ok (V.lacks_field req) _ _ e in
    let (_, e₂) = fail_if-ok (env.fails begin_tx) _ _ e₁ in
    let (found, j, e₃) = >>=-ok (select_joined env req.redemption_id db) _ e₂ in
    let (_, e₄) =
      fail_if-ok
        (not (
          found.merchant_id == req.merchant_id
          && found.row.merchant_verification_code == req.verification_code))
        _ _ e₃ in
    let p =
      All-find (has_id req.redemption_id) db.redemptions h.placed
        (select_joined_row env req.redemption_id db j) in
    verify_status-IsHealthy env req found.row found.user_id_hash found.row.status db (ground arith)
      p e₄ h

pub verify-IsHealthy :
    (env : Env) (req : VerifyRequest) (db : Db) → IsHealthy db → IsHealthy (verify env req db).1
unfolding verify
verify-IsHealthy env req db h =
    settle-IsHealthy db (verify_tx env req db) (λ r db' e. verify_tx-IsHealthy env req db r db' h e)
      h
