-- ===== src/Redemption/Verified.antt =====
-- The status of a redemption under `Verify` (internal/redemption/service.go).
use spacetime_node.Prelude.{
  ◌≡◌, ◌∙◌, ◌==◌, refl, String, some, arith, eq_iff, inl, inr, ◌⊎◌, Option-cases,
}
use spacetime_node.Prelude.Table.{find, insert_row, update_where}
use spacetime_node.Platform.Env.{Env, select_redemption}
use spacetime_node.Platform.Result.{ok, Result-cases, >>=-ok, fail_if-ok, redemption_not_found}
use spacetime_node.Platform.Event.{event}
use spacetime_node.Platform.Database.{
  Db, UserRow, OfferRow, Status, pending, succeeded, rejected, verified, RedemptionRow,
}
use spacetime_node.Platform.Outbox.{new_row}
use spacetime_node.Redemption.Rows.{VerifyRequest, Redemption, view, or_error, has_offer}
use spacetime_node.Recommendation.Outcome.{or_error-ok}
use spacetime_node.Platform.Outbox.Enqueue.{enqueue_lem}
use spacetime_node.Redemption.Verify.{
  Joined, has_id, mark_verified, verified_event, select_joined, update_status_row,
  enqueue_verified_event, verify_status, verify_tx,
}

-- The change that a first verification makes: one status, and one event for the merchant.
pub record IsMarked (env : Env) (req : VerifyRequest) (row : RedemptionRow) (user_id_hash : String)
    (db db' : Db) : Type 0 where
  pub was : row.status ≡ succeeded
  pub change : db' ≡ record db {
    redemptions =
        update_where
          (λ (x : RedemptionRow). x.redemption_id == row.redemption_id)
          (λ (x : RedemptionRow). record x { status = verified })
          db.redemptions;
    outbox_events =
        insert_row
          (new_row env (record {
            id = (verified_event env req (mark_verified row) user_id_hash).event_id;
            topic = "merchant.verified.v1";
            key = row.journey_id;
            payload = event (verified_event env req (mark_verified row) user_id_hash);
          }))
          db.outbox_events;
  }

-- What `Verify` has found out and done when it returns a redemption: the rows of the redemption, of
-- its offer and of its user, the two tests, and the change.
pub record Verifies (env : Env) (req : VerifyRequest) (db : Db) (r : Redemption) (db' : Db)
    : Type 0 where
  pub row : RedemptionRow
  pub offer : OfferRow
  pub user : UserRow
  pub known :
      find (λ (x : RedemptionRow). x.redemption_id == req.redemption_id) db.redemptions ≡ some row
  pub sold : find (λ (o : OfferRow). o.offer_id == row.offer_id) db.offers ≡ some offer
  pub owned : find (λ (u : UserRow). u.user_id == row.user_id) db.users ≡ some user
  pub merchant : offer.merchant_id ≡ req.merchant_id
  pub code : row.merchant_verification_code ≡ req.verification_code
  pub result : r ≡ view (record row { status = verified })
  pub change :
      ((row.status ≡ verified) × (db' ≡ db)) ⊎ IsMarked env req row user.user_id_hash db db'

verify_status_lem :
    (env : Env) (req : VerifyRequest) (row : RedemptionRow) (h : String) (s : Status) (db : Db)
    {r : Redemption} {db' : Db}
    → row.status ≡ s
    → verify_status env req row h s db ≡ ok (r, db')
    → (r ≡ view (mark_verified row))
      × (((row.status ≡ verified) × (db' ≡ db)) ⊎ IsMarked env req row h db db')
unfolding verify_status update_status_row enqueue_verified_event
verify_status_lem env req row h verified db s e = (ground arith, inl (s, ground arith))
verify_status_lem env req row h pending db s e = absurd (ground arith)
verify_status_lem env req row h rejected db s e = absurd (ground arith)
verify_status_lem env req row h succeeded db {r} {db'} s e =
    let (db₁, e₁, k₁) = >>=-ok (update_status_row env row.redemption_id db) _ e in
    let (db₂, e₂, k₂) = >>=-ok (enqueue_verified_event env req (mark_verified row) h db₁) _ k₁ in
    (ground arith, inr (record { was = s; change = ground (arith, enqueue_lem env _ db₁ e₂) }))

pub select_joined_row :
    (env : Env) (id : String) (db : Db) {j : Joined}
    → select_joined env id db ≡ ok j
    → find (has_id id) db.redemptions ≡ some j.row
unfolding select_joined
select_joined_row env id db {j} e = elim (Option-cases (find (has_id id) db.redemptions)) [
  | inl missing ↦ absurd (ground arith)
  | inr (r, found) ↦ ground arith
]

-- the offer and the user of the row that the join has found
joined_rows :
    (env : Env) (id : String) (db : Db) {j : Joined}
    → select_joined env id db ≡ ok j
    → (offer : OfferRow) × (user : UserRow) × (find (has_offer j.row.offer_id) db.offers
        ≡ some offer)
      × (find (λ (u : UserRow). u.user_id == j.row.user_id) db.users ≡ some user)
      × (offer.merchant_id ≡ j.merchant_id)
      × (user.user_id_hash ≡ j.user_id_hash)
unfolding select_joined
joined_rows env id db {j} e =
    let (_, e₁) = fail_if-ok (env.fails select_redemption) _ _ e in
    let (r, _, e₂) =
      >>=-ok (or_error redemption_not_found (find (has_id id) db.redemptions)) _ e₁ in
    let (offer, sold, e₃) =
      >>=-ok (or_error redemption_not_found (find (has_offer r.offer_id) db.offers)) _ e₂ in
    let (user, owned, e₄) =
      >>=-ok
        (or_error redemption_not_found (find (λ (u : UserRow). u.user_id == r.user_id) db.users)) _
        e₃ in
    let same : r ≡ j.row = ground arith in
    (
      offer,
      user,
      rw same at (or_error-ok redemption_not_found _ sold),
      rw same at (or_error-ok redemption_not_found _ owned),
      ground arith,
      ground arith,
    )

-- A Verify that returns a redemption was sent with the id of the merchant that the row of the
-- redeemed offer has, and with the code of the redemption; either the redemption was verified
-- before and nothing changes, or it had succeeded, and then exactly its status and one new event
-- are written.
pub verify_tx-Verifies :
    (env : Env) (req : VerifyRequest) (db : Db) {r : Redemption} {db' : Db}
    → verify_tx env req db ≡ ok (r, db')
    → Verifies env req db r db'
unfolding verify_tx
verify_tx-Verifies env req db {r} {db'} e =
    elim (Result-cases (select_joined env req.redemption_id db)) [
      | inr (_, failed) ↦ absurd (ground arith)
      | inl (found, j) ↦
          let k : verify_status env req found.row found.user_id_hash found.row.status db
              ≡ ok (r, db') =
            ground arith in
          let w =
            verify_status_lem env req found.row found.user_id_hash found.row.status db refl k in
          let (offer, user, sold, owned, by_merchant, of_user) =
            joined_rows env req.redemption_id db j in
          let asked : found.merchant_id ≡ req.merchant_id =
            ground (arith, eq_iff found.merchant_id req.merchant_id) in
          record {
            row = found.row;
            offer = offer;
            user = user;
            known = select_joined_row env req.redemption_id db j;
            sold = sold;
            owned = owned;
            merchant = by_merchant ∙ asked;
            code =
                ground (arith, eq_iff found.row.merchant_verification_code req.verification_code);
            result = w.0;
            change = rw of_user w.1;
          }
    ]
