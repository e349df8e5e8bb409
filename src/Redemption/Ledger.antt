-- ===== src/Redemption/Ledger.antt =====
-- The points of a user against the ledger (internal/redemption/service.go, `Create`).
use spacetime_node.Prelude.{
  ℕ, ◌-◌, ◌≤◌, ◌≡◌, refl, String, some, List, [], ◌∷◌, arith, eq_iff, ◌==◌, inl, inr, Option-cases,
  if◌then◌else◌,
}
use mathlib.Core.Option
use spacetime_node.Prelude.Int.{ℤ, pos, neg, ◌+ℤ◌, int_laws}
use spacetime_node.Prelude.Table.{
  find, find-holds, with_key, Keyed, find-Keyed, find-update_where, Keyed-update_where, insert_row,
}
use spacetime_node.Platform.Env.{Env}
use spacetime_node.Platform.Result.{ok}
use spacetime_node.Platform.Database.{Db, UserRow, LedgerRow}
use spacetime_node.Redemption.Rows.{CreateRequest, Redemption, Stock, has_hash, new_redemption}
use spacetime_node.Redemption.Create.{create_tx}
use spacetime_node.Redemption.Effect.{pay, spending}
use spacetime_node.Redemption.Outcome.{Creates, Outcome, create_tx-Outcome}

-- the sum of a user's entries
unfoldable pub ledger_sum : String → List LedgerRow → ℤ
ledger_sum user_id [] = pos 0
ledger_sum user_id (e ∷ es) =
    let rest = ledger_sum user_id es in if e.user_id == user_id then e.delta +ℤ rest else rest

pub ledger_sum-insert_row :
    (user_id : String) (e : LedgerRow) (es : List LedgerRow)
    → ledger_sum user_id (insert_row e es)
      ≡ (if e.user_id == user_id then ledger_sum user_id es +ℤ e.delta else ledger_sum user_id es)
unfolding ledger_sum
ledger_sum-insert_row user_id e [] = grind int_laws
ledger_sum-insert_row user_id e (x ∷ es) = grind (int_laws, ledger_sum-insert_row user_id e es)

abbrev pub id_of : UserRow → String
id_of u = u.user_id

-- User ids are unique, and each balance is the sum of the user's entries.
pub record IsBalanced (db : Db) : Type 0 where
  pub keyed : Keyed id_of db.users
  pub balanced :
      (user_id : String)
      → Option.map (λ (u : UserRow). pos u.point_balance) (find (with_key id_of user_id) db.users)
        ≡ Option.map
            (λ (u : UserRow). ledger_sum user_id db.points_ledger)
            (find (with_key id_of user_id) db.users)

-- one user's balance after another user's or the own payment
balanced_after :
    (user : UserRow) (cost : ℕ) (entry : LedgerRow) (db : Db) (id : String) (u₀ u : UserRow)
    → IsBalanced db
    → cost ≤ user.point_balance
    → entry.user_id ≡ user.user_id
    → entry.delta ≡ neg (pos cost)
    → find (with_key id_of user.user_id) db.users ≡ some user
    → find (with_key id_of id) db.users ≡ some u₀
    → (if u₀.user_id == user.user_id then pay (user.point_balance - cost) u₀ else u₀) ≡ u
    → ledger_sum id (insert_row entry db.points_ledger) ≡ pos u.point_balance
balanced_after user cost entry db id u₀ u h afford own delta known e₀ same = grind (
  int_laws,
  ledger_sum-insert_row id entry db.points_ledger,
  h.balanced id,
  find-holds (with_key id_of id) db.users e₀,
  eq_iff u₀.user_id id,
  eq_iff u₀.user_id user.user_id,
  eq_iff entry.user_id id,
  eq_iff user.user_id id,
)

Creates-IsBalanced :
    (env : Env) (req : CreateRequest) (user : UserRow) (stock : Stock) (db : Db) {r : Redemption}
    {db' : Db}
    → find (has_hash req.user_id_hash) db.users ≡ some user
    → Creates env req user stock db r db'
    → IsBalanced db
    → IsBalanced db'
Creates-IsBalanced env req user stock db {r} {db'} found c h =
    let mine = λ (u : UserRow). u.user_id == user.user_id in
    let pays = pay (user.point_balance - stock.points_cost) in
    record {
      keyed = rw c.charged.users (Keyed-update_where id_of mine pays db.users (λ u. refl) h.keyed);
      balanced = λ id.
          let seen = find-update_where mine (with_key id_of id) pays db.users (λ x. refl) in
          elim (Option-cases (find (with_key id_of id) db.users)) [
            | inl gone ↦ ground (arith, c.charged.users)
            | inr (u₀, e₀) ↦
                let u = if u₀.user_id == user.user_id then pays u₀ else u₀ in
                let after =
                  balanced_after user stock.points_cost
                    (spending user (new_redemption env req user stock.points_cost)) db id u₀ u h
                    c.affordable refl refl
                    (find-Keyed id_of (has_hash req.user_id_hash) db.users h.keyed found) e₀ refl in
                rw (c.charged.ledger, c.charged.users, seen, e₀) (rw after refl)
          ];
    }

-- If user ids are unique and every balance is the sum of the user's ledger entries, then the same
-- holds after a Create that returns a redemption.
pub create_tx-IsBalanced :
    (env : Env) (req : CreateRequest) (db : Db) {r : Redemption} {db' : Db}
    → create_tx env req db ≡ ok (r, db')
    → IsBalanced db
    → IsBalanced db'
unfolding Outcome
create_tx-IsBalanced env req db {r} {db'} e h = kept (create_tx-Outcome env req db e)
  where
    kept : Outcome env req db r db' → IsBalanced db'
    kept (user, found, inl (row, held, p)) = rw p.unchanged h
    kept (user, found, inr (fresh, (stock, c))) = Creates-IsBalanced env req user stock db found c h
