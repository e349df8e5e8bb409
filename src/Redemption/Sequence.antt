-- ===== src/Redemption/Sequence.antt =====
-- internal/redemption/service.go: sequences of calls of `Create` and `Verify`.
use spacetime_node.Prelude.{
  ◌≤◌, ◌≡◌, refl, ◌∙◌, String, Bool, none, some, List, [], ◌∷◌, ◌==◌, inl, inr, arith, count_where,
  Bool-cases, eq_iff,
}
use spacetime_node.Prelude.Table.{
  find, update_where, with_key, Keyed, find-Keyed, Keyed-insert_row, Keyed-update_where,
}
use spacetime_node.Prelude.Search.{any-find}
use spacetime_node.Platform.Env.{Env}
use spacetime_node.Platform.Result.{ok, Result-cases}
use spacetime_node.Platform.Database.{Db, RedemptionRow, verified}
use spacetime_node.Redemption.Rows.{CreateRequest, VerifyRequest, Redemption, new_redemption}
use spacetime_node.Redemption.Standing.{stands_for}
use spacetime_node.Redemption.Create.{create, create_tx}
use spacetime_node.Redemption.Verify.{verify, verify_tx}
use spacetime_node.Redemption.Outcome.{Outcome, create_tx-Outcome}
use spacetime_node.Redemption.Ledger.{IsBalanced, create_tx-IsBalanced}
use spacetime_node.Redemption.Stock.{
  counts_for, redeemed, units, redemptions_of, create_tx-units, create_tx-once,
}
use spacetime_node.Redemption.Verified.{Verifies, verify_tx-Verifies}

update_where-none :
    {A : Type 0} (p : A → Bool) (f : A → A) (xs : List A)
    → find p xs ≡ none
    → update_where p f xs ≡ xs
update_where-none p f [] h = refl
update_where-none p f (x ∷ xs) h = ground (arith, update_where-none p f xs)

-- an update of one row that does not change what is counted of it
count_where-update_row :
    {A : Type 0} (key : A → String) (id : String) (f : A → A) (p : A → Bool) (xs : List A) {x : A}
    → Keyed key xs
    → find (with_key key id) xs ≡ some x
    → p (f x) ≡ p x
    → count_where p (update_where (with_key key id) f xs) ≡ count_where p xs
count_where-update_row key id f p [] k found same = refl
count_where-update_row key id f p (y ∷ xs) {x} k found same = elim (Bool-cases (key y == id)) [
  | inl mine ↦
      let named : key y ≡ id = (eq_iff (key y) id).0 mine in
      let alone : find (with_key key id) xs ≡ none = rw named at k.0 in
      let rest = update_where-none (with_key key id) f xs alone in
      let this : y ≡ x = ground (arith, mine) in
      let kept : p (f y) ≡ p y = rw this same in rw (mine, rest, kept) refl
  | inr other ↦
      let later = count_where-update_row key id f p xs k.1 (rw other at found) same in
      rw (other, later) refl
]

abbrev pub redemption_key : RedemptionRow → String
redemption_key r = r.redemption_id

-- Redemption ids are unique, every balance is the sum of the ledger, and nobody has an offer twice.
pub record IsOrderly (db : Db) : Type 0 where
  pub ids : Keyed redemption_key db.redemptions
  pub balanced : IsBalanced db
  pub once : (user_id offer_id : String) → redemptions_of user_id offer_id db ≤ 1

-- the same, and no units have come or gone
pub record Keeps (db db' : Db) : Type 0 where
  pub orderly : IsOrderly db'
  pub units : (offer_id : String) → units offer_id db' ≡ units offer_id db

create_tx-ids :
    (env : Env) (req : CreateRequest) (db : Db) {r : Redemption} {db' : Db}
    → create_tx env req db ≡ ok (r, db')
    → Keyed redemption_key db.redemptions
    → Keyed redemption_key db'.redemptions
unfolding Outcome
create_tx-ids env req db {r} {db'} e h = kept (create_tx-Outcome env req db e)
  where
    kept : Outcome env req db r db' → Keyed redemption_key db'.redemptions
    kept (user, found, inl (row, held, p)) = rw p.unchanged h
    kept (user, found, inr (fresh, (stock, c))) =
        let row = new_redemption env req user stock.points_cost in
        rw c.charged.redemptions (
          Keyed-insert_row redemption_key row db.redemptions h
            (any-find (with_key redemption_key row.redemption_id) db.redemptions c.charged.new_id))

create-Keeps :
    (env : Env) (req : CreateRequest) (db : Db) → IsOrderly db → Keeps db (create env req db).1
unfolding create
create-Keeps env req db h = elim (Result-cases (create_tx env req db)) [
  | inr (_, failed) ↦ rw failed (record { orderly = h; units = λ o. refl })
  | inl ((r, db'), done) ↦ rw done (record {
    orderly = record {
      ids = create_tx-ids env req db done h.ids;
      balanced = create_tx-IsBalanced env req db done h.balanced;
      once = λ u o. create_tx-once env req db u o done (h.once u o);
    };
    units = λ o. create_tx-units env req db o done;
  })
]

abbrev as_verified : RedemptionRow → RedemptionRow
as_verified r = record r { status = verified }

Verifies-Keeps :
    (env : Env) (req : VerifyRequest) (db : Db) {r : Redemption} {db' : Db}
    → Verifies env req db r db'
    → IsOrderly db
    → Keeps db db'
unfolding redemptions_of units redeemed
Verifies-Keeps env req db {r} {db'} v h = elim v.change [
  | inl (_, same) ↦ rw same (record { orderly = h; units = λ o. refl })
  | inr m ↦
      let id = v.row.redemption_id in
      let mine = find-Keyed redemption_key _ db.redemptions h.ids v.known in
      let count = λ (p : RedemptionRow → Bool) (kept : p (as_verified v.row) ≡ p v.row).
        count_where-update_row redemption_key id as_verified p db.redemptions h.ids mine kept in
      rw m.change (record {
        orderly = record {
          ids =
              Keyed-update_where redemption_key (with_key redemption_key id) as_verified
                db.redemptions (λ x. refl) h.ids;
          balanced = record { keyed = h.balanced.keyed; balanced = h.balanced.balanced };
          once = λ u o. rw (count (stands_for u o) (rw m.was refl)) (h.once u o);
        };
        units = λ o. rw (count (counts_for o) (rw m.was refl)) refl;
      })
]

verify-Keeps :
    (env : Env) (req : VerifyRequest) (db : Db) → IsOrderly db → Keeps db (verify env req db).1
unfolding verify
verify-Keeps env req db h = elim (Result-cases (verify_tx env req db)) [
  | inr (_, failed) ↦ rw failed (record { orderly = h; units = λ o. refl })
  | inl ((r, db'), done) ↦
      rw done (Verifies-Keeps env req db (verify_tx-Verifies env req db done) h)
]

-- the calls of riders and merchants, each in its environment, which says what fails
pub data Call : Type 0 where
  sell : Env → CreateRequest → Call
  check : Env → VerifyRequest → Call

abbrev pub serve : Call → Db → Db
serve (sell env req) db = (create env req db).1
serve (check env req) db = (verify env req db).1

abbrev pub serve_all : List Call → Db → Db
serve_all [] db = db
serve_all (c ∷ cs) db = serve_all cs (serve c db)

serve-Keeps : (c : Call) (db : Db) → IsOrderly db → Keeps db (serve c db)
serve-Keeps (sell env req) db h = create-Keeps env req db h
serve-Keeps (check env req) db h = verify-Keeps env req db h

-- Whatever calls of Create and Verify are made, in whatever order, succeeding or failing: if
-- redemption and user ids are unique, every balance is the sum of the ledger entries of its user
-- and no user has two redemptions of an offer that have succeeded or are verified, then the same
-- holds at the end, and for every offer the stock and the number of its redemptions together are
-- what they were.
pub serve_all-Keeps : (cs : List Call) (db : Db) → IsOrderly db → Keeps db (serve_all cs db)
serve_all-Keeps [] db h = record { orderly = h; units = λ o. refl }
serve_all-Keeps (c ∷ cs) db h =
    let first = serve-Keeps c db h in
    let later = serve_all-Keeps cs (serve c db) first.orderly in
    record { orderly = later.orderly; units = λ o. later.units o ∙ first.units o }
