-- ===== src/Redemption/Standing.antt =====
-- internal/redemption/service.go and internal/recommendation/recommendation.go: which redemptions of an
-- offer count, said apart from the queries.
use mathlib.Core.Path.{fun_ext}
use spacetime_node.Prelude.{◌≡◌, refl, String, Bool, true, false, ◌==◌, ◌&&◌}
use spacetime_node.Platform.Database.{RedemptionRow, Status, pending, succeeded, rejected, verified}
use spacetime_node.Redemption.Rows.{is_redeemed, redeems}

-- A redemption that stands: one that has succeeded, and a verified one.
abbrev pub stands : Status → Bool
stands pending = false
stands rejected = false
stands succeeded = true
stands verified = true

abbrev pub stands_for : String → String → RedemptionRow → Bool
stands_for user_id offer_id r = r.user_id == user_id && r.offer_id == offer_id && stands r.status

stands_as : (s : Status) → stands s ≡ is_redeemed s
stands_as pending = refl
stands_as rejected = refl
stands_as succeeded = refl
stands_as verified = refl

-- the code's test on an earlier redemption is this one
pub stands_for-redeems :
    (user_id offer_id : String) → stands_for user_id offer_id ≡ redeems user_id offer_id
stands_for-redeems user_id offer_id = fun_ext (λ r. rw (stands_as r.status) refl)
