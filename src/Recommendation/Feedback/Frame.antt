-- ===== src/Recommendation/Feedback/Frame.antt =====
-- internal/recommendation/feedback.go: the tables that `ApplyPreferenceFeedback` writes.
use spacetime_node.Prelude.{String, ◌≡◌, refl, Option, none, some, arith}
use spacetime_node.Platform.Env.{Env}
use spacetime_node.Platform.Result.{ok}
use spacetime_node.Platform.Database.{Db, WeightRow}
use spacetime_node.Recommendation.Feedback.{
  Delta, upsert_row, record_feedback, apply_preference_feedback,
}

abbrev pub OnlyWeights : Db → Db → Type 0
OnlyWeights db db' = db' ≡ record db { user_preference_weights = db'.user_preference_weights }

upsert_row-OnlyWeights :
    (d : Delta) (u c : String) (o : Option WeightRow) (db : Db)
    → OnlyWeights db (upsert_row d u c o db)
unfolding upsert_row
upsert_row-OnlyWeights d u c none db = refl
upsert_row-OnlyWeights d u c (some w) db = refl

record_feedback-OnlyWeights :
    (env : Env) (d : Delta) (h o : String) (db : Db) {db' : Db}
    → record_feedback env d h o db ≡ ok db'
    → OnlyWeights db db'
unfolding record_feedback
record_feedback-OnlyWeights env d h o db e = ground arith

pub apply_preference_feedback-OnlyWeights :
    (env : Env) (h o t : String) (db : Db) {db' : Db}
    → apply_preference_feedback env h o t db ≡ ok db'
    → OnlyWeights db db'
unfolding apply_preference_feedback
apply_preference_feedback-OnlyWeights env h o t db {db'} e = ground arith
