-- ===== src/Platform/Outbox/Tests.antt =====
-- Runs of the publisher and of `Process`, and the theorems at these runs.
use spacetime_node.Prelude.{
  ◌≡◌, refl, String, Bool, true, false, none, List, [], ◌∷◌, inl, ◌==◌, ◌⊎◌, All, Among,
}
use spacetime_node.Platform.Env.{Env, Call, mark_published}
use spacetime_node.Platform.Result.{Result, ok, err, no_rows}
use spacetime_node.Platform.Event.{malformed}
use spacetime_node.Platform.Database.{Db, OutboxRow}
use spacetime_node.Platform.Outbox.Publish.{World, Tick, run_publisher}
use spacetime_node.Platform.Outbox.Delivery.{NoLoss, run_publisher-NoLoss}
use spacetime_node.Platform.Outbox.Process.{
  CanSkip, process_tx, process, process-twice, Works, deliver_all, deliver_all-once, claim,
}
use spacetime_node.Fixtures.{healthy, shop}

abbrev row : String → OutboxRow
row id = record {
  event_id = id;
  topic = "journey.entered.v1";
  event_key = "rider";
  payload = malformed;
  occurred_at = 1;
  published_at = none;
  publish_attempts = 0;
  last_error = none;
}

abbrev start : World
start = record { db = record shop { outbox_events = row "a" ∷ row "b" ∷ row "c" ∷ [] }; log = [] }

-- the second event cannot be marked
abbrev fails_at_b : Call → Bool
fails_at_b (mark_published id) = id == "b"
fails_at_b _ = false

abbrev ticks : List Tick
ticks =
    record {
      env = record healthy { fails = fails_at_b };
      session = record { locked = λ _. false; before = λ _ _. false };
    }
    ∷ []

start-NoLoss : NoLoss start
start-NoLoss = record {
  keyed = (refl, (refl, (refl, tt)));
  accounted = (inl refl, (inl refl, (inl refl, tt)));
}

run_publisher-NoLoss_example : NoLoss (run_publisher 10 ticks start)
run_publisher-NoLoss_example = run_publisher-NoLoss 10 ticks start start-NoLoss

abbrev closes : Db → Result Db
closes db = ok (record db { stations = [] })

abbrev can_skip : CanSkip healthy
can_skip = record { begins = refl; inserts = refl; commits = refl }

handled : Db
handled = (process healthy "worker" "event-1" closes shop).1

handled_run : process healthy "worker" "event-1" closes shop ≡ (ok true, handled)
unfolding process process_tx handled
handled_run = refl

process-twice_example :
    process healthy "worker" "event-1" (λ db. err no_rows) handled ≡ (ok false, handled)
process-twice_example =
    process-twice healthy healthy "worker" "event-1" closes (λ db. err no_rows) shop (λ d d' e. cc)
      can_skip handled_run

-- the database is gone at the first delivery
abbrev down : Env
down = record healthy { fails = λ _. true }

deliver_all-once_example :
    ((deliver_all "worker" "event-1" (λ env. closes) (down ∷ healthy ∷ healthy ∷ []) shop ≡ shop)
      × All
          (λ env. ¬ (Works "worker" "event-1" (λ env. closes) shop env))
          (down ∷ healthy ∷ healthy ∷ []))
    ⊎ ((env : Env) × Among env (down ∷ healthy ∷ healthy ∷ [])
        × (closes (claim "worker" "event-1" shop)
            ≡ ok (
                deliver_all "worker" "event-1"
                  (λ env. closes)
                  (down ∷ healthy ∷ healthy ∷ [])
                  shop)))
deliver_all-once_example =
    deliver_all-once "worker" "event-1" (λ env. closes) (down ∷ healthy ∷ healthy ∷ []) shop
      (λ env d d' e. cc) refl refl
