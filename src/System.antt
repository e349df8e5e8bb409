-- ===== src/System.antt =====
-- The services together: every call of an interface, every run of the worker and every batch of the
-- publisher is a step of the database and of what Kafka holds, whether it succeeds or fails.
pub mod Healthy
pub mod Redemptions
pub mod Entries
pub mod Feedbacks
pub mod Recommendations
pub mod Notices
pub mod Workers
pub mod Subscriptions
pub mod Published
pub mod Reached
mod Tests
use spacetime_node.Prelude.{ℕ, String, Bool, List}
use spacetime_node.Platform.Env.{Env}
use spacetime_node.Platform.Result.{settle}
use spacetime_node.Platform.Event.{Message}
use spacetime_node.Platform.Database.{Db}
use spacetime_node.Platform.Outbox.Publish.{World, Session, publish_pending}
use spacetime_node.User.Preferences.{PreferencesRequest, update_user_preferences, get_user_profile}
use spacetime_node.Journey.Entry.{EntryRequest, create_entry_event}
use spacetime_node.Journey.Feedback.{FeedbackRequest, record_event}
use spacetime_node.Recommendation.Recommend.{Service, Request, recommend}
use spacetime_node.Redemption.Rows.{CreateRequest, VerifyRequest}
use spacetime_node.Redemption.Create.{create}
use spacetime_node.Redemption.Verify.{verify}
use spacetime_node.Notification.Window.{Zones}
use spacetime_node.Notification.Deliver.{PushProvider}
use spacetime_node.Notification.Subscription.{Registration, register, revoke}
use spacetime_node.Notification.Worker.{Worker, run_with_provider}
use spacetime_node.System.Entries.{IsRandom}

abbrev pub with_db : World → Db → World
with_db w db = record w { db = db }

-- the worker is started at any offset and reads any messages
pub data Step : World → World → Type 0 where
  entered :
      (w : World) (env : Env)
      → IsRandom env
      → (req : EntryRequest) → Step w (with_db w (create_entry_event env req w.db).1)
  recommended :
      (w : World) (s : Service) (env : Env) (req : Request)
      → Step w (with_db w (recommend s env req w.db).1)
  reacted :
      (w : World) (hash : List String → String) (env : Env)
      → IsRandom env
      → (req : FeedbackRequest) → Step w (with_db w (record_event hash env req w.db).1)
  redeemed :
      (w : World) (env : Env) (req : CreateRequest) → Step w (with_db w (create env req w.db).1)
  checked :
      (w : World) (env : Env) (req : VerifyRequest) → Step w (with_db w (verify env req w.db).1)
  preferred :
      (w : World) (zones : Zones) (env : Env) (req : PreferencesRequest)
      → Step w (with_db w (update_user_preferences zones env req w.db).1)
  viewed :
      (w : World) (env : Env) (hash : String)
      → Step w (with_db w (get_user_profile env hash w.db).1)
  subscribed :
      (w : World) (env : Env) (q : Registration)
      → Step w (with_db w (settle w.db (register env q w.db)).1)
  unsubscribed :
      (w : World) (env : Env) (hash id : String)
      → Step w (with_db w (settle w.db (revoke env hash id w.db)).1)
  notified :
      (w : World) (zones : Zones) (provider : PushProvider) (envs : ℕ → Env) (refuses : ℕ → Bool)
      (topic : List Message) (committed : ℕ)
      → Step w (
          with_db w
            (run_with_provider zones provider envs refuses topic
              (record { db = w.db; committed = committed })).db)
  published :
      (w : World) (env : Env) (session : Session) (limit : ℕ)
      → Step w (publish_pending env session limit w).1

-- any number of steps
pub data Reach : World → World → Type 0 where
  here : (w : World) → Reach w w
  after : {w v u : World} → Reach w v → Step v u → Reach w u
