-- ===== src/Lib.antt =====
-- The backend of Spacetime Node, a Go program of several services over one PostgreSQL database and
-- Kafka: riders enter a station, get a recommendation, redeem offers with points, and merchants
-- verify the redemptions.
--
-- The parts, and how they interact. The journey service (internal/journey) records that a rider has
-- entered a station and puts an event into the outbox table in the same transaction. The publisher
-- (internal/platform/outbox) moves events from the table to Kafka, and every consumer claims an
-- event in the table processed_events before it handles it. The recommendation service
-- (internal/recommendation) ranks the offers of the station for the rider and stores the choice,
-- the journey service returns it and records what the rider does with it, which changes the weights
-- of the rider's preferences, and the redemption service (internal/redemption) sells an offer for
-- points and lets its merchant verify the sale. The notification worker (internal/notification)
-- pushes a recommendation to the rider's subscriptions.
--
-- The files:
--   Prelude            lists, tables, integers, texts and the stable sort (Prelude/...);
--   Platform/Env       the clock, random ids and failing calls; Platform/Result the errors and the
--                      transactions; Platform/Database the tables; Platform/Event the JSON events;
--   Platform/Outbox    Enqueue, PublishPending, RunPublisher and Process of
--                      internal/platform/outbox/outbox.go;
--   User               EnsureDemoUser and validUserIDHash of internal/user/service.go, and Preferences
--                      is UpdateUserPreferences and GetUserProfile;
--   Recommendation     internal/recommendation: Feedback is ApplyPreferenceFeedback of feedback.go;
--                      Rules, Choice and Recommend are Recommend of recommendation.go, first the
--                      rules for one candidate, then the order and the choice, then the whole call;
--                      Copy is GenerateCopy and its validation, of copy.go; Stored is
--                      PreferenceStore.Get of preference.go, with LoadPreferenceWeights;
--                      Consumer is RunEntryConsumer of consumer.go;
--   Journey            internal/journey/service.go: Entry is CreateEntryEvent, Feedback is
--                      RecordRecommendationEvent, Latest is GetLatestRecommendation;
--   Redemption         internal/redemption/service.go: Rows has the statements of Create, Create the
--                      handler, Verify the handler of Verify and Get;
--   Notification       internal/notification: Window is WithinNotificationWindow of service.go,
--                      Subscription is Register and Revoke, Deliver and Push
--                      are deliver of worker.go, and Worker is RunWithProvider;
--   Mobility           internal/mobility/resolver.go: Key is observationKey and formatInt, Resolver is
--                      Resolve with its caches;
--   Analytics          internal/analytics: DecodeEvent of events.go, and Consume is consumeTopic of
--                      consumer.go;
--   System             the services together: the steps of the database and of what Kafka holds.
-- The other files under these names hold proofs, and are named for what they prove. Fixtures is the
-- small database at which the files Tests run the code.
--
-- How the code is modelled. The state is the record Db, one list of rows for each table. A handler
-- is a function from an environment, a request and the state to a result and the new state; a name
-- that ends in _tx is the transaction without its rollback, and settle adds the rollback. Every
-- statement and remote call may fail: Env.fails says which do, and the theorems hold for all of
-- them unless a hypothesis says otherwise. Time is a natural number, and random ids are a function
-- of the call that draws them, so that a clash of ids is a case like another. The statements keep
-- the constraints of the tables that they can break. Row locks and isolation are not modelled: a
-- transaction runs alone, on the rows that it would have locked.
--
-- Numbers: points and counts are natural numbers, since the tables check that they are not
-- negative; the int64 of Go does not overflow at the sizes that the tables reach, which is not
-- stated. A learned weight is an integer of ten-thousandths, the unit of NUMERIC(8, 4). A float64
-- is a natural number, its bit pattern, with the arithmetic as a parameter (Floats); the order of
-- scores asks that Go's comparisons agree with a ranking, which holds without NaN. Letters are
-- folded for ASCII alone. A JSON document is what decoding it gives. Loops are recursion on their
-- list, so that none needs fuel but the printing of a decimal: in Notification the fuel is the
-- number plus one, and in Mobility it is the 20 bytes of formatInt's array, which hold every int64.
--
-- Parameters: the vector search, the query vector of RunEntryConsumer, the stored preference and
-- the copy of an offer in Recommend, the score as its column NUMERIC(8, 4) keeps it, what Redis
-- answers in PreferenceStore.Get, the beacon resolver in CreateEntryEvent, the provider and Redis
-- in Resolve, the hash of RecordRecommendationEvent, the push provider and the time zone database
-- of the notification worker, the collation and the locks of other sessions in PublishPending. A
-- WriteMessages that returns nil is taken to have written its messages; a list of a request that
-- is empty is taken to be nil, as the getters of a decoded message give it.
--
-- Not modelled: the request to the language model that writes copies, whose answer is a parameter,
-- the embedding index, the requests to ClickHouse, the gRPC and HTTP layers, start-up,
-- configuration and tracing.
pub mod Prelude
pub mod Platform
pub mod Recommendation
pub mod User
pub mod Journey
pub mod Redemption
pub mod Notification
pub mod Mobility
pub mod Analytics
pub mod System
mod Fixtures
