-- ===== src/Analytics/Emitted.antt =====
-- internal/analytics/events.go: the events of the outbox that `DecodeEvent` accepts.
use spacetime_node.Prelude.{ℕ, ◌≡◌, refl, true, false, ◌||◌, ◌==◌, arith}
use spacetime_node.Platform.Env.{Env}
use spacetime_node.Platform.Result.{ok, fail_if-ok}
use spacetime_node.Platform.Event.{at, Envelope, event}
use spacetime_node.Platform.Database.{Db}
use spacetime_node.Platform.Outbox.{Event, is_malformed, enqueue}
use spacetime_node.Analytics.{ProductEvent, known_topic, is_incomplete, product_event, decode_event}

-- DecodeEvent accepts the message of the event, under its id and on its topic
abbrev pub IsAccepted : Event → Type 0
IsAccepted e =
    (p : ProductEvent) × (decode_event e.payload ≡ ok p)
    × (p.event_id ≡ e.id)
    × (p.event_type ≡ e.topic)

-- what an envelope needs besides its id
pub record IsComplete (e : Envelope) (now : ℕ) : Type 0 where
  pub version : e.schema_version ≡ 1
  pub occurred : e.occurred_at ≡ at now
  pub producer : (e.producer == "") ≡ false
  pub trace : (e.trace_id == "") ≡ false
  pub known : known_topic e.event_type ≡ true
  pub journey : (e.journey_id == "") ≡ false
  pub no_visit : (e.event_type == "visit.attributed.v1") ≡ false

decode_event_complete :
    (e : Envelope) (now : ℕ)
    → (e.event_id == "") ≡ false
    → IsComplete e now
    → decode_event (event e) ≡ ok (product_event e now)
unfolding decode_event is_incomplete
decode_event_complete e now named c =
    rw (named, c.version, c.occurred, c.producer, c.trace, c.known, c.journey, c.no_visit) refl

-- an event that Enqueue takes has an id
enqueue-named :
    (env : Env) (ev : Event) (db : Db) {db' : Db}
    → enqueue env ev db ≡ ok db'
    → (ev.id == "") ≡ false
unfolding enqueue
enqueue-named env ev db e =
    let (given, _) =
      fail_if-ok (ev.id == "" || ev.topic == "" || ev.key == "" || is_malformed ev.payload) _ _ e in
    ground arith

pub enqueue-IsAccepted :
    (env : Env) (ev : Event) (envelope : Envelope) (db : Db) {db' : Db}
    → enqueue env ev db ≡ ok db'
    → ev.payload ≡ event envelope
    → envelope.event_id ≡ ev.id
    → envelope.event_type ≡ ev.topic
    → IsComplete envelope env.now
    → IsAccepted ev
enqueue-IsAccepted env ev envelope db done carries same_id same_topic c =
    let named : (envelope.event_id == "") ≡ false = rw same_id (enqueue-named env ev db done) in
    (
      product_event envelope env.now,
      rw carries (decode_event_complete envelope env.now named c),
      same_id,
      same_topic,
    )
