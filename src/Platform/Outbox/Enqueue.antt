-- ===== src/Platform/Outbox/Enqueue.antt =====
-- internal/platform/outbox/outbox.go, `Enqueue`: what a call that succeeds has written.
use spacetime_node.Prelude.{◌≡◌, arith}
use spacetime_node.Prelude.Table.{insert_row}
use spacetime_node.Platform.Env.{Env}
use spacetime_node.Platform.Result.{ok}
use spacetime_node.Platform.Database.{Db}
use spacetime_node.Platform.Outbox.{Event, enqueue, new_row}

pub enqueue_lem :
    (env : Env) (ev : Event) (db : Db) {db' : Db}
    → enqueue env ev db ≡ ok db'
    → db' ≡ record db { outbox_events = insert_row (new_row env ev) db.outbox_events }
unfolding enqueue
enqueue_lem env ev db e = ground arith
