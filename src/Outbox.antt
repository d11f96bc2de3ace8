-- ===== src/Outbox.antt =====
-- The outbox publisher: `processBatch` of internal/outbox/publisher.go over internal/outbox/store.go.
-- Whether the handler takes an event is a parameter. There is one publisher, so no row is locked by
-- another (SKIP LOCKED).
pub mod Batch
use mynance.Base.{
  ℕ, suc, ◌+◌, Bool, true, false, List, [], ◌∷◌, ◌++◌, map, take, if◌then◌else◌, ◌==◌,
}
use mynance.Shared.{Result, ok, ◌>>=◌, ◌>>◌}
use mynance.Store.{
  Uuid, Env, io, begin, commit, query, exec, Db, OutboxEvent, OutboxStatus, pending_event,
  processed_event,
}

abbrev pub batch_size : ℕ
batch_size = 50

abbrev pub is_waiting : OutboxStatus → Bool
is_waiting pending_event = true
is_waiting processed_event = false

-- The pending events, the oldest first.
unfoldable pub waiting_events : List OutboxEvent → List OutboxEvent
waiting_events [] = []
waiting_events (e ∷ rest) =
    if is_waiting e.status then waiting_events rest ++ (e ∷ []) else waiting_events rest

-- `ListPending`
unfoldable pub list_pending : Env → Db → Result (List OutboxEvent)
list_pending env db = do io env (query 0); ok (take batch_size (waiting_events db.outbox))

abbrev pub processed : Uuid → OutboxEvent → OutboxEvent
processed id e = if e.id == id then record e { status = processed_event } else e

abbrev pub retried : Uuid → OutboxEvent → OutboxEvent
retried id e = if e.id == id then record e { retries = suc e.retries } else e

-- `MarkProcessed`
unfoldable pub mark_processed : Env → ℕ → Uuid → Db → Result Db
mark_processed env call id db = do
  io env (exec call)
  ok (record db { outbox = map (processed id) db.outbox })

-- `IncrementRetries`
unfoldable pub increment_retries : Env → ℕ → Uuid → Db → Result Db
increment_retries env call id db = do
  io env (exec call)
  ok (record db { outbox = map (retried id) db.outbox })

-- The loop over the events of a batch.
unfoldable pub process_events : Env → (OutboxEvent → Bool) → ℕ → List OutboxEvent → Db → Result Db
process_events env handler call [] db = ok db
process_events env handler call (e ∷ rest) db =
    (if handler e then mark_processed env call e.id db else increment_retries env call e.id db)
    >>= λ next. process_events env handler (suc call) rest next

-- `processBatch`
unfoldable pub process_batch : Env → (OutboxEvent → Bool) → Db → Result Db
process_batch env handler db = do
  io env begin
  events ← list_pending env db
  done ← process_events env handler 0 events db
  io env commit
  ok done
