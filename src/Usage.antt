-- ===== src/Usage.antt =====
-- internal/store/usage.go: request logs are queued without blocking, and one goroutine writes them to
-- the database in batches.
pub mod Writes
pub mod Turns
pub mod Flow
pub mod Close
use sir_auth.Base.{
  ℕ, zero, suc, ◌+◌, ◌/◌, String, Bool, true, false, ◌==◌, ◌&&◌, not, Option, none, some, List, [],
  ◌∷◌, ◌++◌, ltb, leb, if◌then◌else◌, length, update_if,
}
use sir_auth.Model.{RequestLog, ApiToken}
use sir_auth.World.{
  Db, World, UsageQueue, M, Exit, next, Result, failed, ok, ◌>>=◌, ◌>>◌, pure, db_write, second,
}

abbrev pub usage_buffer : ℕ
usage_buffer = 10000

abbrev pub usage_batch : ℕ
usage_batch = 500

-- `LogUsage`: nothing before the start and after the end; a full buffer drops the event.
unfoldable pub enqueue : RequestLog → UsageQueue → UsageQueue
enqueue e q =
    if q.is_open
    then (if ltb (length q.queued) usage_buffer
        then record q { queued = q.queued ++ e ∷ [] }
        else record q { dropped = suc q.dropped })
    else q

unfoldable pub log_usage : RequestLog → M (Unit {0})
unfolding enqueue
log_usage e w = next tt (record w { usage = enqueue e w.usage })

-- `StartUsage`
unfoldable pub start_usage : M (Unit {0})
start_usage w = next tt (record w {
  usage = record w.usage { is_open = true; queued = []; batch = []; is_running = true };
})

-- ── `writeUsage` ──
-- The newest event of each token; of two at the same time, the first.
unfoldable pub note_last :
    String → RequestLog → List (String × RequestLog) → List (String × RequestLog)
note_last t e [] = (t, e) ∷ []
note_last t e ((s, l) ∷ ls) =
    if s == t
    then (if ltb l.ts e.ts then (s, e) ∷ ls else (s, l) ∷ ls)
    else (s, l) ∷ note_last t e ls

abbrev note : RequestLog → List (String × RequestLog) → List (String × RequestLog)
note e ls = elim e.token_id [ none ↦ ls | some t ↦ note_last t e ls ]

unfoldable pub newest : List RequestLog → List (String × RequestLog) → List (String × RequestLog)
unfolding note_last
newest [] ls = ls
newest (e ∷ es) ls = newest es (note e ls)

abbrev pub used_at : RequestLog → ApiToken → ApiToken
used_at e t = record t { last_used_at = some (e.ts / second); last_used_ip = e.ip }

unfoldable pub touch_sql : String → RequestLog → Db → Option (Unit {0} × Db)
touch_sql id e d =
    some (tt, record d { api_tokens = update_if (λ t. t.id == id) (used_at e) d.api_tokens })

-- One UPDATE for each token; that one fails does not stop the others.
unfoldable pub touch_all : List (String × RequestLog) → M (Unit {0})
unfolding touch_sql
touch_all [] = pure tt
touch_all ((t, e) ∷ ls) = do _ ← db_write (touch_sql t e); touch_all ls

-- The rows of the table, the newest first.
unfoldable pub push_all : List RequestLog → List RequestLog → List RequestLog
push_all [] rows = rows
push_all (e ∷ es) rows = push_all es (e ∷ rows)

unfoldable pub insert_logs : List RequestLog → Db → Option (Unit {0} × Db)
unfolding push_all
insert_logs es d = some (tt, record d { request_logs = push_all es d.request_logs })

abbrev add_dropped : ℕ → UsageQueue → UsageQueue
add_dropped n q = record q { dropped = q.dropped + n }

unfoldable pub after_insert : List RequestLog → Result (Unit {0}) → M (Unit {0})
unfolding newest touch_all
after_insert es failed w = next tt (record w { usage = add_dropped (length es) w.usage })
after_insert es (ok _) w = touch_all (newest es []) w

unfoldable pub write_usage : List RequestLog → M (Unit {0})
unfolding insert_logs after_insert
write_usage es = do done ← db_write (insert_logs es); after_insert es done

-- ── `flushLoop` ──
abbrev pub set_batch : List RequestLog → World → World
set_batch es w = record w { usage = record w.usage { batch = es } }

unfoldable pub flush_batch : List RequestLog → M (Unit {0})
unfolding write_usage
flush_batch [] w = next tt w
flush_batch (e ∷ es) w = write_usage (e ∷ es) (set_batch [] w)

unfoldable pub flush : M (Unit {0})
unfolding flush_batch
flush w = flush_batch w.usage.batch w

abbrev pub take_event : RequestLog → List RequestLog → World → World
take_event e es w = record w {
  usage = record w.usage { queued = es; batch = w.usage.batch ++ e ∷ [] };
}

abbrev pub flush_if_full : M (Unit {0})
flush_if_full w = elim (leb usage_batch (length w.usage.batch)) [
  | true ↦ flush w
  | false ↦ next tt w
]

-- One turn of the loop that receives from the channel; an empty channel blocks it.
unfoldable pub receive_from : List RequestLog → M (Unit {0})
unfolding flush
receive_from [] w = next tt w
receive_from (e ∷ es) w = flush_if_full (take_event e es w)

unfoldable pub receive : M (Unit {0})
unfolding receive_from
receive w = receive_from w.usage.queued w

-- The turn that finds the channel closed and empty, which ends the loop.
abbrev pub stop_running : World → World
stop_running w = record w { usage = record w.usage { is_running = false } }

unfoldable pub finish_loop : M (Unit {0})
unfolding flush
finish_loop = do flush; λ w. next tt (stop_running w)

-- `CloseUsage`: no more events, then the loop receives what the channel holds and ends.
abbrev pub close_channel : World → World
close_channel w = record w { usage = record w.usage { is_open = false } }

unfoldable pub drain : List RequestLog → M (Unit {0})
unfolding receive
drain [] = pure tt
drain (e ∷ es) = do receive; drain es

unfoldable pub close_usage : M (Unit {0})
unfolding drain finish_loop
close_usage w = elim w.usage.is_open [
  | false ↦ next tt w
  | true ↦ (do drain w.usage.queued; finish_loop) (close_channel w)
]
