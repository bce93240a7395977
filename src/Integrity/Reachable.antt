-- ===== src/Integrity/Reachable.antt =====
-- About the whole process: the requests that main.go serves, and the turns of the loop of
-- internal/store/usage.go between them, in any order.
use sir_auth.Base.{String, ◌==◌, List, [], ◌∷◌, refl, leb, length}
use sir_auth.Model.{RequestLog}
use sir_auth.World.{World, Request, Result, failed, ok, world_of, next, halt, Exit, ◌>>◌}
use sir_auth.Outcome.{Ends, Ends-test}
use sir_auth.Server.{serve}
use sir_auth.Usage.{
  start_usage, used_at, touch_sql, touch_all, insert_logs, push_all, after_insert, write_usage,
  flush_batch, flush, take_event, flush_if_full, receive_from, receive, drain, finish_loop,
  close_channel, close_usage, usage_batch, newest,
}
use sir_auth.Integrity.{IsWf, Keeps, KeepsSql}
use sir_auth.Integrity.Rules.{bind-Keeps, then-Keeps, pure-Keeps, write-Keeps, test-Keeps}
use sir_auth.Integrity.Writes.{update_api_tokens_IsWf}
use sir_auth.Integrity.Store.{with_logs_IsWf}
use sir_auth.Integrity.Serve.{serve-Keeps}

-- ── internal/store/usage.go ──
touch_sql-Keeps : (i : String) (e : RequestLog) → KeepsSql IsWf (touch_sql i e)
unfolding touch_sql
touch_sql-Keeps i e d =
    update_api_tokens_IsWf (λ t. t.id == i) (used_at e) d (λ _. refl) (λ _. refl) (λ _. refl)

touch_all-Keeps : (ls : List (String × RequestLog)) → Keeps IsWf (touch_all ls)
unfolding touch_all
touch_all-Keeps [] = pure-Keeps
touch_all-Keeps ((t, e) ∷ ls) =
    bind-Keeps (write-Keeps _ (touch_sql-Keeps t e)) (λ _. touch_all-Keeps ls)

insert_logs-Keeps : (es : List RequestLog) → KeepsSql IsWf (insert_logs es)
unfolding insert_logs
insert_logs-Keeps es d = with_logs_IsWf d (push_all es d.request_logs)

after_insert-Keeps : (es : List RequestLog) (o : Result (Unit {0})) → Keeps IsWf (after_insert es o)
unfolding after_insert
after_insert-Keeps es failed = record { kept = λ w p. p }
after_insert-Keeps es (ok u) = record { kept = (touch_all-Keeps (newest es [])).kept }

write_usage-Keeps : (es : List RequestLog) → Keeps IsWf (write_usage es)
unfolding write_usage
write_usage-Keeps es = bind-Keeps (write-Keeps _ (insert_logs-Keeps es)) (after_insert-Keeps es)

flush_batch-Keeps : (es : List RequestLog) → Keeps IsWf (flush_batch es)
unfolding flush_batch
flush_batch-Keeps [] = record { kept = λ w p. p }
flush_batch-Keeps (e ∷ es) = record { kept = λ w p. (write_usage-Keeps (e ∷ es)).kept _ p }

flush-Keeps : Keeps IsWf flush
unfolding flush
flush-Keeps = record { kept = λ w p. (flush_batch-Keeps w.usage.batch).kept w p }

flush_if_full-Keeps : Keeps IsWf flush_if_full
flush_if_full-Keeps = record {
  kept = λ w p.
      (test-Keeps (leb usage_batch (length w.usage.batch)) flush-Keeps (pure-Keeps {a = tt})).kept w
        p;
}

receive_from-Keeps : (es : List RequestLog) → Keeps IsWf (receive_from es)
unfolding receive_from
receive_from-Keeps [] = record { kept = λ w p. p }
receive_from-Keeps (e ∷ es) = record {
  kept = λ w p. flush_if_full-Keeps.kept (take_event e es w) p;
}

receive-Keeps : Keeps IsWf receive
unfolding receive
receive-Keeps = record { kept = λ w p. (receive_from-Keeps w.usage.queued).kept w p }

drain-Keeps : (es : List RequestLog) → Keeps IsWf (drain es)
unfolding drain
drain-Keeps [] = pure-Keeps
drain-Keeps (e ∷ es) = then-Keeps receive-Keeps (drain-Keeps es)

finish_loop-Keeps : Keeps IsWf finish_loop
unfolding finish_loop
finish_loop-Keeps = then-Keeps flush-Keeps (record { kept = λ w p. p })

close_usage-Keeps : Keeps IsWf close_usage
unfolding close_usage
close_usage-Keeps = record {
  kept = λ w p.
      Ends-test (λ _ v. IsWf v.db) (λ _ v. IsWf v.db) w.usage.is_open
        ((do drain w.usage.queued; finish_loop) (close_channel w)) (next tt w)
        (λ _. (then-Keeps (drain-Keeps w.usage.queued) finish_loop-Keeps).kept (close_channel w) p)
        (λ _. p);
}

-- What the process does, in steps that no other step cuts in two.
pub data Reach (start : World) : World → Type 0 where
  here : Reach start start
  served : (w : World) (r : Request) → Reach start w → Reach start (world_of (serve r w))
  started : (w : World) → Reach start w → Reach start (world_of (start_usage w))
  received : (w : World) → Reach start w → Reach start (world_of (receive w))
  ticked : (w : World) → Reach start w → Reach start (world_of (flush w))
  closed : (w : World) → Reach start w → Reach start (world_of (close_usage w))

kept_world :
    {A : Type 0} (e : Exit A) → Ends (λ _ v. IsWf v.db) (λ _ v. IsWf v.db) e → IsWf (world_of e).db
kept_world (halt r w) h = h
kept_world (next a w) h = h

started-IsWf : (w : World) → IsWf w.db → IsWf (world_of (start_usage w)).db
unfolding start_usage
started-IsWf w p = p

-- From tables that obey the schema, whatever requests are served and whatever the database answers,
-- the process reaches only tables that obey it: keys are unique, roles are valid, and every code,
-- refresh token and personal token belongs to a user and a client that are there.
pub Reach-IsWf : (start w : World) → Reach start w → IsWf start.db → IsWf w.db
Reach-IsWf start w here p = p
Reach-IsWf start w (served v r h) p =
    kept_world (serve r v) ((serve-Keeps r).kept v (Reach-IsWf start v h p))
Reach-IsWf start w (started v h) p = started-IsWf v (Reach-IsWf start v h p)
Reach-IsWf start w (received v h) p =
    kept_world (receive v) (receive-Keeps.kept v (Reach-IsWf start v h p))
Reach-IsWf start w (ticked v h) p =
    kept_world (flush v) (flush-Keeps.kept v (Reach-IsWf start v h p))
Reach-IsWf start w (closed v h) p =
    kept_world (close_usage v) (close_usage-Keeps.kept v (Reach-IsWf start v h p))
