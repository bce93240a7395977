-- ===== src/Usage/Close.antt =====
-- About `CloseUsage` of internal/store/usage.go: it waits until everything that is queued is written.
use sir_auth.Base.{
  ℕ, suc, true, false, List, [], ◌∷◌, ◌++◌, ◌≡◌, refl, sym, subst, ap, ◌∙◌, length, leb,
}
use sir_auth.Model.{RequestLog}
use sir_auth.World.{World, Fate, answered, next, db_write, settle, ◌>>◌}
use sir_auth.Outcome.{Ends-bind, Ends-mono, Ends-test, Gives}
use sir_auth.Usage.{
  usage_batch, touch_all, newest, push_all, insert_logs, after_insert, write_usage, set_batch,
  flush_batch, flush, take_event, receive_from, receive, drain, finish_loop, stop_running,
  close_channel, close_usage,
}
use sir_auth.Usage.Writes.{touch_all-IsBeside}

-- The database answers.
abbrev pub Answers : World → Type 0
Answers w = (k : ℕ) → w.outside.fate k ≡ answered

push_all-append :
    (xs ys rows : List RequestLog) → push_all (xs ++ ys) rows ≡ push_all ys (push_all xs rows)
unfolding push_all
push_all-append [] ys rows = refl
push_all-append (x ∷ xs) ys rows = push_all-append xs ys (x ∷ rows)

append_one : (xs ys : List RequestLog) (x : RequestLog) → (xs ++ x ∷ []) ++ ys ≡ xs ++ x ∷ ys
append_one [] ys x = refl
append_one (y ∷ xs) ys x = ap (λ zs. y ∷ zs) (append_one xs ys x)

record IsStored (es : List RequestLog) (w v : World) : Type 0 where
  same_outside : v.outside ≡ w.outside
  same_usage : v.usage ≡ w.usage
  rows : v.db.request_logs ≡ push_all es w.db.request_logs

IsStored-settle :
    (t : Fate) (es : List RequestLog) (w : World)
    → t ≡ answered
    → Gives
        (λ o u. Gives (λ _ v. IsStored es w v) (after_insert es o u))
        (settle t (insert_logs es w.db) w)
unfolding insert_logs after_insert
IsStored-settle t es w e =
    let v : World = record w {
      calls = suc w.calls;
      db = record w.db { request_logs = push_all es w.db.request_logs };
    } in
    let touched =
      Ends-mono {O = λ _ u. IsStored es w u} (touch_all (newest es []) v) (λ _ _ h. h)
        (λ _ u h. record {
          same_outside = h.same_outside;
          same_usage = h.same_usage;
          rows = h.same_logs;
        })
        (touch_all-IsBeside (newest es []) v) in
    rw e touched

write_usage-IsStored :
    (es : List RequestLog) (w : World)
    → Answers w
    → Gives (λ _ v. IsStored es w v) (write_usage es w)
unfolding write_usage db_write
write_usage-IsStored es w k =
    Ends-bind (λ _ _. ⊥) (λ _ v. IsStored es w v) (db_write (insert_logs es)) (after_insert es) w
      (IsStored-settle (w.outside.fate w.calls) es w (k w.calls))

-- What the table will hold once everything that is held is written.
abbrev at_last : World → List RequestLog
at_last w = push_all (w.usage.batch ++ w.usage.queued) w.db.request_logs

-- A turn on the way to the end.
record IsDrained (es : List RequestLog) (w v : World) : Type 0 where
  same_outside : v.outside ≡ w.outside
  closed : v.usage.is_open ≡ w.usage.is_open
  same_dropped : v.usage.dropped ≡ w.usage.dropped
  left : v.usage.queued ≡ es
  same_rows : at_last v ≡ at_last w

record IsEmptied (w v : World) : Type 0 where
  same_outside : v.outside ≡ w.outside
  same_usage : v.usage ≡ record w.usage { batch = [] }
  rows : v.db.request_logs ≡ push_all w.usage.batch w.db.request_logs

flush_batch-IsEmptied :
    (es : List RequestLog) (w : World)
    → Answers w
    → w.usage.batch ≡ es
    → Gives (λ _ v. IsEmptied w v) (flush_batch es w)
unfolding flush_batch push_all
flush_batch-IsEmptied [] w k e = record {
  same_outside = refl;
  same_usage = rw (sym e) refl;
  rows = rw e refl;
}
flush_batch-IsEmptied (a ∷ es) w k e =
    Ends-mono (write_usage (a ∷ es) (set_batch [] w)) (λ _ _ h. h)
      (λ _ v h. record {
        same_outside = h.same_outside;
        same_usage = h.same_usage;
        rows = rw e h.rows;
      })
      (write_usage-IsStored (a ∷ es) (set_batch [] w) k)

flush-IsEmptied : (w : World) → Answers w → Gives (λ _ v. IsEmptied w v) (flush w)
unfolding flush
flush-IsEmptied w k = flush_batch-IsEmptied w.usage.batch w k refl

emptied-IsDrained :
    (e : RequestLog) (es : List RequestLog) (w v : World)
    → w.usage.queued ≡ e ∷ es
    → IsEmptied (take_event e es w) v
    → IsDrained es w v
unfolding push_all
emptied-IsDrained e es w v q h = record {
  same_outside = h.same_outside;
  closed = rw h.same_usage refl;
  same_dropped = rw h.same_usage refl;
  left = rw h.same_usage refl;
  same_rows =
      rw (h.same_usage, h.rows, q)
        (sym (push_all-append (w.usage.batch ++ e ∷ []) es w.db.request_logs)
          ∙ ap (λ zs. push_all zs w.db.request_logs) (append_one w.usage.batch es e));
}

receive_from-IsDrained :
    (e : RequestLog) (es : List RequestLog) (w : World)
    → Answers w
    → w.usage.queued ≡ e ∷ es
    → Gives (λ _ v. IsDrained es w v) (receive_from (e ∷ es) w)
unfolding receive_from
receive_from-IsDrained e es w k q =
    Ends-test (λ _ _. ⊥) (λ _ v. IsDrained es w v)
      (leb usage_batch (length (w.usage.batch ++ e ∷ []))) (flush (take_event e es w))
      (next tt (take_event e es w))
      (λ _.
        Ends-mono (flush (take_event e es w)) (λ _ _ h. h) (λ _ v h. emptied-IsDrained e es w v q h)
          (flush-IsEmptied (take_event e es w) k))
      (λ _. record {
        same_outside = refl;
        closed = refl;
        same_dropped = refl;
        left = refl;
        same_rows = rw q (ap (λ zs. push_all zs w.db.request_logs) (append_one w.usage.batch es e));
      })

receive-IsDrained :
    (e : RequestLog) (es : List RequestLog) (w : World)
    → Answers w
    → w.usage.queued ≡ e ∷ es
    → Gives (λ _ v. IsDrained es w v) (receive w)
unfolding receive
receive-IsDrained e es w k q =
    subst (λ zs. Gives (λ _ v. IsDrained es w v) (receive_from zs w)) (sym q)
      (receive_from-IsDrained e es w k q)

-- The queue of the closed channel, received event by event.
drain_trans :
    (es : List RequestLog) (w u v : World) → IsDrained es w u → IsDrained [] u v → IsDrained [] w v
drain_trans es w u v h k = record {
  same_outside = k.same_outside ∙ h.same_outside;
  closed = k.closed ∙ h.closed;
  same_dropped = k.same_dropped ∙ h.same_dropped;
  left = k.left;
  same_rows = k.same_rows ∙ h.same_rows;
}

drain-IsDrained :
    (es : List RequestLog) (w : World)
    → Answers w
    → w.usage.queued ≡ es
    → Gives (λ _ v. IsDrained [] w v) (drain es w)
unfolding drain
drain-IsDrained [] w k q = record {
  same_outside = refl;
  closed = refl;
  same_dropped = refl;
  left = q;
  same_rows = refl;
}
drain-IsDrained (e ∷ es) w k q =
    Ends-bind (λ _ _. ⊥) (λ _ v. IsDrained [] w v) receive (λ _. drain es) w
      (Ends-mono (receive w) (λ _ _ h. h)
        (λ _ u h.
          Ends-mono (drain es u) (λ _ _ x. x) (λ _ v i. drain_trans es w u v h i)
            (drain-IsDrained es u (λ n. rw h.same_outside (k n)) h.left))
        (receive-IsDrained e es w k q))

-- Everything is written, nothing more is dropped, and the loop has ended.
pub record IsClosed (w v : World) : Type 0 where
  pub rows : v.db.request_logs ≡ push_all (w.usage.batch ++ w.usage.queued) w.db.request_logs
  pub closed : v.usage.is_open ≡ false
  pub no_queue : v.usage.queued ≡ []
  pub no_batch : v.usage.batch ≡ []
  pub ended : v.usage.is_running ≡ false
  pub same_dropped : v.usage.dropped ≡ w.usage.dropped

append_none : (xs : List RequestLog) → xs ++ [] ≡ xs
append_none [] = refl
append_none (x ∷ xs) = ap (λ ys. x ∷ ys) (append_none xs)

finished-IsClosed :
    (w u v : World) → IsDrained [] (close_channel w) u → IsEmptied u v → IsClosed w (stop_running v)
finished-IsClosed w u v h k = record {
  rows =
      k.rows
      ∙ ap (λ zs. push_all zs u.db.request_logs)
          (sym (append_none u.usage.batch) ∙ ap (λ q. u.usage.batch ++ q) (sym h.left))
      ∙ h.same_rows;
  closed = rw k.same_usage h.closed;
  no_queue = rw k.same_usage h.left;
  no_batch = rw k.same_usage refl;
  ended = refl;
  same_dropped = rw k.same_usage h.same_dropped;
}

-- Closing the queue while the database answers ends the loop that writes it, with every event of the
-- batch and of the queue in the table, in their order, the newest first, and no event dropped.
pub close_usage-IsClosed :
    (w : World) → w.usage.is_open ≡ true → Answers w → Gives (λ _ v. IsClosed w v) (close_usage w)
unfolding close_usage finish_loop
close_usage-IsClosed w o k =
    Ends-test (λ _ _. ⊥) (λ _ v. IsClosed w v) w.usage.is_open
      ((do drain w.usage.queued; finish_loop) (close_channel w)) (next tt w)
      (λ _.
        Ends-bind (λ _ _. ⊥) (λ _ v. IsClosed w v) (drain w.usage.queued) (λ _. finish_loop)
          (close_channel w)
          (Ends-mono (drain w.usage.queued (close_channel w)) (λ _ _ h. h)
            (λ _ u h.
              Ends-bind (λ _ _. ⊥) (λ _ v. IsClosed w v) flush (λ _ v. next tt (stop_running v)) u
                (Ends-mono (flush u) (λ _ _ x. x) (λ _ v i. finished-IsClosed w u v h i)
                  (flush-IsEmptied u (λ n. rw h.same_outside (k n)))))
            (drain-IsDrained w.usage.queued (close_channel w) k refl)))
      (λ closed. cc)
