-- ===== src/Usage/Flow.antt =====
-- About the queue of internal/store/usage.go: where an event goes, and how much is held.
use sir_auth.Base.{
  arith, ℕ, ◌+◌, ◌≤◌, true, [], ◌∷◌, ◌≡◌, ◌≢◌, refl, ◌∙◌, suc, length, length-append, Bool-cases,
  inl, inr, ltb, List, Bool, count_if,
}
use sir_auth.Model.{RequestLog}
use sir_auth.World.{World, world_of, lost, Exit, halt, next}
use sir_auth.Outcome.{Gives}
use sir_auth.Usage.{usage_buffer, log_usage, flush, receive}
use sir_auth.Usage.Turns.{IsBounded, IsSafeTurn, receive-IsSafeTurn, flush-IsSafeTurn}
use sir_auth.Usage.Writes.{covered, count_if-append, count_if_le, total}

-- ── What happens while the queue is open ──
-- The events of the list are offered on the way from the first world to the second.
pub data Runs (w : World) : List RequestLog → World → Type 0 where
  here : Runs w [] w
  logged :
      (es : List RequestLog) (v : World) (e : RequestLog)
      → Runs w es v
      → v.usage.is_open ≡ true
      → Runs w (e ∷ es) (world_of (log_usage e v))
  received : (es : List RequestLog) (v : World) → Runs w es v → Runs w es (world_of (receive v))
  ticked : (es : List RequestLog) (v : World) → Runs w es v → Runs w es (world_of (flush v))

log_usage-total :
    (e : RequestLog) (v : World)
    → v.usage.is_open ≡ true
    → total (world_of (log_usage e v)) ≡ suc (total v)
unfolding log_usage
log_usage-total e v o = ground (arith, length-append v.usage.queued (e ∷ []))

log_usage-covered :
    (p : RequestLog → Bool) (e : RequestLog) (v : World)
    → v.usage.is_open ≡ true
    → count_if p (e ∷ []) + covered p v ≤ covered p (world_of (log_usage e v))
unfolding log_usage
log_usage-covered p e v o = elim (Bool-cases (ltb (length v.usage.queued) usage_buffer)) [
  | inl room ↦ rw (o, room) (omega (arith, count_if-append p v.usage.queued (e ∷ [])))
  | inr full ↦ rw (o, full) (omega (arith, count_if_le p (e ∷ [])))
]

log_usage-IsBounded :
    (e : RequestLog) (v : World) → IsBounded v → IsBounded (world_of (log_usage e v))
unfolding log_usage
log_usage-IsBounded e v b = elim (Bool-cases v.usage.is_open) [
  | inr closed ↦ rw closed b
  | inl o ↦ elim (Bool-cases (ltb (length v.usage.queued) usage_buffer)) [
    | inl room ↦ rw (o, room) (ground (arith, length-append v.usage.queued (e ∷ [])), b.1)
    | inr full ↦ rw (o, full) b
  ]
]

log_usage-outside : (e : RequestLog) (v : World) → (world_of (log_usage e v)).outside ≡ v.outside
unfolding log_usage
log_usage-outside e v = refl

turn_of :
    (w : World) (e : Exit (Unit {0})) → Gives (λ _ v. IsSafeTurn w v) e → IsSafeTurn w (world_of e)
turn_of w (next u v) h = h
turn_of w (halt r v) h = absurd h

record IsCounted (w : World) (es : List RequestLog) (v : World) : Type 0 where
  same_outside : v.outside ≡ w.outside
  at_least : length es + total w ≤ total v
  each : (p : RequestLog → Bool) → count_if p es + covered p w ≤ covered p v
  exactly : ((k : ℕ) → w.outside.fate k ≢ lost) → total v ≡ length es + total w
  bounded : IsBounded v

IsCounted-IsSafeTurn :
    (w u v : World) (es : List RequestLog) → IsCounted w es u → IsSafeTurn u v → IsCounted w es v
IsCounted-IsSafeTurn w u v n c (t, b) = record {
  same_outside = t.same_outside ∙ c.same_outside;
  at_least = omega (arith, t.at_least, c.at_least);
  each = λ p. omega (arith, t.each p, c.each p);
  exactly = λ k. t.exactly (rw c.same_outside k) ∙ c.exactly k;
  bounded = b c.bounded;
}

IsCounted-log_usage :
    (w u : World) (es : List RequestLog) (e : RequestLog)
    → IsCounted w es u
    → u.usage.is_open ≡ true
    → IsCounted w (e ∷ es) (world_of (log_usage e u))
IsCounted-log_usage w u es e c o =
    let t : total (world_of (log_usage e u)) ≡ suc (total u) = log_usage-total e u o in
    record {
      same_outside = log_usage-outside e u ∙ c.same_outside;
      at_least = omega (arith, t, c.at_least);
      each = λ p. omega (arith, log_usage-covered p e u o, c.each p, count_if-append p (e ∷ []) es);
      exactly = λ k. omega (arith, t, c.exactly k);
      bounded = log_usage-IsBounded e u c.bounded;
    }

Runs-IsCounted : (w v : World) (es : List RequestLog) → Runs w es v → IsBounded w → IsCounted w es v
unfolding count_if
Runs-IsCounted w v es here b = record {
  same_outside = refl;
  at_least = omega arith;
  each = λ p. omega arith;
  exactly = λ k. omega arith;
  bounded = b;
}
Runs-IsCounted w v es (logged m u e r o) b =
    IsCounted-log_usage w u m e (Runs-IsCounted w u m r b) o
Runs-IsCounted w v es (received m u r) b =
    IsCounted-IsSafeTurn w u (world_of (receive u)) m (Runs-IsCounted w u m r b)
      (turn_of u (receive u) (receive-IsSafeTurn u))
Runs-IsCounted w v es (ticked m u r) b =
    IsCounted-IsSafeTurn w u (world_of (flush u)) m (Runs-IsCounted w u m r b)
      (turn_of u (flush u) (flush-IsSafeTurn u))

-- While the queue is open, of the events that any test picks out, those in the table, in the queue
-- and in the batch, together with the count of all dropped events, grow in number by at least as many
-- as were offered of them. All events in these places and the dropped ones grow by at least the number
-- of events offered, and by just that number if no answer of the database is lost; and the queue and
-- the batch stay within their bounds.
pub Runs-total :
    (w v : World) (es : List RequestLog)
    → Runs w es v
    → IsBounded w
    → ((p : RequestLog → Bool) → count_if p es + covered p w ≤ covered p v)
      × (length es + total w ≤ total v)
      × ((((k : ℕ) → w.outside.fate k ≢ lost) → total v ≡ length es + total w))
      × IsBounded v
Runs-total w v es h b =
    let c = Runs-IsCounted w v es h b in (c.each, c.at_least, c.exactly, c.bounded)
