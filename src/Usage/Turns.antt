-- ===== src/Usage/Turns.antt =====
-- About the turns of `flushLoop` in internal/store/usage.go: what one turn moves.
use sir_auth.Base.{
  Bool, count_if, arith, ◌≤◌, ◌<◌, false, List, [], ◌∷◌, ◌++◌, ◌≡◌, refl, ◌∙◌, suc, length,
  length-append, leb,
}
use sir_auth.Model.{RequestLog}
use sir_auth.World.{World, next}
use sir_auth.Outcome.{Ends-mono, Ends-test, Gives}
use sir_auth.Usage.{
  usage_buffer, usage_batch, write_usage, set_batch, flush_batch, flush, take_event, receive_from,
  receive,
}
use sir_auth.Usage.Writes.{
  covered, count_if-append, total, IsTurn, IsWritten, write_usage-IsWritten,
}

-- ── The turns of `flushLoop` ──
abbrev pub IsBounded : World → Type 0
IsBounded w = (length w.usage.queued ≤ usage_buffer) × (length w.usage.batch < usage_batch)

pub record IsFlushed (w v : World) : Type 0 where
  pub turn : IsTurn w v
  pub same_queue : v.usage.queued ≡ w.usage.queued
  pub no_batch : v.usage.batch ≡ []

written-IsFlushed :
    (es : List RequestLog) (w v : World)
    → w.usage.batch ≡ es
    → IsWritten es (set_batch [] w) v
    → IsFlushed w v
unfolding count_if
written-IsFlushed es w v e (o, p, q, b, l, c, x) = record {
  turn = record {
    same_outside = o;
    is_open = p;
    at_least = let n : length w.usage.batch ≡ length es = rw e refl in omega (arith, l, n);
    each =
        λ f. let n : count_if f w.usage.batch ≡ count_if f es = rw e refl in omega (arith, c f, n);
    exactly = λ k. let n : length w.usage.batch ≡ length es = rw e refl in omega (arith, x k, n);
  };
  same_queue = q;
  no_batch = b;
}

flush_batch-IsFlushed :
    (es : List RequestLog) (w : World)
    → w.usage.batch ≡ es
    → Gives (λ _ v. IsFlushed w v) (flush_batch es w)
unfolding flush_batch
flush_batch-IsFlushed [] w e = record {
  turn = record {
    same_outside = refl;
    is_open = refl;
    at_least = omega arith;
    each = λ f. omega arith;
    exactly = λ k. refl;
  };
  same_queue = refl;
  no_batch = e;
}
flush_batch-IsFlushed (a ∷ es) w e =
    Ends-mono (write_usage (a ∷ es) (set_batch [] w)) (λ _ _ h. h)
      (λ _ v h. written-IsFlushed (a ∷ es) w v e h)
      (write_usage-IsWritten (a ∷ es) (set_batch [] w))

pub flush-IsFlushed : (w : World) → Gives (λ _ v. IsFlushed w v) (flush w)
unfolding flush
flush-IsFlushed w = flush_batch-IsFlushed w.usage.batch w refl

-- A turn keeps the bounds.
abbrev pub IsSafeTurn : World → World → Type 0
IsSafeTurn w v = IsTurn w v × (IsBounded w → IsBounded v)

flushed-IsSafeTurn : (w v : World) → IsFlushed w v → IsSafeTurn w v
flushed-IsSafeTurn w v h = (
  h.turn,
  λ b.
      let q : length v.usage.queued ≡ length w.usage.queued = rw h.same_queue refl in
      let n : length v.usage.batch ≡ 0 = rw h.no_batch refl in
      (omega (arith, q, b.0), omega (arith, n)),
)

-- Receiving moves an event from the queue to the batch.
total-take_event :
    (e : RequestLog) (es : List RequestLog) (w : World)
    → w.usage.queued ≡ e ∷ es
    → total (take_event e es w) ≡ total w
total-take_event e es w h =
    let n : length w.usage.queued ≡ suc (length es) = rw h refl in
    omega (arith, n, length-append w.usage.batch (e ∷ []))

covered-take_event :
    (p : RequestLog → Bool) (e : RequestLog) (es : List RequestLog) (w : World)
    → w.usage.queued ≡ e ∷ es
    → covered p (take_event e es w) ≡ covered p w
unfolding count_if
covered-take_event p e es w h =
    let n : count_if p w.usage.queued ≡ count_if p (e ∷ es) = rw h refl in
    omega (arith, n, count_if-append p w.usage.batch (e ∷ []))

took_full :
    (e : RequestLog) (es : List RequestLog) (w v : World)
    → w.usage.queued ≡ e ∷ es
    → IsFlushed (take_event e es w) v
    → IsSafeTurn w v
took_full e es w v h f =
    let t : total (take_event e es w) ≡ total w = total-take_event e es w h in
    let q : length v.usage.queued ≡ length es = rw f.same_queue refl in
    let n : length w.usage.queued ≡ suc (length es) = rw h refl in
    let m : length v.usage.batch ≡ 0 = rw f.no_batch refl in
    (
      record {
        same_outside = f.turn.same_outside;
        is_open = f.turn.is_open;
        at_least = omega (arith, t, f.turn.at_least);
        each = λ p. omega (arith, covered-take_event p e es w h, f.turn.each p);
        exactly = λ k. f.turn.exactly k ∙ t;
      },
      λ b. (omega (arith, q, n, b.0), omega (arith, m)),
    )

took_few :
    (e : RequestLog) (es : List RequestLog) (w : World)
    → w.usage.queued ≡ e ∷ es
    → leb usage_batch (length (w.usage.batch ++ e ∷ [])) ≡ false
    → IsSafeTurn w (take_event e es w)
took_few e es w h few =
    let t : total (take_event e es w) ≡ total w = total-take_event e es w h in
    let n : length w.usage.queued ≡ suc (length es) = rw h refl in
    (
      record {
        same_outside = refl;
        is_open = refl;
        at_least = omega (arith, t);
        each = λ p. omega (arith, covered-take_event p e es w h);
        exactly = λ k. t;
      },
      λ b. (omega (arith, n, b.0), ground arith),
    )

receive_from-IsSafeTurn :
    (es : List RequestLog) (w : World)
    → w.usage.queued ≡ es
    → Gives (λ _ v. IsSafeTurn w v) (receive_from es w)
unfolding receive_from
receive_from-IsSafeTurn [] w h = (
  record {
    same_outside = refl;
    is_open = refl;
    at_least = omega arith;
    each = λ p. omega arith;
    exactly = λ k. refl;
  },
  λ b. b,
)
receive_from-IsSafeTurn (e ∷ es) w h =
    Ends-test (λ _ _. ⊥) (λ _ v. IsSafeTurn w v)
      (leb usage_batch (length (w.usage.batch ++ e ∷ []))) (flush (take_event e es w))
      (next tt (take_event e es w))
      (λ full.
        Ends-mono (flush (take_event e es w)) (λ _ _ x. x) (λ _ v f. took_full e es w v h f)
          (flush-IsFlushed (take_event e es w)))
      (λ few. took_few e es w h few)

pub receive-IsSafeTurn : (w : World) → Gives (λ _ v. IsSafeTurn w v) (receive w)
unfolding receive
receive-IsSafeTurn w = receive_from-IsSafeTurn w.usage.queued w refl

pub flush-IsSafeTurn : (w : World) → Gives (λ _ v. IsSafeTurn w v) (flush w)
flush-IsSafeTurn w =
    Ends-mono (flush w) (λ _ _ h. h) (λ _ v h. flushed-IsSafeTurn w v h) (flush-IsFlushed w)
