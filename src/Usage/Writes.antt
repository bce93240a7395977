-- ===== src/Usage/Writes.antt =====
-- About `writeUsage` of internal/store/usage.go.
use sir_auth.Base.{
  arith, ℕ, ◌+◌, ◌≤◌, String, List, [], ◌∷◌, ◌≡◌, ◌≢◌, refl, ◌∙◌, suc, length, ◌++◌, Bool,
  Bool-cases, inl, inr, count_if,
}
use sir_auth.Model.{RequestLog}
use sir_auth.World.{World, Fate, answered, refused, lost, db_write, settle}
use sir_auth.Outcome.{Ends-bind, Ends-mono, Gives}
use sir_auth.Usage.{touch_sql, touch_all, newest, push_all, insert_logs, after_insert, write_usage}

-- The queue, the log and what is outside are as before.
pub record IsBeside (w v : World) : Type 0 where
  pub same_usage : v.usage ≡ w.usage
  pub same_logs : v.db.request_logs ≡ w.db.request_logs
  pub same_outside : v.outside ≡ w.outside

IsBeside-settle :
    (t : Fate) (i : String) (e : RequestLog) (w : World)
    → Gives (λ _ v. IsBeside w v) (settle t (touch_sql i e w.db) w)
unfolding touch_sql
IsBeside-settle answered i e w = record { same_usage = refl; same_logs = refl; same_outside = refl }
IsBeside-settle refused i e w = record { same_usage = refl; same_logs = refl; same_outside = refl }
IsBeside-settle lost i e w = record { same_usage = refl; same_logs = refl; same_outside = refl }

IsBeside-trans : (u v w : World) → IsBeside u v → IsBeside v w → IsBeside u w
IsBeside-trans u v w h k = record {
  same_usage = k.same_usage ∙ h.same_usage;
  same_logs = k.same_logs ∙ h.same_logs;
  same_outside = k.same_outside ∙ h.same_outside;
}

-- The times of last use leave the queue and the log alone.
pub touch_all-IsBeside :
    (ls : List (String × RequestLog)) (w : World) → Gives (λ _ v. IsBeside w v) (touch_all ls w)
unfolding touch_all db_write
touch_all-IsBeside [] w = record { same_usage = refl; same_logs = refl; same_outside = refl }
touch_all-IsBeside ((t, e) ∷ ls) w =
    Ends-bind (λ _ _. ⊥) (λ _ v. IsBeside w v) (db_write (touch_sql t e)) (λ _. touch_all ls) w
      (Ends-mono (db_write (touch_sql t e) w) (λ _ _ h. h)
        (λ _ v h.
          Ends-mono (touch_all ls v) (λ _ _ x. x) (λ _ u k. IsBeside-trans w v u h k)
            (touch_all-IsBeside ls v))
        (IsBeside-settle (w.outside.fate w.calls) t e w))

length-push_all : (es rows : List RequestLog) → length (push_all es rows) ≡ length es + length rows
unfolding push_all
length-push_all [] rows = omega arith
length-push_all (e ∷ es) rows = omega (arith, length-push_all es (e ∷ rows))

pub count_if-append :
    (p : RequestLog → Bool) (xs ys : List RequestLog)
    → count_if p (xs ++ ys) ≡ count_if p xs + count_if p ys
unfolding count_if
count_if-append p [] ys = omega arith
count_if-append p (x ∷ xs) ys = omega (arith, count_if-append p xs ys)

pub count_if_le : (p : RequestLog → Bool) (xs : List RequestLog) → count_if p xs ≤ length xs
unfolding count_if
count_if_le p [] = omega arith
count_if_le p (x ∷ xs) = elim (Bool-cases (p x)) [
  | inl chosen ↦ rw chosen (omega (arith, count_if_le p xs))
  | inr other ↦ rw other (omega (arith, count_if_le p xs))
]

count_if-push_all :
    (p : RequestLog → Bool) (es rows : List RequestLog)
    → count_if p (push_all es rows) ≡ count_if p es + count_if p rows
unfolding push_all count_if
count_if-push_all p [] rows = omega arith
count_if-push_all p (e ∷ es) rows = omega (arith, count_if-push_all p es (e ∷ rows))

-- What is held or written of the events that a test picks out, and everything that is dropped.
abbrev pub covered : (RequestLog → Bool) → World → ℕ
covered p w =
    count_if p w.db.request_logs
    + count_if p w.usage.queued
    + count_if p w.usage.batch
    + w.usage.dropped

-- Everything that is held, written or counted as dropped.
abbrev pub total : World → ℕ
total w = length w.db.request_logs + length w.usage.queued + length w.usage.batch + w.usage.dropped

-- What a turn of the loop does to the totals: nothing is forgotten, and nothing is counted twice
-- unless the answer of the database was lost.
pub record IsTurn (w v : World) : Type 0 where
  pub same_outside : v.outside ≡ w.outside
  pub is_open : v.usage.is_open ≡ w.usage.is_open
  pub at_least : total w ≤ total v
  pub each : (p : RequestLog → Bool) → covered p w ≤ covered p v
  pub exactly : ((k : ℕ) → w.outside.fate k ≢ lost) → total v ≡ total w

-- A batch that is being written stands in no place of the queue.
abbrev pub IsWritten : List RequestLog → World → World → Type 0
IsWritten es w v =
    (v.outside ≡ w.outside)
    × (v.usage.is_open ≡ w.usage.is_open)
    × (v.usage.queued ≡ w.usage.queued)
    × (v.usage.batch ≡ w.usage.batch)
    × (length es + total w ≤ total v)
    × ((p : RequestLog → Bool) → count_if p es + covered p w ≤ covered p v)
    × (((k : ℕ) → w.outside.fate k ≢ lost) → total v ≡ length es + total w)

IsWritten-IsBeside :
    (es : List RequestLog) (w u v : World) → IsWritten es w u → IsBeside u v → IsWritten es w v
IsWritten-IsBeside es w u v (o, p, q, b, l, c, x) h =
    let same : total v ≡ total u = rw (h.same_logs, h.same_usage) refl in
    (
      h.same_outside ∙ o,
      rw h.same_usage p,
      rw h.same_usage q,
      rw h.same_usage b,
      omega (arith, same, l),
      λ f.
          let same_f : covered f v ≡ covered f u = rw (h.same_logs, h.same_usage) refl in
          omega (arith, same_f, c f),
      λ k. same ∙ x k,
    )

write_settle :
    (t : Fate) (es : List RequestLog) (w : World)
    → ((((k : ℕ) → w.outside.fate k ≢ lost) → t ≢ lost))
    → Gives
        (λ o u. Gives (λ _ v. IsWritten es w v) (after_insert es o u))
        (settle t (insert_logs es w.db) w)
unfolding insert_logs after_insert
write_settle refused es w n =
    (refl, refl, refl, refl, omega arith, λ f. omega (arith, count_if_le f es), λ k. omega arith)
write_settle lost es w n = (
  refl,
  refl,
  refl,
  refl,
  omega (arith, length-push_all es w.db.request_logs),
  λ f. omega (arith, count_if-push_all f es w.db.request_logs),
  λ k. absurd (n k refl),
)
write_settle answered es w n =
    let v : World = record w {
      calls = suc w.calls;
      db = record w.db { request_logs = push_all es w.db.request_logs };
    } in
    Ends-mono (touch_all (newest es []) v) (λ _ _ h. h)
      (λ _ u h.
        IsWritten-IsBeside es w v u
          (
            refl,
            refl,
            refl,
            refl,
            omega (arith, length-push_all es w.db.request_logs),
            λ f. omega (arith, count_if-push_all f es w.db.request_logs),
            λ k. omega (arith, length-push_all es w.db.request_logs),
          )
          h)
      (touch_all-IsBeside (newest es []) v)

pub write_usage-IsWritten :
    (es : List RequestLog) (w : World) → Gives (λ _ v. IsWritten es w v) (write_usage es w)
unfolding write_usage db_write
write_usage-IsWritten es w =
    Ends-bind (λ _ _. ⊥) (λ _ v. IsWritten es w v) (db_write (insert_logs es)) (after_insert es) w
      (write_settle (w.outside.fate w.calls) es w (λ k. k w.calls))
