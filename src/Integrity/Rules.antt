-- ===== src/Integrity/Rules.antt =====
-- The rules by which an action keeps a property of the tables: one for each way to compose actions.
use sir_auth.Base.{arith, ℕ, String, Bool, true, false, Option, none, some, List, [], ◌∷◌}
use sir_auth.World.{
  Db, World, Fate, answered, refused, lost, M, ◌>>=◌, ◌>>◌, ask, pure, respond, Result, failed, ok,
  Response, stop_if, or_stop, some_or_stop, on_ok, now_ns, now_unix, settle, db_read, db_write,
  open_store, each,
}
use sir_auth.Token.{random_string, hash_password}
use sir_auth.Outcome.{Ends, Ends-bind, Ends-mono}
use sir_auth.Integrity.{Keeps, KeepsSql, OnRows}

-- A statement that is lost, refused or answered.
settle-Keeps :
    (P : Db → Type 0) {A : Type 0} (t : Fate) (o : Option (A × Db)) (w : World)
    → P w.db
    → OnRows P o
    → Ends (λ _ w'. P w'.db) (λ _ w'. P w'.db) (settle t o w)
settle-Keeps P refused o w p i = p
settle-Keeps P answered none w p i = p
settle-Keeps P answered (some (a, d)) w p i = i
settle-Keeps P lost none w p i = p
settle-Keeps P lost (some (a, d)) w p i = i

module _ {P : Db → Type 0} where
  pub bind-Keeps :
      {A B : Type 0} {m : M A} {f : A → M B}
      → Keeps P m
      → ((a : A) → Keeps P (f a))
      → Keeps P (m >>= f)
  bind-Keeps {A = A} {B = B} {m = m} {f = f} h k = record {
    kept = λ w p.
        Ends-bind (λ _ w'. P w'.db) (λ _ w'. P w'.db) m f w
          (Ends-mono (m w) (λ _ _ i. i) (λ a w' i. (k a).kept w' i) (h.kept w p));
  }

  pub then-Keeps :
      {B : Type 0} {m : M (Unit {0})} {k : M B} → Keeps P m → Keeps P k → Keeps P (m >> k)
  then-Keeps {m = m} {k = k} h i = bind-Keeps {m = m} {f = λ _. k} h (λ _. i)

  pub pure-Keeps : {A : Type 0} {a : A} → Keeps P (pure a)
  pure-Keeps = record { kept = λ w p. p }

  pub each-Keeps :
      {A B : Type 0} {f : A → M B} → ((a : A) → Keeps P (f a)) → (xs : List A) → Keeps P (each f xs)
  unfolding each
  each-Keeps h [] = record { kept = λ w p. p }
  each-Keeps h (x ∷ xs) = record {
    kept = (bind-Keeps (h x) (λ y. bind-Keeps (each-Keeps h xs) (λ ys. pure-Keeps))).kept;
  }

  pub respond-Keeps : {A : Type 0} {r : Response} → Keeps {A = A} P (respond r)
  respond-Keeps = record { kept = λ w p. p }

  pub ask-Keeps : Keeps P ask
  ask-Keeps = record { kept = λ w p. p }

  pub stop_if-Keeps : (b : Bool) (r : Response) → Keeps P (stop_if b r)
  stop_if-Keeps true r = record { kept = λ w p. p }
  stop_if-Keeps false r = record { kept = λ w p. p }

  pub or_stop-Keeps : {A : Type 0} (o : Result A) (r : Response) → Keeps P (or_stop o r)
  or_stop-Keeps failed r = record { kept = λ w p. p }
  or_stop-Keeps (ok a) r = record { kept = λ w p. p }

  pub some_or_stop-Keeps : {A : Type 0} (o : Option A) (r : Response) → Keeps P (some_or_stop o r)
  some_or_stop-Keeps none r = record { kept = λ w p. p }
  some_or_stop-Keeps (some a) r = record { kept = λ w p. p }

  pub on_ok-Keeps :
      {A B : Type 0} {f : A → M (Result B)} (o : Result A)
      → ((a : A) → Keeps P (f a))
      → Keeps P (on_ok o f)
  on_ok-Keeps failed h = record { kept = λ w p. p }
  on_ok-Keeps (ok a) h = record { kept = λ w p. (h a).kept w p }

  pub test-Keeps :
      {A : Type 0} {m k : M A} (b : Bool)
      → Keeps P m
      → Keeps P k
      → Keeps P (λ w. elim b [ true ↦ m w | false ↦ k w ])
  test-Keeps true h i = record { kept = λ w p. h.kept w p }
  test-Keeps false h i = record { kept = λ w p. i.kept w p }

  pub now_ns-Keeps : Keeps P now_ns
  unfolding now_ns
  now_ns-Keeps = record { kept = λ w p. p }

  pub now_unix-Keeps : Keeps P now_unix
  unfolding now_unix
  now_unix-Keeps = record { kept = λ w p. p }

  pub open_store-Keeps : Keeps P open_store
  unfolding open_store
  open_store-Keeps = record { kept = λ w p. ground arith }

  pub random_string-Keeps : (n : ℕ) → Keeps P (random_string n)
  unfolding random_string
  random_string-Keeps n = record { kept = λ w p. p }

  pub hash_password-Keeps : (s : String) → Keeps P (hash_password s)
  unfolding hash_password
  hash_password-Keeps s = record { kept = λ w p. p }

  pub read-Keeps : {A : Type 0} (f : Db → A) → Keeps P (db_read f)
  unfolding db_read
  read-Keeps f = record { kept = λ w p. p }

  pub write-Keeps : {A : Type 0} (f : Db → Option (A × Db)) → KeepsSql P f → Keeps P (db_write f)
  unfolding db_write
  write-Keeps f h = record {
    kept = λ w p. settle-Keeps P (w.outside.fate w.calls) (f w.db) w p (h w.db p);
  }

pub ruleset keeping = (
  bind-Keeps, then-Keeps, pure-Keeps, respond-Keeps, ask-Keeps, stop_if-Keeps, or_stop-Keeps,
  some_or_stop-Keeps, on_ok-Keeps, test-Keeps, now_ns-Keeps, now_unix-Keeps, open_store-Keeps,
  random_string-Keeps, hash_password-Keeps, read-Keeps,
)
