-- ===== src/Integrity/Triples.antt =====
-- What an action that goes through to its end has done to the tables: triples of a condition before, an
-- action and a condition after.
use sir_auth.Base.{Bool, true, false, Option, none, some}
use sir_auth.World.{
  Db, World, Fate, answered, refused, lost, M, ◌>>=◌, ◌>>◌, pure, Result, failed, ok, Response,
  or_stop, respond, on_ok, settle, db_write,
}
use sir_auth.Outcome.{Ends-bind, Ends-mono, OnSuccess}
use sir_auth.Integrity.{Keeps, OnRows}

pub record Yields {A : Type 0} (P : Db → Type 0) (N : A → Db → Type 0) (m : M A) : Type 0 where
  pub yields : (w : World) → P w.db → OnSuccess (λ a v. N a v.db) (m w)

pub bind-Yields :
    {P : Db → Type 0} {A B : Type 0} {Q : A → Db → Type 0} {N : B → Db → Type 0} {m : M A}
    {f : A → M B}
    → Yields P Q m
    → ((a : A) → Yields (Q a) N (f a))
    → Yields P N (m >>= f)
bind-Yields {N = N} {m = m} {f = f} h k = record {
  yields = λ w p.
      Ends-bind (λ _ _. Unit {0}) (λ a v. N a v.db) m f w
        (Ends-mono (m w) (λ _ _ _. tt) (λ a v q. (k a).yields v q) (h.yields w p));
}

pub kept-Yields : {P : Db → Type 0} {A : Type 0} {m : M A} → Keeps P m → Yields P (λ _. P) m
kept-Yields {m = m} h = record {
  yields = λ w p. Ends-mono (m w) (λ _ _ _. tt) (λ _ _ q. q) (h.kept w p);
}

module _ {P : Db → Type 0} where
  pub skip-Yields :
      {A B : Type 0} {N : B → Db → Type 0} {m : M A} {f : A → M B}
      → Keeps P m
      → ((a : A) → Yields P N (f a))
      → Yields P N (m >>= f)
  skip-Yields h k = bind-Yields (kept-Yields h) k

  pub skip_then :
      {B : Type 0} {N : B → Db → Type 0} {m : M (Unit {0})} {k : M B}
      → Keeps P m
      → Yields P N k
      → Yields P N (m >> k)
  skip_then {m = m} {k = k} h i = skip-Yields {m = m} {f = λ _. k} h (λ _. i)

  pub test-Yields :
      {A : Type 0} {N : A → Db → Type 0} {m k : M A} (b : Bool)
      → Yields P N m
      → Yields P N k
      → Yields P N (λ w. elim b [ true ↦ m w | false ↦ k w ])
  test-Yields true h i = record { yields = λ w p. h.yields w p }
  test-Yields false h i = record { yields = λ w p. i.yields w p }

  pub respond-Yields : {A : Type 0} {N : A → Db → Type 0} {r : Response} → Yields P N (respond r)
  respond-Yields = record { yields = λ w p. tt }

  pub pure-Yields :
      {A : Type 0} {N : A → Db → Type 0} {a : A} → ((d : Db) → P d → N a d) → Yields P N (pure a)
  pure-Yields h = record { yields = λ w p. h w.db p }

-- What holds once a statement is answered without an error.
abbrev pub IfOk : {A : Type 0} → (Db → Type 0) → Result A → Db → Type 0
IfOk N failed d = Unit {0}
IfOk N (ok u) d = N d

-- A failure ends the handler.
pub or_stop-Yields :
    {A : Type 0} {N : Db → Type 0} (o : Result A) (r : Response)
    → Yields (IfOk N o) (λ _. N) (or_stop o r)
or_stop-Yields failed r = record { yields = λ w p. tt }
or_stop-Yields (ok a) r = record { yields = λ w p. p }

abbrev pub WritesTo : (P N : Db → Type 0) → (Db → Option (Unit {0} × Db)) → Type 0
WritesTo P N f = (d : Db) → P d → OnRows N (f d)

settle_done :
    (N : Db → Type 0) (t : Fate) (o : Option (Unit {0} × Db)) (w : World)
    → OnRows N o
    → OnSuccess (λ r v. IfOk N r v.db) (settle t o w)
settle_done N refused o w h = tt
settle_done N answered none w h = tt
settle_done N answered (some (u, d)) w h = h
settle_done N lost none w h = tt
settle_done N lost (some (u, d)) w h = tt

pub write-Yields :
    {P N : Db → Type 0} (f : Db → Option (Unit {0} × Db))
    → WritesTo P N f
    → Yields P (IfOk N) (db_write f)
unfolding db_write
write-Yields {N = N} f h = record {
  yields = λ w p. settle_done N (w.outside.fate w.calls) (f w.db) w (h w.db p);
}

pub on_ok-Yields :
    {P N : Db → Type 0} {A B : Type 0} {f : A → M (Result B)} (o : Result A)
    → ((a : A) → Yields P (IfOk N) (f a))
    → Yields P (IfOk N) (on_ok o f)
on_ok-Yields failed h = record { yields = λ w p. tt }
on_ok-Yields (ok a) h = record { yields = λ w p. (h a).yields w p }
