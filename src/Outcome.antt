-- ===== src/Outcome.antt =====
-- What an action ends with, as a predicate: one condition for a written response, one for a value.
use sir_auth.Base.{arith, some, ◌≡◌, refl, Bool, true, false, ◌⊎◌}
use sir_auth.World.{Db, db_write, World, Response, M, Exit, halt, next, Result, failed, ok, ◌>>=◌}

abbrev pub Ends :
    {A : Type 0} → (Response → World → Type 0) → (A → World → Type 0) → Exit A → Type 0
Ends H N (halt r w) = H r w
Ends H N (next a w) = N a w

-- The action gives a value: it never ends the handler.
abbrev pub Gives : {A : Type 0} → (A → World → Type 0) → Exit A → Type 0
Gives N e = Ends (λ _ _. ⊥) N e

-- A condition on the value, if there is one.
abbrev pub OnOk : {A : Type 0} → (A → Type 0) → Result A → Type 0
OnOk P failed = Unit {0}
OnOk P (ok a) = P a

module _ {A : Type 0} where
  pub Gives-next :
      {N : A → World → Type 0} (e : Exit A)
      → Gives N e
      → (a : A) × (w : World) × (e ≡ next a w) × N a w
  Gives-next (halt r w) h = absurd h
  Gives-next (next a w) h = (a, w, refl, h)

  pub Ends-mono :
      {H K : Response → World → Type 0} {N O : A → World → Type 0} (e : Exit A)
      → ((r : Response) (w : World) → H r w → K r w)
      → ((a : A) (w : World) → N a w → O a w)
      → Ends H N e
      → Ends K O e
  Ends-mono (halt r w) f g h = f r w h
  Ends-mono (next a w) f g h = g a w h

-- The rule of sequence.
pub Ends-bind :
    {A B : Type 0} (H : Response → World → Type 0) (N : B → World → Type 0) (m : M A) (f : A → M B)
    (w : World)
    → Ends H (λ a w'. Ends H N (f a w')) (m w)
    → Ends H N ((m >>= f) w)
Ends-bind {A} {B} H N m f w = go (m w)
  where
    go :
        (e : Exit A)
        → Ends H (λ a w'. Ends H N (f a w')) e
        → Ends H N (elim e [ halt r w' ↦ halt r w' | next a w' ↦ f a w' ])
    go (halt r w') h = h
    go (next a w') h = h

-- Inversion: a sequence that gives a value passes through a value of its first part.
pub >>=-eq-next :
    {A B : Type 0} (m : M A) (f : A → M B) (w : World) {b : B} {w'' : World}
    → (m >>= f) w ≡ next b w''
    → (a : A) × (w' : World) × (m w ≡ next a w') × (f a w' ≡ next b w'')
>>=-eq-next {A} {B} m f w {b} {w''} = go (m w)
  where
    go :
        (e : Exit A)
        → elim e [ halt r w' ↦ halt r w' | next a w' ↦ f a w' ] ≡ next b w''
        → (a : A) × (w' : World) × (e ≡ next a w') × (f a w' ≡ next b w'')
    go (halt r w') h = cc
    go (next a w') h = (a, w', refl, h)

-- A branch on a computed test.
pub Ends-test :
    {A : Type 0} (H : Response → World → Type 0) (N : A → World → Type 0) (b : Bool) (x y : Exit A)
    → (b ≡ true → Ends H N x)
    → (b ≡ false → Ends H N y)
    → Ends H N (elim b [ true ↦ x | false ↦ y ])
Ends-test H N true x y f g = f refl
Ends-test H N false x y f g = g refl

-- A condition on the world and the value of a handler that goes through to its end: every error
-- path of the source returns early.
abbrev pub OnSuccess : {A : Type 0} → (A → World → Type 0) → Exit A → Type 0
OnSuccess N e = Ends (λ _ _. Unit {0}) N e

pub OnSuccess-intro :
    {A : Type 0} (N : A → World → Type 0) (e : Exit A)
    → ((a : A) (w : World) → e ≡ next a w → N a w)
    → OnSuccess N e
OnSuccess-intro N (halt r w) f = tt
OnSuccess-intro N (next a w) f = f a w refl

-- A handler's two ways to end, each by what is known of it.
pub Ends-intro :
    {A : Type 0} (H : Response → World → Type 0) (N : A → World → Type 0) (e : Exit A)
    → ((r : Response) (w : World) → e ≡ halt r w → H r w)
    → ((a : A) (w : World) → e ≡ next a w → N a w)
    → Ends H N e
Ends-intro H N (halt r w) f g = f r w refl
Ends-intro H N (next a w) f g = g a w refl

-- A statement that meets no constraint is executed or not.
pub db_write-db :
    (f : Db → Db) (w w' : World) (o : Result (Unit {0}))
    → db_write (λ d. some (tt, f d)) w ≡ next o w'
    → (w'.db ≡ w.db) ⊎ (w'.db ≡ f w.db)
unfolding db_write
db_write-db f w w' o e = ground arith
