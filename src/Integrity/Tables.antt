-- ===== src/Integrity/Tables.antt =====
-- About tables with a key: the rows of the columns that internal/store/schema.sql declares unique or
-- lets other tables refer to.
use sir_auth.Base.{
  String, Bool, true, false, not, ◌==◌, ◌≡◌, refl, inl, inr, List, [], ◌∷◌, any, keep, update_if,
  arith, eq_iff, Bool-cases,
}
use sir_auth.Base.Rows.{All}

module _ {A : Type 0} (key : A → String) where
  abbrev pub has_key : String → A → Bool
  has_key k a = key a == k

  -- A row with this key is there.
  abbrev pub Has : String → List A → Type 0
  Has k xs = any (has_key k) xs ≡ true

  -- No two rows have the same key.
  abbrev pub Unique : List A → Type 0
  Unique [] = Unit {0}
  Unique (x ∷ xs) = (any (has_key (key x)) xs ≡ false) × Unique xs

  any-keep :
      (k : String) (p : A → Bool) (xs : List A)
      → any (has_key k) xs ≡ false
      → any (has_key k) (keep p xs) ≡ false
  unfolding any keep
  any-keep k p [] h = refl
  any-keep k p (x ∷ xs) h = ground (arith, any-keep k p xs)

  pub Unique-keep : (p : A → Bool) (xs : List A) → Unique xs → Unique (keep p xs)
  unfolding keep
  Unique-keep p [] h = tt
  Unique-keep p (x ∷ xs) (h, hs) = elim (Bool-cases (p x)) [
    | inl e ↦ rw e (any-keep (key x) p xs h, Unique-keep p xs hs)
    | inr e ↦ rw e (Unique-keep p xs hs)
  ]

  -- An update that leaves the key of the rows that it changes.
  any-update_if :
      (k : String) (p : A → Bool) (f : A → A) (xs : List A)
      → ((a : A) → p a ≡ true → key (f a) ≡ key a)
      → any (has_key k) (update_if p f xs) ≡ any (has_key k) xs
  unfolding any update_if
  any-update_if k p f [] h = refl
  any-update_if k p f (x ∷ xs) h = elim (Bool-cases (p x)) [
    | inl e ↦ rw (e, h x e, any-update_if k p f xs h) refl
    | inr e ↦ rw (e, any-update_if k p f xs h) refl
  ]

  pub Unique-update_if :
      (p : A → Bool) (f : A → A) (xs : List A)
      → ((a : A) → p a ≡ true → key (f a) ≡ key a)
      → Unique xs
      → Unique (update_if p f xs)
  unfolding update_if
  Unique-update_if p f [] h u = tt
  Unique-update_if p f (x ∷ xs) h (u, us) = elim (Bool-cases (p x)) [
    | inl e ↦ rw (e, h x e) (rw (any-update_if (key x) p f xs h) u, Unique-update_if p f xs h us)
    | inr e ↦ rw e (rw (any-update_if (key x) p f xs h) u, Unique-update_if p f xs h us)
  ]

  pub Has-update_if :
      (p : A → Bool) (f : A → A) (xs : List A) (k : String)
      → ((a : A) → p a ≡ true → key (f a) ≡ key a)
      → Has k xs
      → Has k (update_if p f xs)
  Has-update_if p f xs k h has = rw (any-update_if k p f xs h) has

  pub Has-cons : (x : A) (xs : List A) (k : String) → Has k xs → Has k (x ∷ xs)
  unfolding any
  Has-cons x xs k h = ground arith

  -- Removing the rows with another key.
  pub Has-keep :
      (id k : String) (xs : List A)
      → (k == id) ≡ false
      → Has k xs
      → Has k (keep (λ a. not (has_key id a)) xs)
  unfolding any keep
  Has-keep id k [] n h = h
  Has-keep id k (x ∷ xs) n h =
      ground (arith, Has-keep id k xs n, eq_iff (key x) id, eq_iff (key x) k)

pub All-mono :
    {A : Type 0} (P Q : A → Type 0) (xs : List A) → ((a : A) → P a → Q a) → All P xs → All Q xs
All-mono P Q [] k h = tt
All-mono P Q (x ∷ xs) k (h, hs) = (k x h, All-mono P Q xs k hs)

-- The rows that are kept passed the test.
pub All-keep_if :
    {A : Type 0} (P Q : A → Type 0) (p : A → Bool) (xs : List A)
    → ((a : A) → p a ≡ true → P a → Q a)
    → All P xs
    → All Q (keep p xs)
unfolding keep
All-keep_if P Q p [] k h = tt
All-keep_if P Q p (x ∷ xs) k (h, hs) = elim (Bool-cases (p x)) [
  | inl e ↦ rw e (k x e h, All-keep_if P Q p xs k hs)
  | inr e ↦ rw e (All-keep_if P Q p xs k hs)
]
