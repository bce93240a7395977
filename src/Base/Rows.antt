-- ===== src/Base/Rows.antt =====
-- Lemmas on the tables' operations: the first row that fits, the rows changed, the rows kept.
use sir_auth.Base.Lists.{find, keep, any, count_if, update_if, Bool-cases}
use Prim.Native.Nat.{◌<◌}
use mathlib.Core.Path.{◌≡◌, refl}
use mathlib.Core.Logic.{◌⊎◌, inl, inr}
use mathlib.Core.Bool.{Bool, true, false}
use mathlib.Core.Option.{some}
use mathlib.Core.List.{List, [], ◌∷◌}
use native.Mathlib.Omega.{arith}

module _ {A : Type 0} where
  -- The row is in the list.
  abbrev pub Mem : A → List A → Type 0
  Mem a [] = ⊥
  Mem a (x ∷ xs) = (a ≡ x) ⊎ Mem a xs

  -- Every row has the property.
  abbrev pub All : (A → Type 0) → List A → Type 0
  All P [] = Unit {0}
  All P (x ∷ xs) = P x × All P xs

  pub find_sound : (p : A → Bool) (xs : List A) (a : A) → find p xs ≡ some a → p a ≡ true
  unfolding find
  find_sound p [] a h = cc
  find_sound p (x ∷ xs) a h = ground (arith, find_sound p xs a)

  pub find-mem : (p : A → Bool) (xs : List A) (a : A) → find p xs ≡ some a → Mem a xs
  unfolding find
  find-mem p [] a h = cc
  find-mem p (x ∷ xs) a h = elim (Bool-cases (p x)) [
    | inl e ↦ inl (ground arith)
    | inr e ↦ inr (find-mem p xs a (ground arith))
  ]

  pub All-mem : (P : A → Type 0) (xs : List A) (a : A) → All P xs → Mem a xs → P a
  All-mem P (x ∷ xs) a (h, hs) (inl e) = rw e h
  All-mem P (x ∷ xs) a (h, hs) (inr m) = All-mem P xs a hs m
  All-mem P [] a h m = absurd m

  -- A row that stays when rows are removed.
  pub mem-keep : (p : A → Bool) (xs : List A) (a : A) → Mem a xs → p a ≡ true → Mem a (keep p xs)
  unfolding keep
  mem-keep p (x ∷ xs) a (inl e) h = rw (rw e at h) (inl e)
  mem-keep p (x ∷ xs) a (inr m) h = elim (Bool-cases (p x)) [
    | inl e ↦ rw e (inr (mem-keep p xs a m h))
    | inr e ↦ rw e (mem-keep p xs a m h)
  ]
  mem-keep p [] a m h = absurd m

  -- A row that an update does not touch.
  pub mem-update_if :
      (p : A → Bool) (f : A → A) (xs : List A) (a : A)
      → Mem a xs
      → p a ≡ false
      → Mem a (update_if p f xs)
  unfolding update_if
  mem-update_if p f (x ∷ xs) a (inl e) h = rw (rw e at h) (inl e)
  mem-update_if p f (x ∷ xs) a (inr m) h = inr (mem-update_if p f xs a m h)
  mem-update_if p f [] a m h = absurd m

  pub All-update_if :
      (P : A → Type 0) (p : A → Bool) (f : A → A) (xs : List A)
      → ((a : A) → P a → P (f a))
      → All P xs
      → All P (update_if p f xs)
  unfolding update_if
  All-update_if P p f [] k h = tt
  All-update_if P p f (x ∷ xs) k (h, hs) = elim (Bool-cases (p x)) [
    | inl e ↦ rw e (k x h, All-update_if P p f xs k hs)
    | inr e ↦ rw e (h, All-update_if P p f xs k hs)
  ]

  pub All-keep : (P : A → Type 0) (p : A → Bool) (xs : List A) → All P xs → All P (keep p xs)
  unfolding keep
  All-keep P p [] h = tt
  All-keep P p (x ∷ xs) (h, hs) = elim (Bool-cases (p x)) [
    | inl e ↦ rw e (h, All-keep P p xs hs)
    | inr e ↦ rw e (All-keep P p xs hs)
  ]

  pub mem-count_if :
      (p : A → Bool) (xs : List A) (a : A) → Mem a xs → p a ≡ true → 0 < count_if p xs
  unfolding count_if
  mem-count_if p (x ∷ xs) a (inl e) h = rw (rw e at h) (omega arith)
  mem-count_if p (x ∷ xs) a (inr m) h = omega (arith, mem-count_if p xs a m h)
  mem-count_if p [] a m h = absurd m

  -- What passes no test is not counted.
  pub count_if-eq-zero :
      (p : A → Bool) (xs : List A) → All (λ a. p a ≡ false) xs → count_if p xs ≡ 0
  unfolding count_if
  count_if-eq-zero p [] h = refl
  count_if-eq-zero p (x ∷ xs) (h, hs) = rw h (omega (arith, count_if-eq-zero p xs hs))

  -- After an update that makes its own test fail, no row passes the test.
  pub count_if-update_if :
      (p : A → Bool) (f : A → A) (xs : List A)
      → ((a : A) → p (f a) ≡ false)
      → count_if p (update_if p f xs) ≡ 0
  unfolding count_if update_if
  count_if-update_if p f [] k = refl
  count_if-update_if p f (x ∷ xs) k = elim (Bool-cases (p x)) [
    | inl e ↦ rw (e, k x) (omega (arith, count_if-update_if p f xs k))
    | inr e ↦ rw (e, e) (omega (arith, count_if-update_if p f xs k))
  ]

  pub any-count_if : (p : A → Bool) (xs : List A) → any p xs ≡ false → count_if p xs ≡ 0
  unfolding any count_if
  any-count_if p [] h = refl
  any-count_if p (x ∷ xs) h = ground (arith, any-count_if p xs)
