-- ===== src/Stats/Counts.antt =====
-- About `CountBy` by day and `dailyChart` of internal/handler/stats.go: the count of a day.
use sir_auth.Base.{
  arith, ℕ, ◌+◌, String, Bool, false, ◌==◌, ◌||◌, ◌≡◌, refl, ap, ◌∙◌, List, [], ◌∷◌, map, any,
  count_if, if◌then◌else◌, eq_iff, inl, inr, Bool-cases,
}
use sir_auth.Model.{RequestLog}
use sir_auth.Integrity.Tables.{Unique}
use sir_auth.Store.Logs.{Bucket, Group, add_to, group_by}
use sir_auth.Stats.Chart.{count_of}

abbrev sum_of : String → List Bucket → ℕ
sum_of k [] = 0
sum_of k (b ∷ bs) = (if b.key == k then b.n else 0) + sum_of k bs

abbrev has_key : String → Bucket → Bool
has_key k b = b.key == k

sum_of-none : (k : String) (bs : List Bucket) → any (has_key k) bs ≡ false → sum_of k bs ≡ 0
unfolding any
sum_of-none k [] h = refl
sum_of-none k (b ∷ bs) h = ground (arith, sum_of-none k bs)

-- With one bucket for each key, the last one is the only one.
count_of-none :
    (k : String) (n : ℕ) (bs : List Bucket) → any (has_key k) bs ≡ false → count_of k n bs ≡ n
unfolding count_of any
count_of-none k n [] h = refl
count_of-none k n (b ∷ bs) h = ground (arith, count_of-none k n bs)

count_of-sum_of :
    (k : String) (bs : List Bucket)
    → Unique (λ (b : Bucket). b.key) bs
    → count_of k 0 bs ≡ sum_of k bs
unfolding count_of
count_of-sum_of k [] u = refl
count_of-sum_of k (b ∷ bs) (u, us) = elim (Bool-cases (b.key == k)) [
  | inl e ↦
      let same : b.key ≡ k = (eq_iff b.key k).0 e in
      let fresh : any (has_key k) bs ≡ false = rw same at u in
      rw e (omega (arith, count_of-none k b.n bs fresh, sum_of-none k bs fresh))
  | inr e ↦ rw e (omega (arith, count_of-sum_of k bs us))
]

module _ (day : ℕ → String) where
  abbrev same_day : RequestLog → RequestLog → Bool
  same_day l m = day l.ts == day m.ts

  abbrev bucket : Group → Bucket
  bucket g = record { key = day g.0.ts; label = ""; n = g.1 }

  abbrev pub on_day : String → RequestLog → Bool
  on_day k l = day l.ts == k

  sum_of-add_to :
      (k : String) (l : RequestLog) (gs : List Group)
      → sum_of k (map bucket (add_to same_day l gs))
        ≡ (if on_day k l then 1 else 0) + sum_of k (map bucket gs)
  unfolding add_to
  sum_of-add_to k l [] = omega arith
  sum_of-add_to k l ((m, n) ∷ gs) = elim (Bool-cases (same_day l m)) [
    | inl e ↦
        let same : day l.ts ≡ day m.ts = (eq_iff (day l.ts) (day m.ts)).0 e in
        rw (e, same) (ground arith)
    | inr e ↦ rw e (omega (arith, sum_of-add_to k l gs))
  ]

  sum_of-group_by :
      (k : String) (ls : List RequestLog)
      → sum_of k (map bucket (group_by same_day ls)) ≡ count_if (on_day k) ls
  unfolding group_by count_if
  sum_of-group_by k [] = refl
  sum_of-group_by k (l ∷ ls) =
      sum_of-add_to k l (group_by same_day ls)
      ∙ ap (λ n. (if on_day k l then 1 else 0) + n) (sum_of-group_by k ls)

  any-add_to :
      (k : String) (l : RequestLog) (gs : List Group)
      → any (has_key k) (map bucket (add_to same_day l gs))
        ≡ (on_day k l || any (has_key k) (map bucket gs))
  unfolding add_to any
  any-add_to k l [] = refl
  any-add_to k l ((m, n) ∷ gs) = ground (
    arith,
    any-add_to k l gs,
    eq_iff (day l.ts) (day m.ts),
    eq_iff (day l.ts) k,
    eq_iff (day m.ts) k,
  )

  Unique-add_to :
      (l : RequestLog) (gs : List Group)
      → Unique (λ (b : Bucket). b.key) (map bucket gs)
      → Unique (λ (b : Bucket). b.key) (map bucket (add_to same_day l gs))
  unfolding add_to any
  Unique-add_to l [] u = (refl, tt)
  Unique-add_to l ((m, n) ∷ gs) (u, us) = elim (Bool-cases (same_day l m)) [
    | inl e ↦ rw e (u, us)
    | inr e ↦ rw e (rw (any-add_to (day m.ts) l gs, e) u, Unique-add_to l gs us)
  ]

  Unique-group_by :
      (ls : List RequestLog) → Unique (λ (b : Bucket). b.key) (map bucket (group_by same_day ls))
  unfolding group_by
  Unique-group_by [] = tt
  Unique-group_by (l ∷ ls) = Unique-add_to l (group_by same_day ls) (Unique-group_by ls)

  -- The bar of a day is as high as the day has requests.
  pub count_of-group_by :
      (k : String) (ls : List RequestLog)
      → count_of k 0 (map bucket (group_by same_day ls)) ≡ count_if (on_day k) ls
  count_of-group_by k ls =
      count_of-sum_of k (map bucket (group_by same_day ls)) (Unique-group_by ls)
      ∙ sum_of-group_by k ls
