-- ===== src/Store/Windows.antt =====
-- About the queries of internal/store/store.go over the request log.
use sir_auth.Base.{
  zero, String, true, Option, some, none, map, count_if, if◌then◌else◌, ◌==◌, eq_iff, arith, ℕ, suc,
  ◌+◌, ◌≤◌, Bool, ◌≡◌, refl, ap, ◌∙◌, List, [], ◌∷◌, leb, length, first, inl, inr, Bool-cases,
}
use sir_auth.Model.{RequestLog}
use sir_auth.World.{Db, World, Fate, ok, db_read}
use sir_auth.Outcome.{Gives}
use sir_auth.Store.Logs.{
  Bucket, count_by, to_bucket, same_option, or_text, by_host, by_token, by_user, LogFilter, window,
  Group, Grouping, add_to, group_by, insert_group, largest_first, same_group, groups,
}

-- The column that a grouping is about.
abbrev pub column : Grouping → RequestLog → String
column by_host l = l.host
column by_token l = or_text l.token_id ""
column by_user l = l.user_id

-- The rows that the groups have of one value of the column.
abbrev rows_in : (RequestLog → String) → String → List Group → ℕ
rows_in col k [] = 0
rows_in col k (g ∷ gs) = (if col g.0 == k then g.1 else 0) + rows_in col k gs

module _ (col : RequestLog → String) (k : String) (same : RequestLog → RequestLog → Bool)
    (respects : (l m : RequestLog) → same l m ≡ true → col l ≡ col m) where
  rows_in-add_to :
      (l : RequestLog) (gs : List Group)
      → rows_in col k (add_to same l gs) ≡ (if col l == k then 1 else 0) + rows_in col k gs
  unfolding add_to
  rows_in-add_to l [] = ground arith
  rows_in-add_to l ((m, n) ∷ gs) = elim (Bool-cases (same l m)) [
    | inl e ↦ rw e (rw (respects l m e) (ground arith))
    | inr e ↦ rw e (omega (arith, rows_in-add_to l gs))
  ]

  rows_in-group_by :
      (ls : List RequestLog) → rows_in col k (group_by same ls) ≡ count_if (λ l. col l == k) ls
  unfolding group_by count_if
  rows_in-group_by [] = refl
  rows_in-group_by (l ∷ ls) =
      ground (arith, rows_in-add_to l (group_by same ls), rows_in-group_by ls)

rows_in-insert_group :
    (col : RequestLog → String) (k : String) (g : Group) (gs : List Group)
    → rows_in col k (insert_group g gs) ≡ rows_in col k (g ∷ gs)
unfolding insert_group
rows_in-insert_group col k g [] = refl
rows_in-insert_group col k g (h ∷ gs) = elim (Bool-cases (leb h.1 g.1)) [
  | inl e ↦ rw e refl
  | inr e ↦ rw e (omega (arith, rows_in-insert_group col k g gs))
]

rows_in-largest_first :
    (col : RequestLog → String) (k : String) (gs : List Group)
    → rows_in col k (largest_first gs) ≡ rows_in col k gs
unfolding largest_first
rows_in-largest_first col k [] = refl
rows_in-largest_first col k (g ∷ gs) =
    omega (arith, rows_in-insert_group col k g (largest_first gs), rows_in-largest_first col k gs)

same_option-eq : (a b : Option String) → same_option a b ≡ true → a ≡ b
same_option-eq none none e = refl
same_option-eq none (some b) e = cc
same_option-eq (some a) none e = cc
same_option-eq (some a) (some b) e = ap some ((eq_iff a b).0 e)

column-same_group :
    (by : Grouping) (d : Db) (l m : RequestLog)
    → same_group by d l m ≡ true
    → column by l ≡ column by m
unfolding same_group
column-same_group by_host d l m e = (eq_iff l.host m.host).0 e
column-same_group by_token d l m e =
    ap (λ (o : Option String). or_text o "") (same_option-eq l.token_id m.token_id (ground arith))
column-same_group by_user d l m e = ground (arith, eq_iff l.user_id m.user_id)

-- The number that the buckets show for one key.
abbrev pub rows_with : String → List Bucket → ℕ
rows_with k [] = 0
rows_with k (b ∷ bs) = (if b.key == k then b.n else 0) + rows_with k bs

rows_with-to_bucket :
    (by : Grouping) (d : Db) (k : String) (gs : List Group)
    → rows_with k (map (to_bucket by d) gs) ≡ rows_in (column by) k gs
unfolding to_bucket
rows_with-to_bucket by d k [] = refl
rows_with-to_bucket by_host d k ((l, n) ∷ gs) =
    ap (λ x. (if l.host == k then n else 0) + x) (rows_with-to_bucket by_host d k gs)
rows_with-to_bucket by_token d k ((l, n) ∷ gs) =
    ap (λ x. (if or_text l.token_id "" == k then n else 0) + x)
      (rows_with-to_bucket by_token d k gs)
rows_with-to_bucket by_user d k ((l, n) ∷ gs) =
    ap (λ x. (if l.user_id == k then n else 0) + x) (rows_with-to_bucket by_user d k gs)

first-all : {A : Type 0} (n : ℕ) (xs : List A) → length xs ≤ n → first n xs ≡ xs
unfolding first
first-all zero [] h = refl
first-all zero (x ∷ xs) h = absurd (omega (arith, h))
first-all (suc n) [] h = refl
first-all (suc n) (x ∷ xs) h = ap (λ ys. x ∷ ys) (first-all n xs (omega (arith, h)))

-- If PostgreSQL answers and there are no more groups than the limit, the buckets of a count by host, by
-- credential or by user show for every key as many requests as the window has with this host, token
-- (none for the empty key) or user.
pub count_by-buckets :
    (f : LogFilter) (by : Grouping) (limit : ℕ) (k : String) (w : World)
    → w.outside.fate w.calls ≡ Fate.answered
    → length (groups f by w.db) ≤ limit
    → Gives
        (λ o _.
          (bs : List Bucket) × (o ≡ ok bs)
          × (rows_with k bs ≡ count_if (λ l. column by l == k) (window f w.db)))
        (count_by f by limit w)
unfolding count_by groups db_read
count_by-buckets f by limit k w answered few =
    let gs : List Group = groups f by w.db in
    rw answered (
      map (to_bucket by w.db) (first limit gs),
      refl,
      rw (first-all limit gs few) (
          rows_with-to_bucket by w.db k gs
          ∙ rows_in-largest_first (column by) k (group_by (same_group by w.db) (window f w.db))
          ∙ rows_in-group_by (column by) k (same_group by w.db) (column-same_group by w.db)
              (window f w.db)),
    )
