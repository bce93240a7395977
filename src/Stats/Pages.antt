-- ===== src/Stats/Pages.antt =====
-- About `RecentLogs` and `EachLog` of internal/store/store.go and the pages that
-- internal/handler/stats.go shows of them.
use mathlib.Core.List.{append_assoc, append-nil}
use sir_auth.Base.{
  arith, ℕ, zero, suc, ◌+◌, ◌*◌, ◌-◌, ◌≤◌, ◌≡◌, refl, sym, ap, ◌∙◌, List, [], ◌∷◌, ◌++◌, ltb,
  length, first, skip, inl, inr, Bool-cases, if◌then◌else◌,
}
use sir_auth.World.{World, M, ◌>>=◌, pure, next, Fate, ok, db_read, tick}
use sir_auth.Outcome.{Gives, Gives-next, Ends-bind, Ends-mono}
use sir_auth.Store.Logs.{LogFilter, LogRow, log_rows, recent_logs, each_log}
use sir_auth.Stats.{recent_page, logs_per_page}

module _ {A : Type 0} where
  skip_none : (n : ℕ) → skip {A = A} n [] ≡ []
  unfolding skip
  skip_none zero = refl
  skip_none (suc n) = refl

  skip_add : (n m : ℕ) (xs : List A) → skip (m + n) xs ≡ skip n (skip m xs)
  unfolding skip
  skip_add n zero xs = let e : 0 + n ≡ n = omega arith in rw e refl
  skip_add n (suc m) [] = skip_none (suc m + n) ∙ sym (skip_none n)
  skip_add n (suc m) (x ∷ xs) =
      let e : suc m + n ≡ suc (m + n) = omega arith in ap (λ k. skip k (x ∷ xs)) e ∙ skip_add n m xs

  first-skip : (n : ℕ) (xs : List A) → first n xs ++ skip n xs ≡ xs
  unfolding first skip
  first-skip zero xs = refl
  first-skip (suc n) [] = refl
  first-skip (suc n) (x ∷ xs) = ap (λ ys. x ∷ ys) (first-skip n xs)

  -- What the pages from number `i` on show, `k` of them, with `n` rows on each.
  abbrev pub shown : (n i k : ℕ) → List A → List A
  shown n i zero xs = []
  shown n i (suc k) xs = first n (skip (i * n) xs) ++ shown n (suc i) k xs

  pub shown-rest :
      (n i k : ℕ) (xs : List A) → shown n i k xs ++ skip ((i + k) * n) xs ≡ skip (i * n) xs
  shown-rest n i zero xs = let e : i + 0 ≡ i = omega arith in rw e refl
  shown-rest n i (suc k) xs =
      let e : i + suc k ≡ suc i + k = omega arith in
      let m : suc i * n ≡ i * n + n = grind arith in
      append_assoc (first n (skip (i * n) xs)) (shown n (suc i) k xs) (skip ((i + suc k) * n) xs)
      ∙ ap (λ ys. first n (skip (i * n) xs) ++ ys)
          (ap (λ j. shown n (suc i) k xs ++ skip (j * n) xs) e
            ∙ shown-rest n (suc i) k xs
            ∙ ap (λ j. skip j xs) m
            ∙ skip_add n (i * n) xs)
      ∙ first-skip n (skip (i * n) xs)

  pub skip-all : (n : ℕ) (xs : List A) → length xs ≤ n → skip n xs ≡ []
  unfolding skip
  skip-all zero [] h = refl
  skip-all zero (x ∷ xs) h = absurd (omega (arith, h))
  skip-all (suc n) [] h = refl
  skip-all (suc n) (x ∷ xs) h = skip-all n xs (omega (arith, h))

first_of_more : {A : Type 0} (n : ℕ) (xs : List A) → first n (first (suc n) xs) ≡ first n xs
unfolding first
first_of_more zero xs = refl
first_of_more (suc n) [] = refl
first_of_more (suc n) (x ∷ xs) = ap (λ ys. x ∷ ys) (first_of_more n xs)

first_short :
    {A : Type 0} (n : ℕ) (xs : List A)
    → length (first (suc n) xs) ≤ n
    → first (suc n) xs ≡ first n xs
unfolding first
first_short zero [] h = refl
first_short zero (x ∷ xs) h = absurd (omega (arith, h))
first_short (suc n) [] h = refl
first_short (suc n) (x ∷ xs) h = ap (λ ys. x ∷ ys) (first_short n xs (omega (arith, h)))

-- One row more than fits is asked for, and not shown.
page_cut :
    {A : Type 0} (n : ℕ) (xs : List A)
    → (if ltb n (length (first (suc n) xs)) then first n (first (suc n) xs) else first (suc n) xs)
      ≡ first n xs
page_cut n xs = elim (Bool-cases (ltb n (length (first (suc n) xs)))) [
  | inl more ↦ rw more (first_of_more n xs)
  | inr less ↦ rw less (first_short n xs (ground arith))
]

recent_page-rows :
    (f : LogFilter) (i : ℕ) (w : World)
    → w.outside.fate w.calls ≡ Fate.answered
    → Gives
        (λ p v.
          (p.0 ≡ first logs_per_page (skip (i * logs_per_page) (log_rows f w.db))) × (v ≡ tick w))
        (recent_page f (suc i) w)
unfolding recent_page recent_logs db_read
recent_page-rows f i w answered =
    let before : suc i - 1 ≡ i = omega arith in
    rw (answered, before)
      (page_cut logs_per_page (skip (i * logs_per_page) (log_rows f w.db)), refl)

-- The rows of `k` pages, one after the other, from the page after page `i` on.
abbrev pub pages : LogFilter → (i k : ℕ) → M (List LogRow)
pages f i zero w = next [] w
pages f i (suc k) w =
    (do page ← recent_page f (suc i); rest ← pages f (suc i) k; pure (page.0 ++ rest)) w

pages-shown :
    (f : LogFilter) (i k : ℕ) (w : World)
    → ((n : ℕ) → w.outside.fate n ≡ Fate.answered)
    → Gives (λ rows _. rows ≡ shown logs_per_page i k (log_rows f w.db)) (pages f i k w)
pages-shown f i zero w answered = refl
pages-shown f i (suc k) w answered =
    let (page, v, run, (rows, same)) =
      Gives-next (recent_page f (suc i) w) (recent_page-rows f i w (answered w.calls)) in
    let all = log_rows f w.db in
    let rest : Gives (λ x _. x ≡ shown logs_per_page (suc i) k all) (pages f (suc i) k v) =
      rw same (pages-shown f (suc i) k (tick w) answered) in
    Ends-bind (λ _ _. ⊥) (λ x _. x ≡ shown logs_per_page i (suc k) all) (recent_page f (suc i))
      (λ page. do rest ← pages f (suc i) k; pure (page.0 ++ rest)) w
      (rw run (
        Ends-bind (λ _ _. ⊥) (λ x _. x ≡ shown logs_per_page i (suc k) all) (pages f (suc i) k)
          (λ rest. pure (page.0 ++ rest)) v
          (Ends-mono (pages f (suc i) k v) (λ _ _ h. h)
            (λ x _ h.
              rw rows (ap (λ ys. first logs_per_page (skip (i * logs_per_page) all) ++ ys) h))
            rest)))

-- If PostgreSQL answers, the file's query gives just what the pages of recent requests give that are
-- asked for one after the other, from the first on, with 50 rows on each: no row twice, none left out, in
-- the same order, if there are enough pages for all rows of the window.
pub pages-each_log :
    (f : LogFilter) (k : ℕ) (w : World)
    → ((n : ℕ) → w.outside.fate n ≡ Fate.answered)
    → length (log_rows f w.db) ≤ k * logs_per_page
    → Gives (λ all v. Gives (λ rows _. all ≡ ok rows) (pages f 0 k v)) (each_log f w)
unfolding each_log db_read skip
pages-each_log f k w answered h =
    let xs = log_rows f w.db in
    let n : ℕ = logs_per_page in
    let e : 0 + k ≡ k = omega arith in
    let start : 0 * n ≡ 0 = omega arith in
    let shows_all : shown n 0 k xs ≡ xs =
      sym (append-nil (shown n 0 k xs))
      ∙ ap (λ ys. shown n 0 k xs ++ ys)
          (sym (skip-all (k * n) xs h) ∙ ap (λ j. skip (j * n) xs) (sym e))
      ∙ shown-rest n 0 k xs
      ∙ ap (λ j. skip j xs) start in
    rw (answered w.calls) (
      Ends-mono (pages f 0 k (tick w)) (λ _ _ h. h) (λ rows _ h. ap ok (sym (h ∙ shows_all)))
        (pages-shown f 0 k (tick w) answered))
