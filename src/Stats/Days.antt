-- ===== src/Stats/Days.antt =====
-- About `dailyChart` of internal/handler/stats.go over `DailyCounts` of internal/store/store.go: no
-- request is lost between the groups of the days and the bars.
use sir_auth.Base.{
  arith, ℕ, zero, suc, ◌+◌, ◌≤◌, ◌<◌, String, true, ◌==◌, ◌≡◌, ◌≢◌, refl, ap, sym, ◌∙◌, List, [],
  ◌∷◌, map, ltb, count_if, length, if◌then◌else◌, eq_iff, inl, inr, Bool-cases,
}
use native.Mathlib.Decide.{dec_lt}
use sir_auth.Base.Rows.{All}
use sir_auth.Model.{RequestLog}
use sir_auth.World.{Db, World, Outside, Fate, answered, refused, lost, read_result, db_read}
use sir_auth.Outcome.{Gives, OnOk}
use mathlib.Core.Path.{fun_ext}
use sir_auth.Integrity.Tables.{All-keep_if}
use sir_auth.Store.Logs.{Bucket, LogFilter, in_window, window, daily_buckets, daily_counts}
use sir_auth.Stats.Windows.{StatsWindow, filter_of}
use sir_auth.Stats.Chart.{
  bangkok_day, day_start, count_of, chart_days, most_days, Bar, bar_of, bars,
}
use sir_auth.Stats.Counts.{on_day, count_of-group_by}

-- ── Every request is in one bar ──
abbrev sum_over : (ℕ → ℕ) → List ℕ → ℕ
sum_over f [] = 0
sum_over f (n ∷ ns) = f n + sum_over f ns

sum_over-zero : (ns : List ℕ) → sum_over (λ _. 0) ns ≡ 0
sum_over-zero [] = refl
sum_over-zero (n ∷ ns) = omega (arith, sum_over-zero ns)

sum_over-add :
    (f g : ℕ → ℕ) (ns : List ℕ) → sum_over (λ n. f n + g n) ns ≡ sum_over f ns + sum_over g ns
sum_over-add f g [] = omega arith
sum_over-add f g (n ∷ ns) = omega (arith, sum_over-add f g ns)

-- A time lies in its day, and days begin one after the other.
day_start-le : (t : ℕ) → day_start (bangkok_day t) ≤ t
day_start-le t = omega arith

day_start_mono : (m n : ℕ) → m ≤ n → day_start m ≤ day_start n
day_start_mono m n h = omega arith

bangkok_day_mono : (s t : ℕ) → s ≤ t → bangkok_day s ≤ bangkok_day t
bangkok_day_mono s t h = omega arith

-- The names of days that the library of times gives: a time has the name of its day, and the days of
-- the window have different names.
pub record IsCalendar (o : Outside) (to : ℕ) : Type 0 where
  pub names : (t : ℕ) → o.format_day t ≡ o.format_day (day_start (bangkok_day t))
  pub distinct :
      (m n : ℕ)
      → day_start m < to
      → day_start n < to
      → o.format_day (day_start m) ≡ o.format_day (day_start n)
      → m ≡ n

module _ (o : Outside) (to : ℕ) (cal : IsCalendar o to) (t : ℕ) (inside : t < to) where
  abbrev hit : ℕ → ℕ
  hit n = if o.format_day t == o.format_day (day_start n) then 1 else 0

  hit-other : (n : ℕ) → day_start n < to → n ≢ bangkok_day t → hit n ≡ 0
  hit-other n early other = elim (Bool-cases (o.format_day t == o.format_day (day_start n))) [
    | inl e ↦ absurd (
        other (
          sym (
            cal.distinct (bangkok_day t) n (omega (arith, day_start-le t)) early
              (sym (cal.names t) ∙ (eq_iff (o.format_day t) (o.format_day (day_start n))).0 e))))
    | inr e ↦ rw e refl
  ]

  hit-own : hit (bangkok_day t) ≡ 1
  hit-own =
      rw ((eq_iff (o.format_day t) (o.format_day (day_start (bangkok_day t)))).1 (cal.names t)) refl

  no_hit : (rounds n : ℕ) → bangkok_day t < n → sum_over hit (chart_days rounds n to) ≡ 0
  unfolding chart_days
  no_hit zero n h = refl
  no_hit (suc rounds) n h = elim (Bool-cases (ltb (day_start n) to)) [
    | inl early ↦ rw early (
        omega (
          arith,
          hit-other n (ground arith) (λ e. omega arith),
          no_hit rounds (suc n) (omega arith),
        ))
    | inr late ↦ rw late refl
  ]

  one_hit :
      (rounds n : ℕ)
      → n ≤ bangkok_day t
      → bangkok_day t < n + rounds
      → sum_over hit (chart_days rounds n to) ≡ 1
  unfolding chart_days
  one_hit zero n h k = absurd (omega arith)
  one_hit (suc rounds) n h k =
      let early : ltb (day_start n) to ≡ true =
        ground (arith, day_start_mono n (bangkok_day t) h, day_start-le t) in
      rw early (elim (dec_lt n (bangkok_day t)) [
        | yes before ↦ omega (
          arith,
          hit-other n (ground arith) (λ e. omega arith),
          one_hit rounds (suc n) (omega arith) (omega arith),
        )
        | no after ↦
            let same : n ≡ bangkok_day t = omega arith in
            omega (arith, ap hit same, hit-own, no_hit rounds (suc n) (omega arith))
      ])

-- The sum of the bars.
abbrev pub total : List Bar → ℕ
total [] = 0
total (b ∷ bs) = b.n + total bs

abbrev IsInside : (from to : ℕ) → RequestLog → Type 0
IsInside from to l = (from ≤ l.ts) × (l.ts < to)

module _ (o : Outside) (from to : ℕ) (cal : IsCalendar o to)
    (short : to ≤ day_start (bangkok_day from + most_days)) where
  abbrev days : List ℕ
  days = chart_days most_days (bangkok_day from) to

  abbrev height : List RequestLog → ℕ → ℕ
  height ls n = count_if (on_day o.format_day (o.format_day (day_start n))) ls

  heights :
      (ls : List RequestLog) → All (IsInside from to) ls → sum_over (height ls) days ≡ length ls
  unfolding count_if
  heights [] h = sum_over-zero days
  heights (l ∷ ls) ((after, before), h) =
      sum_over-add (hit o to cal l.ts before) (height ls) days
      ∙ omega (
        arith,
        one_hit o to cal l.ts before most_days (bangkok_day from) (bangkok_day_mono from l.ts after)
            (omega arith),
        heights ls h,
      )

total-map :
    (o : Outside) (daily : List Bucket) (ns : List ℕ)
    → total (map (bar_of o daily) ns)
      ≡ sum_over (λ n. count_of (o.format_day (day_start n)) 0 daily) ns
total-map o daily [] = refl
total-map o daily (n ∷ ns) =
    ap (λ m. count_of (o.format_day (day_start n)) 0 daily + m) (total-map o daily ns)

All-unit : (ls : List RequestLog) → All (λ _. Unit {0}) ls
All-unit [] = tt
All-unit (l ∷ ls) = (tt, All-unit ls)

window-IsInside : (f : LogFilter) (d : Db) → All (IsInside f.from f.to) (window f d)
unfolding window in_window
window-IsInside f d =
    All-keep_if (λ _. Unit {0}) (IsInside f.from f.to) (in_window f) d.request_logs
      (λ l e _. ground arith) (All-unit d.request_logs)

chart-total :
    (o : Outside) (win : StatsWindow) (who token host : String) (d : Db)
    → IsCalendar o win.to
    → win.to ≤ day_start (bangkok_day win.from + most_days)
    → total (bars o (daily_buckets o.format_day (window (filter_of win who token host) d)) win)
      ≡ length (window (filter_of win who token host) d)
unfolding bars
chart-total o win who token host d cal short =
    let ls = window (filter_of win who token host) d in
    let ns = chart_days most_days (bangkok_day win.from) win.to in
    total-map o (daily_buckets o.format_day ls) ns
    ∙ ap (λ f. sum_over f ns)
        (fun_ext (λ n. count_of-group_by o.format_day (o.format_day (day_start n)) ls))
    ∙ heights o win.from win.to cal short ls (window-IsInside (filter_of win who token host) d)

-- If a time is given the name of its day, the days of the window have different names and the window
-- is not longer than 400 days, then the bars of the chart that is drawn from an answer of the daily
-- counts add up to the number of requests in the window.
pub daily_counts-total :
    (o : Outside) (win : StatsWindow) (who token host : String) (w : World)
    → IsCalendar o win.to
    → win.to ≤ day_start (bangkok_day win.from + most_days)
    → Gives
        (λ a _.
          OnOk
            (λ daily.
              total (bars o daily win) ≡ length (window (filter_of win who token host) w.db))
            a)
        (daily_counts o.format_day (filter_of win who token host) w)
unfolding daily_counts db_read
daily_counts-total o win who token host w cal short = answered-total (w.outside.fate w.calls)
  where
    answered-total :
        (x : Fate)
        → OnOk
            (λ daily.
              total (bars o daily win) ≡ length (window (filter_of win who token host) w.db))
            (read_result x
              (daily_buckets o.format_day (window (filter_of win who token host) w.db)))
    answered-total answered = chart-total o win who token host w.db cal short
    answered-total refused = tt
    answered-total lost = tt
