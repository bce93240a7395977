-- ===== src/Stats/Chart.antt =====
-- `dailyChart` of internal/handler/stats.go: a bar for each day of Bangkok in the window, at most 400.
use sir_auth.Base.{
  ℕ, zero, suc, ◌+◌, ◌-◌, ◌*◌, ◌/◌, String, ◌==◌, List, [], ◌∷◌, map, ltb, if◌then◌else◌,
}
use sir_auth.World.{Outside}
use sir_auth.Store.Logs.{Bucket}
use sir_auth.Stats.Windows.{StatsWindow, hour}

-- Bangkok is seven hours ahead of UTC: the number of a time's day there, and when a day begins.
abbrev pub bangkok_day : ℕ → ℕ
bangkok_day t = (t + 7 * hour) / (24 * hour)

abbrev pub day_start : ℕ → ℕ
day_start n = n * (24 * hour) - 7 * hour

-- `counts[b.Key] = b.N` for every bucket, and then `counts[d]`: the last bucket of a key counts.
unfoldable pub count_of : String → ℕ → List Bucket → ℕ
count_of k n [] = n
count_of k n (b ∷ bs) = count_of k (if b.key == k then b.n else n) bs

-- The loop over the days, with the rounds that are left.
unfoldable pub chart_days : ℕ → (day to : ℕ) → List ℕ
chart_days zero n to = []
chart_days (suc rounds) n to =
    let rest = chart_days rounds (suc n) to in if ltb (day_start n) to then n ∷ rest else []

abbrev pub most_days : ℕ
most_days = 400

pub record Bar : Type 0 where
  pub day : String
  pub n : ℕ

abbrev pub bar_of : Outside → List Bucket → ℕ → Bar
bar_of o daily n = record {
  day = o.format_day (day_start n);
  n = count_of (o.format_day (day_start n)) 0 daily;
}

unfoldable pub bars : Outside → List Bucket → StatsWindow → List Bar
unfolding count_of chart_days
bars o daily win = map (bar_of o daily) (chart_days most_days (bangkok_day win.from) win.to)

-- `max`, by which the bars are scaled.
unfoldable pub highest : ℕ → List Bucket → ℕ
highest m [] = m
highest m (b ∷ bs) = highest (if ltb m b.n then b.n else m) bs
