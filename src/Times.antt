-- ===== src/Times.antt =====
-- The times of internal/handler/ui.go. (A distance beyond Go's range of 292 years is not cut.)
use sir_auth.Base.{ℕ, ◌-◌, ◌*◌, ◌/◌, String, ltb, nat_eq, if◌then◌else◌}
use sir_auth.Text.{concat}
use sir_auth.World.{Outside, M, ◌>>=◌, pure, ask, now_ns, second, Cell, moment}

abbrev a_minute : ℕ
a_minute = 60 * second

abbrev an_hour : ℕ
an_hour = 60 * a_minute

abbrev a_day : ℕ
a_day = 24 * an_hour

unfoldable pub plural : Outside → ℕ → (unit : String) → String
plural o n unit =
    if nat_eq n 1 then concat "1 " unit else concat (o.itoa n) (concat " " (concat unit "s"))

-- The cases of `relTime`, of a distance of a minute or more.
unfoldable pub distance : Outside → ℕ → String
unfolding plural
distance o d =
    if ltb d an_hour
    then concat (o.itoa (d / a_minute)) " min"
    else if ltb d a_day
    then concat (o.itoa (d / an_hour)) " h"
    else if ltb d (60 * a_day)
    then plural o (d / a_day) "day"
    else if ltb d (365 * a_day)
    then plural o (d / (30 * a_day)) "month"
    else plural o (d / (365 * a_day)) "year"

-- `relTime`
unfoldable pub rel_time : Outside → (t now : ℕ) → String
unfolding distance
rel_time o t now =
    let d = if ltb now t then t - now else now - t in
    if ltb d a_minute
    then "just now"
    else if ltb now t
    then concat "in " (distance o d)
    else concat (distance o d) " ago"

-- `fmtTime`
unfoldable pub fmt_time : Outside → ℕ → String
fmt_time o unix = o.format_minute (unix * second)

-- `timeTag`
unfoldable pub time_tag : ℕ → M Cell
unfolding rel_time fmt_time
time_tag unix = do
  o ← ask
  now ← now_ns
  pure (moment (fmt_time o unix) (rel_time o (unix * second) now))
