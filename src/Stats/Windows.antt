-- ===== src/Stats/Windows.antt =====
-- The windows of internal/handler/stats.go: which time a page or a file covers, and whose requests. A day
-- in Bangkok has 24 hours.
use sir_auth.Base.{
  ℕ, ◌+◌, ◌-◌, ◌*◌, String, Bool, ◌==◌, ◌||◌, Option, none, some, ltb, if◌then◌else◌,
}
use sir_auth.Model.{User}
use sir_auth.World.{Outside, Request, second}
use sir_auth.Store.Logs.{LogFilter}

-- `statsWindow`; a date range has no preset.
pub record StatsWindow : Type 0 where
  pub from : ℕ
  pub to : ℕ
  pub preset : String
  pub from_day : String
  pub to_day : String

abbrev pub minute : ℕ
minute = 60 * second

abbrev pub hour : ℕ
hour = 3600 * second

abbrev pub length_of : String → ℕ
length_of preset =
    if preset == "24h" then 24 * hour else if preset == "30d" then 30 * 24 * hour else 7 * 24 * hour

unfoldable pub preset_or_week : String → String
preset_or_week p = if p == "24h" || p == "7d" || p == "30d" then p else "7d"

abbrev pub preset_window : Outside → String → ℕ → StatsWindow
preset_window o p now = record {
  from = now - length_of p;
  to = now + minute;
  preset = p;
  from_day = o.format_day (now - length_of p);
  to_day = o.format_day now;
}

abbrev range_window : Option ℕ → Option ℕ → (from_day to_day : String) → StatsWindow → StatsWindow
range_window none t a b other = other
range_window (some f) none a b other = other
range_window (some f) (some t) a b other =
    if ltb t f
    then other
    else record { from = f; to = t + 24 * hour; preset = ""; from_day = a; to_day = b }

-- `parseWindow`
unfoldable pub parse_window : Outside → Request → ℕ → StatsWindow
parse_window o r now =
    range_window (o.parse_day (r.query "from")) (o.parse_day (r.query "to")) (r.query "from")
      (r.query "to") (preset_window o (preset_or_week (r.query "range")) now)

abbrev pub filter_of : StatsWindow → (user_id token_id host : String) → LogFilter
filter_of win user_id token_id host = record {
  from = win.from;
  to = win.to;
  user_id = user_id;
  token_id = token_id;
  host = host;
}

abbrev pub last_window : ℕ → ℕ → String → LogFilter
last_window now d user_id = record {
  from = now - d;
  to = now + minute;
  user_id = user_id;
  token_id = "";
  host = "";
}

-- Whose requests are counted: only an administrator may ask for another's, or for all.
abbrev pub scope_of : Bool → User → Request → String
scope_of admin u r = if admin then r.query "user" else u.id
