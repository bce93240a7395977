-- ===== src/Tests/Statistics.antt =====
-- The theorems on the statistics, at a small window and the sample world.
use sir_auth.Base.{
  arith, ℕ, ◌*◌, String, Bool, sym, none, true, false, ◌≡◌, refl, [], ◌∷◌, ltb, length,
  if◌then◌else◌, eq_iff, ◌++◌, inl, inr, Bool-cases,
}
use sir_auth.Model.{RequestLog}
use sir_auth.World.{Outside, World, Request, link}
use sir_auth.Outcome.{Gives, OnOk}
use sir_auth.Store.Logs.{Bucket, window, daily_counts}
use sir_auth.Stats.{page_number}
use sir_auth.Stats.Windows.{StatsWindow, hour, filter_of, parse_window}
use sir_auth.Stats.Chart.{bars, day_start}
use sir_auth.Stats.Days.{IsCalendar, total, daily_counts-total}
use sir_auth.Stats.Queries.{follow}
use sir_auth.Stats.Links.{Params, set_param, query, page_params, pager, bucket_link}
use sir_auth.Stats.Follow.{filters_in, rows_asked, links-rows_asked}
use sir_auth.Tests.{sample_world, sample_outside, sample_db, alice, post}

-- The first two days of Bangkok that have a number.
abbrev two_days : ℕ → String
two_days t = if ltb t (17 * hour) then "1970-01-01" else "1970-01-02"

abbrev calendar : Outside
calendar = record sample_outside { format_day = two_days }

abbrev first_day : StatsWindow
first_day = record { from = 0; to = 24 * hour; preset = ""; from_day = ""; to_day = "" }

abbrev one_request : RequestLog
one_request = record {
  ts = 20 * hour;
  host = "app.x";
  method = "GET";
  path = "/";
  ip = "";
  cred = "session";
  token_id = none;
  user_id = "alice";
}

abbrev visited_world : World
visited_world = record sample_world { db = record sample_db { request_logs = one_request ∷ [] } }

different : ◌≡◌ {A = String} "1970-01-01" "1970-01-02" → ⊥
different e = absurd (false≢true ((eq_iff "1970-01-01" "1970-01-02").1 e))
  where
    false≢true : ◌≡◌ {A = Bool} false true → ⊥
    false≢true q = cc

two_days-IsCalendar : IsCalendar calendar first_day.to
two_days-IsCalendar = record {
  names = λ t. ground arith;
  distinct = λ m n h k e. elim (Bool-cases (ltb (day_start m) (17 * hour))) [
    | inl early ↦ elim (Bool-cases (ltb (day_start n) (17 * hour))) [
      | inl early' ↦ ground arith
      | inr late' ↦ absurd (different (rw (early, late') at e))
    ]
    | inr late ↦ elim (Bool-cases (ltb (day_start n) (17 * hour))) [
      | inl early' ↦ absurd (different (sym (rw (late, early') at e)))
      | inr late' ↦ ground arith
    ]
  ];
}

daily_counts-total_example :
    Gives
      (λ a _.
        OnOk
          (λ daily.
            total (bars calendar daily first_day)
            ≡ length (window (filter_of first_day "" "" "") visited_world.db))
          a)
      (daily_counts two_days (filter_of first_day "" "" "") visited_world)
daily_counts-total_example =
    daily_counts-total calendar first_day "" "" "" visited_world two_days-IsCalendar (omega arith)

abbrev usage_request : Request
usage_request = post "/account/usage" (λ k. "")

-- What the page of these requests shows of them, and the parameters of its links.
abbrev shown_window : StatsWindow
shown_window = parse_window sample_outside usage_request 5

abbrev shown_filters : Params
shown_filters = filters_in true alice usage_request

abbrev next_page : Params
next_page = page_params sample_outside 2 shown_window shown_filters

abbrev one_bucket : Bucket
one_bucket = record { key = "app.x"; label = "app.x"; n = 1 }

abbrev of_bucket : String → Params
of_bucket param = query shown_window (set_param param "app.x" shown_filters)

next_page-pager :
    pager sample_outside "/account/usage" 1 true shown_window shown_filters
    ≡ pager sample_outside "/account/usage" 1 false shown_window shown_filters
      ++ link "/account/usage" next_page ∷ []
unfolding pager
next_page-pager = refl

of_bucket-bucket_link :
    (param : String)
    → bucket_link "/account/usage" param shown_window shown_filters one_bucket
      ≡ link "/account/usage" (of_bucket param) ∷ []
unfolding bucket_link
of_bucket-bucket_link param = refl

links-rows_asked_example :
    (rows_asked sample_outside true alice (follow next_page usage_request) 7
      ≡ rows_asked sample_outside true alice usage_request 7)
    × (page_number sample_outside (follow next_page usage_request) ≡ 2)
    × (rows_asked sample_outside true alice (follow (of_bucket "host") usage_request) 7
        ≡ record (rows_asked sample_outside true alice usage_request 7) { host = "app.x" })
    × (rows_asked sample_outside true alice (follow (of_bucket "token") usage_request) 7
        ≡ record (rows_asked sample_outside true alice usage_request 7) { token_id = "app.x" })
links-rows_asked_example =
    links-rows_asked sample_outside true alice usage_request 5 7 "/account/usage" one_bucket
      one_bucket next_page (of_bucket "host") (of_bucket "token") refl refl next_page-pager
      (of_bucket-bucket_link "host") (of_bucket-bucket_link "token")
