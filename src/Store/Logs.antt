-- ===== src/Store/Logs.antt =====
-- The request log's windows of internal/store/store.go: counts, groups, rows.
use sir_auth.Base.{
  ℕ, suc, String, Bool, true, false, ◌&&◌, ◌||◌, ◌==◌, Option, none, some, List, [], ◌∷◌, map, ltb,
  leb, find, keep, length, first, skip, if◌then◌else◌,
}
use sir_auth.Model.{RequestLog, ApiToken, User}
use sir_auth.World.{Db, M, Result, db_read}

pub record LogFilter : Type 0 where
  pub from : ℕ
  pub to : ℕ
  pub user_id : String
  pub token_id : String
  pub host : String

-- An SQL comparison with a column that may be NULL.
abbrev pub is_token : Option String → String → Bool
is_token none id = false
is_token (some t) id = t == id

-- The conditions of `logs`; an empty string is no condition.
unfoldable pub in_window : LogFilter → RequestLog → Bool
in_window f l =
    leb f.from l.ts
    && ltb l.ts f.to
    && (f.user_id == "" || l.user_id == f.user_id)
    && (f.token_id == "" || is_token l.token_id f.token_id)
    && (f.host == "" || l.host == f.host)

unfoldable pub window : LogFilter → Db → List RequestLog
unfolding in_window
window f d = keep (in_window f) d.request_logs

unfoldable pub count_logs : LogFilter → M (Result ℕ)
unfolding window
count_logs f = db_read λ d. length (window f d)

-- `GROUP BY`: a group has the row that began it, which stands for all its rows, and their number.
abbrev pub Group : Type 0
Group = RequestLog × ℕ

unfoldable pub add_to : (RequestLog → RequestLog → Bool) → RequestLog → List Group → List Group
add_to same l [] = (l, 1) ∷ []
add_to same l ((m, n) ∷ gs) = if same l m then (m, suc n) ∷ gs else (m, n) ∷ add_to same l gs

unfoldable pub group_by : (RequestLog → RequestLog → Bool) → List RequestLog → List Group
unfolding add_to
group_by same [] = []
group_by same (l ∷ ls) = add_to same l (group_by same ls)

-- `ORDER BY n DESC LIMIT …`; groups of the same size are in any order.
unfoldable pub insert_group : Group → List Group → List Group
insert_group g [] = g ∷ []
insert_group g (h ∷ gs) = if leb h.1 g.1 then g ∷ h ∷ gs else h ∷ insert_group g gs

unfoldable pub largest_first : List Group → List Group
unfolding insert_group
largest_first [] = []
largest_first (g ∷ gs) = insert_group g (largest_first gs)

pub record Bucket : Type 0 where
  pub key : String
  pub label : String
  pub n : ℕ

abbrev pub or_text : Option String → String → String
or_text none d = d
or_text (some s) d = s

abbrev pub same_option : Option String → Option String → Bool
same_option none none = true
same_option (some a) (some b) = a == b
same_option none (some b) = false
same_option (some a) none = false

abbrev token_name_of : Option ApiToken → Option String
token_name_of none = none
token_name_of (some t) = some t.name

abbrev email_of : Option User → Option String
email_of none = none
email_of (some u) = some u.email

-- The joins with the tokens and the users; a row that is gone joins with nothing.
unfoldable pub joined_name : Db → RequestLog → Option String
joined_name d l = elim l.token_id [
  | none ↦ none
  | some i ↦ token_name_of (find (λ t. t.id == i) d.api_tokens)
]

unfoldable pub joined_email : Db → RequestLog → Option String
joined_email d l = email_of (find (λ u. u.id == l.user_id) d.users)

pub data Grouping : Type 0 where
  by_host by_token by_user : Grouping

-- The columns of `GROUP BY` are equal.
unfoldable pub same_group : Grouping → Db → RequestLog → RequestLog → Bool
unfolding joined_name joined_email
same_group by_host d l m = l.host == m.host
same_group by_token d l m =
    same_option l.token_id m.token_id
    && same_option (joined_name d l) (joined_name d m)
    && l.cred == m.cred
same_group by_user d l m =
    l.user_id == m.user_id && same_option (joined_email d l) (joined_email d m)

unfoldable pub to_bucket : Grouping → Db → Group → Bucket
unfolding joined_name joined_email
to_bucket by_host d (l, n) = record { key = l.host; label = l.host; n = n }
to_bucket by_token d (l, n) = record {
  key = or_text l.token_id "";
  label = or_text (joined_name d l) l.cred;
  n = n;
}
to_bucket by_user d (l, n) = record {
  key = l.user_id;
  label = or_text (joined_email d l) "";
  n = n;
}

-- `CountBy`
unfoldable pub groups : LogFilter → Grouping → Db → List Group
unfolding largest_first group_by same_group window
groups f by d = largest_first (group_by (same_group by d) (window f d))

unfoldable pub count_by : LogFilter → Grouping → ℕ → M (Result (List Bucket))
unfolding groups to_bucket
count_by f by limit = db_read λ d. map (to_bucket by d) (first limit (groups f by d))

-- `DailyCounts` over the days of Bangkok, given by `day`.
abbrev pub daily_buckets : (ℕ → String) → List RequestLog → List Bucket
daily_buckets day ls =
    map (λ g. record { key = day g.0.ts; label = ""; n = g.1 })
      (group_by (λ l m. day l.ts == day m.ts) ls)

unfoldable pub daily_counts : (ℕ → String) → LogFilter → M (Result (List Bucket))
unfolding group_by window
daily_counts day f = db_read λ d. daily_buckets day (window f d)

pub record LogRow : Type 0 where
  pub log : RequestLog
  pub token_name : String
  pub email : String

unfoldable pub log_row : Db → RequestLog → LogRow
unfolding joined_name joined_email
log_row d l = record {
  log = l;
  token_name = or_text (joined_name d l) "";
  email = or_text (joined_email d l) "";
}

-- `ORDER BY ts DESC, id DESC`: a row that was inserted later stands earlier in the table here.
unfoldable pub insert_log_row : RequestLog → List RequestLog → List RequestLog
insert_log_row l [] = l ∷ []
insert_log_row l (m ∷ ls) = if leb m.ts l.ts then l ∷ m ∷ ls else m ∷ insert_log_row l ls

unfoldable pub newest_first : List RequestLog → List RequestLog
unfolding insert_log_row
newest_first [] = []
newest_first (l ∷ ls) = insert_log_row l (newest_first ls)

-- `logRows`
unfoldable pub log_rows : LogFilter → Db → List LogRow
unfolding newest_first log_row window
log_rows f d = map (log_row d) (newest_first (window f d))

-- `RecentLogs`
unfoldable pub recent_logs : LogFilter → (limit offset : ℕ) → M (Result (List LogRow))
unfolding log_rows
recent_logs f limit offset = db_read λ d. first limit (skip offset (log_rows f d))

-- `EachLog`: every row of the window, in the same order.
unfoldable pub each_log : LogFilter → M (Result (List LogRow))
unfolding log_rows
each_log f = db_read λ d. log_rows f d
