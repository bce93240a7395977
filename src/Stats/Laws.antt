-- ===== src/Stats/Laws.antt =====
-- About `UsageCSV` of internal/handler/stats.go: whose requests a user sees.
use sir_auth.Base.{
  arith, String, true, ◌≡◌, ◌≢◌, refl, subst, List, [], ◌∷◌, map, leb, eq_iff, ◌⊎◌, inl, inr,
  Bool-cases,
}
use sir_auth.Base.Rows.{All-mem, All}
use sir_auth.Model.{User, RequestLog}
use sir_auth.World.{
  Outside, Db, World, Fate, answered, refused, lost, read_result, Request, Response, Body, csv,
  next, now_ns, db_read, open_store,
}
use sir_auth.Outcome.{OnSuccess, >>=-eq-next}
use sir_auth.Integrity.Tables.{All-keep_if}
use sir_auth.Session.{page_user, session_user}
use sir_auth.Session.Guards.{IsSignedIn, session_user-IsSignedIn}
use sir_auth.Store.Logs.{
  LogFilter, LogRow, in_window, window, insert_log_row, newest_first, log_row, log_rows, each_log,
}
use sir_auth.Stats.{csv_row, csv_heading, csv_rows, write_csv, usage_csv}

abbrev IsOf : String → RequestLog → Type 0
IsOf uid l = l.user_id ≡ uid

in_window-IsOf :
    (f : LogFilter) (l : RequestLog) → f.user_id ≢ "" → in_window f l ≡ true → IsOf f.user_id l
unfolding in_window
in_window-IsOf f l n h = ground (arith, eq_iff f.user_id "", eq_iff l.user_id f.user_id)

window-IsOf : (f : LogFilter) (d : Db) → f.user_id ≢ "" → All (IsOf f.user_id) (window f d)
unfolding window
window-IsOf f d n =
    All-keep_if (λ _. Unit {0}) (IsOf f.user_id) (in_window f) d.request_logs
      (λ l h _. in_window-IsOf f l n h) (all_rows d.request_logs)
  where
    all_rows : (ls : List RequestLog) → All (λ _. Unit {0}) ls
    all_rows [] = tt
    all_rows (l ∷ ls) = (tt, all_rows ls)

insert_log_row-All :
    (P : RequestLog → Type 0) (l : RequestLog) (ls : List RequestLog)
    → P l
    → All P ls
    → All P (insert_log_row l ls)
unfolding insert_log_row
insert_log_row-All P l [] p h = (p, tt)
insert_log_row-All P l (m ∷ ls) p (q, h) = elim (Bool-cases (leb m.ts l.ts)) [
  | inl e ↦ rw e (p, (q, h))
  | inr e ↦ rw e (q, insert_log_row-All P l ls p h)
]

newest_first-All :
    (P : RequestLog → Type 0) (ls : List RequestLog) → All P ls → All P (newest_first ls)
unfolding newest_first
newest_first-All P [] h = tt
newest_first-All P (l ∷ ls) (p, h) =
    insert_log_row-All P l (newest_first ls) p (newest_first-All P ls h)

-- A line of the file: its heading, or a request of this user.
abbrev pub IsOwnLine : Outside → String → List String → Type 0
IsOwnLine o uid row =
    (row ≡ csv_heading) ⊎ ((l : LogRow) × (row ≡ csv_row o l) × (l.log.user_id ≡ uid))

abbrev pub IsOwnFile : Outside → String → Body → Type 0
IsOwnFile o uid (csv name rows complete) = All (IsOwnLine o uid) rows
IsOwnFile o uid _ = ⊥

lines_own :
    (o : Outside) (uid : String) (d : Db) (ls : List RequestLog)
    → All (IsOf uid) ls
    → All (IsOwnLine o uid) (map (csv_row o) (map (log_row d) ls))
unfolding log_row
lines_own o uid d [] h = tt
lines_own o uid d (l ∷ ls) (p, h) = (inr (log_row d l, refl, p), lines_own o uid d ls h)

file_own :
    (t : Fate) (o : Outside) (f : LogFilter) (d : Db)
    → f.user_id ≢ ""
    → All (IsOwnLine o f.user_id) (csv_rows o (read_result t (log_rows f d)))
unfolding log_rows
file_own answered o f d n = (
  inl refl,
  lines_own o f.user_id d (newest_first (window f d))
      (newest_first-All (IsOf f.user_id) (window f d) (window-IsOf f d n)),
)
file_own refused o f d n = (inl refl, tt)
file_own lost o f d n = (inl refl, tt)

write_csv_own :
    (r : Request) (uid name : String) (w : World)
    → uid ≢ ""
    → OnSuccess (λ resp v. IsOwnFile v.outside uid resp.body) (write_csv r uid name w)
unfolding write_csv now_ns each_log db_read
write_csv_own r uid name w n = file_own _ w.outside _ w.db n

page_user-user :
    (r : Request) (w w' : World) (u : User)
    → page_user r w ≡ next u w'
    → session_user r w ≡ next u w'
unfolding page_user open_store
page_user-user r w w' u e = ground arith

-- If no user has an empty identifier, the file of a user's own usage that is sent has, besides its
-- heading, only requests of the user whose valid session cookie the request has.
pub usage_csv-IsOwnFile :
    (r : Request) (w w' : World) (resp : Response)
    → All (λ u. u.id ≢ "") w.db.users
    → usage_csv r w ≡ next resp w'
    → (u : User) × IsSignedIn r w u × IsOwnFile w'.outside u.id resp.body
unfolding usage_csv
usage_csv-IsOwnFile r w w' resp named e =
    let (u, w₁, k, e₁) = >>=-eq-next (page_user r) (λ u. write_csv r u.id "usage") w e in
    let (_, signed_in) = session_user-IsSignedIn r w w₁ u (page_user-user r w w₁ u k) in
    (
      u,
      signed_in,
      subst (OnSuccess (λ resp v. IsOwnFile v.outside u.id resp.body)) e₁ (
          write_csv_own r u.id "usage" w₁
            (All-mem (λ u. u.id ≢ "") w.db.users u named signed_in.listed)),
    )
