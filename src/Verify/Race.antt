-- ===== src/Verify/Race.antt =====
-- About the caches of internal/handler/verify.go when a load is under way while they are emptied: the
-- calls of the store and of the cache stand here in the order in which two requests may make them.
use sir_auth.Base.{
  ℕ, suc, ◌-◌, ◌*◌, ◌<◌, String, false, ◌≡◌, Option, some, List, [], ◌∷◌, find, update_if, arith,
  eq_iff, eq_refl,
}
use sir_auth.Base.Rows.{All}
use sir_auth.Model.{User}
use sir_auth.World.{
  World, M, Result, ok, CacheEntry, second, db_read, db_write, open_store, ◌>>=◌, ◌>>◌,
}
use sir_auth.Outcome.{Gives}
use sir_auth.Store.{has_id, get_user_by_id, set_user_approved, set_approved}
use sir_auth.Cache
use sir_auth.Cache.{lookup, assign, put, settle_load}
use sir_auth.Verify.Identities.{user_cache, load_user, invalidate_auth}
use sir_auth.Verify.Fresh.{IsUp}

-- A request has not found a user and loads the row; an administrator takes the approval back and the
-- caches are emptied; the first request stores what it has loaded; a third one asks.
abbrev pub late_load : String → Option (CacheEntry (Option User)) → M (Result (Option User))
late_load id old = do
  row ← load_user id
  _ ← set_user_approved id false
  invalidate_auth
  _ ← settle_load user_cache id old row
  Cache.get user_cache id

set_approved-off :
    (id : String) (us : List User)
    → All (λ u. u.id ≡ id → u.approved ≡ false) (update_if (has_id id) (set_approved false) us)
unfolding update_if
set_approved-off id [] = tt
set_approved-off id (u ∷ us) = ((λ e. ground (arith, eq_iff u.id id)), set_approved-off id us)

-- In that order of calls, if PostgreSQL answers them and no two readings of the clock are 30 seconds
-- apart, the third request is given the row as it was before the change, whatever the cache held of
-- it, while every row of that user in the table is without approval.
pub late_load-stale :
    (id : String) (old : Option (CacheEntry (Option User))) (w : World) (u : User)
    → IsUp w
    → find (has_id id) w.db.users ≡ some u
    → ((m n : ℕ) → w.outside.clock n - w.outside.clock m < 30 * second)
    → Gives
        (λ o v. (o ≡ ok (some u)) × All (λ x. x.id ≡ id → x.approved ≡ false) v.db.users)
        (late_load id old w)
unfolding load_user open_store get_user_by_id set_user_approved db_read db_write invalidate_auth
    settle_load put assign Cache.get lookup
late_load-stale id old w u up row clocks = ground (
  arith,
  eq_refl id,
  set_approved-off id w.db.users,
  up.answered w.calls,
  up.answered (suc w.calls),
  clocks (suc (suc w.calls)) (suc (suc (suc w.calls))),
)
