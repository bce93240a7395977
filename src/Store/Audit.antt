-- ===== src/Store/Audit.antt =====
-- About `CreateSystemLog` of internal/store/store.go: an entry is written or not, and the handler
-- goes on.
use sir_auth.Base.{String, ◌≡◌, ◌≢◌, arith}
use sir_auth.World.{World, Response, Result, halt, next, db_write, now_unix}
use sir_auth.Outcome.{Ends-intro, Gives-next}
use sir_auth.Token.{random_string}
use sir_auth.Store.{create_system_log}

-- The entry leaves the other tables and the caches as they are.
pub create_system_log-frame :
    (a b c d : String) (x : Result (Unit {0})) (w w' : World)
    → create_system_log a b c d w ≡ next x w'
    → (w'.db.users ≡ w.db.users)
      × (w'.db.refresh_tokens ≡ w.db.refresh_tokens)
      × (w'.db.auth_codes ≡ w.db.auth_codes)
      × (w'.db.api_tokens ≡ w.db.api_tokens)
      × (w'.db.request_logs ≡ w.db.request_logs)
      × (w'.user_cache ≡ w.user_cache)
      × (w'.token_cache ≡ w.token_cache)
unfolding create_system_log db_write random_string now_unix
create_system_log-frame a b c d x w w' e = ground arith

pub create_system_log-halt :
    (a b c d : String) (w w' : World) (resp : Response) → create_system_log a b c d w ≢ halt resp w'
unfolding create_system_log db_write random_string now_unix
create_system_log-halt a b c d w w' resp e = ground arith

pub create_system_log-next :
    (a b c d : String) (w : World)
    → (x : Result (Unit {0})) × (w' : World) × (create_system_log a b c d w ≡ next x w') × Unit {0}
create_system_log-next a b c d w = Gives-next (create_system_log a b c d w) (
    Ends-intro (λ _ _. ⊥) (λ _ _. Unit {0}) (create_system_log a b c d w)
      (λ resp w' e. create_system_log-halt a b c d w w' resp e) (λ x w' e. tt))
