-- ===== src/Integrity/Readers.antt =====
-- About the guards and the caches: what they do to the tables, which is nothing.
use sir_auth.Base.{
  arith, ℕ, ltb, ◌-◌, ◌/◌, refl, String, Bool, true, false, ◌≡◌, Option, none, some, List,
}
use sir_auth.Model.{ApiToken, RequestLog, active}
use sir_auth.World.{
  Db, World, Request, Result, failed, ok, Claims, M, CacheEntry, next, tick, second, pure, ◌>>=◌,
}
use sir_auth.Outcome.{Ends}
use sir_auth.Http.{server_error}
use sir_auth.Token.{validate_access_token, generate_token, generate_access_token, new_pat}
use sir_auth.Cache.{TtlCache}
use sir_auth.Cache
use sir_auth.Usage.{log_usage}
use sir_auth.Verify.Identities.{
  if_open, Identity, invalidate_auth, session_claims, load_user, load_token, load_policy,
  host_public, user_cache, token_cache, policy_cache, cookie_claims, cookie_user, token_user,
  cookie_identity, token_row, token_identity,
}
use sir_auth.Verify.{log_request, answer, answer_token, by_credential, verify_session}
use sir_auth.Session.{session_user, session_row, page_user, post_user}
use sir_auth.Admin.{session_admin}
use sir_auth.Integrity.{Keeps}
use sir_auth.Integrity.Rules.{
  keeping, test-Keeps, bind-Keeps, or_stop-Keeps, pure-Keeps, respond-Keeps,
}
use sir_auth.Integrity.Reads.{reading, get_user_by_id-Keeps}
use sir_auth.Integrity.Codes.{storing}

module _ {P : Db → Type 0} where
  pub invalidate_auth-Keeps : Keeps P invalidate_auth
  unfolding invalidate_auth
  invalidate_auth-Keeps = record { kept = λ w p. p }

  pub validate_access_token-Keeps : (a b : String) → Keeps P (validate_access_token a b)
  unfolding validate_access_token
  validate_access_token-Keeps a b = record { kept = λ w p. ground arith }

  pub session_claims-Keeps : (r : Request) → Keeps P (session_claims r)
  unfolding session_claims validate_access_token
  session_claims-Keeps r = record { kept = λ w p. ground arith }

  session_row-Keeps : (c : Option Claims) → Keeps P (session_row c)
  session_row-Keeps none = record { kept = λ w p. p }
  session_row-Keeps (some c) = record {
    kept = (bind-Keeps (get_user_by_id-Keeps c.sub) (λ row. or_stop-Keeps row server_error)).kept;
  }

  pub session_user-Keeps : (r : Request) → Keeps P (session_user r)
  unfolding session_user
  session_user-Keeps r = search (reading, session_claims-Keeps, session_row-Keeps)

  pub page_user-Keeps : (r : Request) → Keeps P (page_user r)
  unfolding page_user
  page_user-Keeps r = search (reading, session_user-Keeps)

  pub post_user-Keeps : (r : Request) → Keeps P (post_user r)
  unfolding post_user
  post_user-Keeps r = search (reading, session_user-Keeps) depth 20

  pub session_admin-Keeps : (r : Request) → Keeps P (session_admin r)
  unfolding session_admin
  session_admin-Keeps r = search (reading, session_user-Keeps)

  -- ── The caches ──
  if_open-Keeps :
      {A : Type 0} {k : M (Result A)} (s : Result (Unit {0})) → Keeps P k → Keeps P (if_open s k)
  if_open-Keeps failed h = record { kept = λ w p. p }
  if_open-Keeps (ok u) h = record { kept = h.kept }

  load_user-Keeps : (k : String) → Keeps P (load_user k)
  unfolding load_user
  load_user-Keeps k = search (reading, if_open-Keeps)

  load_token-Keeps : (k : String) → Keeps P (load_token k)
  unfolding load_token
  load_token-Keeps k = search (reading, if_open-Keeps)

  load_policy-Keeps : (k : String) → Keeps P (load_policy k)
  unfolding load_policy
  load_policy-Keeps k = search (reading, if_open-Keeps)

  module _ {V : Type 0} (c : TtlCache V) (loads : (k : String) → Keeps P (c.load k))
      (same_db : (m : List (String × CacheEntry V)) (w : World)
        → (c.set_entries m w).db ≡ w.db) where
    settle_load-Keeps :
        (k : String) (o : Option (CacheEntry V)) (r : Result V)
        → Keeps P (Cache.settle_load c k o r)
    unfolding Cache.settle_load
    settle_load-Keeps k o (ok v) = record { kept = λ w p. rw (same_db _ _) p }
    settle_load-Keeps k (some e) failed = record { kept = λ w p. p }
    settle_load-Keeps k none failed = record { kept = λ w p. p }

    reload-Keeps : (k : String) (o : Option (CacheEntry V)) → Keeps P (Cache.reload c k o)
    unfolding Cache.reload
    reload-Keeps k o = bind-Keeps (loads k) (λ r. settle_load-Keeps k o r)

    get_entry-Keeps : (k : String) (o : Option (CacheEntry V)) → Keeps P (Cache.get_entry c k o)
    unfolding Cache.get_entry
    get_entry-Keeps k none = record { kept = (reload-Keeps k none).kept }
    get_entry-Keeps k (some e) = record {
      kept = λ w p.
          (test-Keeps {m = λ w. next (ok e.value) (tick w)}
              {k = λ w. Cache.reload c k (some e) (tick w)}
              (ltb (w.outside.clock w.calls - e.loaded_at) c.ttl) (record { kept = λ w p. p })
              (record { kept = λ w p. (reload-Keeps k (some e)).kept (tick w) p })).kept
            w p;
    }

    pub cache_get-Keeps : (k : String) → Keeps P (Cache.get c k)
    unfolding Cache.get
    cache_get-Keeps k = record {
      kept = λ w p. (get_entry-Keeps k (Cache.lookup k (c.entries w))).kept w p;
    }

  user_lookup-Keeps : (k : String) → Keeps P (Cache.get user_cache k)
  user_lookup-Keeps = cache_get-Keeps user_cache load_user-Keeps (λ _ _. refl)

  token_lookup-Keeps : (k : String) → Keeps P (Cache.get token_cache k)
  token_lookup-Keeps = cache_get-Keeps token_cache load_token-Keeps (λ _ _. refl)

  policy_lookup-Keeps : (k : String) → Keeps P (Cache.get policy_cache k)
  policy_lookup-Keeps = cache_get-Keeps policy_cache load_policy-Keeps (λ _ _. refl)

  host_public-Keeps : (h : String) → Keeps P (host_public h)
  unfolding host_public
  host_public-Keeps h = search (reading, policy_lookup-Keeps)

  cookie_claims-Keeps : (c : Option Claims) → Keeps P (cookie_claims c)
  cookie_claims-Keeps none = record { kept = λ w p. p }
  cookie_claims-Keeps (some c) = record {
    kept = (bind-Keeps (user_lookup-Keeps c.sub) (λ u. pure-Keeps {a = cookie_user c u})).kept;
  }

  pub cookie_identity-Keeps : (r : Request) → Keeps P (cookie_identity r)
  unfolding cookie_identity
  cookie_identity-Keeps r = search (reading, session_claims-Keeps, cookie_claims-Keeps)

  token_row-Keeps : (o : Result (Option ApiToken)) → Keeps P (token_row o)
  token_row-Keeps failed = record { kept = λ w p. p }
  token_row-Keeps (ok none) = record { kept = λ w p. p }
  token_row-Keeps (ok (some t)) = record {
    kept = λ w p. active-Keeps t (active t (w.outside.clock w.calls / second)) w p;
  }
    where
      active-Keeps :
          (t : ApiToken) (b : Bool) (w : World)
          → P w.db
          → Ends
              (λ _ w'. P w'.db)
              (λ _ w'. P w'.db)
              (elim b [
                | false ↦ next none (tick w)
                | true ↦ (do u ← Cache.get user_cache t.user_id; pure (token_user t u)) (tick w)
              ])
      active-Keeps t false w p = p
      active-Keeps t true w p =
          (bind-Keeps (user_lookup-Keeps t.user_id) (λ u. pure-Keeps {a = token_user t u})).kept
            (tick w) p

  pub token_identity-Keeps : (raw : String) → Keeps P (token_identity raw)
  unfolding token_identity
  token_identity-Keeps raw = search (reading, token_lookup-Keeps, token_row-Keeps)

  -- ── `VerifySession` ──
  log_usage-Keeps : (l : RequestLog) → Keeps P (log_usage l)
  unfolding log_usage
  log_usage-Keeps l = record { kept = λ w p. p }

  log_request-Keeps : (r : Request) (h c : String) (i : Identity) → Keeps P (log_request r h c i)
  unfolding log_request
  log_request-Keeps r h c i = search (reading, log_usage-Keeps)

  answer-Keeps : (r : Request) (c : String) (o : Option Identity) → Keeps P (answer r c o)
  unfolding answer
  answer-Keeps r c none = search (reading, host_public-Keeps, log_request-Keeps)
  answer-Keeps r c (some i) = search (reading, log_request-Keeps)

  answer_token-Keeps : (r : Request) (o : Option Identity) → Keeps P (answer_token r o)
  unfolding answer_token
  answer_token-Keeps r none = respond-Keeps
  answer_token-Keeps r (some i) = answer-Keeps r "token" (some i)

  by_credential-Keeps : (r : Request) (o : Option String) → Keeps P (by_credential r o)
  unfolding by_credential
  by_credential-Keeps r (some raw) = search (reading, token_identity-Keeps, answer_token-Keeps)
  by_credential-Keeps r none = search (reading, cookie_identity-Keeps, answer-Keeps)

  pub verify_session-Keeps : (r : Request) → Keeps P (verify_session r)
  unfolding verify_session
  verify_session-Keeps r = by_credential-Keeps r _

  pub generate_token-Keeps : (a b c d e : String) (n : ℕ) → Keeps P (generate_token a b c d e n)
  unfolding generate_token
  generate_token-Keeps a b c d e n = search (keeping)

  pub generate_access_token-Keeps : (a b c d e : String) → Keeps P (generate_access_token a b c d e)
  unfolding generate_access_token
  generate_access_token-Keeps a b c d e = search (generate_token-Keeps)

  pub new_pat-Keeps : Keeps P new_pat
  unfolding new_pat
  new_pat-Keeps = search (keeping)

pub ruleset guarding = (
  storing, invalidate_auth-Keeps, session_user-Keeps, page_user-Keeps, post_user-Keeps,
  session_admin-Keeps, cookie_identity-Keeps, generate_token-Keeps, generate_access_token-Keeps,
  new_pat-Keeps,
)
