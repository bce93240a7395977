-- ===== src/Register/Setup.antt =====
-- About `Setup` of internal/handler/setup.go: it runs once.
use sir_auth.Base.{
  arith, true, ◌≡◌, ◌≢◌, refl, List, [], ◌∷◌, length, subst, any, Bool-cases, inl, inr,
}
use sir_auth.Model.{User, OAuthClient}
use sir_auth.World.{Db, World, Request, next, open_store, db_read}
use sir_auth.Outcome.{Ends, Ends-intro, Ends-bind, OnSuccess, Ends-mono}
use sir_auth.Store.{count_users, create_client, insert_client, has_client_id}
use sir_auth.Register.{setup_checks, seed, setup, first_client}
use sir_auth.Register.Laws.{IsAdded, Users, Added, add_user-Yields, log-Keeps}
use sir_auth.Integrity.{Keeps, KeepsSql}
use sir_auth.Integrity.Rules.{write-Keeps, or_stop-Keeps}
use sir_auth.Integrity.Triples.{Yields, bind-Yields, skip-Yields, skip_then, pure-Yields}
use sir_auth.Integrity.Reads.{reading}

setup_checks-Keeps : {P : Db → Type 0} (r : Request) → Keeps P (setup_checks r)
unfolding setup_checks
setup_checks-Keeps r = search (reading) depth 30

no_users : (us : List User) → length us ≡ 0 → us ≡ []
no_users [] h = refl
no_users (u ∷ us) h = absurd (omega (arith, h))

setup_checks-inv :
    (r : Request) (w w' : World) → setup_checks r w ≡ next tt w' → length w.db.users ≡ 0
unfolding setup_checks open_store count_users db_read
setup_checks-inv r w w' e = ground arith

-- Once there is a user, set-up is refused and changes no table, whatever the request says.
pub setup-refused :
    (r : Request) (w : World) → w.db.users ≢ [] → Ends (λ _ v. v.db ≡ w.db) (λ _ _. ⊥) (setup r w)
unfolding setup
setup-refused r w some_user =
    Ends-bind (λ _ v. v.db ≡ w.db) (λ _ _. ⊥) (setup_checks r) (λ _. seed r) w
      (Ends-intro (λ _ v. v.db ≡ w.db) (λ _ v. Ends (λ _ u. u.db ≡ w.db) (λ _ _. ⊥) (seed r v))
        (setup_checks r w)
        (λ resp v e.
          subst (λ x. Ends (λ _ u. u.db ≡ w.db) (λ _ u. u.db ≡ w.db) x) e
            ((setup_checks-Keeps {P = λ d. d ≡ w.db} r).kept w refl))
        (λ a v e. absurd (some_user (no_users w.db.users (setup_checks-inv r w v e)))))

insert_client-Keeps :
    (P : List User → Type 0) (c : OAuthClient) → KeepsSql (λ d. P d.users) (insert_client c)
unfolding insert_client
insert_client-Keeps P c d p = elim (Bool-cases (any (has_client_id c.client_id) d.clients)) [
  | inl e ↦ rw e tt
  | inr e ↦ rw e p
]

client-Keeps : (P : List User → Type 0) (c : OAuthClient) → Keeps (λ d. P d.users) (create_client c)
unfolding create_client
client-Keeps P c = write-Keeps _ (insert_client-Keeps P c)

seed-Yields :
    (r : Request) (us : List User)
    → Yields (Users us) (λ _. Added (r.json "admin_email") "admin" true us) (seed r)
unfolding seed
seed-Yields r us =
    bind-Yields
      (add_user-Yields (r.json "admin_email") (r.json "admin_password") "admin" true _ _ us)
      (λ u. skip-Yields (client-Keeps _ (first_client r)) (λ made.
        skip_then (or_stop-Keeps made _)
          (skip-Yields (log-Keeps _ _ _ _ _) (λ _. pure-Yields (λ _ p. p)))))

setup-Yields :
    (r : Request) (us : List User)
    → Yields (Users us) (λ _. Added (r.json "admin_email") "admin" true us) (setup r)
unfolding setup
setup-Yields r us = skip_then (setup_checks-Keeps r) (seed-Yields r us)

setup_from :
    (r : Request) (w : World) (us : List User)
    → w.db.users ≡ us
    → OnSuccess
        (λ _ v.
          (w.db.users ≡ []) × IsAdded (r.json "admin_email") "admin" true w.db.users v.db.users)
        (setup r w)
setup_from r w [] e =
    Ends-mono (setup r w) (λ _ _ _. tt) (λ _ v h. (e, rw e h)) ((setup-Yields r []).yields w e)
setup_from r w (u ∷ us) e =
    Ends-mono (setup r w) (λ _ _ _. tt) (λ _ _ h. absurd h) (setup-refused r w (λ none. cc))

-- Before a set-up that goes through there were no users, and after it there is one: an approved
-- administrator with the address of the request.
pub setup-IsAdded :
    (r : Request) (w : World)
    → OnSuccess
        (λ _ v.
          (w.db.users ≡ []) × IsAdded (r.json "admin_email") "admin" true w.db.users v.db.users)
        (setup r w)
setup-IsAdded r w = setup_from r w w.db.users refl
