-- ===== src/Routes/Laws.antt =====
-- About `setRoutePolicy` of internal/handler/routes.go: who changes which policies.
use sir_auth.Base.{
  String, none, some, Option, ◌⊎◌, inl, inr, subst, sym, ◌∙◌, keep, not, ◌/◌, refl, arith, true,
  false, ◌==◌, ◌≡◌, ◌≢◌, eq_iff,
}
use sir_auth.Model.{User, RoutePolicy}
use sir_auth.World.{World, Request, Response, next, open_store, db_write, now_unix, second}
use sir_auth.Outcome.{>>=-eq-next}
use sir_auth.Store.{
  for_host, upsert_policy, set_route_policy, delete_route_policy, create_system_log,
}
use sir_auth.Store.Policies.{view, find-upsert, find-keep}
use sir_auth.Token.{random_string}
use sir_auth.Verify.Identities.{invalidate_auth}
use sir_auth.Session.{session_user}
use sir_auth.Session.Guards.{IsSignedIn, session_user-IsSignedIn}
use sir_auth.Admin.{session_admin}
use sir_auth.Routes.{
  new_policy, change_policy, policy_form, put_policy, edit_route_policy, valid_host, policy_host,
  auth_host_name,
}

-- What the form asks for, of the row of its host, if it has one afterwards.
abbrev pub IsAsked : Request → User → Option RoutePolicy → Type 0
IsAsked r me none = r.form "action" ≡ "delete"
IsAsked r me (some p) =
    (p.updated_by ≡ me.id)
    × (((r.form "action" ≡ "public") × (p.is_public ≡ true))
        ⊎ ((r.form "action" ≡ "login") × (p.is_public ≡ false)))

-- The administrator whose form has changed a policy, the host that it is about, and the change: this
-- host has the policy that is asked for, or none, and every other host has the one it had.
pub record IsPolicyEdit (r : Request) (w w' : World) (me : User) : Type 0 where
  pub signed_in : IsSignedIn r w me
  pub admin : me.role ≡ "admin"
  pub valid : valid_host (policy_host r) ≡ true
  pub not_ours : policy_host r ≢ auth_host_name w.outside
  pub asked : IsAsked r me (view w'.db (policy_host r))
  pub others : (k : String) → k ≢ policy_host r → view w'.db k ≡ view w.db k

session_admin-inv :
    (r : Request) (w w' : World) (u : User)
    → session_admin r w ≡ next u w'
    → (session_user r w ≡ next u w') × (u.role ≡ "admin")
unfolding session_admin
session_admin-inv r w w' u e = ground (arith, eq_iff u.role "admin")

-- The table after the change of one host.
record IsChange (r : Request) (host : String) (me : User) (w w' : World) : Type 0 where
  asked : IsAsked r me (view w'.db host)
  others : (k : String) → k ≢ host → view w'.db k ≡ view w.db k

policies-set :
    (r : Request) (me : User) (p : RoutePolicy) (w w' : World)
    → w'.db.route_policies ≡ upsert_policy p w.db.route_policies
    → IsAsked r me (some p)
    → IsChange r p.host me w w'
policies-set r me p w w' e a = record {
  asked =
      subst (IsAsked r me) {x = some p}
        (sym
          (rw e (find-upsert p p.host w.db.route_policies ∙ ground (arith, eq_iff p.host p.host))))
        a;
  others = λ k ne. rw e (find-upsert p k w.db.route_policies ∙ ground (arith, eq_iff p.host k));
}

policies-delete :
    (r : Request) (me : User) (host : String) (w w' : World)
    → w'.db.route_policies ≡ keep (λ p. not (for_host host p)) w.db.route_policies
    → r.form "action" ≡ "delete"
    → IsChange r host me w w'
policies-delete r me host w w' e a = record {
  asked =
      subst (IsAsked r me) {x = none}
        (sym (rw e (find-keep host host w.db.route_policies ∙ ground (arith, eq_iff host host)))) a;
  others = λ k ne. rw e (find-keep host k w.db.route_policies ∙ ground (arith, eq_iff host k));
}

put_policy-cases :
    (r : Request) (me : User) (w w' : World) (resp : Response)
    → put_policy r me w ≡ next resp w'
    → ((r.form "action" ≡ "delete")
        × (w'.db.route_policies ≡ keep (λ p. not (for_host (policy_host r) p)) w.db.route_policies))
      ⊎ (((r.form "action" ≡ "public") ⊎ (r.form "action" ≡ "login"))
          × (w'.db.route_policies
              ≡ upsert_policy
                  (new_policy
                    (policy_host r)
                    (r.form "action")
                    me.id
                    (w.outside.clock w.calls / second))
                  w.db.route_policies))
unfolding put_policy change_policy set_route_policy delete_route_policy db_write now_unix
    invalidate_auth create_system_log random_string
put_policy-cases r me w w' resp e = ground (
  arith,
  eq_iff (r.form "action") "delete",
  eq_iff (r.form "action") "public",
  eq_iff (r.form "action") "login",
)

put_policy-IsChange :
    (r : Request) (me : User) (w w' : World) (resp : Response)
    → put_policy r me w ≡ next resp w'
    → IsChange r (policy_host r) me w w'
put_policy-IsChange r me w w' resp e = elim (put_policy-cases r me w w' resp e) [
  | inl (a, d) ↦ policies-delete r me (policy_host r) w w' d a
  | inr (inl a, d) ↦ policies-set r me _ w w' d (refl, inl (a, rw a refl))
  | inr (inr a, d) ↦ policies-set r me _ w w' d (refl, inr (a, rw a refl))
]

policy_form-inv :
    (r : Request) (w w' : World) (me : User)
    → policy_form r w ≡ next me w'
    → (session_admin r w ≡ next me w')
      × (valid_host (policy_host r) ≡ true)
      × ((policy_host r == auth_host_name w.outside) ≡ false)
unfolding policy_form open_store
policy_form-inv r w w' me e = ground arith

-- A change of a route's policy that goes through was asked for by a signed-in, approved administrator,
-- and it is about a well-formed host that is not the host of sir-auth itself: this host then has
-- the policy that was asked for, or none if that was asked for, and every other host has the policy
-- that it had.
pub edit_route_policy-IsPolicyEdit :
    (r : Request) (w w' : World) (resp : Response)
    → edit_route_policy r w ≡ next resp w'
    → (me : User) × IsPolicyEdit r w w' me
unfolding edit_route_policy
edit_route_policy-IsPolicyEdit r w w' resp e =
    let (me, w₁, k, e₁) = >>=-eq-next (policy_form r) (put_policy r) w e in
    let (s, valid, n) = policy_form-inv r w w₁ me k in
    let (u, admin) = session_admin-inv r w w₁ me s in
    let (db, signed_in) = session_user-IsSignedIn r w w₁ me u in
    let change = put_policy-IsChange r me w₁ w' resp e₁ in
    (
      me,
      record {
        signed_in = signed_in;
        asked = change.asked;
        others = λ k ne. change.others k ne ∙ rw db refl;
        admin = admin;
        valid = valid;
        not_ours = λ same. ground (arith, eq_iff (policy_host r) (auth_host_name w.outside));
      },
    )
