-- ===== src/Integrity/Store.antt =====
-- About the writes of internal/store/store.go to users, clients, policies and the system log: however one
-- ends, the tables still obey the schema.
use sir_auth.Base.{
  ℕ, String, Bool, false, ◌==◌, ◌≡◌, refl, inl, inr, not, ◌∷◌, List, any, keep, update_if,
  Bool-cases,
}
use sir_auth.Model.{User, OAuthClient, RefreshToken, AuthCode, RoutePolicy, SystemLog, RequestLog}
use sir_auth.World.{Db}
use sir_auth.Store.{
  create_user, update_user, set_user_approved, set_password, bump_sessions, delete_user,
  delete_user_data, delete_data_sql, create_client, set_route_policy, delete_route_policy,
  create_system_log, has_id, set_approved, with_password, valid_after, of_user, revoke,
  has_client_id, insert_client, insert_log, upsert_policy, for_host,
}
use sir_auth.Integrity.{IsWf, Keeps, KeepsSql, HasClient}
use sir_auth.Integrity.Tables.{Has, Has-cons, Unique, Unique-keep, All-mono}
use sir_auth.Integrity.Rules.{keeping, write-Keeps}
use sir_auth.Integrity.Users.{
  insert_user-Keeps, save_user-Keeps, update_users_IsWf, delete_cascade-Keeps,
}
use sir_auth.Integrity.Writes.{update_tokens_IsWf, Unique-upsert_policy}
use sir_auth.Integrity.Reads.{with_id-Keeps}

-- ── Users ──
pub create_user-Keeps : (u : User) → Keeps IsWf (create_user u)
unfolding create_user
create_user-Keeps u = search (keeping, with_id-Keeps, write-Keeps, insert_user-Keeps)

pub update_user-Keeps : (u : User) → Keeps IsWf (update_user u)
unfolding update_user
update_user-Keeps u = search (write-Keeps, save_user-Keeps)

pub set_user_approved-Keeps : (i : String) (b : Bool) → Keeps IsWf (set_user_approved i b)
unfolding set_user_approved
set_user_approved-Keeps i b =
    write-Keeps _
      (λ d. update_users_IsWf (has_id i) (set_approved b) d (λ _. refl) (λ _. refl) (λ _. refl))

pub set_password-Keeps : (i h s : String) (t : ℕ) → Keeps IsWf (set_password i h s t)
unfolding set_password
set_password-Keeps i h s t =
    write-Keeps _ (λ d.
      update_users_IsWf (has_id i) (with_password h s t) d (λ _. refl) (λ _. refl) (λ _. refl))

pub bump_sessions-Keeps : (i : String) (t : ℕ) → Keeps IsWf (bump_sessions i t)
unfolding bump_sessions
bump_sessions-Keeps i t = write-Keeps _ (λ d wf.
    update_tokens_IsWf (of_user i) revoke
      (record d { users = update_if (has_id i) (valid_after t) d.users }) (λ _. refl) (λ _. refl)
      (λ _. refl)
      (update_users_IsWf (has_id i) (valid_after t) d (λ _. refl) (λ _. refl) (λ _. refl) wf))

pub delete_user-Keeps : (i : String) → Keeps IsWf (delete_user i)
unfolding delete_user
delete_user-Keeps i = write-Keeps _ (λ d. delete_cascade-Keeps i d)

-- The request log has no constraints.
pub with_logs_IsWf :
    (d : Db) (ls : List RequestLog) → IsWf d → IsWf (record d { request_logs = ls })
with_logs_IsWf d ls wf = record {
  user_ids = wf.user_ids;
  emails = wf.emails;
  roles = wf.roles;
  client_ids = wf.client_ids;
  codes = wf.codes;
  code_users = wf.code_users;
  code_clients = wf.code_clients;
  tokens = wf.tokens;
  token_users = wf.token_users;
  token_clients = wf.token_clients;
  api_token_ids = wf.api_token_ids;
  api_token_hashes = wf.api_token_hashes;
  api_token_users = wf.api_token_users;
  log_ids = wf.log_ids;
  policy_hosts = wf.policy_hosts;
}

delete_data_IsWf : (i : String) (d : Db) → IsWf d → IsWf (delete_data_sql i d)
unfolding delete_data_sql
delete_data_IsWf i d wf =
    let ls = keep (λ l. not (l.user_id == i)) d.request_logs in
    delete_cascade-Keeps i (record d { request_logs = ls }) (with_logs_IsWf d ls wf)

pub delete_user_data-Keeps : (i : String) → Keeps IsWf (delete_user_data i)
unfolding delete_user_data
delete_user_data-Keeps i = write-Keeps _ (λ d. delete_data_IsWf i d)

-- ── Clients, route policies, the system log ──
with_clients_IsWf :
    (c : OAuthClient) (d : Db)
    → IsWf d
    → any (has_client_id c.client_id) d.clients ≡ false
    → IsWf (record d { clients = c ∷ d.clients })
with_clients_IsWf c d wf e =
    let there : (id : String)
        → HasClient d id
        → Has (λ (o : OAuthClient). o.client_id) id (c ∷ d.clients) =
      Has-cons (λ (o : OAuthClient). o.client_id) c d.clients in
    record {
      user_ids = wf.user_ids;
      emails = wf.emails;
      roles = wf.roles;
      client_ids = (e, wf.client_ids);
      codes = wf.codes;
      code_users = wf.code_users;
      code_clients =
          All-mono (λ (a : AuthCode). HasClient d a.client_id)
            (λ a. Has (λ (o : OAuthClient). o.client_id) a.client_id (c ∷ d.clients)) d.auth_codes
            (λ a. there a.client_id) wf.code_clients;
      tokens = wf.tokens;
      token_users = wf.token_users;
      token_clients =
          All-mono (λ (t : RefreshToken). HasClient d t.client_id)
            (λ t. Has (λ (o : OAuthClient). o.client_id) t.client_id (c ∷ d.clients))
            d.refresh_tokens (λ t. there t.client_id) wf.token_clients;
      api_token_ids = wf.api_token_ids;
      api_token_hashes = wf.api_token_hashes;
      api_token_users = wf.api_token_users;
      log_ids = wf.log_ids;
      policy_hosts = wf.policy_hosts;
    }

insert_client-Keeps : (c : OAuthClient) → KeepsSql IsWf (insert_client c)
unfolding insert_client
insert_client-Keeps c d wf = elim (Bool-cases (any (has_client_id c.client_id) d.clients)) [
  | inl e ↦ rw e tt
  | inr e ↦ rw e (with_clients_IsWf c d wf e)
]

pub create_client-Keeps : (c : OAuthClient) → Keeps IsWf (create_client c)
unfolding create_client
create_client-Keeps c = write-Keeps _ (insert_client-Keeps c)

with_policies_IsWf :
    (d : Db) (ps : List RoutePolicy)
    → IsWf d
    → Unique (λ (p : RoutePolicy). p.host) ps
    → IsWf (record d { route_policies = ps })
with_policies_IsWf d ps wf u = record {
  user_ids = wf.user_ids;
  emails = wf.emails;
  roles = wf.roles;
  client_ids = wf.client_ids;
  codes = wf.codes;
  code_users = wf.code_users;
  code_clients = wf.code_clients;
  tokens = wf.tokens;
  token_users = wf.token_users;
  token_clients = wf.token_clients;
  api_token_ids = wf.api_token_ids;
  api_token_hashes = wf.api_token_hashes;
  api_token_users = wf.api_token_users;
  log_ids = wf.log_ids;
  policy_hosts = u;
}

pub set_route_policy-Keeps : (p : RoutePolicy) → Keeps IsWf (set_route_policy p)
unfolding set_route_policy
set_route_policy-Keeps p = write-Keeps _ (λ d wf.
    with_policies_IsWf d (upsert_policy p d.route_policies) wf
      (Unique-upsert_policy p d.route_policies wf.policy_hosts))

pub delete_route_policy-Keeps : (h : String) → Keeps IsWf (delete_route_policy h)
unfolding delete_route_policy
delete_route_policy-Keeps h = write-Keeps _ (λ d wf.
    with_policies_IsWf d (keep (λ p. not (for_host h p)) d.route_policies) wf (
      Unique-keep (λ (p : RoutePolicy). p.host) (λ p. not (for_host h p)) d.route_policies
        wf.policy_hosts))

insert_log-Keeps : (l : SystemLog) → KeepsSql IsWf (insert_log l)
unfolding insert_log
insert_log-Keeps l d wf = elim (Bool-cases (any (λ (k : SystemLog). k.id == l.id) d.system_logs)) [
  | inl e ↦ rw e tt
  | inr e ↦ rw e (record {
    user_ids = wf.user_ids;
    emails = wf.emails;
    roles = wf.roles;
    client_ids = wf.client_ids;
    codes = wf.codes;
    code_users = wf.code_users;
    code_clients = wf.code_clients;
    tokens = wf.tokens;
    token_users = wf.token_users;
    token_clients = wf.token_clients;
    api_token_ids = wf.api_token_ids;
    api_token_hashes = wf.api_token_hashes;
    api_token_users = wf.api_token_users;
    log_ids = (e, wf.log_ids);
    policy_hosts = wf.policy_hosts;
  })
]

pub create_system_log-Keeps : (a t m s : String) → Keeps IsWf (create_system_log a t m s)
unfolding create_system_log
create_system_log-Keeps a t m s = search (keeping, with_id-Keeps, write-Keeps, insert_log-Keeps)
