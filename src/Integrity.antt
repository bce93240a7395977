-- ===== src/Integrity.antt =====
-- The constraints of internal/store/schema.sql as an invariant of the tables: primary and unique keys,
-- foreign keys, the check on the role; and what it means that an action keeps a property of them.
pub mod Tables
pub mod Rules
pub mod Triples
pub mod Users
pub mod Writes
pub mod Reads
pub mod Store
pub mod Codes
pub mod Readers
pub mod OAuth
pub mod Handlers
pub mod Pages
pub mod Serve
pub mod Reachable
use sir_auth.Base.{String, Bool, true, false, ◌==◌, ◌≡◌, Option, none, some, List, any}
use sir_auth.Base.Rows.{All}
use sir_auth.Model.{User, OAuthClient, RoutePolicy, SystemLog, RefreshToken, AuthCode, ApiToken}
use sir_auth.World.{Db, World, M, Response, Request}
use sir_auth.Outcome.{Ends}
use sir_auth.Store.{is_role}
use sir_auth.Integrity.Tables.{Unique, Has}

abbrev pub HasUser : Db → String → Type 0
HasUser d id = Has (λ (u : User). u.id) id d.users

abbrev pub HasClient : Db → String → Type 0
HasClient d id = Has (λ (c : OAuthClient). c.client_id) id d.clients

-- The tables obey the schema.
pub record IsWf (d : Db) : Type 0 where
  pub user_ids : Unique (λ (u : User). u.id) d.users
  pub emails : Unique (λ (u : User). u.email) d.users
  pub roles : All (λ (u : User). is_role u.role ≡ true) d.users
  pub client_ids : Unique (λ (c : OAuthClient). c.client_id) d.clients
  pub codes : Unique (λ (c : AuthCode). c.code) d.auth_codes
  pub code_users : All (λ (c : AuthCode). HasUser d c.user_id) d.auth_codes
  pub code_clients : All (λ (c : AuthCode). HasClient d c.client_id) d.auth_codes
  pub tokens : Unique (λ (t : RefreshToken). t.token) d.refresh_tokens
  pub token_users : All (λ (t : RefreshToken). HasUser d t.user_id) d.refresh_tokens
  pub token_clients : All (λ (t : RefreshToken). HasClient d t.client_id) d.refresh_tokens
  pub api_token_ids : Unique (λ (t : ApiToken). t.id) d.api_tokens
  pub api_token_hashes : Unique (λ (t : ApiToken). t.token_hash) d.api_tokens
  pub api_token_users : All (λ (t : ApiToken). HasUser d t.user_id) d.api_tokens
  pub log_ids : Unique (λ (l : SystemLog). l.id) d.system_logs
  pub policy_hosts : Unique (λ (p : RoutePolicy). p.host) d.route_policies

-- However the action ends, the tables still have the property.
pub record Keeps {A : Type 0} (P : Db → Type 0) (m : M A) : Type 0 where
  pub kept : (w : World) → P w.db → Ends (λ _ w'. P w'.db) (λ _ w'. P w'.db) (m w)

-- One statement keeps the property, unless a constraint refuses it.
abbrev pub OnRows : {A : Type 0} → (Db → Type 0) → Option (A × Db) → Type 0
OnRows P none = Unit {0}
OnRows P (some (a, d)) = P d

abbrev pub KeepsSql : {A : Type 0} → (Db → Type 0) → (Db → Option (A × Db)) → Type 0
KeepsSql P f = (d : Db) → P d → OnRows P (f d)
