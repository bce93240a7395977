-- ===== src/Model.antt =====
-- internal/model/model.go: the rows of the tables. Times are unix seconds.
use sir_auth.Base.{ℕ, String, Bool, true, false, Option, none, some, ltb, ◌&&◌}

pub record User : Type 0 where
  pub id : String
  pub email : String
  pub password_hash : String
  pub salt : String
  pub role : String
  pub created_at : ℕ
  pub approved : Bool
  pub sessions_valid_after : ℕ

pub record OAuthClient : Type 0 where
  pub is_public : Bool
  pub redirect_uri : String
  pub client_id : String
  pub client_secret : String
  pub name : String

pub record AuthCode : Type 0 where
  pub code_challenge : String
  pub code : String
  pub client_id : String
  pub user_id : String
  pub redirect_uri : String
  pub scope : String
  pub expires_at : ℕ
  pub used : Bool

pub record RefreshToken : Type 0 where
  pub token : String
  pub user_id : String
  pub client_id : String
  pub scope : String
  pub expires_at : ℕ
  pub revoked : Bool

pub record SystemLog : Type 0 where
  pub id : String
  pub action : String
  pub target_id : String
  pub admin_id : String
  pub details : String
  pub created_at : ℕ

pub record ApiToken : Type 0 where
  pub id : String
  pub user_id : String
  pub name : String
  pub token_hash : String
  pub prefix : String
  pub created_at : ℕ
  pub expires_at : Option ℕ
  pub revoked_at : Option ℕ
  pub last_used_at : Option ℕ
  pub last_used_ip : String

pub record RequestLog : Type 0 where
  pub ts : ℕ
  pub host : String
  pub method : String
  pub path : String
  pub ip : String
  pub cred : String
  pub token_id : Option String
  pub user_id : String

pub record RoutePolicy : Type 0 where
  pub host : String
  pub is_public : Bool
  pub updated_at : ℕ
  pub updated_by : String

abbrev is_nil {ℓ} : {A : Type ℓ} → Option A → Bool
is_nil none = true
is_nil (some a) = false

abbrev not_expired : Option ℕ → ℕ → Bool
not_expired none now = true
not_expired (some e) now = ltb now e

-- `Active`: neither revoked nor expired.
unfoldable pub active : ApiToken → ℕ → Bool
active t now = is_nil t.revoked_at && not_expired t.expires_at now
