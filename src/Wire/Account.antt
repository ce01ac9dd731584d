-- ===== src/Wire/Account.antt =====
-- web/src/types/api.ts: users, sessions and tokens.
use sky_panel.Base.{ℕ, String, Bool, Option}
use sky_panel.Base.Int.{ℤ}

pub data Role : Type 0 where
  admin user : Role

pub record User : Type 0 where
  pub id : String
  pub email : String
  pub username : String
  pub role : Role
  pub totp_enabled : Bool
  pub coins : ℤ

pub record TokenPair : Type 0 where
  pub access_token : String
  pub refresh_token : String
  pub user : User

pub record TotpSetup : Type 0 where
  pub secret : String
  pub url : String

pub record Session : Type 0 where
  pub id : String
  pub created_at : String
  pub expires_at : String
  pub current : Bool

pub record ApiKey : Type 0 where
  pub id : String
  pub name : String
  pub last_used_at : Option String
  pub created_at : String

pub record AuditEntry : Type 0 where
  pub actor_id : String
  pub action : String
  pub target : Option String
  pub metadata : Option String
  pub created_at : String

pub record LeaderboardEntry : Type 0 where
  pub rank : ℕ
  pub username : String
  pub coins : ℕ

pub record Achievement : Type 0 where
  pub id : String
  pub name : String
  pub description : String
  pub unlocked : Bool
