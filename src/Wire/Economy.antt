-- ===== src/Wire/Economy.antt =====
-- web/src/types/api.ts: quotas, coins and the store.
use sky_panel.Base.{ℕ, String, Bool, List, Option}
use sky_panel.Base.Int.{ℤ}

pub record RedeemCode : Type 0 where
  pub id : String
  pub code : String
  pub coins : ℕ
  pub max_uses : ℕ
  pub uses : ℕ
  pub created_at : String

pub record QuotaDims : Type 0 where
  pub memory_bytes : ℕ
  pub cpu_percent : ℕ
  pub disk_bytes : ℕ
  pub databases : ℕ

pub record QuotaUsage : Type 0 where
  pub base : QuotaDims
  pub open base use *
  pub servers : ℕ

pub record QuotaInfo : Type 0 where
  pub usage : QuotaUsage
  pub limit : QuotaDims
  pub allow_unlimited_cpu : Bool

pub record AdminQuotaInfo : Type 0 where
  pub base : QuotaInfo
  pub open base use *
  pub bonus : QuotaDims

pub data StoreDimension : Type 0 where
  memory cpu disk databases : StoreDimension

pub record StoreItem : Type 0 where
  pub id : String
  pub name : String
  pub description : String
  pub dimension : StoreDimension
  pub amount : ℕ
  pub price : ℕ

pub record HeartbeatResult : Type 0 where
  pub credited : ℤ
  pub balance : ℤ
  pub session_started_at : String

pub record CoinResult : Type 0 where
  pub credited : ℤ
  pub balance : ℤ

pub record LedgerEntry : Type 0 where
  pub amount : ℤ
  pub reason : String
  pub metadata : Option String
  pub created_at : String

pub record Wallet : Type 0 where
  pub balance : ℤ
  pub history : List LedgerEntry
