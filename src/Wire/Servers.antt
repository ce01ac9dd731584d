-- ===== src/Wire/Servers.antt =====
-- web/src/types/api.ts: eggs, servers and what a node reports of them.
use sky_panel.Base.{ℕ, String, Bool, List, Option, Dict}
use sky_panel.Base.Int.{ℤ}

pub record EggVariable : Type 0 where
  pub name : String
  pub env : String
  pub default : String
  pub user_editable : Bool

pub record Egg : Type 0 where
  pub id : String
  pub name : String
  pub category : String
  pub description : String
  pub docker_image : String
  pub startup : String
  pub stop_command : String
  pub variables : List EggVariable

pub data ServerStatus : Type 0 where
  installing offline running stopping errored : ServerStatus

pub record Server : Type 0 where
  pub id : String
  pub owner_id : String
  pub node_id : String
  pub egg_id : String
  pub name : String
  pub status : ServerStatus
  pub memory_bytes : ℕ
  pub cpu_limit : ℕ
  pub disk_bytes : ℕ
  pub primary_port : ℕ
  pub additional_ports : Option (List ℕ)
  pub variables : Dict String
  pub backup_interval_hours : ℕ
  pub last_backup_at : Option String
  pub suspended : Bool
  pub status_message : Option String
  pub description : String
  pub public_status : Bool

pub record AdminServer : Type 0 where
  pub base : Server
  pub open base use *
  pub owner_username : String

pub record AdminAnalytics : Type 0 where
  pub users : ℕ
  pub admins : ℕ
  pub servers : ℕ
  pub servers_by_status : Dict ℕ
  pub suspended : ℕ
  pub servers_by_egg : Dict ℕ
  pub nodes : ℕ
  pub nodes_connected : ℕ
  pub eggs : ℕ
  pub coins_in_circulation : ℤ

pub record BackupEntry : Type 0 where
  pub filename : String
  pub size_bytes : ℕ
  pub created_at : ℕ

pub record Database : Type 0 where
  pub id : String
  pub owner_id : String
  pub server_id : String
  pub node_id : String
  pub name : String
  pub username : String
  pub password : String
  pub host : String
  pub port : ℕ
  pub created_at : String

-- `F` is the type of the fractional numbers.
pub record ContainerHeartbeat (F : Type 0) : Type 0 where
  pub server_id : String
  pub running : Bool
  pub cpu_percent : F
  pub mem_used_bytes : ℕ
  pub mem_limit_bytes : ℕ
  pub net_rx_bytes : ℕ
  pub net_tx_bytes : ℕ

pub data ScheduleAction : Type 0 where
  start stop restart kill backup command : ScheduleAction

pub record Schedule : Type 0 where
  pub id : String
  pub name : String
  pub action : ScheduleAction
  pub payload : Option String
  pub interval_minutes : ℕ
  pub enabled : Bool
  pub last_run_at : Option String

pub data Permission : Type 0 where
  console files power settings databases : Permission

pub record Subuser : Type 0 where
  pub user_id : String
  pub permissions : List Permission

pub record FileEntry : Type 0 where
  pub name : String
  pub is_dir : Bool
  pub size_bytes : ℕ

pub record ListFilesResult : Type 0 where
  pub entries : List FileEntry

pub record ReadFileResult : Type 0 where
  pub content_base64 : String
  pub size_bytes : ℕ

pub record PlayerInfo : Type 0 where
  pub players : List String
  pub max : ℕ
  pub version : String

-- `F` is the type of the fractional numbers.
pub record PublicServerStatus (F : Type 0) : Type 0 where
  pub name : String
  pub online : Bool
  pub players : List String
  pub player_count : ℕ
  pub max_players : ℕ
  pub version : String
  pub cpu_percent : F
  pub mem_used_bytes : ℕ
  pub mem_limit_bytes : ℕ
