-- ===== src/Tabs/Databases.antt =====
-- web/src/components/server/DatabasesTab.tsx and BackupsTab.tsx: a server's databases and backups.
use Prim.Native.String
use sky_panel.Base.{ℕ, leb, String, Option, none, some, nonempty, if◌then◌else◌}
use sky_panel.Base.Decimal.{show}
use sky_panel.Base.Json.{Json}
use sky_panel.Api.{Failure, message_or}
use sky_panel.Display.{mb, gb}
use sky_panel.Endpoints.Databases.{DatabasesApi}

pub record Databases : Type 0 where
  pub name : String
  pub error : Option Json

-- The submission of the form; `trim` is that of strings.
unfoldable pub submit : (trim : String → String) → String → Databases → Option DatabasesApi
submit trim server_id d =
    if nonempty (trim d.name) then some (DatabasesApi.create server_id (trim d.name)) else none

unfoldable pub database_created : Databases → Databases
database_created d = record { name = ""; error = none }

unfoldable pub database_refused : Failure → Databases → Databases
database_refused e d = record d { error = some (message_or "Failed to create database" e) }

-- The error that the tab of the backups shows, after each answer
unfoldable pub backup_restored : Option Json → Option Json
backup_restored error = none

unfoldable pub backup_refused : Failure → Option Json → Option Json
backup_refused e error = some (message_or "Operation failed" e)

abbrev followed : String → String → String
followed a b = String.◌++◌ a b

-- `formatSize`; `to_fixed a b digits` is `(a / b).toFixed(digits)`.
unfoldable pub format_size : (to_fixed : ℕ → ℕ → ℕ → String) → ℕ → String
format_size to_fixed bytes =
    if leb gb bytes
    then followed (to_fixed bytes gb 2) " GB"
    else if leb mb bytes
    then followed (to_fixed bytes mb 1) " MB"
    else if leb 1024 bytes
    then followed (to_fixed bytes 1024 1) " KB"
    else followed (show bytes) " B"
