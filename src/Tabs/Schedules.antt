-- ===== src/Tabs/Schedules.antt =====
-- web/src/components/server/SchedulesTab.tsx: actions that the panel runs on an interval.
use Prim.Native.String
use sky_panel.Base.{
  ℕ, ◌/◌, ◌%◌, ◌==◌, leb, String, Option, none, some, Bool, true, false, not, ◌&&◌, nonempty,
  or_text, List, [], ◌∷◌, any, if◌then◌else◌, ◌≡◌, refl,
}
use sky_panel.Base.Decimal.{show}
use sky_panel.Base.Json.{Json}
use sky_panel.Wire.Servers.{ScheduleAction}
use sky_panel.Api.{Failure, message_or}
use sky_panel.Endpoints.Schedules.{SchedulesApi}

-- `ACTION_LABEL`
unfoldable pub action_label : ScheduleAction → String
action_label ScheduleAction.start = "Start server"
action_label ScheduleAction.stop = "Stop server"
action_label ScheduleAction.restart = "Restart server"
action_label ScheduleAction.kill = "Kill server"
action_label ScheduleAction.backup = "Take a backup"
action_label ScheduleAction.command = "Run console command"

abbrev pub interval_presets : List ℕ
interval_presets = 30 ∷ 60 ∷ 360 ∷ 720 ∷ 1440 ∷ []

abbrev followed : String → String → String
followed a b = String.◌++◌ a b

unfoldable pub format_interval : ℕ → String
unfolding show
format_interval minutes =
    if minutes % 1440 == 0
    then (if minutes / 1440 == 1
        then "every day"
        else followed "every " (followed (show (minutes / 1440)) " days"))
    else if minutes % 60 == 0
    then (if minutes / 60 == 1
        then "every hour"
        else followed "every " (followed (show (minutes / 60)) " hours"))
    else followed "every " (followed (show minutes) " min")

pub record Tab : Type 0 where
  pub action : ScheduleAction
  pub name : String
  pub payload : String
  pub minutes : ℕ
  pub error : Option Json

abbrev pub opened : Tab
opened = record {
  action = ScheduleAction.restart;
  name = "";
  payload = "";
  minutes = 1440;
  error = none;
}

abbrev pub is_command : ScheduleAction → Bool
is_command ScheduleAction.command = true
is_command _ = false

-- The interval is offered beside the presets.
unfoldable pub extra_interval : Tab → Bool
extra_interval t = not (any (λ m. m == t.minutes) interval_presets)

-- `trim` is that of strings.
module _ (trim : String → String) where
  unfoldable pub create_call : String → Tab → SchedulesApi
  unfolding action_label
  create_call server_id t =
      SchedulesApi.create server_id (or_text (trim t.name) (action_label t.action)) t.action
        (if is_command t.action then some t.payload else none) t.minutes

  unfoldable pub command_missing : Tab → Bool
  command_missing t = is_command t.action && not (nonempty (trim t.payload))

  unfoldable pub can_create : (is_pending : Bool) → Tab → Bool
  unfolding command_missing
  can_create is_pending t = leb 1 t.minutes && not (command_missing t) && not is_pending

unfoldable pub created : Tab → Tab
created t = record t { name = ""; payload = ""; error = none }

-- `onError` of all three mutations
unfoldable pub refused : Failure → Tab → Tab
refused e t = record t { error = some (message_or "Operation failed" e) }

format_interval_tests :
    (format_interval 1440 ≡ "every day")
    × ((format_interval 360 ≡ "every 6 hours") × (format_interval 90 ≡ "every 90 min"))
unfolding format_interval
format_interval_tests = (refl, (refl, refl))
