-- ===== src/Endpoints/Schedules.antt =====
-- web/src/lib/endpoints.ts: schedulesApi.
use sky_panel.Base.{ℕ, String, Bool, Option, some, [], ◌∷◌}
use sky_panel.Base.Int.{pos}
use sky_panel.Base.Json.{Json, str, num, bool}
use sky_panel.Wire.Servers.{ScheduleAction}
use sky_panel.Api.{Call}
use sky_panel.Endpoints.Options.{path_of, bare, with_body, map_option}

abbrev schedule_action : ScheduleAction → Json
schedule_action ScheduleAction.start = str "start"
schedule_action ScheduleAction.stop = str "stop"
schedule_action ScheduleAction.restart = str "restart"
schedule_action ScheduleAction.kill = str "kill"
schedule_action ScheduleAction.backup = str "backup"
schedule_action ScheduleAction.command = str "command"

pub data SchedulesApi : Type 0 where
  list : String → SchedulesApi
  create : String → String → ScheduleAction → Option String → ℕ → SchedulesApi
  toggle : String → String → Bool → SchedulesApi
  remove : String → String → SchedulesApi

unfoldable pub call : SchedulesApi → Call
call (list server_id) = bare "GET" (path_of ("/api/v1/servers/" ∷ server_id ∷ "/schedules" ∷ []))
call (create server_id name action payload interval_minutes) =
    with_body "POST" (path_of ("/api/v1/servers/" ∷ server_id ∷ "/schedules" ∷ [])) (
      ("name", some (str name))
      ∷ ("action", some (schedule_action action))
      ∷ ("payload", map_option str payload)
      ∷ ("interval_minutes", some (num (pos interval_minutes)))
      ∷ [])
call (toggle server_id id enabled) =
    with_body "POST"
      (path_of ("/api/v1/servers/" ∷ server_id ∷ "/schedules/" ∷ id ∷ "/toggle" ∷ []))
      (("enabled", some (bool enabled)) ∷ [])
call (remove server_id id) =
    bare "DELETE" (path_of ("/api/v1/servers/" ∷ server_id ∷ "/schedules/" ∷ id ∷ []))
