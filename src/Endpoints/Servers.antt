-- ===== src/Endpoints/Servers.antt =====
-- web/src/lib/endpoints.ts: serversApi, with favoritesApi and achievementsApi.
use sky_panel.Base.{ℕ, String, Bool, Option, none, some, [], ◌∷◌, Dict}
use sky_panel.Base.Json.{Json, str, bool, obj, fields}
use sky_panel.Api.{Call}
use sky_panel.Endpoints.Options.{path_of, bare, with_body, map_option, number, record_of}

-- The input of `create`; the numbers are whole.
pub record CreateServer : Type 0 where
  pub node_id : String
  pub egg_id : String
  pub name : String
  pub memory_bytes : ℕ
  pub cpu_limit : Option ℕ
  pub disk_bytes : Option ℕ
  pub variables : Option (Dict String)

pub record UpdateServer : Type 0 where
  pub name : String
  pub memory_bytes : ℕ
  pub cpu_limit : ℕ
  pub disk_bytes : ℕ
  pub variables : Option (Dict String)
  pub backup_interval_hours : ℕ

pub data PowerAction : Type 0 where
  start stop kill : PowerAction

abbrev power_action : PowerAction → Json
power_action PowerAction.start = str "start"
power_action PowerAction.stop = str "stop"
power_action PowerAction.kill = str "kill"

abbrev create_body : CreateServer → Json
create_body i = obj (
    fields (
      ("node_id", some (str i.node_id))
      ∷ ("egg_id", some (str i.egg_id))
      ∷ ("name", some (str i.name))
      ∷ ("memory_bytes", some (number i.memory_bytes))
      ∷ ("cpu_limit", map_option number i.cpu_limit)
      ∷ ("disk_bytes", map_option number i.disk_bytes)
      ∷ ("variables", map_option record_of i.variables)
      ∷ []))

abbrev update_body : UpdateServer → Json
update_body i = obj (
    fields (
      ("name", some (str i.name))
      ∷ ("memory_bytes", some (number i.memory_bytes))
      ∷ ("cpu_limit", some (number i.cpu_limit))
      ∷ ("disk_bytes", some (number i.disk_bytes))
      ∷ ("variables", map_option record_of i.variables)
      ∷ ("backup_interval_hours", some (number i.backup_interval_hours))
      ∷ []))

abbrev text_or_empty : Option String → String
text_or_empty none = ""
text_or_empty (some s) = s

pub data ServersApi : Type 0 where
  list : ServersApi
  get : String → ServersApi
  create : CreateServer → ServersApi
  update : String → UpdateServer → ServersApi
  reinstall : String → Option String → ServersApi
  activity : String → ServersApi
  remove : String → ServersApi
  power : String → PowerAction → ServersApi
  console_input : String → String → ServersApi
  stats : String → ServersApi
  players : String → ServersApi
  set_public_status : String → Bool → ServersApi
  set_description : String → String → ServersApi
  clone : String → ServersApi
  favorite : String → ServersApi
  unfavorite : String → ServersApi
  favorites : ServersApi
  achievements : ServersApi

unfoldable pub call : ServersApi → Call
call list = bare "GET" "/api/v1/servers"
call (get id) = bare "GET" (path_of ("/api/v1/servers/" ∷ id ∷ []))
call (create input) = record (bare "POST" "/api/v1/servers") { body = some (create_body input) }
call (update id input) = record (bare "PATCH" (path_of ("/api/v1/servers/" ∷ id ∷ []))) {
  body = some (update_body input);
}
call (reinstall id egg_id) =
    with_body "POST" (path_of ("/api/v1/servers/" ∷ id ∷ "/reinstall" ∷ []))
      (("egg_id", some (str (text_or_empty egg_id))) ∷ [])
call (activity id) = bare "GET" (path_of ("/api/v1/servers/" ∷ id ∷ "/activity" ∷ []))
call (remove id) = bare "DELETE" (path_of ("/api/v1/servers/" ∷ id ∷ []))
call (power id action) =
    with_body "POST" (path_of ("/api/v1/servers/" ∷ id ∷ "/power" ∷ []))
      (("action", some (power_action action)) ∷ [])
call (console_input id input) =
    with_body "POST" (path_of ("/api/v1/servers/" ∷ id ∷ "/console" ∷ []))
      (("input", some (str input)) ∷ [])
call (stats id) = bare "GET" (path_of ("/api/v1/servers/" ∷ id ∷ "/stats" ∷ []))
call (players id) = bare "GET" (path_of ("/api/v1/servers/" ∷ id ∷ "/players" ∷ []))
call (set_public_status id is_public) =
    with_body "PUT" (path_of ("/api/v1/servers/" ∷ id ∷ "/public-status" ∷ []))
      (("public", some (bool is_public)) ∷ [])
call (set_description id description) =
    with_body "PUT" (path_of ("/api/v1/servers/" ∷ id ∷ "/description" ∷ []))
      (("description", some (str description)) ∷ [])
call (clone id) = bare "POST" (path_of ("/api/v1/servers/" ∷ id ∷ "/clone" ∷ []))
call (favorite id) = bare "POST" (path_of ("/api/v1/servers/" ∷ id ∷ "/favorite" ∷ []))
call (unfavorite id) = bare "DELETE" (path_of ("/api/v1/servers/" ∷ id ∷ "/favorite" ∷ []))
call favorites = bare "GET" "/api/v1/me/favorites"
call achievements = bare "GET" "/api/v1/achievements"
