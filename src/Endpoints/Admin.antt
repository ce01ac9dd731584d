-- ===== src/Endpoints/Admin.antt =====
-- web/src/lib/endpoints.ts: adminApi.
use sky_panel.Base.{ℕ, String, Option, some, List, [], ◌∷◌, map}
use sky_panel.Base.Int.{ℤ, pos}
use sky_panel.Base.Json.{Json, str, num, bool, arr, obj, fields, items}
use sky_panel.Wire.Account.{Role}
use sky_panel.Wire.Servers.{EggVariable}
use sky_panel.Api.{Call}
use sky_panel.Endpoints.Options.{path_of, bare, with_body, map_option, number, texts}

pub record EggInput : Type 0 where
  pub name : String
  pub docker_image : String
  pub startup : String
  pub category : Option String
  pub description : Option String
  pub stop_command : Option String
  pub variables : Option (List EggVariable)

abbrev pub egg_variable : EggVariable → Json
egg_variable v = obj (
    fields (
      ("name", some (str v.name))
      ∷ ("env", some (str v.env))
      ∷ ("default", some (str v.default))
      ∷ ("user_editable", some (bool v.user_editable))
      ∷ []))

abbrev pub egg_body : EggInput → Json
egg_body i = obj (
    fields (
      ("name", some (str i.name))
      ∷ ("docker_image", some (str i.docker_image))
      ∷ ("startup", some (str i.startup))
      ∷ ("category", map_option str i.category)
      ∷ ("description", map_option str i.description)
      ∷ ("stop_command", map_option str i.stop_command)
      ∷ ("variables", map_option (λ vs. arr (items (map egg_variable vs))) i.variables)
      ∷ []))

abbrev role_text : Role → Json
role_text Role.admin = str "admin"
role_text Role.user = str "user"

pub data AdminApi : Type 0 where
  list_users : AdminApi
  set_user_role : String → Role → AdminApi
  delete_user : String → AdminApi
  adjust_coins : String → ℤ → Option String → AdminApi
  get_user_quota : String → AdminApi
  set_user_quota : String → ℕ → ℕ → ℕ → AdminApi
  impersonate : String → AdminApi
  list_all_servers : AdminApi
  transfer_server : String → String → AdminApi
  suspend_server : String → AdminApi
  unsuspend_server : String → AdminApi
  delete_server : String → AdminApi
  purge_servers : List String → AdminApi
  analytics : AdminApi
  reset_user_password : String → String → AdminApi
  list_redeem_codes : AdminApi
  create_redeem_code : String → ℤ → ℤ → AdminApi
  delete_redeem_code : String → AdminApi
  list_nodes : AdminApi
  create_node : String → String → AdminApi
  delete_node : String → AdminApi
  rotate_node_token : String → AdminApi
  list_allocations : String → AdminApi
  create_allocations : String → Option ℕ → Option ℕ → Option ℕ → AdminApi
  delete_allocation : String → AdminApi
  list_server_allocations : String → AdminApi
  add_server_allocation : String → String → AdminApi
  remove_server_allocation : String → String → AdminApi
  create_egg : EggInput → AdminApi
  update_egg : String → EggInput → AdminApi
  export_egg : String → AdminApi
  delete_egg : String → AdminApi
  get_settings : AdminApi
  set_setting : String → String → AdminApi
  audit_log : AdminApi
  broadcast : String → AdminApi

unfoldable pub call : AdminApi → Call
call list_users = bare "GET" "/api/v1/admin/users"
call (set_user_role user_id role) =
    with_body "POST" (path_of ("/api/v1/admin/users/" ∷ user_id ∷ "/role" ∷ []))
      (("role", some (role_text role)) ∷ [])
call (delete_user user_id) = bare "DELETE" (path_of ("/api/v1/admin/users/" ∷ user_id ∷ []))
call (adjust_coins user_id amount note) =
    with_body "POST" (path_of ("/api/v1/admin/users/" ∷ user_id ∷ "/coins/adjust" ∷ []))
      (("amount", some (num amount)) ∷ ("note", map_option str note) ∷ [])
call (get_user_quota user_id) =
    bare "GET" (path_of ("/api/v1/admin/users/" ∷ user_id ∷ "/quota" ∷ []))
call (set_user_quota user_id memory_bytes cpu_percent disk_bytes) =
    with_body "PUT" (path_of ("/api/v1/admin/users/" ∷ user_id ∷ "/quota" ∷ [])) (
      ("memory_bytes", some (num (pos memory_bytes)))
      ∷ ("cpu_percent", some (num (pos cpu_percent)))
      ∷ ("disk_bytes", some (num (pos disk_bytes)))
      ∷ [])
call (impersonate user_id) =
    bare "POST" (path_of ("/api/v1/admin/users/" ∷ user_id ∷ "/impersonate" ∷ []))
call list_all_servers = bare "GET" "/api/v1/admin/servers"
call (transfer_server id owner_id) =
    with_body "POST" (path_of ("/api/v1/admin/servers/" ∷ id ∷ "/owner" ∷ []))
      (("owner_id", some (str owner_id)) ∷ [])
call (suspend_server id) = bare "POST" (path_of ("/api/v1/admin/servers/" ∷ id ∷ "/suspend" ∷ []))
call (unsuspend_server id) =
    bare "POST" (path_of ("/api/v1/admin/servers/" ∷ id ∷ "/unsuspend" ∷ []))
call (delete_server id) = bare "DELETE" (path_of ("/api/v1/admin/servers/" ∷ id ∷ []))
call (purge_servers server_ids) =
    with_body "POST" "/api/v1/admin/servers/purge" (("server_ids", some (texts server_ids)) ∷ [])
call analytics = bare "GET" "/api/v1/admin/analytics"
call (reset_user_password user_id password) =
    with_body "POST" (path_of ("/api/v1/admin/users/" ∷ user_id ∷ "/reset-password" ∷ []))
      (("password", some (str password)) ∷ [])
call list_redeem_codes = bare "GET" "/api/v1/admin/redeem-codes"
call (create_redeem_code code coins max_uses) = with_body "POST" "/api/v1/admin/redeem-codes" (
    ("code", some (str code))
    ∷ ("coins", some (num coins))
    ∷ ("max_uses", some (num max_uses))
    ∷ [])
call (delete_redeem_code id) = bare "DELETE" (path_of ("/api/v1/admin/redeem-codes/" ∷ id ∷ []))
call list_nodes = bare "GET" "/api/v1/admin/nodes"
call (create_node name address) =
    with_body "POST" "/api/v1/admin/nodes"
      (("name", some (str name)) ∷ ("address", some (str address)) ∷ [])
call (delete_node id) = bare "DELETE" (path_of ("/api/v1/admin/nodes/" ∷ id ∷ []))
call (rotate_node_token id) =
    bare "POST" (path_of ("/api/v1/admin/nodes/" ∷ id ∷ "/rotate-token" ∷ []))
call (list_allocations node_id) =
    bare "GET" (path_of ("/api/v1/admin/nodes/" ∷ node_id ∷ "/allocations" ∷ []))
call (create_allocations node_id port port_start port_end) =
    with_body "POST" (path_of ("/api/v1/admin/nodes/" ∷ node_id ∷ "/allocations" ∷ [])) (
      ("port", map_option number port)
      ∷ ("port_start", map_option number port_start)
      ∷ ("port_end", map_option number port_end)
      ∷ [])
call (delete_allocation allocation_id) =
    bare "DELETE" (path_of ("/api/v1/admin/allocations/" ∷ allocation_id ∷ []))
call (list_server_allocations server_id) =
    bare "GET" (path_of ("/api/v1/admin/servers/" ∷ server_id ∷ "/allocations" ∷ []))
call (add_server_allocation server_id allocation_id) =
    with_body "POST" (path_of ("/api/v1/admin/servers/" ∷ server_id ∷ "/allocations" ∷ []))
      (("allocation_id", some (str allocation_id)) ∷ [])
call (remove_server_allocation server_id allocation_id) =
    bare "DELETE"
      (path_of ("/api/v1/admin/servers/" ∷ server_id ∷ "/allocations/" ∷ allocation_id ∷ []))
call (create_egg input) = record (bare "POST" "/api/v1/admin/eggs") { body = some (egg_body input) }
call (update_egg id input) = record (bare "PUT" (path_of ("/api/v1/admin/eggs/" ∷ id ∷ []))) {
  body = some (egg_body input);
}
call (export_egg id) = bare "GET" (path_of ("/api/v1/admin/eggs/" ∷ id ∷ "/export" ∷ []))
call (delete_egg id) = bare "DELETE" (path_of ("/api/v1/admin/eggs/" ∷ id ∷ []))
call get_settings = bare "GET" "/api/v1/admin/settings"
call (set_setting key value) =
    with_body "PUT" (path_of ("/api/v1/admin/settings/" ∷ key ∷ []))
      (("value", some (str value)) ∷ [])
call audit_log = bare "GET" "/api/v1/admin/audit-log"
call (broadcast message) =
    with_body "POST" "/api/v1/admin/broadcast" (("message", some (str message)) ∷ [])
