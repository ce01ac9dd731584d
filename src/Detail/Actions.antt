-- ===== src/Detail/Actions.antt =====
-- The requests of web/src/pages/ServerDetailPage.tsx, and the button that copies the address.
use sky_panel.Base.{
  ℕ, ltb, ◌-◌, String, Option, none, some, Bool, true, not, ◌&&◌, List, [], ◌∷◌, if◌then◌else◌,
}
use sky_panel.Wire.Servers.{Server}
use sky_panel.Endpoints.Servers.{ServersApi, PowerAction}
use sky_panel.Endpoints.Admin.{AdminApi}
use sky_panel.Detail.Access.{is_running}

-- What `restart` sends, and whether it succeeds. A failure of the stop is ignored.
unfoldable pub restart : (id : String) (stop_fails start_fails : Bool) → List ServersApi × Bool
restart id stop_fails start_fails = (
  ServersApi.power id PowerAction.stop ∷ ServersApi.power id PowerAction.start ∷ [],
  not start_fails,
)

unfoldable pub suspend_call : String → Bool → AdminApi
suspend_call id s = if s then AdminApi.suspend_server id else AdminApi.unsuspend_server id

unfoldable pub send_input : String → String → ServersApi
send_input id line = ServersApi.console_input id line

-- The page after `remove` has succeeded: it goes to the list.
unfoldable pub removed : Bool → String → String
removed ok page = if ok then "/servers" else page

-- `refetchInterval` of the polled samples, in milliseconds
unfoldable pub stats_interval : Option Server → Option ℕ
stats_interval none = none
stats_interval (some s) = if is_running s.status then some 5000 else none

-- A polled sample is shown when the socket has been quiet for more than six seconds.
unfoldable pub is_quiet : (now last_ws_at : ℕ) → Bool
is_quiet now last_ws_at = ltb 6000 (now - last_ws_at)

-- `waitingForStats`
unfoldable pub waiting_for_stats : Server → (has_stats : Bool) → Bool
waiting_for_stats s has_stats = is_running s.status && not has_stats

-- `copyAddress`: the mark that says "copied", after the answer of `copyText`
unfoldable pub copy_answered : (ok copied : Bool) → Bool
copy_answered ok copied = if ok then true else copied
