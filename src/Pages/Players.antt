-- ===== src/Pages/Players.antt =====
-- web/src/components/server/PlayersTab.tsx, web/src/pages/StatusPage.tsx and
-- web/src/components/admin/AdminBroadcastTab.tsx: who is online, and the commands that are sent.
use Prim.Native.String
use sky_panel.Base.{
  ℕ, ltb, ◌==◌, String, Option, none, some, Bool, true, false, List, [], ◌∷◌, length, if◌then◌else◌,
  ◌≡◌, refl,
}
use sky_panel.Base.Decimal.{show}
use sky_panel.Wire.Servers.{PlayerInfo}
use sky_panel.Endpoints.Admin.{AdminApi}
use sky_panel.Endpoints.Servers.{ServersApi}

abbrev followed : String → String → String
followed a b = String.◌++◌ a b

-- `refetchInterval` and `enabled` of the query
unfoldable pub roster_interval : (running : Bool) → Option ℕ
roster_interval running = if running then some 5000 else none

-- The effect that asks the server for its players: `timer` is the server whose interval runs.
pub record Asking : Type 0 where
  pub timer : Option String
  pub sent : List ServersApi

-- `send`
abbrev send : String → Asking → Asking
send id s = record s { sent = ServersApi.console_input id "list" ∷ s.sent }

-- The effect on `serverId` and `running`
unfoldable pub begin : (id : String) (running : Bool) → Asking → Asking
begin id true s = record (send id s) { timer = some id }
begin id false s = s

-- Its clean-up function
unfoldable pub end : Asking → Asking
end s = record s { timer = none }

-- The interval fires, where it runs.
abbrev fire_for : Option String → Asking → Asking
fire_for none s = s
fire_for (some id) s = send id s

unfoldable pub fire : Asking → Asking
fire s = fire_for s.timer s

abbrev list_of : Option PlayerInfo → List String
list_of none = []
list_of (some info) = info.players

abbrev limit_of : Option PlayerInfo → String
limit_of none = ""
limit_of (some info) = if info.max == 0 then "" else followed " / " (show info.max)

-- The heading of the tab of a running server
unfoldable pub heading : Option PlayerInfo → String
unfolding show
heading info = followed (show (length (list_of info))) (followed (limit_of info) " online")

-- What the buttons of a player send
unfoldable pub kick : (id name : String) → ServersApi
kick id name = ServersApi.console_input id (followed "kick " name)

unfoldable pub ban : (id name : String) (confirmed : Bool) → Option ServersApi
ban id name confirmed =
    if confirmed then some (ServersApi.console_input id (followed "ban " name)) else none

-- `value` of the number of players on the page that anybody may open
unfoldable pub status_players : (player_count max_players : ℕ) → String
unfolding show
status_players n limit = followed (show n) (if limit == 0 then "" else followed " / " (show limit))

-- `format` is `formatBytes`.
unfoldable pub status_memory : (format : ℕ → String) (used limit : ℕ) → String
status_memory format used limit =
    if ltb 0 limit then followed (format used) (followed " / " (format limit)) else format used

-- The form of the broadcast: the call with its text, and the text after it was sent.
unfoldable pub broadcast_call : (message : String) → AdminApi
broadcast_call message = AdminApi.broadcast message

unfoldable pub broadcast_settled : (sent : Bool) (message : String) → String
broadcast_settled sent message = if sent then "" else message

players_tests :
    (heading (some (record { players = "Ann" ∷ []; max = 20; version = "1.20" })) ≡ "1 / 20 online")
    × (status_players 3 0 ≡ "3")
unfolding heading status_players
players_tests = (refl, refl)
