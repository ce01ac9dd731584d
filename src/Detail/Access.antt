-- ===== src/Detail/Access.antt =====
-- Which tabs and controls the page of a server offers (web/src/pages/ServerDetailPage.tsx).
use Prim.Native.String
use sky_panel.Base.{
  ◌==◌, ℕ, String, Option, none, some, Bool, true, false, not, ◌&&◌, ◌||◌, ◌≡◌, refl, List, [], ◌∷◌,
  keep, find?, any, str_eq, nonempty, if◌then◌else◌, arith,
}
use sky_panel.Base.Decimal.{show}
use sky_panel.Wire.Account.{User, Role}
use sky_panel.Wire.Nodes.{NodeSummary}
use sky_panel.Wire.Servers.{Server, ServerStatus}

pub data Tab : Type 0 where
  console players files mods backups databases schedules activity startup settings sharing : Tab

abbrev pub all_tabs : List Tab
all_tabs =
    console ∷ players ∷ files ∷ mods ∷ backups ∷ databases ∷ schedules ∷ activity ∷ startup
    ∷ settings ∷ sharing ∷ []

-- `manageOnly.includes(t)`
unfoldable pub is_manage_only : Tab → Bool
is_manage_only schedules = true
is_manage_only startup = true
is_manage_only settings = true
is_manage_only sharing = true
is_manage_only _ = false

unfoldable pub visible_tabs : Bool → List Tab
unfolding is_manage_only
visible_tabs can_manage = keep (λ t. not (is_manage_only t) || can_manage) all_tabs

abbrev pub role_is_admin : Role → Bool
role_is_admin Role.admin = true
role_is_admin Role.user = false

unfoldable pub is_admin : Option User → Bool
is_admin none = false
is_admin (some u) = role_is_admin u.role

unfoldable pub can_manage : Option Server → Option User → Bool
unfolding is_admin
can_manage (some s) (some u) = str_eq s.owner_id u.id || is_admin (some u)
can_manage _ _ = false

abbrev pub is_running : ServerStatus → Bool
is_running ServerStatus.running = true
is_running _ = false

-- `installing || stopping`
unfoldable pub is_busy : ServerStatus → Bool
is_busy ServerStatus.installing = true
is_busy ServerStatus.stopping = true
is_busy _ = false

-- `refetchInterval` of the server's query, in milliseconds
unfoldable pub refetch_interval : Option Server → Option ℕ
unfolding is_busy
refetch_interval none = none
refetch_interval (some s) = if is_busy s.status then some 3000 else none

unfoldable pub start_blocked : Server → Option User → Bool
unfolding is_busy is_admin
start_blocked s u = is_running s.status || is_busy s.status || (s.suspended && not (is_admin u))

pub data Control : Type 0 where
  start restart stop kill : Control

-- Whether a power button can be pressed while no request of its own is pending.
unfoldable pub is_enabled : Control → Server → Option User → Bool
unfolding start_blocked
is_enabled start s u = not (start_blocked s u)
is_enabled _ s u = is_running s.status

-- The connect address: the owning node's, and the server's port.
unfoldable pub address : Option (List NodeSummary) → Server → String
unfolding show
address nodes s =
    let port = String.◌++◌ ":" (show s.primary_port) in
    elim nodes [
      | none ↦ port
      | some ns ↦ elim (find? (λ (n : NodeSummary). str_eq n.id s.node_id) ns) [
        | none ↦ port
        | some n ↦ if nonempty n.address then String.◌++◌ n.address port else port
      ]
    ]

tab_index : Tab → ℕ
tab_index console = 0
tab_index players = 1
tab_index files = 2
tab_index mods = 3
tab_index backups = 4
tab_index databases = 5
tab_index schedules = 6
tab_index activity = 7
tab_index startup = 8
tab_index settings = 9
tab_index sharing = 10

unfoldable pub same_tab : Tab → Tab → Bool
unfolding tab_index
same_tab s t = tab_index s == tab_index t

visible_tabs_of :
    (manages : Bool) (t : Tab)
    → any (same_tab t) (visible_tabs manages) ≡ (not (is_manage_only t) || manages)
unfolding visible_tabs same_tab
visible_tabs_of true console = refl
visible_tabs_of false console = refl
visible_tabs_of true _ = refl
visible_tabs_of false _ = refl

-- A tab is offered exactly when it is open to every user of the server or the user is the server's
-- owner or an admin; those that are not open to all are Schedules, Startup, Settings and Sharing.
pub visible_tabs_iff :
    (s : Server) (u : User) (t : Tab)
    → any (same_tab t) (visible_tabs (can_manage (some s) (some u)))
      ≡ (not (is_manage_only t) || (str_eq s.owner_id u.id || role_is_admin u.role))
unfolding can_manage
visible_tabs_iff s u t = visible_tabs_of (can_manage (some s) (some u)) t

-- Of the power buttons, Start is never enabled together with another, and Restart, Stop and Kill
-- are enabled together; while a server is being installed or stopped none is; and a suspended
-- server can be started by an admin only.
pub controls_exclusive :
    (s : Server) (u : Option User) (c : Control)
    → ((is_enabled start s u && is_running s.status) ≡ false)
      × ((is_enabled c s u && is_busy s.status) ≡ false)
      × ((is_enabled restart s u ≡ is_enabled stop s u)
          × (is_enabled stop s u ≡ is_enabled kill s u))
      × ((is_enabled start s u && s.suspended && not (is_admin u)) ≡ false)
      × ((is_enabled start s u
            || is_enabled stop s u
            || is_busy s.status
            || (s.suspended && not (is_admin u)))
          ≡ true)
unfolding is_enabled
controls_exclusive s u c = ground arith
