-- ===== src/Reinstall.antt =====
-- web/src/pages/ReinstallPage.tsx: reinstalling a server, from the confirmation to the result. Times
-- are milliseconds of `Date.now()`.
pub mod Progress
use Prim.Native.String
use sky_panel.Base.{
  ℕ, ◌+◌, ◌-◌, ◌/◌, ◌%◌, min, ltb, String, Option, none, some, Bool, true, false, not, ◌&&◌, ◌||◌,
  List, [], ◌∷◌, length, nonempty, str_eq, if◌then◌else◌, ◌≡◌, refl,
}
use sky_panel.Base.Decimal.{show}
use sky_panel.Base.Json.{Json}
use sky_panel.Wire.Servers.{Server, ServerStatus}
use sky_panel.Api.{Failure, message_or}
use sky_panel.Endpoints.Servers.{ServersApi}

abbrev pub phases : List String
phases = "Removing old container" ∷ "Pulling image" ∷ "Creating container" ∷ "Starting server" ∷ []

-- The component's state, with the last answer of the server's query.
pub record Page : Type 0 where
  pub server : Option Server
  pub started : Bool
  pub egg_id : String
  pub error : Option Json
  pub start : ℕ
  pub now : ℕ

unfoldable pub opened : ℕ → Page
opened time = record {
  server = none;
  started = false;
  egg_id = "";
  error = none;
  start = 0;
  now = time;
}

abbrev pub is_installing : ServerStatus → Bool
is_installing ServerStatus.installing = true
is_installing _ = false

abbrev pub is_running : ServerStatus → Bool
is_running ServerStatus.running = true
is_running _ = false

abbrev pub is_errored : ServerStatus → Bool
is_errored ServerStatus.errored = true
is_errored _ = false

-- `server?.status` passes the test.
abbrev pub status_is : (ServerStatus → Bool) → Option Server → Bool
status_is test none = false
status_is test (some s) = test s.status

-- `refetchInterval`, in milliseconds
unfoldable pub refetch_interval : Option Server → Option ℕ
refetch_interval server = if status_is is_installing server then some 2000 else none

-- The effect that selects the server's own egg
abbrev pub default_egg : Option Server → String → String
default_egg none egg = egg
default_egg (some s) egg = if nonempty egg then egg else s.egg_id

-- The effect that goes on to the progress of an installation that is running already
abbrev pub join : ℕ → Page → Page
join time p =
    if not p.started && status_is is_installing p.server
    then record p { start = time; started = true }
    else p

-- The effects after a render
unfoldable pub effects : ℕ → Page → Page
effects time p = join time (record p { egg_id = default_egg p.server p.egg_id })

-- What happens on the page: an answer of the query, a choice of an egg, a click on the button, a
-- failed call, and a tick of the interval that runs while `started`.
pub data Event : Type 0 where
  answered : Server → Event
  choose : String → Event
  click : Event
  refused : Failure → Event
  tick : Event

unfoldable pub handle : ℕ → Event → Page → Page
handle time (answered s) p = record p { server = some s }
handle time (choose egg) p = record p { egg_id = egg }
handle time click p = record p { start = time; error = none; started = true }
handle time (refused e) p = record p {
  started = false;
  error = some (message_or "Failed to start reinstall." e);
}
handle time tick p = record p { now = if p.started then time else p.now }

unfoldable pub step : ℕ → Event → Page → Page
unfolding handle effects
step time e p = effects time (handle time e p)

unfoldable pub run : List (ℕ × Event) → Page → Page
unfolding step
run [] p = p
run ((time, e) ∷ es) p = run es (step time e p)

-- The argument of `serversApi.reinstall`
abbrev chosen_egg : Option Server → String → Option String
chosen_egg none egg = if nonempty egg then some egg else none
chosen_egg (some s) egg = if nonempty egg && not (str_eq egg s.egg_id) then some egg else none

unfoldable pub reinstall_call : String → Page → ServersApi
reinstall_call id p = ServersApi.reinstall id (chosen_egg p.server p.egg_id)

-- `mentions word msg` is the test of a regular expression `/word/i`. The answer is none for -1.
unfoldable pub phase_from_message : (mentions : String → String → Bool) → Option String → Option ℕ
phase_from_message mentions none = none
phase_from_message mentions (some msg) =
    if nonempty msg
    then some (
        if mentions "pulling" msg
        then 1
        else if mentions "creating" msg
        then 2
        else if mentions "starting" msg
        then 3
        else 0)
    else none

abbrev pub message_of : Option Server → Option String
message_of none = none
message_of (some s) = s.status_message

abbrev pub or_estimate : Option ℕ → ℕ → ℕ
or_estimate none n = n
or_estimate (some k) n = k

unfoldable pub phase : (mentions : String → String → Bool) → Page → Option ℕ
unfolding phase_from_message
phase mentions p =
    if status_is is_installing p.server
    then some (
        or_estimate (phase_from_message mentions (message_of p.server))
          (min (length phases - 1) ((p.now - p.start) / 6000)))
    else none

unfoldable pub elapsed : Page → ℕ
elapsed p = if p.started then (p.now - p.start) / 1000 else 0

pub data View : Type 0 where
  loading confirm progress complete failed : View

abbrev pub result_of : ServerStatus → View
result_of ServerStatus.running = complete
result_of ServerStatus.errored = failed
result_of _ = progress

abbrev pub view_of : Option Server → Bool → View
view_of none started = loading
view_of (some s) started = if started then result_of s.status else confirm

unfoldable pub view : Page → View
view p = view_of p.server p.started

abbrev pad : ℕ → String
pad n = if ltb n 10 then String.◌++◌ "0" (show n) else show n

unfoldable pub format_elapsed : ℕ → String
unfolding show
format_elapsed s = String.◌++◌ (show (s / 60)) (String.◌++◌ ":" (pad (s % 60)))

format_elapsed_test : format_elapsed 125 ≡ "2:05"
unfolding format_elapsed
format_elapsed_test = refl
