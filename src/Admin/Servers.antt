-- ===== src/Admin/Servers.antt =====
-- web/src/components/admin/AdminServersTab.tsx: the table of all servers, its selection, and the
-- actions on several servers at once.
pub mod Selection
use Prim.Native.String
use sky_panel.Base.{
  ℕ, suc, ◌-◌, ◌==◌, String, Option, none, some, Bool, true, false, not, ◌&&◌, ◌||◌, List, [], ◌∷◌,
  map, keep, length, any, nonempty, str_eq, if◌then◌else◌, ◌≡◌, refl,
}
use sky_panel.Base.Sets.{has, add, delete}
use sky_panel.Base.Decimal.{show}
use sky_panel.Base.Json.{Json}
use sky_panel.Wire.Servers.{AdminServer}
use sky_panel.Api.{Failure, api, other}
use sky_panel.Endpoints.Admin.{AdminApi}

-- The component's state, with the query's answer and the number of running timers that clear the
-- note.
pub record Tab : Type 0 where
  pub servers : Option (List AdminServer)
  pub transfer_id : Option String
  pub ports_id : Option String
  pub target_owner : String
  pub selected : List String
  pub filter : String
  pub note : Option String
  pub note_timers : ℕ

abbrev pub opened : Tab
opened = record {
  servers = none;
  transfer_id = none;
  ports_id = none;
  target_owner = "";
  selected = [];
  filter = "";
  note = none;
  note_timers = 0;
}

-- What `purgeServers` answers
pub record Purged : Type 0 where
  pub deleted : ℕ
  pub failed : List String

-- What the loop of `bulkSuspend` returns
pub record BulkResult : Type 0 where
  pub total : ℕ
  pub failed : List String
  pub on : Bool

abbrev pub suspension : Bool → String → AdminApi
suspension true id = AdminApi.suspend_server id
suspension false id = AdminApi.unsuspend_server id

-- The loop of `bulkSuspend`: the calls, and the ids whose call failed.
unfoldable pub suspend_each :
    (fails : String → Bool) → Bool → List String → List AdminApi × List String
suspend_each fails on [] = ([], [])
suspend_each fails on (id ∷ ids) =
    let rest : List AdminApi × List String = suspend_each fails on ids in
    (suspension on id ∷ rest.0, if fails id then id ∷ rest.1 else rest.1)

unfoldable pub bulk_suspend :
    (fails : String → Bool) → List String → Bool → List AdminApi × BulkResult
unfolding suspend_each
bulk_suspend fails ids on =
    let sent : List AdminApi × List String = suspend_each fails on ids in
    (sent.0, record { total = length ids; failed = sent.1; on = on })

abbrev followed : String → String → String
followed a b = String.◌++◌ a b

abbrev counted : ℕ → String
counted n = followed (show n) (if n == 1 then " server" else " servers")

abbrev failures : List String → String
failures [] = "."
failures ids = followed ", " (followed (show (length ids)) " failed.")

-- `setNote(text)` with the timer that takes the note away
abbrev pub noted : String → Tab → Tab
noted text t = record t { note = some text; note_timers = suc t.note_timers }

abbrev or_empty : Option (List AdminServer) → List AdminServer
or_empty none = []
or_empty (some list) = list

abbrev add_all : List String → List String → List String
add_all [] set = set
add_all (id ∷ ids) set = add_all ids (add id set)

abbrev delete_all : List String → List String → List String
delete_all [] set = set
delete_all (id ∷ ids) set = delete_all ids (delete id set)

abbrev is_open : String → Option String → Bool
is_open id none = false
is_open id (some cur) = str_eq cur id

-- `(cur) => (cur === id ? null : id)`
abbrev flipped : String → Option String → Option String
flipped id cur = if is_open id cur then none else some id

-- `q` is the search text, trimmed and in lower case.
abbrev matches :
    (lower : String → String) (includes : String → String → Bool) → String → AdminServer → Bool
matches lower includes q s = includes (lower s.name) q || includes (lower s.owner_username) q

-- What happens on the tab: clicks, typing, answers, and the end of a timer.
pub data Action : Type 0 where
  loaded : List AdminServer → Action
  toggle : String → Action
  toggle_all : Action
  type_filter : String → Action
  removed : String → Action
  transferred : Action
  purged : Purged → Action
  purge_failed : Failure → Action
  bulk_done : BulkResult → Action
  note_timeout : Action
  flip_ports : String → Action
  flip_transfer : String → Action
  choose_owner : String → Action

-- `toLowerCase`, `trim`, `includes`, and the text of an error's message.
module _ (lower trim : String → String) (includes : String → String → Bool)
    (text_of : Json → String) where
  unfoldable pub filtered : Tab → List AdminServer
  filtered t =
      let q = lower (trim t.filter) in
      if nonempty q
      then keep (matches lower includes q) (or_empty t.servers)
      else or_empty t.servers

  -- The ids of the rows, `filteredIds`
  unfoldable pub shown_ids : Tab → List String
  unfolding filtered
  shown_ids t = map (λ (s : AdminServer). s.id) (filtered t)

  unfoldable pub all_shown_selected : Tab → Bool
  unfolding has
  all_shown_selected t =
      any (λ id. true) (shown_ids t) && not (any (λ id. not (has id t.selected)) (shown_ids t))

  unfoldable pub selected_ids : Tab → List String
  unfolding has
  selected_ids t = keep (λ id. has id (shown_ids t)) t.selected

  unfoldable pub step : Action → Tab → Tab
  unfolding add delete has all_shown_selected show
  step (loaded list) t = record t { servers = some list }
  step (toggle id) t = record t {
    selected = if has id t.selected then delete id t.selected else add id t.selected;
  }
  step toggle_all t = record t {
    selected =
        if all_shown_selected t
        then delete_all (shown_ids t) t.selected
        else add_all (shown_ids t) t.selected;
  }
  step (type_filter q) t = record t { filter = q }
  step (removed id) t = record t {
    selected = if has id t.selected then delete id t.selected else t.selected;
  }
  step transferred t = record t { transfer_id = none; target_owner = "" }
  step (purged r) t =
      noted (followed "Purged " (followed (counted r.deleted) (failures r.failed)))
        (record t { selected = [] })
  step (purge_failed (api e)) t = noted (followed "Purge failed: " (text_of e.message)) t
  step (purge_failed other) t = noted "Purge failed: unknown error" t
  step (bulk_done r) t =
      noted
        (followed (if r.on then "Suspended " else "Unsuspended ")
          (followed (counted (r.total - length r.failed)) (failures r.failed)))
        (record t { selected = [] })
  step note_timeout t = record t { note = none; note_timers = t.note_timers - 1 }
  step (flip_ports id) t = record t { ports_id = flipped id t.ports_id }
  step (flip_transfer id) t = record t { transfer_id = flipped id t.transfer_id; target_owner = "" }
  step (choose_owner id) t = record t { target_owner = id }

  unfoldable pub run : List Action → Tab → Tab
  unfolding step
  run [] t = t
  run (a ∷ acts) t = run acts (step a t)
