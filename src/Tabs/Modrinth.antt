-- ===== src/Tabs/Modrinth.antt =====
-- web/src/components/server/ModrinthTab.tsx: searching the Modrinth catalogue, and installing.
pub mod Pending
use sky_panel.Base.{
  ℕ, zero, suc, ◌⊎◌, inl, inr, ◌||◌, truthy, String, Option, none, some, Bool, true, false, List,
  [], ◌∷◌, find?, get_elem?, remove_at, nonempty, or_text, Dict, lookup, insert, erase,
  lookup-insert, lookup-erase, str_eq, eq_iff, if◌then◌else◌, ◌≡◌, refl, arith,
}
use sky_panel.Base.Json.{Json, str}
use sky_panel.Wire.Modrinth.{
  ModrinthHit, ModrinthSearchResult, ModrinthVersion, ModrinthVersionFile,
}
use sky_panel.Api.{Failure, api, message_or}
use sky_panel.Endpoints.Modrinth.{ModrinthApi}

pub data Kind : Type 0 where
  mod_kind plugin_kind : Kind

-- `LOADERS`
unfoldable pub loaders : Kind → List String
loaders mod_kind = "" ∷ "fabric" ∷ "forge" ∷ "quilt" ∷ "neoforge" ∷ []
loaders plugin_kind = "" ∷ "paper" ∷ "spigot" ∷ "purpur" ∷ "bukkit" ∷ []

pub record Tab : Type 0 where
  pub kind : Kind
  pub query : String
  pub loader : String
  pub version : String
  pub hits : List ModrinthHit
  pub installed : Dict String
  pub pending : Dict Bool
  pub error : Option Json

abbrev optional : String → Option String
optional text = if nonempty text then some text else none

abbrev kind_text : Kind → String
kind_text mod_kind = "mod"
kind_text plugin_kind = "plugin"

abbrev folder : Kind → String
folder mod_kind = "mods"
folder plugin_kind = "plugins"

unfoldable pub search_call : Tab → ModrinthApi
search_call t =
    ModrinthApi.search t.query (kind_text t.kind) (optional t.loader) (optional t.version) (some 24)

-- One `install` under way; it has captured the tab's choices at the click, and after the versions
-- have arrived it has the name of the file that it installs.
pub record Task : Type 0 where
  pub project_id : String
  pub project : String
  pub kind : Kind
  pub loader : String
  pub version : String
  pub filename : Option String

-- The tab with all of its installs under way, the last one first
pub record State : Type 0 where
  pub tab : Tab
  pub tasks : List Task

abbrev first_file : List ModrinthVersionFile → Option ModrinthVersionFile
first_file [] = none
first_file (f ∷ fs) = some f

abbrev or_first : Option ModrinthVersionFile → List ModrinthVersionFile → Option ModrinthVersionFile
or_first none fs = first_file fs
or_first (some f) fs = some f

-- `v.files.find((f) => f.primary) ?? v.files[0]`
unfoldable pub chosen_file : List ModrinthVersionFile → Option ModrinthVersionFile
chosen_file fs = or_first (find? (λ (f : ModrinthVersionFile). f.primary) fs) fs

abbrev not_found : String → Failure
not_found text = api (record { status = 404; code = str "not_found"; message = str text })

abbrev file_or_error : Option ModrinthVersionFile → Failure ⊎ ModrinthVersionFile
file_or_error none = inl (not_found "That version has no downloadable file")
file_or_error (some f) = inr f

unfoldable pub file_of : List ModrinthVersion → Failure ⊎ ModrinthVersionFile
unfolding chosen_file
file_of [] = inl (not_found "No matching version for this loader/game version")
file_of (v ∷ vs) = file_or_error (chosen_file v.files)

unfoldable pub versions_call : Task → ModrinthApi
versions_call k = ModrinthApi.versions k.project (optional k.loader) (optional k.version)

unfoldable pub install_call : String → Task → ModrinthVersionFile → ModrinthApi
install_call server_id k f = ModrinthApi.install server_id f.url f.filename (folder k.kind)

-- The click on "Install", with `onMutate`
unfoldable pub press : ModrinthHit → State → State
press hit s = record {
  tab = record s.tab { pending = insert hit.project_id true s.tab.pending; error = none };
  tasks =
      record {
        project_id = hit.project_id;
        project = or_text hit.slug hit.project_id;
        kind = s.tab.kind;
        loader = s.tab.loader;
        version = s.tab.version;
        filename = none;
      }
      ∷ s.tasks;
}

-- `onSettled`
abbrev pub settled : String → Tab → Tab
settled id t = record t { pending = erase id t.pending }

abbrev pub with_file : String → ℕ → List Task → List Task
with_file name i [] = []
with_file name zero (k ∷ ks) = record k { filename = some name } ∷ ks
with_file name (suc i) (k ∷ ks) = k ∷ with_file name i ks

-- `onError` and `onSettled` of the install at `i`
abbrev pub failed : ℕ → Failure → Task → State → State
failed i e k s = record {
  tab = settled k.project_id (record s.tab { error = some (message_or "Install failed" e) });
  tasks = remove_at i s.tasks;
}

-- `onSuccess` and `onSettled`
abbrev pub succeeded : ℕ → String → Task → State → State
succeeded i filename k s = record {
  tab =
      settled k.project_id
        (record s.tab { installed = insert k.project_id filename s.tab.installed });
  tasks = remove_at i s.tasks;
}

abbrev pub with_versions : ℕ → Failure ⊎ ModrinthVersionFile → Task → State → State
with_versions i (inl e) k s = failed i e k s
with_versions i (inr f) k s = record s { tasks = with_file f.filename i s.tasks }

-- What happens on the tab while it stays mounted. The button of a project that is installed is not
-- shown, and that of one whose install is under way is disabled. The answers name the install by its place among those under way.
pub data Event : Type 0 where
  switch_kind : Kind → Event
  type_query : String → Event
  choose_loader : String → Event
  choose_version : String → Event
  found : ModrinthSearchResult → Event
  search_failed : Failure → Event
  install_pressed : ModrinthHit → Event
  versions_answered : ℕ → List ModrinthVersion → Event
  install_answered : ℕ → Event
  install_failed : ℕ → Failure → Event

abbrev pub is_true : Option Bool → Bool
is_true none = false
is_true (some b) = b

-- An answer of the versions reaches an install that has no file yet, one of `install` the others.
abbrev pub asked_in : Option String → ℕ → List ModrinthVersion → Task → State → State
asked_in none i vs k s = with_versions i (file_of vs) k s
asked_in (some f) i vs k s = s

abbrev pub asked : ℕ → List ModrinthVersion → Option Task → State → State
asked i vs none s = s
asked i vs (some k) s = asked_in k.filename i vs k s

abbrev pub answered_in : Option String → ℕ → Task → State → State
answered_in none i k s = s
answered_in (some f) i k s = succeeded i f k s

abbrev pub answered : ℕ → Option Task → State → State
answered i none s = s
answered i (some k) s = answered_in k.filename i k s

abbrev pub broken_off : ℕ → Failure → Option Task → State → State
broken_off i e none s = s
broken_off i e (some k) s = failed i e k s

unfoldable pub step : Event → State → State
unfolding press file_of
step (switch_kind kind) s = record s { tab = record s.tab { kind = kind; loader = "" } }
step (type_query q) s = record s { tab = record s.tab { query = q } }
step (choose_loader l) s = record s { tab = record s.tab { loader = l } }
step (choose_version v) s = record s { tab = record s.tab { version = v } }
step (found r) s = record s { tab = record s.tab { hits = r.hits; error = none } }
step (search_failed e) s = record s {
  tab = record s.tab { error = some (message_or "Search failed" e) };
}
step (install_pressed hit) s =
    if is_true (lookup hit.project_id s.tab.pending)
      || truthy (lookup hit.project_id s.tab.installed)
    then s
    else press hit s
step (versions_answered i vs) s = asked i vs (get_elem? i s.tasks) s
step (install_answered i) s = answered i (get_elem? i s.tasks) s
step (install_failed i e) s = broken_off i e (get_elem? i s.tasks) s

unfoldable pub run : List Event → State → State
unfolding step
run [] s = s
run (e ∷ es) s = run es (step e s)

unfoldable pub opened : State
opened = record {
  tab = record {
    kind = mod_kind;
    query = "";
    loader = "";
    version = "";
    hits = [];
    installed = [];
    pending = [];
    error = none;
  };
  tasks = [];
}
