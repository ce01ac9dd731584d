-- ===== src/Servers.antt =====
-- web/src/pages/ServersListPage.tsx: the list of a user's servers, its favourites, and the form for
-- a new server.
pub mod Sorting
pub mod Order
pub mod Requests
use sky_panel.Base.{
  ℕ, ◌*◌, ◌≡◌, refl, arith, String, Option, none, some, Bool, true, false, not, ◌&&◌, ◌||◌, List,
  [], ◌∷◌, ◌++◌, map, keep, find?, any, str_eq, eq_iff, eq_refl, Dict, lookup, insert,
  if◌then◌else◌,
}
use sky_panel.Wire.Servers.{Server, ServerStatus, Egg, EggVariable}
use sky_panel.Endpoints.Servers.{CreateServer}

abbrev pub favorites_of : Option (List String) → List String
favorites_of none = []
favorites_of (some ids) = ids

-- `onMutate` of the star: the cache of the favourites, and the context for `onError`.
unfoldable pub on_mutate :
    String → (on : Bool) → Option (List String) → Option (List String) × List String
on_mutate id on cache =
    let prev = favorites_of cache in
    (some (if on then prev ++ id ∷ [] else keep (λ x. not (str_eq x id)) prev), prev)

-- `onError`
unfoldable pub on_error : List String → Option (List String) → Option (List String)
on_error prev cache = some prev

-- `favoriteSet.has(id)`
unfoldable pub is_favorite : Option (List String) → String → Bool
is_favorite cache id = any (λ x. str_eq x id) (favorites_of cache)

has-append : (id : String) (ids : List String) → any (λ x. str_eq x id) (ids ++ id ∷ []) ≡ true
has-append id [] = rw (eq_refl id) refl
has-append id (x ∷ ids) = ground (arith, has-append id ids)

has-keep :
    (id : String) (ids : List String)
    → any (λ x. str_eq x id) (keep (λ x. not (str_eq x id)) ids) ≡ false
has-keep id [] = refl
has-keep id (x ∷ ids) = ground (arith, has-keep id ids)

-- The star shows at once what was asked for, and if the request fails the favourites are those from
-- before.
pub on_mutate_lem :
    (id : String) (on : Bool) (cache : Option (List String))
    → let (optimistic, prev) = on_mutate id on cache in
      (is_favorite optimistic id ≡ on)
      × ((other : String) → is_favorite (on_error prev optimistic) other ≡ is_favorite cache other)
unfolding on_mutate on_error is_favorite
on_mutate_lem id true cache = (has-append id (favorites_of cache), λ other. refl)
on_mutate_lem id false cache = (has-keep id (favorites_of cache), λ other. refl)

-- `refetchInterval`, in milliseconds
abbrev is_changing : Server → Bool
is_changing s = elim s.status [
  | ServerStatus.installing ↦ true
  | ServerStatus.stopping ↦ true
  | _ ↦ false
]

unfoldable pub refetch_interval : Option (List Server) → Option ℕ
refetch_interval none = none
refetch_interval (some servers) = if any is_changing servers then some 3000 else none

-- The form for a new server.
pub record Form : Type 0 where
  pub name : String
  pub node_id : String
  pub egg_id : String
  pub memory_mb : ℕ
  pub cpu_limit : ℕ
  pub disk_mb : ℕ
  pub variables : Dict String

abbrev defaults : List EggVariable → Dict String → Dict String
defaults [] d = d
defaults (v ∷ vs) d = defaults vs (if v.user_editable then insert v.env v.default d else d)

abbrev variables_of : Option Egg → List EggVariable
variables_of none = []
variables_of (some egg) = egg.variables

abbrev find_egg : String → Option (List Egg) → Option Egg
find_egg id none = none
find_egg id (some es) = find? (λ (e : Egg). str_eq e.id id) es

-- `selectEgg`
unfoldable pub select_egg : String → Option (List Egg) → Form → Form
unfolding insert
select_egg id eggs f = record f {
  egg_id = id;
  variables = defaults (variables_of (find_egg id eggs)) [];
}

abbrev pub bytes_per_mb : ℕ
bytes_per_mb = 1024 * 1024

-- What `createServer` sends.
unfoldable pub creation : Form → CreateServer
creation f = record {
  node_id = f.node_id;
  egg_id = f.egg_id;
  name = f.name;
  memory_bytes = f.memory_mb * bytes_per_mb;
  cpu_limit = some f.cpu_limit;
  disk_bytes = some (f.disk_mb * bytes_per_mb);
  variables = some f.variables;
}
