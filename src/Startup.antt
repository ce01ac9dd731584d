-- ===== src/Startup.antt =====
-- web/src/components/server/StartupTab.tsx: the variables of a server's egg, as the tab previews
-- and saves them. The command's template is in Startup/Render.
pub mod Render
pub mod Template
use sky_panel.Base.{
  ◌≡◌, refl, sym, ap, ◌∙◌, arith, String, Option, none, some, true, false, List, [], ◌∷◌, All,
  str_eq, eq_refl, Dict, lookup, insert, lookup-insert, if◌then◌else◌, Bool-cases, inl, inr,
}
use sky_panel.Base.Json.{Json}
use sky_panel.Wire.Servers.{Server, ServerStatus, Egg, EggVariable}
use sky_panel.Api.{Failure, message_or}
use sky_panel.Toasts.{ToastKind}
use sky_panel.Endpoints.Servers.{UpdateServer}

abbrev pub or_stored : Option String → Option String → String → String
or_stored (some own) stored default = own
or_stored none (some value) default = value
or_stored none none default = default

-- `overrides[env] ?? server.variables?.[env] ?? def`
unfoldable pub effective : (overrides stored : Dict String) → String → String → String
effective overrides stored env default =
    or_stored (lookup env overrides) (lookup env stored) default

-- `setOverrides((prev) => ({ ...prev, [env]: value }))`
unfoldable pub change : String → String → Dict String → Dict String
change env value overrides = insert env value overrides

-- The loop of `resolved`, on the map so far; `value` is `effective`.
unfoldable pub resolve :
    (value : String → String → String) → List EggVariable → Dict String → Dict String
resolve value [] map = map
resolve value (v ∷ vs) map =
    resolve value vs
      (insert v.env (if v.user_editable then value v.env v.default else v.default) map)

unfoldable pub resolved : List EggVariable → (overrides stored : Dict String) → Dict String
unfolding resolve effective
resolved vs overrides stored = resolve (effective overrides stored) vs []

-- The loop of `save` over the editable variables
unfoldable pub collect :
    (value : String → String → String) → List EggVariable → Dict String → Dict String
collect value [] map = map
collect value (v ∷ vs) map =
    if v.user_editable
    then collect value vs (insert v.env (value v.env v.default) map)
    else collect value vs map

unfoldable pub saved_variables : List EggVariable → (overrides stored : Dict String) → Dict String
unfolding collect effective
saved_variables vs overrides stored = collect (effective overrides stored) vs []

-- What `save` sends.
unfoldable pub saved : Egg → (overrides : Dict String) → Server → UpdateServer
unfolding saved_variables
saved egg overrides server = record {
  name = server.name;
  memory_bytes = server.memory_bytes;
  cpu_limit = server.cpu_limit;
  disk_bytes = server.disk_bytes;
  variables = some (saved_variables egg.variables overrides server.variables);
  backup_interval_hours = server.backup_interval_hours;
}

-- `onSuccess` of `save`: the changes of the tab, and the toast.
unfoldable pub save_succeeded : Server → Dict String → Dict String × (ToastKind × String)
save_succeeded server overrides = (
  [],
  (
    ToastKind.success,
    elim server.status [
      | ServerStatus.running ↦ "Startup saved — re-provisioning and restarting the server."
      | _ ↦ "Startup saved — the container will be re-provisioned."
    ],
  ),
)

-- `onError`
unfoldable pub save_refused : Failure → Dict String → Dict String × (ToastKind × Json)
save_refused f overrides = (overrides, (ToastKind.error, message_or "Failed to save startup" f))

abbrev Fresh : String → List EggVariable → Type 0
Fresh env vs = All (λ (w : EggVariable). str_eq w.env env ≡ false) vs

-- No two variables have one name.
abbrev pub IsDistinct : List EggVariable → Type 0
IsDistinct [] = Unit
IsDistinct (v ∷ vs) = Fresh v.env vs × IsDistinct vs

module _ (value : String → String → String) where
  collect-Fresh :
      (env : String) (vs : List EggVariable) (map : Dict String)
      → Fresh env vs
      → lookup env (collect value vs map) ≡ lookup env map
  unfolding collect
  collect-Fresh env [] map h = refl
  collect-Fresh env (v ∷ vs) map h = ground (
    arith,
    h.0,
    collect-Fresh env vs (insert v.env (value v.env v.default) map) h.1,
    collect-Fresh env vs map h.1,
    lookup-insert v.env env (value v.env v.default) map,
  )

  abbrev Holds : Dict String → EggVariable → Type 0
  Holds d w = w.user_editable ≡ true → lookup w.env d ≡ some (value w.env w.default)

  collect-first :
      (v : EggVariable) (vs : List EggVariable) (map : Dict String)
      → Fresh v.env vs
      → Holds (collect value (v ∷ vs) map) v
  unfolding collect
  collect-first v vs map h e =
      ap
        (λ b. lookup v.env (
          if b
          then collect value vs (insert v.env (value v.env v.default) map)
          else collect value vs map))
        e
      ∙ collect-Fresh v.env vs (insert v.env (value v.env v.default) map) h
      ∙ lookup-insert v.env v.env (value v.env v.default) map
      ∙ rw (eq_refl v.env) refl

  collect_rest :
      (v : EggVariable) (vs ws : List EggVariable) (map : Dict String)
      → ((map' : Dict String) → All (Holds (collect value vs map')) ws)
      → All (Holds (collect value (v ∷ vs) map)) ws
  unfolding collect
  collect_rest v vs ws map all =
      elim v.user_editable
        as (λ b.
          All
            (Holds (
              if b
              then collect value vs (insert v.env (value v.env v.default) map)
              else collect value vs map))
            ws) [ true ↦ all (insert v.env (value v.env v.default) map) | false ↦ all map ]

  collect-All :
      (vs : List EggVariable) (map : Dict String)
      → IsDistinct vs
      → All (Holds (collect value vs map)) vs
  collect-All [] map h = tt
  collect-All (v ∷ vs) map h =
      (collect-first v vs map h.0, collect_rest v vs vs map (λ map'. collect-All vs map' h.1))

-- `resolve` looks at the values of the editable variables only.
resolve_same :
    (f g : String → String → String) (vs : List EggVariable) (map : Dict String)
    → All (λ (w : EggVariable). w.user_editable ≡ true → f w.env w.default ≡ g w.env w.default) vs
    → resolve f vs map ≡ resolve g vs map
unfolding resolve
resolve_same f g [] map h = refl
resolve_same f g (v ∷ vs) map h = elim (Bool-cases v.user_editable) [
  | inl e ↦
      ap (λ x. resolve f vs (insert v.env (if v.user_editable then x else v.default) map)) (h.0 e)
      ∙ resolve_same f g vs _ h.1
  | inr e ↦
      ap (λ b. resolve f vs (insert v.env (if b then f v.env v.default else v.default) map)) e
      ∙ resolve_same f g vs _ h.1
      ∙ ap (λ b. resolve g vs (insert v.env (if b then g v.env v.default else v.default) map))
          (sym e)
]

effective-All :
    (value : String → String → String) (d : Dict String) (ws : List EggVariable)
    → All (Holds value d) ws
    → All
        (λ (w : EggVariable).
          w.user_editable ≡ true → effective [] d w.env w.default ≡ value w.env w.default)
        ws
unfolding lookup
effective-All value d [] h = tt
effective-All value d (w ∷ ws) h = (
  λ e. unfold effective in (ap (λ o. or_stored none o w.default) (h.0 e)),
  effective-All value d ws h.1,
)

-- Once the variables are saved and the changes are cleared, the tab resolves every variable as it
-- did in the preview before, if no two variables of the egg have one name.
pub resolved-saved :
    (egg : Egg) (overrides : Dict String) (server : Server)
    → IsDistinct egg.variables
    → resolved egg.variables [] (saved_variables egg.variables overrides server.variables)
      ≡ resolved egg.variables overrides server.variables
unfolding resolved saved_variables
resolved-saved egg overrides server h =
    let value = effective overrides server.variables in
    let d = collect value egg.variables [] in
    resolve_same (effective [] d) value egg.variables []
      (effective-All value d egg.variables (collect-All value egg.variables [] h))
