-- ===== src/Admin/Economy.antt =====
-- web/src/components/admin/AdminEconomyTab.tsx: how the AFK page and the daily reward pay out.
use sky_panel.Base.{
  ℕ, String, Option, none, some, Bool, true, false, str_eq, eq_iff, List, [], ◌∷◌, Dict, lookup,
  insert, lookup-insert, if◌then◌else◌, ◌≡◌, refl, ap, ◌∙◌, arith,
}
use sky_panel.Base.Decimal.{show}
use sky_panel.Endpoints.Admin.{AdminApi}

-- `FIELDS`: the keys and their defaults
abbrev pub fields : List (String × ℕ)
fields =
    ("afk.coins_per_heartbeat", 1)
    ∷ ("afk.min_interval_seconds", 20)
    ∷ ("afk.max_interval_seconds", 90)
    ∷ ("daily_reward.amount", 100)
    ∷ ("daily_reward.interval_hours", 24)
    ∷ []

pub record Tab : Type 0 where
  pub values : Dict String
  pub saved_key : Option String

abbrev or_default : Option String → ℕ → String
or_default none default = show default
or_default (some text) default = text

-- The loop of the effect, on the values so far
unfoldable pub seed : List (String × ℕ) → Dict String → Dict String → Dict String
seed [] settings seeded = seeded
seed ((key, default) ∷ fs) settings seeded =
    seed fs settings (insert key (or_default (lookup key settings) default) seeded)

unfoldable pub hydrate : Dict String → Tab → Tab
hydrate settings t = record t { values = seed fields settings [] }

unfoldable pub type_value : String → String → Tab → Tab
type_value key value t = record t { values = insert key value t.values }

-- "Save"
unfoldable pub save_call : String → ℕ → Tab → AdminApi
save_call key default t = AdminApi.set_setting key (or_default (lookup key t.values) default)

unfoldable pub saved : String → Tab → Tab
saved key t = record t { saved_key = some key }

unfoldable pub saved_timeout : Tab → Tab
saved_timeout t = record t { saved_key = none }

abbrev pub is_field : String → List (String × ℕ) → Bool
is_field key [] = false
is_field key ((k, default) ∷ fs) = if str_eq k key then true else is_field key fs

lookup-seed :
    (fs : List (String × ℕ)) (settings seeded : Dict String) (key value : String)
    → lookup key settings ≡ some value
    → lookup key (seed fs settings seeded)
      ≡ (if is_field key fs then some value else lookup key seeded)
unfolding seed
lookup-seed [] settings seeded key value h = refl
lookup-seed ((k, default) ∷ fs) settings seeded key value h = ground (
  arith,
  lookup-seed fs settings (insert k (or_default (lookup k settings) default) seeded) key value h,
  lookup-insert k key (or_default (lookup k settings) default) seeded,
  eq_iff k key,
  h,
)

-- Whatever text is saved for one of the fields, the tab shows it again once the settings have it.
pub hydrate-stored :
    (settings : Dict String) (key value : String) (t : Tab)
    → is_field key fields ≡ true
    → lookup key (hydrate (insert key value settings) t).values ≡ some value
unfolding hydrate
hydrate-stored settings key value t h =
    let there : lookup key (insert key value settings) ≡ some value =
      ground (arith, lookup-insert key key value settings, eq_iff key key) in
    lookup-seed fields (insert key value settings) [] key value there
    ∙ ap (λ (b : Bool). if b then some value else lookup key []) h
