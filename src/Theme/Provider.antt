-- ===== src/Theme/Provider.antt =====
-- The state of `ThemeProvider` (web/src/lib/ThemeProvider.tsx) and the storage functions of
-- web/src/lib/theme.ts.
use sky_panel.Base.{
  ◌≡◌, String, Option, none, some, Bool, true, not, List, [], ◌∷◌, ◌++◌, keep, find?, is_some,
  str_eq, nonempty, or_text, Dict, lookup, insert, if◌then◌else◌,
}
use sky_panel.Theme.Defs.{Theme}
use sky_panel.Theme.Presets.{preset_themes, default_theme}

abbrev pub custom_themes_key : String
custom_themes_key = "sky-panel:custom-themes"

abbrev pub active_theme_key : String
active_theme_key = "sky-panel:active-theme"

-- `JSON.stringify` of a list of themes, and `JSON.parse` (`none` is an exception, `some none` a
-- value that is no array).
pub record Platform : Type 0 where
  pub stringify : List Theme → String
  pub parse : String → Option (Option (List Theme))

pub record IsFaithful (p : Platform) : Type 0 where
  pub nonempty_text : (ts : List Theme) → nonempty (p.stringify ts) ≡ true
  pub round_trip : (ts : List Theme) → p.parse (p.stringify ts) ≡ some (some ts)

abbrev pub has_id : String → Theme → Bool
has_id id t = str_eq t.id id

unfoldable pub find_preset : String → Option Theme
find_preset id = find? (has_id id) preset_themes

-- `Array.isArray(parsed) ? parsed : []`, and `catch { return [] }`
abbrev themes_read : Option (Option (List Theme)) → List Theme
themes_read (some (some ts)) = ts
themes_read _ = []

module _ (p : Platform) where
  unfoldable pub load_custom_themes : Dict String → List Theme
  load_custom_themes storage = elim (lookup custom_themes_key storage) [
    | none ↦ []
    | some raw ↦ if nonempty raw then themes_read (p.parse raw) else []
  ]

  unfoldable pub save_custom_themes : List Theme → Dict String → Dict String
  save_custom_themes ts storage = insert custom_themes_key (p.stringify ts) storage

unfoldable pub load_active_theme_id : Dict String → Option String
load_active_theme_id storage = lookup active_theme_key storage

unfoldable pub save_active_theme_id : String → Dict String → Dict String
save_active_theme_id id storage = insert active_theme_key id storage

pub record State : Type 0 where
  pub custom_themes : List Theme
  pub has_user_choice : Bool
  pub active_theme_id : String
  pub storage : Dict String

abbrev pub id_or_default : Option String → String
id_or_default none = default_theme.id
id_or_default (some id) = id

-- `themes.find(…) ?? DEFAULT_THEME`
abbrev pub theme_or_default : Option Theme → Theme
theme_or_default none = default_theme
theme_or_default (some t) = t

-- `hasUserChoice ? activeThemeId : adminThemeId || DEFAULT_THEME.id`
unfoldable pub effective_id : String → State → String
effective_id admin_theme_id s =
    if s.has_user_choice then s.active_theme_id else or_text admin_theme_id default_theme.id

-- The theme in force, under the admin's instance-wide preset.
unfoldable pub theme : String → State → Theme
unfolding effective_id
theme admin_theme_id s =
    theme_or_default
      (find? (has_id (effective_id admin_theme_id s)) (preset_themes ++ s.custom_themes))

module _ (p : Platform) where
  -- The state when the page loads.
  unfoldable pub boot : Dict String → State
  unfolding load_custom_themes load_active_theme_id
  boot storage = record {
    custom_themes = load_custom_themes p storage;
    has_user_choice = is_some (load_active_theme_id storage);
    active_theme_id = id_or_default (load_active_theme_id storage);
    storage = storage;
  }

unfoldable pub set_theme_id : String → State → State
unfolding save_active_theme_id
set_theme_id id s = record s {
  active_theme_id = id;
  has_user_choice = true;
  storage = save_active_theme_id id s.storage;
}

module _ (p : Platform) where
  unfoldable pub save_custom_theme : Theme → State → State
  unfolding save_custom_themes set_theme_id
  save_custom_theme next s =
      let updated = keep (λ t. not (has_id next.id t)) s.custom_themes ++ next ∷ [] in
      set_theme_id next.id
        (record s { custom_themes = updated; storage = save_custom_themes p updated s.storage })

  unfoldable pub delete_custom_theme : String → State → State
  unfolding save_custom_themes
  delete_custom_theme id s =
      let updated = keep (λ t. not (has_id id t)) s.custom_themes in
      record s {
        custom_themes = updated;
        storage = save_custom_themes p updated s.storage;
        active_theme_id =
            if str_eq s.active_theme_id id then default_theme.id else s.active_theme_id;
      }

-- What the provider offers to its pages.
pub data Action : Type 0 where
  choose delete : String → Action
  save : Theme → Action

unfoldable pub run : Platform → Action → State → State
unfolding set_theme_id save_custom_theme delete_custom_theme
run p (choose id) s = set_theme_id id s
run p (save t) s = save_custom_theme p t s
run p (delete id) s = delete_custom_theme p id s

unfoldable pub run_all : Platform → List Action → State → State
unfolding run
run_all p [] s = s
run_all p (a ∷ actions) s = run_all p actions (run p a s)
