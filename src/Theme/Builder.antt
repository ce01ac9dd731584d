-- ===== src/Theme/Builder.antt =====
-- web/src/pages/ThemeBuilderPage.tsx: a draft that is previewed on the document while it is edited.
use mathlib.Core.Path.{subst}
use sky_panel.Base.{
  ◌≡◌, refl, sym, ◌∙◌, ap, String, Option, some, none, Bool, true, false, not, ◌&&◌, List, [], ◌∷◌,
  str_eq, is_some, or_text, if◌then◌else◌,
}
use sky_panel.Theme.Defs.{Theme, Root, apply_theme}
use sky_panel.Theme.Provider.{Platform, IsFaithful, State, find_preset, save_custom_theme, theme}
use sky_panel.Theme.Choice.{some_or, theme-save_custom_theme}
use sky_panel.Theme.Document.{Shows, apply_theme-Shows}

-- The page, the document and the provider around it. `theme_at_mount` and `saved_at_mount` are what
-- the effect's clean-up function has captured: the effect has no dependencies, so it runs once.
pub record Builder : Type 0 where
  pub draft : Theme
  pub saved : Bool
  pub theme_at_mount : Theme
  pub saved_at_mount : Bool
  pub root : Root
  pub provider : State

unfoldable pub enter : String → State → Root → Builder
enter admin s root = record {
  draft = theme admin s;
  saved = false;
  theme_at_mount = theme admin s;
  saved_at_mount = false;
  root = root;
  provider = s;
}

-- `update`, with the change of one field, and the choice of a base preset
unfoldable pub update : (Theme → Theme) → Builder → Builder
update change b =
    let next = change b.draft in record b { draft = next; root = apply_theme next b.root }

unfoldable pub update_all : List (Theme → Theme) → Builder → Builder
unfolding update
update_all [] b = b
update_all (change ∷ changes) b = update_all changes (update change b)

abbrev is_builtin : Option Bool → Bool
is_builtin none = false
is_builtin (some b) = b

-- The theme that `save` gives to the provider at the time `now`.
unfoldable pub saved_theme : (custom_id : String) → Theme → Theme
saved_theme custom_id draft = record draft {
  id = if is_builtin draft.builtin then custom_id else draft.id;
  builtin = some false;
  name = or_text draft.name "My theme";
}

-- The provider's effect on `[theme]` runs when the theme in force is another object: it is the
-- same one only if it is the same preset.
unfoldable pub repaint : (before after : Theme) → Root → Root
repaint before after root =
    if str_eq before.id after.id && is_some (find_preset after.id)
    then root
    else apply_theme after root

module _ (p : Platform) (admin : String) where
  unfoldable pub save : (custom_id : String) → Builder → Builder
  unfolding saved_theme repaint
  save custom_id b =
      let next = save_custom_theme p (saved_theme custom_id b.draft) b.provider in
      record b {
        saved = true;
        provider = next;
        root = repaint (theme admin b.provider) (theme admin next) b.root;
      }

-- The clean-up function, when the user navigates away.
unfoldable pub leave : Builder → Builder
leave b = record b {
  root = if not b.saved_at_mount then apply_theme b.theme_at_mount b.root else b.root;
}

record IsFresh (admin : String) (s : State) (b : Builder) : Type 0 where
  unsaved : b.saved_at_mount ≡ false
  captured : b.theme_at_mount ≡ theme admin s
  same : b.provider ≡ s

update_all-IsFresh :
    (admin : String) (s : State) (changes : List (Theme → Theme)) (b : Builder)
    → IsFresh admin s b
    → IsFresh admin s (update_all changes b)
unfolding update_all
update_all-IsFresh admin s [] b h = h
update_all-IsFresh admin s (change ∷ changes) b h =
    update_all-IsFresh admin s changes (update change b)
      (unfold update in record { unsaved = h.unsaved; captured = h.captured; same = h.same })

leave-Shows :
    (t : Theme) (b : Builder)
    → b.saved_at_mount ≡ false
    → b.theme_at_mount ≡ t
    → Shows t (leave b).root
unfolding leave
leave-Shows t b unsaved captured =
    rw unsaved
      (subst (λ u. Shows t (apply_theme u b.root)) (sym captured) (apply_theme-Shows t b.root))

enter-IsFresh : (admin : String) (s : State) (root : Root) → IsFresh admin s (enter admin s root)
unfolding enter
enter-IsFresh admin s root = record { unsaved = refl; captured = refl; same = refl }

-- Leaving the theme builder without saving puts the theme in force back on the document, whatever
-- was previewed.
pub leave_unsaved :
    (admin : String) (s : State) (root : Root) (changes : List (Theme → Theme))
    → let b = leave (update_all changes (enter admin s root)) in
      Shows (theme admin s) b.root × (b.provider ≡ s)
leave_unsaved admin s root changes =
    let b = enter admin s root in
    let h = update_all-IsFresh admin s changes b (enter-IsFresh admin s root) in
    (
      leave-Shows (theme admin s) (update_all changes b) h.unsaved h.captured,
      unfold leave in h.same,
    )

-- Leaving the theme builder after saving a theme, under an id that is no preset's, puts the theme
-- that was in force before on the document, although the saved theme is now in force.
pub leave_saved :
    (p : Platform)
    → IsFaithful p
    → (admin custom_id : String) (s : State) (root : Root) (changes : List (Theme → Theme))
    → find_preset (saved_theme custom_id (update_all changes (enter admin s root)).draft).id ≡ none
    → let edited = update_all changes (enter admin s root) in
      let b = leave (save p admin custom_id edited) in
      Shows (theme admin s) b.root × (theme admin b.provider ≡ saved_theme custom_id edited.draft)
unfolding save find_preset
leave_saved p ok admin custom_id s root changes free =
    let b = enter admin s root in
    let h = update_all-IsFresh admin s changes b (enter-IsFresh admin s root) in
    let edited = update_all changes b in
    let next = saved_theme custom_id edited.draft in
    (
      leave-Shows (theme admin s) (save p admin custom_id edited) h.unsaved h.captured,
      unfold leave in
          (theme-save_custom_theme p ok admin next edited.provider).0 ∙ ap (some_or next) free,
    )
