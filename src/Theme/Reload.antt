-- ===== src/Theme/Reload.antt =====
-- A reload of the page keeps the theme that `ThemeProvider` (web/src/lib/ThemeProvider.tsx) shows.
use sky_panel.Base.{
  ◌≡◌, ◌⊎◌, inl, inr, refl, sym, ap, ◌∙◌, arith, String, Option, none, some, Bool, true, not, List,
  [], ◌∷◌, ◌++◌, keep, find?, or_text, is_some, str_eq, eq_iff, All, Dict, if◌then◌else◌,
  Bool-cases,
}
use sky_panel.Theme.Defs.{Theme}
use sky_panel.Theme.Presets.{preset_themes, default_theme}
use sky_panel.Theme.Provider.{
  Platform, IsFaithful, State, Action, choose, delete, save, has_id, find_preset,
  load_custom_themes, save_custom_themes, load_active_theme_id, theme_or_default, effective_id,
  theme, boot, set_theme_id, save_custom_theme, delete_custom_theme, run, run_all, id_or_default,
}
use sky_panel.Theme.Choice.{
  load_active-save_active, load_custom-save_active, load_active-save_custom, load_custom-save,
  find?-append_none, find?-without,
}

module _ {ℓ} {A : Type ℓ} (q : A → Bool) where
  find?-append_kept :
      (r : A → Bool) (xs ys : List A) → find? q (xs ++ ys) ≡ none → find? q (xs ++ keep r ys) ≡ none
  find?-append_kept r [] [] e = refl
  find?-append_kept r [] (y ∷ ys) e = ground (arith, find?-append_kept r [] ys)
  find?-append_kept r (x ∷ xs) ys e = ground (arith, find?-append_kept r xs ys)

-- The stored choice and the choice in memory: the same, or the stored theme is gone and the
-- default one is in force.
module _ (presets : List Theme) (first : String) where
  abbrev Agrees : (stored : Option String) (active : String) (custom : List Theme) → Type 0
  Agrees none active custom = active ≡ first
  Agrees (some id) active custom =
      (id ≡ active) ⊎ ((find? (has_id id) (presets ++ custom) ≡ none) × (active ≡ first))

  default_kept :
      (id active : String) → active ≡ first → (if str_eq active id then first else active) ≡ first
  default_kept id active e = ground arith

  Agrees-delete :
      (id : String) (stored : Option String) (active : String) (custom : List Theme)
      → find? (has_id id) presets ≡ none
      → Agrees stored active custom
      → Agrees stored
          (if str_eq active id then first else active)
          (keep (λ t. not (has_id id t)) custom)
  Agrees-delete id none active custom fresh h = default_kept id active h
  Agrees-delete id (some j) active custom fresh (inl e) = elim (Bool-cases (str_eq active id)) [
    | inl same ↦ rw same (
        inr (
          rw (e ∙ (eq_iff active id).0 same) (
              find?-append_none (has_id id) presets (keep (λ t. not (has_id id t)) custom) fresh
              ∙ find?-without (has_id id) custom),
          refl,
        ))
    | inr other ↦ rw other (inl e)
  ]
  Agrees-delete id (some j) active custom fresh (inr (gone, e)) = inr (
    find?-append_kept (has_id j) (λ t. not (has_id id t)) presets custom gone,
    default_kept id active e,
  )

record IsSynced (p : Platform) (s : State) : Type 0 where
  custom : load_custom_themes p s.storage ≡ s.custom_themes
  choice : is_some (load_active_theme_id s.storage) ≡ s.has_user_choice
  agrees :
      Agrees preset_themes default_theme.id
        (load_active_theme_id s.storage)
        s.active_theme_id
        s.custom_themes

-- A page deletes only a theme that is not built in.
abbrev pub allowed : Action → Bool
allowed (delete id) = not (is_some (find_preset id))
allowed _ = true

not_some : (o : Option Theme) → not (is_some o) ≡ true → o ≡ none
not_some o h = ground arith

module _ (p : Platform) (ok : IsFaithful p) where
  run-IsSynced : (a : Action) (s : State) → allowed a ≡ true → IsSynced p s → IsSynced p (run p a s)
  unfolding run set_theme_id save_custom_theme delete_custom_theme
  run-IsSynced (choose id) s ha h = record {
    custom = load_custom-save_active p s.storage id ∙ h.custom;
    choice = ap is_some (load_active-save_active id s.storage);
    agrees = rw (load_active-save_active id s.storage) (inl refl);
  }
  run-IsSynced (save t) s ha h =
      let updated = keep (λ u. not (has_id t.id u)) s.custom_themes ++ t ∷ [] in
      let stored = save_custom_themes p updated s.storage in
      record {
        custom = load_custom-save_active p stored t.id ∙ load_custom-save p ok updated s.storage;
        choice = ap is_some (load_active-save_active t.id stored);
        agrees = rw (load_active-save_active t.id stored) (inl refl);
      }
  run-IsSynced (delete id) s ha h =
      let updated = keep (λ u. not (has_id id u)) s.custom_themes in
      let same = load_active-save_custom p s.storage updated in
      record {
        custom = load_custom-save p ok updated s.storage;
        choice = ap is_some same ∙ h.choice;
        agrees = rw same (
            Agrees-delete preset_themes default_theme.id id (load_active_theme_id s.storage)
              s.active_theme_id s.custom_themes (unfold find_preset in not_some (find_preset id) ha)
              h.agrees);
      }

  run_all-IsSynced :
      (actions : List Action) (s : State)
      → All (λ a. allowed a ≡ true) actions
      → IsSynced p s
      → IsSynced p (run_all p actions s)
  unfolding run_all
  run_all-IsSynced [] s ha h = h
  run_all-IsSynced (a ∷ actions) s ha h =
      run_all-IsSynced actions (run p a s) ha.1 (run-IsSynced a s ha.0 h)

Agrees-stored :
    (stored : Option String) (custom : List Theme)
    → Agrees preset_themes default_theme.id stored (id_or_default stored) custom
Agrees-stored none custom = refl
Agrees-stored (some id) custom = inl refl

boot-IsSynced : (p : Platform) (storage : Dict String) → IsSynced p (boot p storage)
unfolding boot
boot-IsSynced p storage = record {
  custom = refl;
  choice = refl;
  agrees = Agrees-stored (load_active_theme_id storage) (load_custom_themes p storage);
}

abbrev shown_by : (choice : Bool) (active admin : String) (custom : List Theme) → Theme
shown_by choice active admin custom =
    theme_or_default (find? (has_id (if choice then active else admin)) (preset_themes ++ custom))

shown_by-stored :
    (stored : Option String) (active admin : String) (custom : List Theme)
    → Agrees preset_themes default_theme.id stored active custom
    → shown_by (is_some stored) (id_or_default stored) admin custom
      ≡ shown_by (is_some stored) active admin custom
shown_by-stored none active admin custom h = refl
shown_by-stored (some id) active admin custom (inl e) = ap (λ a. shown_by true a admin custom) e
shown_by-stored (some id) active admin custom (inr (gone, e)) =
    ap theme_or_default gone ∙ sym (ap (λ a. shown_by true a admin custom) e)

theme-boot :
    (p : Platform) (admin : String) (s : State)
    → IsSynced p s
    → theme admin (boot p s.storage) ≡ theme admin s
unfolding theme effective_id boot
theme-boot p admin s h =
    let stored = load_active_theme_id s.storage in
    let other = or_text admin default_theme.id in
    ap (shown_by (is_some stored) (id_or_default stored) other) h.custom
    ∙ shown_by-stored stored s.active_theme_id other s.custom_themes h.agrees
    ∙ ap (λ b. shown_by b s.active_theme_id other s.custom_themes) h.choice

-- Whatever themes are chosen, saved and deleted after the page has loaded, as long as only themes
-- that are not built in are deleted, a reload shows the theme that was in force before it.
pub reload-theme :
    (p : Platform)
    → IsFaithful p
    → (admin : String) (storage : Dict String) (actions : List Action)
    → All (λ a. allowed a ≡ true) actions
    → let s = run_all p actions (boot p storage) in theme admin (boot p s.storage) ≡ theme admin s
reload-theme p ok admin storage actions ha =
    theme-boot p admin (run_all p actions (boot p storage))
      (run_all-IsSynced p ok actions (boot p storage) ha (boot-IsSynced p storage))
