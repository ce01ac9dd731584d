-- ===== src/Theme/Choice.antt =====
-- Which theme is in force after the actions of `ThemeProvider` (web/src/lib/ThemeProvider.tsx), and
-- after a reload of the page.
use sky_panel.Base.{
  ◌≡◌, inl, inr, refl, sym, ap, ◌∙◌, arith, String, Option, none, some, Bool, not, List, [], ◌∷◌,
  ◌++◌, keep, find?, is_some, eq_refl, or_text, Dict, lookup-insert, if◌then◌else◌, Option-cases,
}
use sky_panel.Theme.Defs.{Theme}
use sky_panel.Theme.Presets.{preset_themes, default_theme}
use sky_panel.Theme.Provider.{
  Platform, IsFaithful, State, has_id, load_custom_themes, save_custom_themes, load_active_theme_id,
  save_active_theme_id, custom_themes_key, active_theme_key, theme_or_default, effective_id, theme,
  boot, set_theme_id, save_custom_theme, id_or_default,
}

module _ {ℓ} {A : Type ℓ} (q : A → Bool) where
  find?-append_some : (xs ys : List A) (y : A) → find? q xs ≡ some y → find? q (xs ++ ys) ≡ some y
  find?-append_some [] ys y e = cc
  find?-append_some (x ∷ xs) ys y e = ground (arith, find?-append_some xs ys y)

  pub find?-append_none : (xs ys : List A) → find? q xs ≡ none → find? q (xs ++ ys) ≡ find? q ys
  find?-append_none [] ys e = refl
  find?-append_none (x ∷ xs) ys e = ground (arith, find?-append_none xs ys)

  pub find?-without : (xs : List A) → find? q (keep (λ x. not (q x)) xs) ≡ none
  find?-without [] = refl
  find?-without (x ∷ xs) = ground (arith, find?-without xs)

-- The theme that a saved theme's id stands for: a preset of that id hides it.
abbrev pub some_or : Theme → Option Theme → Theme
some_or t none = t
some_or t (some preset) = preset

abbrev pub shown_among : List Theme → Theme → Theme
shown_among presets t = some_or t (find? (has_id t.id) presets)

find?-alone : (t : Theme) → find? (has_id t.id) (t ∷ []) ≡ some t
find?-alone t = rw (eq_refl t.id) refl

find_saved :
    (presets : List Theme) (t : Theme) (ts : List Theme)
    → theme_or_default
        (find? (has_id t.id) (presets ++ (keep (λ u. not (has_id t.id u)) ts ++ t ∷ [])))
      ≡ shown_among presets t
find_saved presets t ts =
    let kept = keep (λ u. not (has_id t.id u)) ts in
    elim (Option-cases (find? (has_id t.id) presets)) [
      | inl e ↦
          ap theme_or_default (
            find?-append_none (has_id t.id) presets (kept ++ t ∷ []) e
            ∙ find?-append_none (has_id t.id) kept (t ∷ []) (find?-without (has_id t.id) ts)
            ∙ find?-alone t)
          ∙ ap (some_or t) (sym e)
      | inr (preset, e) ↦
          ap theme_or_default (find?-append_some (has_id t.id) presets (kept ++ t ∷ []) preset e)
          ∙ ap (some_or t) (sym e)
    ]

module _ (p : Platform) (ok : IsFaithful p) where
  pub load_custom-save :
      (ts : List Theme) (storage : Dict String)
      → load_custom_themes p (save_custom_themes p ts storage) ≡ ts
  unfolding load_custom_themes save_custom_themes
  load_custom-save ts storage = ground (
    arith,
    lookup-insert custom_themes_key custom_themes_key (p.stringify ts) storage,
    ok.nonempty_text ts,
    ok.round_trip ts,
  )

module _ (p : Platform) (storage : Dict String) where
  pub load_active-save_custom :
      (ts : List Theme)
      → load_active_theme_id (save_custom_themes p ts storage) ≡ load_active_theme_id storage
  unfolding load_active_theme_id save_custom_themes
  load_active-save_custom ts =
      lookup-insert custom_themes_key active_theme_key (p.stringify ts) storage

  pub load_custom-save_active :
      (id : String)
      → load_custom_themes p (save_active_theme_id id storage) ≡ load_custom_themes p storage
  unfolding load_custom_themes save_active_theme_id
  load_custom-save_active id =
      ground (arith, lookup-insert active_theme_key custom_themes_key id storage)

pub load_active-save_active :
    (id : String) (storage : Dict String)
    → load_active_theme_id (save_active_theme_id id storage) ≡ some id
unfolding load_active_theme_id save_active_theme_id
load_active-save_active id storage = lookup-insert active_theme_key active_theme_key id storage

pub chosen_of :
    (admin id : String) (ts : List Theme) (p : Platform) (storage : Dict String)
    → load_active_theme_id storage ≡ some id
    → load_custom_themes p storage ≡ ts
    → theme admin (boot p storage) ≡ theme_or_default (find? (has_id id) (preset_themes ++ ts))
unfolding theme effective_id boot
chosen_of admin id ts p storage active custom =
    ap
      (λ o. theme_or_default (
        find? (has_id (if is_some o then id_or_default o else or_text admin default_theme.id))
          (preset_themes ++ load_custom_themes p storage)))
      active
    ∙ ap (λ l. theme_or_default (find? (has_id id) (preset_themes ++ l))) custom

-- After a theme is saved it is in force, unless its id is a preset's, which then is in force
-- instead; and the same after a reload, whatever the admin's preset.
pub theme-save_custom_theme :
    (p : Platform)
    → IsFaithful p
    → (admin : String) (t : Theme) (s : State)
    → let s' = save_custom_theme p t s in
      (theme admin s' ≡ shown_among preset_themes t)
      × (theme admin (boot p s'.storage) ≡ shown_among preset_themes t)
unfolding save_custom_theme set_theme_id
theme-save_custom_theme p ok admin t s =
    let updated = keep (λ u. not (has_id t.id u)) s.custom_themes ++ t ∷ [] in
    let stored = save_custom_themes p updated s.storage in
    (
      unfold theme effective_id in find_saved preset_themes t s.custom_themes,
      chosen_of admin t.id updated p (save_active_theme_id t.id stored)
            (load_active-save_active t.id stored)
            (load_custom-save_active p stored t.id ∙ load_custom-save p ok updated s.storage)
          ∙ find_saved preset_themes t s.custom_themes,
    )
