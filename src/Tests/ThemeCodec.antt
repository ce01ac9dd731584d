-- ===== src/Tests/ThemeCodec.antt =====
-- A platform for examples that keeps a list of themes as a text.
use sky_panel.Base.{
  ℕ, zero, suc, ◌≡◌, refl, String, Option, none, some, Bool, true, false, List, [], ◌∷◌, length,
}
use sky_panel.Tests.Codec.{Codec, text, number, pair, along, put_text-nonempty, unary}
use sky_panel.Theme.Defs.{Theme, AnimationIntensity}
use sky_panel.Theme.Provider.{Platform, IsFaithful}

abbrev of_intensity : AnimationIntensity → ℕ
of_intensity AnimationIntensity.off = 0
of_intensity AnimationIntensity.subtle = 1
of_intensity AnimationIntensity.normal = 2
of_intensity AnimationIntensity.high = 3

abbrev to_intensity : ℕ → AnimationIntensity
to_intensity zero = AnimationIntensity.off
to_intensity (suc zero) = AnimationIntensity.subtle
to_intensity (suc (suc zero)) = AnimationIntensity.normal
to_intensity (suc (suc (suc n))) = AnimationIntensity.high

pub to_intensity-of_intensity : (a : AnimationIntensity) → to_intensity (of_intensity a) ≡ a
to_intensity-of_intensity AnimationIntensity.off = refl
to_intensity-of_intensity AnimationIntensity.subtle = refl
to_intensity-of_intensity AnimationIntensity.normal = refl
to_intensity-of_intensity AnimationIntensity.high = refl

abbrev of_builtin : Option Bool → ℕ
of_builtin none = 0
of_builtin (some false) = 1
of_builtin (some true) = 2

abbrev to_builtin : ℕ → Option Bool
to_builtin zero = none
to_builtin (suc zero) = some false
to_builtin (suc (suc n)) = some true

pub to_builtin-of_builtin : (b : Option Bool) → to_builtin (of_builtin b) ≡ b
to_builtin-of_builtin none = refl
to_builtin-of_builtin (some false) = refl
to_builtin-of_builtin (some true) = refl

abbrev Parts : Type 0
Parts =
    (((String × String) × (String × String)) × ((String × String) × (String × String)))
    × (((String × String) × String) × (ℕ × ℕ))

abbrev of_theme : Theme → Parts
of_theme t = (
  (
    ((t.id, t.name), (t.background, t.background_alt)),
    ((t.surface, t.surface_border), (t.text, t.text_muted)),
  ),
  (
    ((t.accent, t.accent_text), t.radius),
    (of_intensity t.animation_intensity, of_builtin t.builtin),
  ),
)

abbrev to_theme : Parts → Theme
to_theme ((((a, b), (c, d)), ((e, f), (g, h))), (((i, j), k), (l, m))) = record {
  id = a;
  name = b;
  background = c;
  background_alt = d;
  surface = e;
  surface_border = f;
  text = g;
  text_muted = h;
  accent = i;
  accent_text = j;
  radius = k;
  animation_intensity = to_intensity l;
  builtin = to_builtin m;
}

pub to_theme-of_theme : (t : Theme) → to_theme (of_theme t) ≡ t
to_theme-of_theme t =
    rw (to_intensity-of_intensity t.animation_intensity) (rw (to_builtin-of_builtin t.builtin) refl)

abbrev one_theme : Codec Theme
one_theme =
    let two = pair text text in
    along to_theme of_theme to_theme-of_theme
      (pair (pair (pair two two) (pair two two)) (pair (pair two text) (pair number number)))

module _ {A : Type 0} (c : Codec A) where
  abbrev put_items : List A → String → String
  put_items [] r = r
  put_items (x ∷ xs) r = c.put x (put_items xs r)

  abbrev push_item : A → Option (List A × String) → Option (List A × String)
  push_item x none = none
  push_item x (some (xs, r)) = some (x ∷ xs, r)

  abbrev get_items : ℕ → String → Option (List A × String)
  get_items zero s = some ([], s)
  get_items (suc n) s = elim (c.get s) [ none ↦ none | some (x, r) ↦ push_item x (get_items n r) ]

  get_items-put_items :
      (xs : List A) (r : String) → get_items (length xs) (put_items xs r) ≡ some (xs, r)
  get_items-put_items [] r = refl
  get_items-put_items (x ∷ xs) r =
      rw (c.get-put x (put_items xs r)) (rw (get_items-put_items xs r, push_item))

abbrev read_items : Option (ℕ × String) → Option (Option (List Theme))
read_items none = none
read_items (some (n, s)) = elim (get_items one_theme n s) [
  | none ↦ none
  | some (ts, r) ↦ some (some ts)
]

abbrev pub keeper : Platform
keeper = record {
  stringify = λ ts. number.put (length ts) (put_items one_theme ts "");
  parse = λ s. read_items (number.get s);
}

pub keeper-IsFaithful : IsFaithful keeper
keeper-IsFaithful = record {
  nonempty_text = λ ts. put_text-nonempty (unary (length ts)) _;
  round_trip = λ ts.
      rw (number.get-put (length ts) (put_items one_theme ts ""))
        (rw (get_items-put_items one_theme ts "", read_items));
}
