-- ===== src/Startup/Render.antt =====
-- `renderStartup` of web/src/components/server/StartupTab.tsx. A text is the list of its UTF-16 units.
use sky_panel.Base.{
  ℕ, zero, suc, ◌-◌, ◌==◌, leb, String, Option, none, some, Bool, true, false, ◌&&◌, ◌||◌, List, [],
  ◌∷◌, ◌++◌, length, take, Dict, if◌then◌else◌, ◌≡◌, refl,
}

abbrev pub Text : Type 0
Text = List ℕ

-- `[A-Za-z0-9_]`
abbrev pub is_word : ℕ → Bool
is_word c = leb 48 c && leb c 57 || leb 65 c && leb c 90 || c == 95 || leb 97 c && leb c 122

-- The units at the start that pass the test, and the rest
abbrev pub span : (ℕ → Bool) → Text → Text × Text
span test [] = ([], [])
span test (c ∷ s) =
    let rest : Text × Text = span test s in if test c then (c ∷ rest.0, rest.1) else ([], c ∷ s)

-- `\}\}`
abbrev pub closed : Text → Text → Option (Text × Text)
closed token (c ∷ (d ∷ s)) = if c == 125 && d == 125 then some (token, s) else none
closed token _ = none

abbrev pub named : Text → Text → Option (Text × Text)
named [] s = none
named (c ∷ cs) s = closed (c ∷ cs) s

abbrev pub or_match : Option Text → Text → Text
or_match none whole = whole
or_match (some value) whole = value

-- `\s` is a parameter.
module _ (is_space : ℕ → Bool) where
  abbrev pub inside : Text → Option (Text × Text)
  inside s =
      let found : Text × Text = span is_word (span is_space s).1 in
      named found.0 (span is_space found.1).1

  -- The regular expression at the start of a text: the token, and what comes after the match. The
  -- classes of units are disjoint, so that each repetition takes all it can.
  unfoldable pub match_token : Text → Option (Text × Text)
  match_token (c ∷ (d ∷ s)) = let r = inside s in if c == 123 && d == 123 then r else none
  match_token _ = none

  -- `template.replace(…)`. The fuel is the length of the template, of which a match takes some.
  unfoldable pub replace : (values : Text → Option Text) → (fuel : ℕ) → Text → Text
  unfolding match_token
  replace values zero s = []
  replace values (suc n) [] = []
  replace values (suc n) (c ∷ s) = elim (match_token (c ∷ s)) [
    | none ↦ c ∷ replace values n s
    | some (token, rest) ↦
        or_match (values token) (take (length (c ∷ s) - length rest) (c ∷ s))
        ++ replace values n rest
  ]

  unfoldable pub render_startup : (values : Text → Option Text) → Text → Text
  unfolding replace
  render_startup values s = replace values (length s) s

abbrev same : Text → Text → Bool
same [] [] = true
same (c ∷ s) (d ∷ t) = c == d && same s t
same _ _ = false

-- The own properties of `values`; `units` is the text of a string.
unfoldable pub value_of : (units : String → Text) → Dict String → Text → Option Text
value_of units [] token = none
value_of units ((name, value) ∷ d) token =
    let rest = value_of units d token in
    if same (units name) token then some (units value) else rest

abbrev only_blank : ℕ → Bool
only_blank c = c == 32

render_startup_test :
    render_startup only_blank
      (λ token. if same token (65 ∷ []) then some (49 ∷ []) else none)
      (120 ∷ 123 ∷ 123 ∷ 32 ∷ 65 ∷ 125 ∷ 125 ∷ 123 ∷ 123 ∷ 66 ∷ 125 ∷ 125 ∷ [])
    ≡ 120 ∷ 49 ∷ 123 ∷ 123 ∷ 66 ∷ 125 ∷ 125 ∷ []
unfolding render_startup
render_startup_test = refl
