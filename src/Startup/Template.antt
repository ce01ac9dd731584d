-- ===== src/Startup/Template.antt =====
-- What the preview of web/src/components/server/StartupTab.tsx makes of a template.
use sky_panel.Base.{
  ℕ, zero, suc, ◌-◌, ◌≤◌, ◌==◌, Option, none, some, Bool, true, false, List, [], ◌∷◌, ◌++◌, length,
  length-append, take, All, ◌≡◌, refl, ap, ◌∙◌, arith,
}
use sky_panel.Startup.Render.{
  Text, is_word, span, inside, match_token, or_match, replace, render_startup,
}

-- A template in pieces: a unit, or a token with the space around its name.
pub data Piece : Type 0 where
  unit : ℕ → Piece
  token : (before name after : Text) → Piece

unfoldable pub print_piece : Piece → Text
print_piece (unit c) = c ∷ []
print_piece (token before name after) =
    123 ∷ 123 ∷ (before ++ (name ++ (after ++ (125 ∷ 125 ∷ []))))

unfoldable pub print : List Piece → Text
unfolding print_piece
print [] = []
print (q ∷ qs) = print_piece q ++ print qs

-- The pieces with their values; a token without a value stays.
unfoldable pub filled : (Text → Option Text) → List Piece → Text
unfolding print_piece
filled values [] = []
filled values (unit c ∷ qs) = c ∷ filled values qs
filled values (token before name after ∷ qs) =
    or_match (values name) (print_piece (token before name after)) ++ filled values qs

abbrev starts : (ℕ → Bool) → Text → Bool
starts test [] = false
starts test (c ∷ s) = test c

abbrev Passes : (ℕ → Bool) → Text → Type 0
Passes test = All (λ c. test c ≡ true)

span-append :
    (test : ℕ → Bool) (s t : Text)
    → Passes test s
    → starts test t ≡ false
    → span test (s ++ t) ≡ (s, t)
span-append test [] [] h n = refl
span-append test [] (c ∷ t) h n = rw n refl
span-append test (c ∷ s) t h n = rw (h.0, span-append test s t h.1 n) refl

take-append : (s t : Text) → take (length s) (s ++ t) ≡ s
take-append [] t = refl
take-append (c ∷ s) t = ap (◌∷◌ c) (take-append s t)

take-length : (s t : Text) → take (length (s ++ t) - length t) (s ++ t) ≡ s
take-length s t =
    let n : length (s ++ t) - length t ≡ length s = omega (arith, length-append s t) in
    ap (λ (k : ℕ). take k (s ++ t)) n ∙ take-append s t

append_assoc : (r s t : Text) → (r ++ s) ++ t ≡ r ++ (s ++ t)
append_assoc [] s t = refl
append_assoc (c ∷ r) s t = ap (◌∷◌ c) (append_assoc r s t)

starts-append :
    (test : ℕ → Bool) (s t : Text)
    → All (λ c. test c ≡ false) s
    → starts test t ≡ false
    → starts test (s ++ t) ≡ false
starts-append test [] t h n = n
starts-append test (c ∷ s) t h n = h.0

-- The documented classes: a space is neither a word character nor a brace.
pub record IsSpaces (is_space : ℕ → Bool) : Type 0 where
  pub no_word : (c : ℕ) → is_space c ≡ true → is_word c ≡ false
  pub no_brace : is_space 125 ≡ false

module _ (is_space : ℕ → Bool) where
  -- A unit that opens nothing, and a token whose name is not empty.
  abbrev pub IsPlain : Piece → Type 0
  IsPlain (unit c) = (c == 123) ≡ false
  IsPlain (token before [] after) = ⊥
  IsPlain (token before (c ∷ cs) after) =
      Passes is_space before × (Passes is_word (c ∷ cs) × Passes is_space after)

  no_spaces : IsSpaces is_space → (s : Text) → Passes is_space s → All (λ c. is_word c ≡ false) s
  no_spaces ok [] h = tt
  no_spaces ok (c ∷ s) h = (ok.no_word c h.0, no_spaces ok s h.1)

  word_space : IsSpaces is_space → (c : ℕ) → is_word c ≡ true → is_space c ≡ false
  word_space ok c h = ground (arith, ok.no_word c, h)

  inside_token :
      IsSpaces is_space
      → (before : Text) (c : ℕ) (cs after t : Text) → IsPlain (token before (c ∷ cs) after)
      → inside is_space (before ++ ((c ∷ cs) ++ (after ++ (125 ∷ 125 ∷ t)))) ≡ some (c ∷ cs, t)
  inside_token ok before c cs after t h =
      let tail : Text = after ++ (125 ∷ 125 ∷ t) in
      let one = span-append is_space before ((c ∷ cs) ++ tail) h.0 (word_space ok c h.1.0.0) in
      let two =
        span-append is_word (c ∷ cs) tail h.1.0
          (starts-append is_word after _ (no_spaces ok after h.1.1) refl) in
      let three = span-append is_space after (125 ∷ 125 ∷ t) h.1.1 ok.no_brace in
      simp (one, two, three) refl

  match_unit : (c : ℕ) (s : Text) → (c == 123) ≡ false → match_token is_space (c ∷ s) ≡ none
  unfolding match_token
  match_unit c [] h = refl
  match_unit c (d ∷ s) h = rw h refl

  print_token :
      (before name after t : Text)
      → (before ++ (name ++ (after ++ (125 ∷ 125 ∷ [])))) ++ t
        ≡ before ++ (name ++ (after ++ (125 ∷ 125 ∷ t)))
  print_token before name after t =
      append_assoc before _ t
      ∙ ap (λ (r : Text). before ++ r)
          (append_assoc name _ t ∙ ap (λ (r : Text). name ++ r) (append_assoc after _ t))

  match_piece :
      IsSpaces is_space
      → (before : Text) (c : ℕ) (cs after t : Text) → IsPlain (token before (c ∷ cs) after)
      → match_token is_space (print_piece (token before (c ∷ cs) after) ++ t) ≡ some (c ∷ cs, t)
  unfolding match_token print_piece
  match_piece ok before c cs after t h =
      ap (inside is_space) (print_token before (c ∷ cs) after t)
      ∙ inside_token ok before c cs after t h

  replace-none :
      (values : Text → Option Text) (n c : ℕ) (s : Text)
      → match_token is_space (c ∷ s) ≡ none
      → replace is_space values (suc n) (c ∷ s) ≡ c ∷ replace is_space values n s
  unfolding replace
  replace-none values n c s e = rw (replace, e) refl

  replace-some :
      (values : Text → Option Text) (n c : ℕ) (s name rest : Text)
      → match_token is_space (c ∷ s) ≡ some (name, rest)
      → replace is_space values (suc n) (c ∷ s)
        ≡ or_match (values name) (take (length (c ∷ s) - length rest) (c ∷ s))
          ++ replace is_space values n rest
  unfolding replace
  replace-some values n c s name rest e = rw (replace, e) refl

  replace_token :
      IsSpaces is_space
      → (values : Text → Option Text) (n : ℕ) (before : Text) (c : ℕ) (cs after t : Text)
      → IsPlain (token before (c ∷ cs) after)
      → replace is_space values (suc n) (print_piece (token before (c ∷ cs) after) ++ t)
        ≡ or_match (values (c ∷ cs)) (print_piece (token before (c ∷ cs) after))
          ++ replace is_space values n t
  unfolding print_piece
  replace_token ok values n before c cs after t h =
      let piece = print_piece (token before (c ∷ cs) after) in
      replace-some values n _ _ (c ∷ cs) t (match_piece ok before c cs after t h)
      ∙ ap (λ (r : Text). or_match (values (c ∷ cs)) r ++ replace is_space values n t)
          (take-length piece t)

  token_long : (before name after : Text) → 1 ≤ length (print_piece (token before name after))
  unfolding print_piece
  token_long before name after = omega arith

  replace-print :
      IsSpaces is_space
      → (values : Text → Option Text) (n : ℕ) (qs : List Piece) → All IsPlain qs
      → length (print qs) ≤ n
      → replace is_space values n (print qs) ≡ filled values qs
  unfolding print filled
  replace-print ok values zero [] h le = unfold replace in refl
  replace-print ok values (suc n) [] h le = unfold replace in refl
  replace-print ok values zero (unit c ∷ qs) h le = ground (arith, le)
  replace-print ok values (suc n) (unit c ∷ qs) h le =
      replace-none values n c (print qs) (match_unit c (print qs) h.0)
      ∙ ap (◌∷◌ c) (replace-print ok values n qs h.1 (omega (arith, le)))
  replace-print ok values zero (token before [] after ∷ qs) h le = absurd h.0
  replace-print ok values (suc n) (token before [] after ∷ qs) h le = absurd h.0
  replace-print ok values zero (token before (c ∷ cs) after ∷ qs) h le = ground (arith, le)
  replace-print ok values (suc n) (token before (c ∷ cs) after ∷ qs) h le =
      let piece = print_piece (token before (c ∷ cs) after) in
      let shorter : length (print qs) ≤ n =
        omega (arith, le, length-append piece (print qs), token_long before (c ∷ cs) after) in
      replace_token ok values n before c cs after (print qs) h.0
      ∙ ap (λ (r : Text). or_match (values (c ∷ cs)) piece ++ r)
          (replace-print ok values n qs h.1 shorter)

  -- In a template of tokens and of units other than an opening brace, every token that has a value is
  -- replaced by it, whatever space is around its name, and all else stays as it is.
  pub render_startup-print :
      IsSpaces is_space
      → (values : Text → Option Text) (qs : List Piece) → All IsPlain qs
      → render_startup is_space values (print qs) ≡ filled values qs
  unfolding render_startup
  render_startup-print ok values qs h =
      replace-print ok values (length (print qs)) qs h (omega arith)
