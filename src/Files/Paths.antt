-- ===== src/Files/Paths.antt =====
-- Paths below a server's directory (`joinPath` and the breadcrumbs of
-- web/src/components/server/FilesTab.tsx); "" is the server's own directory.
use Prim.Native.String
use Prim.Native.Char.{char}
use text.Mathlib.TextLemmas.{nil-append, cons-append, cons≢nil}
use text.Mathlib.TextEquality.{Char-path}
use sky_panel.Base.{
  ℕ, suc, ◌-◌, Char, code, String, Bool, true, false, List, [], ◌∷◌, ◌++◌, take, length, nonempty,
  nonempty_of_ne-empty, ◌==◌, if◌then◌else◌, ◌≡◌, refl, sym, ap, ◌∙◌, arith, Bool-cases, inl, inr,
}

abbrev pub slash : String → String
slash s = String.◌++◌ "/" s

unfoldable pub join_path : String → String → String
join_path dir name = if nonempty dir then String.◌++◌ dir (slash name) else name

-- `parts.join(separator)`
unfoldable pub join : String → List String → String
join separator [] = ""
join separator (x ∷ []) = x
join separator (x ∷ (y ∷ xs)) = String.◌++◌ x (String.◌++◌ separator (join separator (y ∷ xs)))

abbrev onto_first : Char → List String → List String
onto_first c [] = String.◌∷◌ c "" ∷ []
onto_first c (x ∷ xs) = String.◌∷◌ c x ∷ xs

-- `path.split("/")`
unfoldable pub split : String → List String
split String.[] = "" ∷ []
split (String.◌∷◌ c s) =
    let rest = split s in if code c == b'/' then "" ∷ rest else onto_first c rest

-- `path ? path.split("/") : []`
unfoldable pub crumbs : String → List String
unfolding split
crumbs path = if nonempty path then split path else []

-- The path that a breadcrumb opens: `crumbs.slice(0, i + 1).join("/")`
unfoldable pub crumb_path : List String → ℕ → String
unfolding join
crumb_path cs i = join "/" (take (suc i) cs)

abbrev pub has_slash : String → Bool
has_slash String.[] = false
has_slash (String.◌∷◌ c s) = let rest = has_slash s in if code c == b'/' then true else rest

slash_char : Char
slash_char = char 47 tt

slash_cons : (c : Char) (s : String) → code c ≡ b'/' → slash s ≡ String.◌∷◌ c s
unfolding slash_char
slash_cons c s h =
    cons-append slash_char "" s
    ∙ ap (λ r. String.◌∷◌ slash_char r) (nil-append s)
    ∙ ap (λ d. String.◌∷◌ d s) (Char-path slash_char c (sym h))

join_first : (c : Char) (xs : List String) → join "/" (onto_first c xs) ≡ String.◌∷◌ c (join "/" xs)
unfolding join
join_first c [] = refl
join_first c (x ∷ []) = refl
join_first c (x ∷ (y ∷ xs)) = cons-append c x (slash (join "/" (y ∷ xs)))

-- A list of at least one piece.
abbrev IsFilled : List String → Type 0
IsFilled [] = ⊥
IsFilled (x ∷ xs) = Unit

onto_first-IsFilled : (c : Char) (xs : List String) → IsFilled (onto_first c xs)
onto_first-IsFilled c [] = tt
onto_first-IsFilled c (x ∷ xs) = tt

split-IsFilled : (s : String) → IsFilled (split s)
unfolding split
split-IsFilled String.[] = tt
split-IsFilled (String.◌∷◌ c s) = elim (Bool-cases (code c == b'/')) [
  | inl e ↦ rw e tt
  | inr e ↦ rw e (onto_first-IsFilled c (split s))
]

onto_first-append :
    (c : Char) (xs ys : List String) → IsFilled xs → onto_first c (xs ++ ys) ≡ onto_first c xs ++ ys
onto_first-append c [] ys h = absurd h
onto_first-append c (x ∷ xs) ys h = refl

join-empty_first : (xs : List String) → IsFilled xs → join "/" ("" ∷ xs) ≡ slash (join "/" xs)
unfolding join
join-empty_first [] h = absurd h
join-empty_first (x ∷ xs) h = nil-append (slash (join "/" (x ∷ xs)))

test_code : (c : Char) → (code c == b'/') ≡ true → code c ≡ b'/'
test_code c h = ground (arith, h)

-- The pieces of a text put together again.
join-split : (s : String) → join "/" (split s) ≡ s
unfolding split
join-split String.[] = unfold join in refl
join-split (String.◌∷◌ c s) = elim (Bool-cases (code c == b'/')) [
  | inl e ↦ rw e (
      join-empty_first (split s) (split-IsFilled s)
      ∙ ap slash (join-split s)
      ∙ slash_cons c s (test_code c e))
  | inr e ↦ rw e (join_first c (split s) ∙ ap (λ r. String.◌∷◌ c r) (join-split s))
]

split-slash_first : (t : String) → split (slash t) ≡ "" ∷ split t
unfolding slash_char split
split-slash_first t = ap split (slash_cons slash_char t refl)

split-slash : (s t : String) → split (String.◌++◌ s (slash t)) ≡ split s ++ split t
unfolding split
split-slash String.[] t = ap split (nil-append (slash t)) ∙ split-slash_first t
split-slash (String.◌∷◌ c s) t =
    ap split (cons-append c s (slash t)) ∙ elim (Bool-cases (code c == b'/')) [
      | inl e ↦ rw e (ap (λ l. "" ∷ l) (split-slash s t))
      | inr e ↦ rw e (
          ap (onto_first c) (split-slash s t)
          ∙ onto_first-append c (split s) (split t) (split-IsFilled s))
    ]

split-name : (name : String) → has_slash name ≡ false → split name ≡ name ∷ []
unfolding split
split-name String.[] h = refl
split-name (String.◌∷◌ c s) h = ground (arith, split-name s)

take-length {ℓ} : {A : Type ℓ} (xs ys : List A) → take (length xs) (xs ++ ys) ≡ xs
take-length [] ys = refl
take-length (x ∷ xs) ys = ap (λ l. x ∷ l) (take-length xs ys)

enter_crumbs :
    (c : Char) (s name : String)
    → has_slash name ≡ false
    → crumbs (join_path (String.◌∷◌ c s) name) ≡ split (String.◌∷◌ c s) ++ name ∷ []
unfolding crumbs join_path
enter_crumbs c s name h =
    let dir = String.◌∷◌ c s in
    rw (nonempty_of_ne-empty dir cons≢nil) (
      ap (λ p. if nonempty p then split p else []) (cons-append c s (slash name))
      ∙ rw (nonempty_of_ne-empty (String.◌∷◌ c (String.◌++◌ s (slash name))) cons≢nil) (
          ap split (sym (cons-append c s (slash name)))
          ∙ split-slash dir name
          ∙ ap (λ l. split dir ++ l) (split-name name h)))

length-IsFilled : (xs : List String) → IsFilled xs → suc (length xs - 1) ≡ length xs
length-IsFilled [] h = absurd h
length-IsFilled (x ∷ xs) h = omega arith

-- When a directory whose name has no slash is entered from a directory that is not the server's own,
-- the path has the breadcrumbs of before and that name behind them, and the breadcrumb before the
-- last opens the directory of before again.
pub crumbs-join_path :
    (dir name : String)
    → nonempty dir ≡ true
    → has_slash name ≡ false
    → let cs = crumbs (join_path dir name) in
      (cs ≡ crumbs dir ++ name ∷ []) × (crumb_path cs (length (crumbs dir) - 1) ≡ dir)
unfolding crumb_path
crumbs-join_path String.[] name d h = absurd (ground (arith, d))
crumbs-join_path (String.◌∷◌ c s) name d h =
    let dir = String.◌∷◌ c s in
    let same : crumbs dir ≡ split dir = unfold crumbs in rw d refl in
    let entered = enter_crumbs c s name h ∙ ap (λ l. l ++ name ∷ []) (sym same) in
    (
      entered,
      ap (λ cs. crumb_path cs (length (crumbs dir) - 1)) entered
          ∙ ap (λ cs. join "/" (take (suc (length cs - 1)) (cs ++ name ∷ []))) same
          ∙ ap (λ n. join "/" (take n (split dir ++ name ∷ [])))
              (length-IsFilled (split dir) (split-IsFilled dir))
          ∙ ap (join "/") (take-length (split dir) (name ∷ []))
          ∙ join-split dir,
    )
