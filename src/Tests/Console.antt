-- ===== src/Tests/Console.antt =====
-- web/src/components/Console.tsx at concrete keys.
use sky_panel.Base.{◌≡◌, arith, List, [], ◌∷◌, ◌++◌, if◌then◌else◌}
use sky_panel.Console.{Units, Input, key_enter, is_blank, feed}
use sky_panel.Console.Editing.{taken, feed_line}

abbrev empty : Input
empty = record { buffer = []; echoed = []; submitted = [] }

-- "l", a paste that begins with a line break, and "s -a" as a paste
abbrev list_files : List Units
list_files = (b'l' ∷ []) ∷ (10 ∷ b'x' ∷ []) ∷ (b's' ∷ 32 ∷ b'-' ∷ b'a' ∷ []) ∷ []

feed_line_example :
    let line = [] ++ taken list_files in
    let s' = feed (list_files ++ (key_enter ∷ []) ∷ []) empty in
    (s'.buffer ≡ []) × (s'.submitted ≡ (if is_blank line then [] else [] ++ line ∷ []))
feed_line_example = feed_line list_files empty (
  (λ e. omega (arith, e), λ e. omega (arith, e)),
  ((λ e. omega (arith, e)), ((λ e. omega (arith, e)), tt)),
)
