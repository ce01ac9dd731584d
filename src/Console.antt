-- ===== src/Console.antt =====
-- web/src/components/Console.tsx: the terminal of a server's page. Its input line is edited by the
-- client; its output is the part of `lines` that it has not written yet. A text that xterm.js
-- delivers or is given is a list of UTF-16 code units.
pub mod Editing
use sky_panel.Base.{
  ℕ, zero, suc, Bool, true, false, not, ◌&&◌, ◌||◌, ◌≡◌, refl, String, List, [], ◌∷◌, ◌++◌, drop,
  length, any, leb, ◌==◌, if◌then◌else◌, arith,
}

abbrev pub Units : Type 0
Units = List ℕ

-- `KEY_ENTER`, and the code of the Backspace key
abbrev pub key_enter : ℕ
key_enter = 13

abbrev pub key_backspace_code : ℕ
key_backspace_code = 127

-- The white space that `trim` removes.
unfoldable pub is_space : ℕ → Bool
is_space c =
    (leb 9 c && leb c 13)
    || c == 32
    || c == 160
    || c == 0x1680
    || (leb 0x2000 c && leb c 0x200a)
    || c == 0x2028
    || c == 0x2029
    || c == 0x202f
    || c == 0x205f
    || c == 0x3000
    || c == 0xfeff

-- `line.trim()` is truthy
unfoldable pub is_blank : Units → Bool
unfolding is_space
is_blank line = not (any (λ c. not (is_space c)) line)

-- `s.slice(0, -1)`
unfoldable pub drop_last : Units → Units
drop_last [] = []
drop_last (c ∷ []) = []
drop_last (c ∷ (d ∷ s)) = c ∷ drop_last (d ∷ s)

-- The input line, what has been echoed to the terminal, and the lines handed to `onInput`.
pub record Input : Type 0 where
  pub buffer : Units
  pub echoed : List Units
  pub submitted : List Units

abbrev pub new_line : Units
new_line = 13 ∷ 10 ∷ []

abbrev pub rub_out : Units
rub_out = 8 ∷ 32 ∷ 8 ∷ []

abbrev enter : Input → Input
enter s = record {
  buffer = [];
  echoed = s.echoed ++ new_line ∷ [];
  submitted = if is_blank s.buffer then s.submitted else s.submitted ++ s.buffer ∷ [];
}

abbrev backspace : Input → Input
backspace s = elim s.buffer [
  | [] ↦ s
  | c ∷ rest ↦ record s { buffer = drop_last (c ∷ rest); echoed = s.echoed ++ rub_out ∷ [] }
]

-- The handler of `term.onData`. A text is at least " " in JavaScript's order when its first unit is.
unfoldable pub on_data : Units → Input → Input
unfolding is_blank drop_last
on_data [] s = s
on_data (c ∷ rest) s = elim rest [
  | [] ↦
      if c == key_enter
      then enter s
      else if c == key_backspace_code
      then backspace s
      else if leb 32 c
      then record s { buffer = s.buffer ++ (c ∷ []); echoed = s.echoed ++ (c ∷ []) ∷ [] }
      else s
  | d ∷ more ↦
      if c == key_backspace_code
      then backspace s
      else if leb 32 c
      then record s {
        buffer = s.buffer ++ (c ∷ (d ∷ more));
        echoed = s.echoed ++ (c ∷ (d ∷ more)) ∷ [];
      }
      else s
]

unfoldable pub feed : List Units → Input → Input
unfolding on_data
feed [] s = s
feed (chunk ∷ chunks) s = feed chunks (on_data chunk s)

-- The terminal's output: how many of `lines` it has written, and what it shows.
pub record Screen : Type 0 where
  pub written : ℕ
  pub shown : List String

-- The effect on `[lines]`: write what lies beyond the count, and set the count to the length.
unfoldable pub flush : List String → Screen → Screen
flush lines s = record { written = length lines; shown = s.shown ++ drop s.written lines }

editing_test :
    feed
      ((b'l' ∷ [])
        ∷ (b'x' ∷ [])
        ∷ (127 ∷ [])
        ∷ (b's' ∷ [])
        ∷ (13 ∷ [])
        ∷ (32 ∷ [])
        ∷ (13 ∷ [])
        ∷ [])
      (record { buffer = []; echoed = []; submitted = [] })
    ≡ record {
      buffer = [];
      echoed =
          (b'l' ∷ []) ∷ (b'x' ∷ []) ∷ rub_out ∷ (b's' ∷ []) ∷ new_line ∷ (32 ∷ []) ∷ new_line ∷ [];
      submitted = (b'l' ∷ b's' ∷ []) ∷ [];
    }
unfolding feed
editing_test = refl
