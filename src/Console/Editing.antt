-- ===== src/Console/Editing.antt =====
-- The input line of the console (the handler of `term.onData` in web/src/components/Console.tsx).
use mathlib.Core.List.{append_assoc, append-nil}
use sky_panel.Base.{
  ℕ, Bool, true, false, leb, keep, ◌≡◌, ◌≢◌, ◌≤◌, refl, ap, List, [], ◌∷◌, ◌++◌, All, All-append,
  if◌then◌else◌, arith, Bool-cases, inl, inr,
}
use sky_panel.Console.{
  Units, Input, key_enter, key_backspace_code, is_blank, drop_last, enter, backspace, on_data, feed,
}

-- A text that is appended to the line
abbrev pub IsPrintable : Units → Type 0
IsPrintable [] = ⊥
IsPrintable (c ∷ rest) = (32 ≤ c) × (c ≢ key_backspace_code)

-- What a key or a paste delivers that is neither Enter alone nor starts with Backspace
abbrev pub IsText : Units → Type 0
IsText [] = Unit
IsText (c ∷ []) = (c ≢ key_enter) × (c ≢ key_backspace_code)
IsText (c ∷ (d ∷ more)) = c ≢ key_backspace_code

-- Whether a text starts with a unit that is no control character
abbrev pub is_taken : Units → Bool
is_taken [] = false
is_taken (c ∷ rest) = leb 32 c

abbrev pub concat : List Units → Units
concat [] = []
concat (chunk ∷ chunks) = chunk ++ concat chunks

on_data_printable :
    (chunk : Units) (s : Input)
    → IsPrintable chunk
    → on_data chunk s ≡ record s { buffer = s.buffer ++ chunk; echoed = s.echoed ++ chunk ∷ [] }
unfolding on_data
on_data_printable [] s h = absurd h
on_data_printable (c ∷ []) s h = ground arith
on_data_printable (c ∷ (d ∷ more)) s h = ground arith

on_data_dropped :
    (chunk : Units) (s : Input) → IsText chunk → is_taken chunk ≡ false → on_data chunk s ≡ s
unfolding on_data
on_data_dropped [] s h k = refl
on_data_dropped (c ∷ []) s h k = ground (arith, h, k)
on_data_dropped (c ∷ (d ∷ more)) s h k = ground (arith, h, k)

taken-IsPrintable : (chunk : Units) → IsText chunk → is_taken chunk ≡ true → IsPrintable chunk
taken-IsPrintable [] h k = absurd (ground (arith, k))
taken-IsPrintable (c ∷ []) h k = (ground (arith, k), h.1)
taken-IsPrintable (c ∷ (d ∷ more)) h k = (ground (arith, k), h)

-- The texts that are taken, put together
abbrev pub taken : List Units → Units
taken chunks = concat (keep is_taken chunks)

-- Texts that are typed or pasted, none of which is Enter alone or starts with Backspace, and then
-- Enter: the line handed to the server is what was in the buffer followed by the texts that start
-- with no control character, in order and whole (a text that starts with one, such as a paste that
-- begins with a line break, is dropped whole), unless that line is blank, in which case nothing is
-- handed over; the buffer is empty again.
pub feed_line :
    (chunks : List Units) (s : Input)
    → All IsText chunks
    → let line = s.buffer ++ taken chunks in
      let s' = feed (chunks ++ (key_enter ∷ []) ∷ []) s in
      (s'.buffer ≡ [])
      × (s'.submitted ≡ (if is_blank line then s.submitted else s.submitted ++ line ∷ []))
unfolding feed
feed_line [] s h = rw append-nil (refl, refl)
feed_line (chunk ∷ chunks) s h = elim (Bool-cases (is_taken chunk)) [
  | inl e ↦
      rw (e, on_data_printable chunk s (taken-IsPrintable chunk h.0 e), feed)
        (simp append_assoc at (
          feed_line chunks
            (record s { buffer = s.buffer ++ chunk; echoed = s.echoed ++ chunk ∷ [] }) h.1))
  | inr e ↦ rw (e, on_data_dropped chunk s h.0 e, feed) (feed_line chunks s h.1)
]

drop_last-append : (s : Units) (c : ℕ) → drop_last (s ++ c ∷ []) ≡ s
unfolding drop_last
drop_last-append [] c = refl
drop_last-append (d ∷ []) c = refl
drop_last-append (d ∷ (e ∷ s)) c = ap (λ t. d ∷ t) (drop_last-append (e ∷ s) c)

backspace_append :
    (s : Units) (c : ℕ) (e : List Units) (l : List Units)
    → (backspace (record { buffer = s ++ c ∷ []; echoed = e; submitted = l })).buffer ≡ s
backspace_append [] c e l = drop_last-append [] c
backspace_append (d ∷ s) c e l = drop_last-append (d ∷ s) c

on_data-backspace : (s : Input) → on_data (key_backspace_code ∷ []) s ≡ backspace s
unfolding on_data
on_data-backspace s = refl

backspace_submitted : (s : Input) → (backspace s).submitted ≡ s.submitted
backspace_submitted s = ground arith

-- Backspace after a key that types one unit gives the input line back as it was before the key.
pub backspace_undoes :
    (c : ℕ) (s : Input)
    → 32 ≤ c
    → c ≢ key_backspace_code
    → let s' = on_data (key_backspace_code ∷ []) (on_data (c ∷ []) s) in
      (s'.buffer ≡ s.buffer) × (s'.submitted ≡ s.submitted)
backspace_undoes c s h ne = rw (on_data_printable (c ∷ []) s (h, ne)) (
    rw
      (on_data-backspace
        (record s { buffer = s.buffer ++ c ∷ []; echoed = s.echoed ++ (c ∷ []) ∷ [] }))
      (backspace_append s.buffer c _ _, backspace_submitted _))

abbrev pub IsSent : List Units → Type 0
IsSent = All (λ l. is_blank l ≡ false)

enter-IsSent : (s : Input) → IsSent s.submitted → IsSent (enter s).submitted
enter-IsSent s h = elim (Bool-cases (is_blank s.buffer)) [
  | inl e ↦ rw e h
  | inr e ↦ rw e (All-append _ s.submitted _ h (e, tt))
]

on_data-IsSent :
    (chunk : Units) (s : Input) → IsSent s.submitted → IsSent (on_data chunk s).submitted
unfolding on_data
on_data-IsSent [] s h = h
on_data-IsSent (c ∷ []) s h = ground (arith, enter-IsSent s h, backspace_submitted s)
on_data-IsSent (c ∷ (d ∷ more)) s h = ground (arith, backspace_submitted s)

-- Whatever is typed or pasted, no line of white space only is ever handed to the server.
pub feed-IsSent :
    (chunks : List Units) (s : Input) → IsSent s.submitted → IsSent (feed chunks s).submitted
unfolding feed
feed-IsSent [] s h = h
feed-IsSent (chunk ∷ chunks) s h = feed-IsSent chunks (on_data chunk s) (on_data-IsSent chunk s h)
