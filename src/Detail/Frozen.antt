-- ===== src/Detail/Frozen.antt =====
-- What the terminal shows of the console lines of web/src/pages/ServerDetailPage.tsx: the effect
-- of web/src/components/Console.tsx counts the lines that it has written, while the page drops
-- lines from the front once there are a thousand.
use mathlib.Core.List.{append-nil, append_assoc}
use sky_panel.Base.{
  ℕ, String, ◌≡◌, ◌≤◌, ◌+◌, ◌-◌, refl, sym, ap, ◌∙◌, List, [], ◌∷◌, ◌++◌, length, length-append,
  length-drop, drop, ltb, arith, Bool-cases, inl, inr, ltb→lt, not_ltb, min,
}
use sky_panel.Detail.{
  max_console_lines, trim_to, push_capped, append_lines, Scrollback, deliver, deliver_all,
  clear_lines, come_back,
}
use sky_panel.Detail.Window.{drop-length, drop-nil, last_of, append_lines-last_of}

length-push_capped {ℓ} :
    {A : Type ℓ} (cap : ℕ) (xs : List A) (x : A)
    → length xs ≤ cap
    → length (push_capped cap xs x) ≡ min cap (length xs + 1)
unfolding push_capped
length-push_capped cap xs x h = elim (Bool-cases (ltb cap (length (xs ++ x ∷ [])))) [
  | inl e ↦ rw e (
      omega (
        arith,
        length-append xs (x ∷ []),
        length-drop (length (xs ++ x ∷ []) - cap) (xs ++ x ∷ []),
        ltb→lt cap (length (xs ++ x ∷ [])) e,
      ))
  | inr e ↦ rw e (omega (arith, length-append xs (x ∷ []), not_ltb cap (length (xs ++ x ∷ [])) e))
]

length-append_lines :
    (lines ms : List String)
    → length lines ≡ max_console_lines
    → length (append_lines lines ms) ≡ max_console_lines
unfolding append_lines
length-append_lines lines [] h = h
length-append_lines lines (m ∷ ms) h =
    length-append_lines (push_capped max_console_lines lines m) ms
      (omega (arith, length-push_capped max_console_lines lines m (omega arith)))

-- A thousand lines are held, and the terminal has written a thousand.
pub record IsFull (s : Scrollback) : Type 0 where
  pub held : length s.lines ≡ max_console_lines
  pub counted : s.screen.written ≡ max_console_lines

deliver-IsFull :
    (ms : List String) (s : Scrollback)
    → IsFull s
    → IsFull (deliver ms s) × ((deliver ms s).screen.shown ≡ s.screen.shown)
unfolding deliver
deliver-IsFull ms s h =
    let e = length-append_lines s.lines ms h.held in
    let lines = append_lines s.lines ms in
    (
      record { held = e; counted = e },
      ap (λ n. s.screen.shown ++ drop n lines) (h.counted ∙ sym e)
          ∙ ap (λ l. s.screen.shown ++ l) (drop-length lines)
          ∙ append-nil s.screen.shown,
    )

-- The messages of all batches, in order.
abbrev pub joined : List (List String) → List String
joined [] = []
joined (ms ∷ batches) = ms ++ joined batches

deliver-lines : (ms : List String) (s : Scrollback) → (deliver ms s).lines ≡ append_lines s.lines ms
unfolding deliver
deliver-lines ms s = refl

stopped :
    (batches : List (List String)) (s : Scrollback)
    → IsFull s
    → (deliver_all batches s).screen.shown ≡ s.screen.shown
unfolding deliver_all
stopped [] s h = refl
stopped (ms ∷ batches) s h =
    let (full, same) = deliver-IsFull ms s h in stopped batches (deliver ms s) full ∙ same

append_lines-append :
    (lines ms ns : List String)
    → append_lines lines (ms ++ ns) ≡ append_lines (append_lines lines ms) ns
unfolding append_lines
append_lines-append lines [] ns = refl
append_lines-append lines (m ∷ ms) ns =
    append_lines-append (push_capped max_console_lines lines m) ms ns

deliver_all-lines :
    (batches : List (List String)) (s : Scrollback)
    → (deliver_all batches s).lines ≡ append_lines s.lines (joined batches)
unfolding deliver_all
deliver_all-lines [] s = unfold append_lines in refl
deliver_all-lines (ms ∷ batches) s =
    deliver_all-lines batches (deliver ms s)
    ∙ ap (λ l. append_lines l (joined batches)) (deliver-lines ms s)
    ∙ sym (append_lines-append s.lines ms (joined batches))

-- A page with a thousand lines drops as many as it takes.
append_lines_full :
    (lines ms : List String)
    → length lines ≡ max_console_lines
    → append_lines lines ms ≡ last_of max_console_lines (lines ++ ms)
append_lines_full lines ms h =
    let whole : last_of max_console_lines lines ≡ lines =
      ap (λ n. drop n lines) {x = length lines - max_console_lines} {y = 0} (omega (arith, h)) in
    ap (λ l. append_lines l ms) (sym whole) ∙ append_lines-last_of lines ms

-- Once the page holds a thousand lines and the terminal has written a thousand, the terminal shows
-- none of the messages that arrive while it stays mounted and "Clear" is not pressed, however many
-- there are and however they are batched. When the user then leaves the Console tab and comes back,
-- the new terminal shows the last thousand of the lines of before, these messages, and those that
-- the user missed.
pub frozen :
    (batches : List (List String)) (missed : List String) (s : Scrollback)
    → length s.lines ≡ max_console_lines
    → s.screen.written ≡ max_console_lines
    → let s' = deliver_all batches s in
      (s'.screen.shown ≡ s.screen.shown)
      × ((come_back missed s').screen.shown
          ≡ last_of max_console_lines (s.lines ++ (joined batches ++ missed)))
unfolding come_back
frozen batches missed s held counted = (
  stopped batches s (record { held = held; counted = counted }),
  ap (λ l. append_lines l missed) (deliver_all-lines batches s)
      ∙ sym (append_lines-append s.lines (joined batches) missed)
      ∙ append_lines_full s.lines (joined batches ++ missed) held,
)

-- While there is room the page keeps all lines.
append_lines_room :
    (lines ms : List String)
    → length lines + length ms ≤ max_console_lines
    → append_lines lines ms ≡ lines ++ ms
unfolding append_lines push_capped trim_to
append_lines_room lines [] h = sym (append-nil lines)
append_lines_room lines (m ∷ ms) h =
    elim (Bool-cases (ltb max_console_lines (length (lines ++ m ∷ [])))) [
      | inl e ↦ absurd (
          omega (
            arith,
            length-append lines (m ∷ []),
            ltb→lt max_console_lines (length (lines ++ m ∷ [])) e,
          ))
      | inr e ↦
          rw (e, trim_to)
            (append_lines_room (lines ++ m ∷ []) ms (omega (arith, length-append lines (m ∷ [])))
              ∙ append_assoc lines (m ∷ []) ms)
    ]

drop-append_left {ℓ} : {A : Type ℓ} (xs ys : List A) → drop (length xs) (xs ++ ys) ≡ ys
drop-append_left [] ys = refl
drop-append_left (x ∷ xs) ys = drop-append_left xs ys

deliver-shown :
    (ms : List String) (s : Scrollback)
    → s.screen.written ≡ length s.lines
    → append_lines s.lines ms ≡ s.lines ++ ms
    → (deliver ms s).screen.shown ≡ s.screen.shown ++ ms
unfolding deliver
deliver-shown ms s counted e =
    ap (λ l. s.screen.shown ++ l)
      (ap (λ l. drop s.screen.written l) e
        ∙ ap (λ n. drop n (s.lines ++ ms)) counted
        ∙ drop-append_left s.lines ms)

-- Until a thousand lines are held, the terminal shows every message, in order, after what it
-- showed before, and the page holds them all.
pub shown_until_full :
    (batches : List (List String)) (s : Scrollback)
    → s.screen.written ≡ length s.lines
    → length s.lines + length (joined batches) ≤ max_console_lines
    → let s' = deliver_all batches s in
      (s'.screen.shown ≡ s.screen.shown ++ joined batches) × (s'.lines ≡ s.lines ++ joined batches)
unfolding deliver_all
shown_until_full [] s counted room = (sym (append-nil _), sym (append-nil _))
shown_until_full (ms ∷ batches) s counted room =
    let e = append_lines_room s.lines ms (omega (arith, length-append ms (joined batches))) in
    let (shown, lines) = shown_until_full batches (deliver ms s) (unfold deliver in refl) (
      omega (
        arith,
        length-append ms (joined batches),
        length-append s.lines ms,
        ap length (deliver-lines ms s ∙ e),
      )) in
    (
      shown ∙ ap (λ l. l ++ joined batches) (deliver-shown ms s counted e) ∙ append_assoc _ ms _,
      lines ∙ ap (λ l. l ++ joined batches) (deliver-lines ms s ∙ e) ∙ append_assoc _ ms _,
    )

-- "Clear" removes nothing from the terminal, whatever it shows; it only starts a terminal that has
-- stopped again: of what arrives afterwards, up to a thousand messages are shown.
pub clear_lines_keeps :
    (batches : List (List String)) (s : Scrollback)
    → length (joined batches) ≤ max_console_lines
    → ((clear_lines s).screen.shown ≡ s.screen.shown)
      × ((deliver_all batches (clear_lines s)).screen.shown ≡ s.screen.shown ++ joined batches)
unfolding clear_lines
clear_lines_keeps batches s room =
    let same : s.screen.shown ++ drop s.screen.written [] ≡ s.screen.shown =
      ap (λ l. s.screen.shown ++ l) (drop-nil s.screen.written) ∙ append-nil s.screen.shown in
    (
      same,
      (shown_until_full batches (clear_lines s) refl (omega arith)).0
          ∙ ap (λ l. l ++ joined batches) same,
    )
