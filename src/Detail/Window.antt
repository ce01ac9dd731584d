-- ===== src/Detail/Window.antt =====
-- The bounded buffers of web/src/pages/ServerDetailPage.tsx hold the last entries.
use mathlib.Core.List.{append-nil, append_assoc}
use sky_panel.Base.{
  ℕ, zero, suc, String, Option, none, some, ◌≡◌, ◌≤◌, ◌+◌, ◌-◌, refl, sym, ap, ◌∙◌, List, [], ◌∷◌,
  ◌++◌, map, length, length-append, drop, ltb, arith, Bool-cases, inl, inr, length-drop, ltb→lt,
  not_ltb,
}
use sky_panel.Wire.Servers.{ContainerHeartbeat}
use sky_panel.Detail.{
  max_console_lines, max_history, trim_to, push_capped, append_lines, Sample, sample_of,
  apply_stats, apply_all,
}

module _ {ℓ} {A : Type ℓ} where
  -- The last `cap` entries of a list.
  abbrev pub last_of : ℕ → List A → List A
  last_of cap xs = drop (length xs - cap) xs

  pub drop-length : (xs : List A) → drop (length xs) xs ≡ []
  drop-length [] = refl
  drop-length (x ∷ xs) = drop-length xs

  pub drop_past : (n : ℕ) (xs : List A) → length xs ≤ n → drop n xs ≡ []
  drop_past zero [] h = refl
  drop_past zero (x ∷ xs) h = absurd (omega arith)
  drop_past (suc n) [] h = refl
  drop_past (suc n) (x ∷ xs) h = drop_past n xs (omega arith)

  pub drop-append_within :
      (n : ℕ) (xs ys : List A) → n ≤ length xs → drop n (xs ++ ys) ≡ drop n xs ++ ys
  drop-append_within zero xs ys h = refl
  drop-append_within (suc n) [] ys h = absurd (omega arith)
  drop-append_within (suc n) (x ∷ xs) ys h = drop-append_within n xs ys (omega arith)

  pub drop-nil : (m : ℕ) → drop {A = A} m [] ≡ []
  drop-nil zero = refl
  drop-nil (suc m) = refl

  pub drop-drop : (m n : ℕ) (xs : List A) → drop m (drop n xs) ≡ drop (n + m) xs
  drop-drop m zero xs = ap (λ k. drop k xs) {x = m} {y = 0 + m} (omega arith)
  drop-drop m (suc n) [] = drop-nil m ∙ sym (drop-nil (suc n + m))
  drop-drop m (suc n) (x ∷ xs) =
      drop-drop m n xs ∙ ap (λ k. drop k (x ∷ xs)) {x = suc (n + m)} {y = suc n + m} (omega arith)

  -- Trimming a tail that is long enough gives the last entries of the whole.
  pub trim_to-drop :
      (cap k : ℕ) (ys : List A) → k ≤ length ys - cap → trim_to cap (drop k ys) ≡ last_of cap ys
  unfolding trim_to
  trim_to-drop cap k ys h = elim (Bool-cases (ltb cap (length (drop k ys)))) [
    | inl e ↦ rw e (
        drop-drop (length (drop k ys) - cap) k ys
        ∙ ap (λ n. drop n ys) (omega (arith, length-drop k ys, ltb→lt cap (length (drop k ys)) e)))
    | inr e ↦
        rw e (
          ap (λ n. drop n ys) (omega (arith, length-drop k ys, not_ltb cap (length (drop k ys)) e)))
  ]

  pub push_capped-last_of :
      (cap : ℕ) (xs : List A) (x : A)
      → push_capped cap (last_of cap xs) x ≡ last_of cap (xs ++ x ∷ [])
  unfolding push_capped
  push_capped-last_of cap xs x =
      ap (trim_to cap) (sym (drop-append_within (length xs - cap) xs (x ∷ []) (omega arith)))
      ∙ trim_to-drop cap (length xs - cap) (xs ++ x ∷ []) (omega (arith, length-append xs (x ∷ [])))

pub append_lines-last_of :
    (xs ms : List String)
    → append_lines (last_of max_console_lines xs) ms ≡ last_of max_console_lines (xs ++ ms)
unfolding append_lines
append_lines-last_of xs [] = rw append-nil
append_lines-last_of xs (m ∷ ms) = rw (push_capped-last_of max_console_lines xs m) (
    append_lines-last_of (xs ++ m ∷ []) ms
    ∙ ap (last_of max_console_lines) (append_assoc xs (m ∷ []) ms))

-- The page's console lines are the last thousand of the messages that have arrived, in order.
pub append_lines-eq_last : (ms : List String) → append_lines [] ms ≡ last_of max_console_lines ms
append_lines-eq_last ms = append_lines-last_of [] ms

module _ {F : Type 0} (zero_percent : F) (ratio : ℕ → ℕ → F) where
  apply_all-last_of :
      (xs : List (Sample F)) (msgs : List (ContainerHeartbeat F))
      (seen : Option (ContainerHeartbeat F))
      → (apply_all zero_percent ratio msgs (seen, last_of max_history xs)).1
        ≡ last_of max_history (xs ++ map (sample_of zero_percent ratio) msgs)
  unfolding apply_all
  apply_all-last_of xs [] seen = rw append-nil
  apply_all-last_of xs (msg ∷ msgs) seen =
      let x = sample_of zero_percent ratio msg in
      rw (push_capped-last_of max_history xs x, apply_all, apply_stats)
        (apply_all-last_of (xs ++ x ∷ []) msgs (some msg)
          ∙ ap (last_of max_history)
              (append_assoc xs (x ∷ []) (map (sample_of zero_percent ratio) msgs)))

  -- The sparklines show the samples of the last sixty heartbeats, in order.
  pub history-eq_last :
      (msgs : List (ContainerHeartbeat F))
      → (apply_all zero_percent ratio msgs (none, [])).1
        ≡ last_of max_history (map (sample_of zero_percent ratio) msgs)
  history-eq_last msgs = apply_all-last_of [] msgs none
