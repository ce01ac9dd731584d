-- ===== src/Pages/Share.antt =====
-- The shares that the bars of the pages show are percentages.
use native.Mathlib.Nat.{div-lt_iff_lt-mul, div-eq_of_lt-le}
use sky_panel.Base.{◌+◌, ℕ, ◌*◌, ◌≤◌, ◌<◌, ltb, ◌≡◌, arith, Bool-cases, inl, inr, ltb→lt, lt→ltb}
use sky_panel.Display.{rounded}
use sky_panel.Pages.{percent}

rounded-le : (a b : ℕ) → 0 < b → a ≤ b → rounded (a * 100) b ≤ 100
rounded-le a b h k =
    let small : 2 * (a * 100) + b < 101 * (2 * b) = omega arith in
    omega (
      arith,
      (div-lt_iff_lt-mul {k = 2 * b} {x = 2 * (a * 100) + b} {y = 101} (omega arith)).1 small,
    )

pub percent-le : (count total : ℕ) → count ≤ total → percent count total ≤ 100
unfolding percent
percent-le count total k = elim (Bool-cases (ltb 0 total)) [
  | inl e ↦ rw e (rounded-le count total (ltb→lt 0 total e) k)
  | inr e ↦ rw e (omega arith)
]

pub percent_self : (total : ℕ) → 0 < total → percent total total ≡ 100
unfolding percent
percent_self total h =
    rw (lt→ltb 0 total h) (div-eq_of_lt-le (2 * total) (omega arith) (omega arith))
