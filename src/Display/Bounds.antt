-- ===== src/Display/Bounds.antt =====
-- Rounding, and the bars of web/src/components/QuotaMeters.tsx.
use native.Mathlib.Nat.{add-mul-div_left}
use sky_panel.Base.{
  ℕ, ◌+◌, ◌-◌, ◌*◌, ◌/◌, ◌≤◌, ◌<◌, min, true, ◌≡◌, refl, arith, lt→ltb, ap, subst, ◌∙◌,
}
use sky_panel.Display.{mb, rounded, meter}

-- Whole megabytes are at most half a megabyte away.
pub rounded-near :
    (n : ℕ) → (2 * (rounded n mb * mb) ≤ 2 * n + mb) × (2 * n ≤ 2 * (rounded n mb * mb) + mb)
rounded-near n = (omega arith, omega arith)

pub rounded_whole : (k : ℕ) → rounded (k * mb) mb ≡ k
rounded_whole k = omega arith

rounded_over : (d total : ℕ) → 0 < total → 100 ≤ rounded ((total + d) * 100) total
rounded_over d total h =
    let split : 2 * ((total + d) * 100) + total ≡ (200 * d + total) + (2 * total) * 100 =
      omega arith in
    let whole = add-mul-div_left (200 * d + total) 100 {y = 2 * total} (omega arith) in
    omega (arith, ap (λ (n : ℕ). n / (2 * total)) split ∙ whole)

-- Where more is used than there is, and there is something to use, the bar is full and marked as
-- exceeded.
pub meter_full : (used total : ℕ) → 0 < total → total < used → meter used total ≡ (100, true)
unfolding meter
meter_full used total h more =
    let same : total + (used - total) ≡ used = omega arith in
    let over : 100 ≤ rounded (used * 100) total =
      subst (λ (n : ℕ). 100 ≤ rounded (n * 100) total) same (rounded_over (used - total) total h) in
    let full : min 100 (rounded (used * 100) total) ≡ 100 = omega (arith, over) in
    rw (lt→ltb 0 total h, lt→ltb total used more, full) refl
