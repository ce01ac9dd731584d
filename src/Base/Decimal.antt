-- ===== src/Base/Decimal.antt =====
-- Decimal notation of a natural number, as `String(n)` and template literals print it.
use Prim.Native.String
use sky_panel.Base.Tests.{ltb, if◌then◌else◌}
use Prim.Native.Nat.{ℕ, zero, suc, ◌/◌, ◌%◌}
use Prim.Native.String.{String}
use mathlib.Core.Path.{◌≡◌, refl}

-- The digit of a number below ten.
abbrev digit : ℕ → String
digit zero = "0"
digit (suc zero) = "1"
digit (suc (suc zero)) = "2"
digit (suc (suc (suc zero))) = "3"
digit (suc (suc (suc (suc zero)))) = "4"
digit (suc (suc (suc (suc (suc zero))))) = "5"
digit (suc (suc (suc (suc (suc (suc zero)))))) = "6"
digit (suc (suc (suc (suc (suc (suc (suc zero))))))) = "7"
digit (suc (suc (suc (suc (suc (suc (suc (suc zero)))))))) = "8"
digit _ = "9"

-- A number below 10 ^ fuel takes at most `fuel` digits.
digits : ℕ → ℕ → String → String
digits zero n out = out
digits (suc fuel) n out =
    let more = digits fuel (n / 10) (String.◌++◌ (digit (n % 10)) out) in
    if ltb n 10 then String.◌++◌ (digit n) out else more

-- The fuel `n + 1` exceeds the number of digits of `n`.
unfoldable pub show : ℕ → String
unfolding digits
show n = digits (suc n) n ""

show_test : show 25565 ≡ "25565"
unfolding show
show_test = refl
