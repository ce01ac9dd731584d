-- ===== src/Display.antt =====
-- How values are shown: web/src/lib/format.ts, web/src/components/StatusBadge.tsx, the bars of
-- web/src/components/QuotaMeters.tsx, and the policy of web/src/App.tsx for failed queries.
pub mod Bounds
use Prim.Native.String
use sky_panel.Base.{
  ℕ, ◌+◌, ◌*◌, ◌/◌, ◌%◌, min, ltb, leb, ◌==◌, String, Bool, true, false, ◌&&◌, if◌then◌else◌, ◌≡◌,
  refl,
}
use sky_panel.Base.Decimal.{show}
use sky_panel.Wire.Servers.{ServerStatus}
use sky_panel.Api.{ApiError}

abbrev pub mb : ℕ
mb = 1024 * 1024

abbrev pub gb : ℕ
gb = 1024 * mb

-- `Math.round(a / b)` of natural numbers
abbrev pub rounded : ℕ → ℕ → ℕ
rounded a b = (2 * a + b) / (2 * b)

abbrev followed : String → String → String
followed a b = String.◌++◌ a b

-- `to_fixed a b digits` is `(a / b).toFixed(digits)`.
module _ (to_fixed : ℕ → ℕ → ℕ → String) where
  unfoldable pub format_bytes : ℕ → String
  unfolding show
  format_bytes bytes =
      if leb gb bytes
      then followed (to_fixed bytes gb (if bytes % gb == 0 then 0 else 1)) " GB"
      else if leb mb bytes
      then followed (show (rounded bytes mb)) " MB"
      else if leb 1024 bytes
      then followed (to_fixed bytes 1024 1) " KB"
      else followed (show bytes) " B"

  unfoldable pub format_cpu : ℕ → String
  format_cpu percent =
      if percent == 0
      then "unlimited"
      else followed (to_fixed percent 100 (if percent % 100 == 0 then 0 else 1))
          (followed " core" (if percent == 100 then "" else "s"))

-- `VARIANT`
unfoldable pub variant : ServerStatus → String
variant ServerStatus.running = "sp-badge--running"
variant ServerStatus.installing = ""
variant ServerStatus.offline = "sp-badge--offline"
variant ServerStatus.stopping = "sp-badge--offline"
variant ServerStatus.errored = "sp-badge--errored"

-- The width of a bar in percent, and whether it is drawn as exceeded.
unfoldable pub meter : (used total : ℕ) → ℕ × Bool
meter used total = (if ltb 0 total then min 100 (rounded (used * 100) total) else 0, ltb total used)

-- An error of a query: an ApiError, another `Error` with its message, or any other value.
pub data QueryError : Type 0 where
  api : ApiError → QueryError
  other : String → QueryError
  unknown : QueryError

-- `retry`
unfoldable pub retry : (failure_count : ℕ) → QueryError → Bool
retry n (api e) = if leb 400 e.status && ltb e.status 500 then false else ltb n 2
retry n _ = ltb n 2

display_tests :
    (format_bytes (λ a b d. show (a / b)) 2097152 ≡ "2 MB")
    × ((meter 150 100 ≡ (100, true)) × (retry 0 (other "offline") ≡ true))
unfolding format_bytes meter retry
display_tests = (refl, (refl, refl))
