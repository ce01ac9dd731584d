-- ===== src/Afk.antt =====
-- web/src/pages/AfkPage.tsx: the heartbeat that earns coins while the page is open. Times are
-- milliseconds of `Date.now()`; `parse_date` is `Date.parse`, `none` where that is NaN. Of the
-- session store only the user is here.
pub mod Earning
use Prim.Native.String
use sky_panel.Base.{
  ℕ, suc, ◌+◌, ◌/◌, ◌%◌, ltb, String, Option, none, some, Bool, true, false, str_eq, if◌then◌else◌,
  ◌≡◌, refl,
}
use sky_panel.Base.Int.{ℤ, pos, negsuc}
use sky_panel.Base.Decimal.{show}
use sky_panel.Base.Json.{Json, str}
use sky_panel.Wire.Account.{User}
use sky_panel.Wire.Economy.{HeartbeatResult, CoinResult}
use sky_panel.Api.{ApiError}

abbrev pub heartbeat_interval_ms : ℕ
heartbeat_interval_ms = 25000

pub data Status : Type 0 where
  connecting earning blocked : Status

-- `timer` is whether the interval is running.
pub record Afk : Type 0 where
  pub session_id : String
  pub last_beat_at : ℕ
  pub session_start : Option ℕ
  pub status : Status
  pub session_earned : ℕ
  pub timer : Bool
  pub cancelled : Bool
  pub user : Option User

-- How a heartbeat ends: with a result, with an ApiError, or with any other exception.
pub data Reply : Type 0 where
  result : HeartbeatResult → Reply
  refused : ApiError → Reply
  broken : Reply

abbrev pub with_coins : ℤ → Option User → Option User
with_coins coins none = none
with_coins coins (some u) = some (record u { coins = coins })

-- `if (result.credited > 0)`
abbrev pub credit : ℤ → ℤ → Afk → Afk
credit (pos (suc n)) balance s = record s {
  session_earned = s.session_earned + suc n;
  user = with_coins balance s.user;
}
credit _ balance s = s

abbrev started_at : Option ℕ → Option ℕ → Option ℕ
started_at none old = old
started_at (some t) old = some t

abbrev pub is_elsewhere : Json → Bool
is_elsewhere (str code) = str_eq code "afk_session_active_elsewhere"
is_elsewhere _ = false

module _ (parse_date : String → Option ℕ) where
  -- The `try` block of `beat`, after the answer
  unfoldable pub beat_succeeded : (now : ℕ) → HeartbeatResult → Afk → Afk
  beat_succeeded now r s = credit r.credited r.balance (record s {
    last_beat_at = now;
    session_start = started_at (parse_date r.session_started_at) s.session_start;
    status = earning;
  })

  -- `beat`, from its answer on
  unfoldable pub beat : (now : ℕ) → Reply → Afk → Afk
  unfolding beat_succeeded
  beat now (result r) s = if s.cancelled then s else beat_succeeded now r s
  beat now (refused e) s =
      if s.cancelled
      then s
      else if is_elsewhere e.code
      then record s { status = blocked; timer = false }
      else s
  beat now broken s = s

  -- The effect's clean-up function
  unfoldable pub leave : Afk → Afk
  leave s = record s { cancelled = true; timer = false }

  -- `retry` with a new session; the page is loaded again after a success.
  unfoldable pub retry : (now : ℕ) (new_session : String) → Reply → Afk → Afk
  retry now new_session (result r) s = record s {
    session_id = new_session;
    last_beat_at = now;
    session_start = started_at (parse_date r.session_started_at) s.session_start;
    status = earning;
  }
  retry now new_session _ s = record s { session_id = new_session; status = blocked }

-- How the claim of the daily reward ends.
pub data ClaimReply : Type 0 where
  claimed : CoinResult → ClaimReply
  denied : ApiError → ClaimReply
  failed : ClaimReply

pub record Daily : Type 0 where
  pub message : Option Json
  pub loading : Bool

abbrev show_int : ℤ → String
show_int (pos n) = show n
show_int (negsuc n) = String.◌++◌ "-" (show (suc n))

-- `claimDaily`, with the user of the session store.
unfoldable pub claim_daily : ClaimReply → Option User → Daily × Option User
unfolding show
claim_daily (claimed r) user = (
  record {
    message = some (str (String.◌++◌ "+" (String.◌++◌ (show_int r.credited) " coins claimed.")));
    loading = false;
  },
  with_coins r.balance user,
)
claim_daily (denied e) user = (record { message = some e.message; loading = false }, user)
claim_daily failed user =
    (record { message = some (str "Failed to claim."); loading = false }, user)

abbrev pad : ℕ → String
pad n = if ltb n 10 then String.◌++◌ "0" (show n) else show n

-- `formatDuration` of whole seconds
unfoldable pub format_duration : ℕ → String
unfolding show
format_duration s =
    let rest = String.◌++◌ (pad (s % 3600 / 60)) (String.◌++◌ ":" (pad (s % 60))) in
    if ltb 0 (s / 3600) then String.◌++◌ (show (s / 3600)) (String.◌++◌ ":" rest) else rest

format_duration_tests : (format_duration 75 ≡ "01:15") × (format_duration 36061 ≡ "10:01:01")
unfolding format_duration
format_duration_tests = (refl, refl)
