-- ===== src/Afk/Earning.antt =====
-- A whole visit of web/src/pages/AfkPage.tsx: the heartbeats that are answered while the page is
-- open, its clean-up, and the heartbeats that are answered after it.
use sky_panel.Base.{
  ℕ, zero, suc, ◌+◌, String, Option, Bool, true, false, if◌then◌else◌, List, [], ◌∷◌, ◌≡◌, refl,
  arith, ap, sym, subst, ◌∙◌, Bool-cases, inl, inr,
}
use sky_panel.Base.Int.{ℤ, pos, negsuc}
use sky_panel.Wire.Account.{User}
use sky_panel.Api.{ApiError}
use sky_panel.Afk.{
  Afk, Reply, result, refused, broken, blocked, credit, with_coins, is_elsewhere, beat,
  beat_succeeded, leave,
}

-- An answer with the time at which it arrives
pub record Answer : Type 0 where
  pub at : ℕ
  pub reply : Reply

-- The coins that one answer adds
abbrev gain : ℤ → ℕ
gain (pos n) = n
gain (negsuc n) = 0

abbrev pub reply_gain : Reply → ℕ
reply_gain (result r) = gain r.credited
reply_gain (refused e) = 0
reply_gain broken = 0

-- The coins that the answers add together
unfoldable pub total_gain : List Answer → ℕ
total_gain [] = 0
total_gain (a ∷ answers) = reply_gain a.reply + total_gain answers

-- The balance after one answer
abbrev balance_after : ℤ → ℤ → Option User → Option User
balance_after (pos (suc n)) balance u = with_coins balance u
balance_after (pos zero) balance u = u
balance_after (negsuc n) balance u = u

abbrev pub reply_balance : Reply → Option User → Option User
reply_balance (result r) u = balance_after r.credited r.balance u
reply_balance (refused e) u = u
reply_balance broken u = u

-- The user with the balance of the last answer that credits coins
unfoldable pub last_balance : List Answer → Option User → Option User
last_balance [] u = u
last_balance (a ∷ answers) u = last_balance answers (reply_balance a.reply u)

module _ (parse_date : String → Option ℕ) where
  -- The answers to the heartbeats of the interval, in the order in which they arrive
  unfoldable pub beats : List Answer → Afk → Afk
  unfolding beat
  beats [] s = s
  beats (a ∷ answers) s = beats answers (beat parse_date a.at a.reply s)

  credit-earned : (c b : ℤ) (s : Afk) → (credit c b s).session_earned ≡ gain c + s.session_earned
  credit-earned (pos zero) b s = omega arith
  credit-earned (pos (suc n)) b s = omega arith
  credit-earned (negsuc n) b s = omega arith

  credit-user : (c b : ℤ) (s : Afk) → (credit c b s).user ≡ balance_after c b s.user
  credit-user (pos zero) b s = refl
  credit-user (pos (suc n)) b s = refl
  credit-user (negsuc n) b s = refl

  credit-cancelled : (c b : ℤ) (s : Afk) → (credit c b s).cancelled ≡ s.cancelled
  credit-cancelled (pos zero) b s = refl
  credit-cancelled (pos (suc n)) b s = refl
  credit-cancelled (negsuc n) b s = refl

  -- What one answer does to a page that is open
  IsCounted : Reply → (before after : Afk) → Type 0
  IsCounted reply before after =
      (after.session_earned ≡ reply_gain reply + before.session_earned)
      × ((after.user ≡ reply_balance reply before.user) × (after.cancelled ≡ false))

  unchanged-IsCounted :
      (e : ApiError) (s after : Afk)
      → after.session_earned ≡ s.session_earned
      → after.user ≡ s.user
      → after.cancelled ≡ false
      → IsCounted (refused e) s after
  unfolding IsCounted
  unchanged-IsCounted e s after h k c = (omega (arith, h), (k, c))

  beat-IsCounted :
      (now : ℕ) (reply : Reply) (s : Afk)
      → s.cancelled ≡ false
      → IsCounted reply s (beat parse_date now reply s)
  unfolding beat beat_succeeded IsCounted
  beat-IsCounted now (result r) s h =
      subst
        (λ (c : Bool). IsCounted (result r) s (if c then s else beat_succeeded parse_date now r s))
        (sym h)
        (
          credit-earned r.credited r.balance _,
          (credit-user r.credited r.balance _, credit-cancelled r.credited r.balance _ ∙ h),
        )
  beat-IsCounted now (refused e) s h =
      let blocked_now = record s { status = blocked; timer = false } in
      let chosen : Bool → Afk = λ elsewhere. if elsewhere then blocked_now else s in
      subst (λ (c : Bool). IsCounted (refused e) s (if c then s else chosen (is_elsewhere e.code)))
        (sym h)
        (elim (Bool-cases (is_elsewhere e.code)) [
          | inl k ↦ rw k (unchanged-IsCounted e s blocked_now refl refl h)
          | inr k ↦ rw k (unchanged-IsCounted e s s refl refl h)
        ])
  beat-IsCounted now broken s h = (omega arith, (refl, h))

  beat-left :
      (now : ℕ) (reply : Reply) (s : Afk) → s.cancelled ≡ true → beat parse_date now reply s ≡ s
  unfolding beat
  beat-left now (result r) s h = rw h refl
  beat-left now (refused e) s h = rw h refl
  beat-left now broken s h = refl

  beats-left : (answers : List Answer) (s : Afk) → s.cancelled ≡ true → beats answers s ≡ s
  unfolding beats
  beats-left [] s h = refl
  beats-left (a ∷ answers) s h =
      let one = beat-left a.at a.reply s h in rw one (beats-left answers s h)

  beats-earned :
      (answers : List Answer) (s : Afk)
      → s.cancelled ≡ false
      → ((beats answers s).session_earned ≡ total_gain answers + s.session_earned)
        × ((beats answers s).user ≡ last_balance answers s.user)
  unfolding beats total_gain last_balance IsCounted
  beats-earned [] s h = (omega arith, refl)
  beats-earned (a ∷ answers) s h =
      let one = beat-IsCounted a.at a.reply s h in
      let rest = beats-earned answers (beat parse_date a.at a.reply s) one.1.1 in
      (omega (arith, one.0, rest.0), rest.1 ∙ ap (last_balance answers) one.1.0)

  -- In a visit of the page, which is open while the answers of `answers` arrive and is left before
  -- those of `late`, the coins counted for the session grow by exactly the credits of `answers`, the
  -- user gets the balance of the last answer of these that credits coins, no timer is left, and none
  -- of `late` changes anything.
  pub visit_lem :
      (answers late : List Answer) (s : Afk)
      → s.cancelled ≡ false
      → let left = leave parse_date (beats answers s) in
        (beats late left ≡ left)
        × ((left.session_earned ≡ total_gain answers + s.session_earned)
            × ((left.user ≡ last_balance answers s.user) × (left.timer ≡ false)))
  unfolding leave
  visit_lem answers late s h =
      let counted = beats-earned answers s h in
      (beats-left late _ refl, (counted.0, (counted.1, refl)))
