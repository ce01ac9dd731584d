-- ===== src/Account/Held.antt =====
-- The session after the second factor or the password has changed (web/src/pages/AccountPage.tsx).
use sky_panel.Base.{
  String, Option, none, some, true, false, ◌⊎◌, inl, inr, ◌≡◌, refl, sym, subst, truthy,
}
use sky_panel.Wire.Account.{User, TokenPair}
use sky_panel.Api.{Failure}
use sky_panel.Auth.{Platform, IsFaithful, StoredAuth, State, Outcome, returned, threw, of_tokens}
use sky_panel.Auth.Holding.{IsHeld, IsUsable, Accepts, update_user-IsHeld, set_session-IsHeld}
use sky_panel.Account.{Factor, Passwords, told, kept_in, confirm, disable, with_factor, changed}

told-auth : (text : String) (o : Outcome × State) (f : Factor) → (told text o f).1 ≡ o.1
told-auth text (returned, s) f = refl
told-auth text (threw, s) f = refl

-- The two buttons of the second factor, after the panel has accepted the code or not.
pub data Answer : Type 0 where
  confirmed disabled : Option Failure → Answer

abbrev pub settle : Platform → Option User → Answer → Factor → State → Factor × State
settle p user (confirmed r) f s = confirm p user r f s
settle p user (disabled r) f s = disable p user r f s

-- What an answer makes of the session `a`
abbrev pub factor_after : Answer → StoredAuth → StoredAuth
factor_after (confirmed none) a = record a { user = with_factor true a.user }
factor_after (disabled none) a = record a { user = with_factor false a.user }
factor_after _ a = a

-- With room in localStorage and the user of the session on the page, the session and its copy in
-- localStorage show the second factor on after the panel has confirmed it, off after it has disabled
-- it, and are as before after an error.
pub settle-IsHeld :
    (p : Platform) (r : Answer) (a : StoredAuth) (f : Factor) (s : State)
    → IsFaithful p
    → Accepts p
    → IsHeld p a s
    → IsHeld p (factor_after r a) (settle p (some a.user) r f s).1
unfolding confirm disable
settle-IsHeld p (confirmed none) a f s ok room h =
    let u = with_factor true a.user in
    subst (IsHeld p (record a { user = u })) (sym (told-auth _ _ _))
      (update_user-IsHeld p u a s ok room h.held).1
settle-IsHeld p (disabled none) a f s ok room h =
    let u = with_factor false a.user in
    subst (IsHeld p (record a { user = u })) (sym (told-auth _ _ _))
      (update_user-IsHeld p u a s ok room h.held).1
settle-IsHeld p (confirmed (some e)) a f s ok room h = h
settle-IsHeld p (disabled (some e)) a f s ok room h = h

kept_in-auth : (o : Outcome × State) (c : Passwords) → (kept_in o c).1 ≡ o.1
kept_in-auth (returned, s) c = refl
kept_in-auth (threw, s) c = refl

-- What the login after a change of the password makes of the session `a`
abbrev pub session_after : Failure ⊎ TokenPair → StoredAuth → StoredAuth
session_after (inl e) a = a
session_after (inr tokens) a = of_tokens tokens

-- The tokens of a login are not empty.
abbrev pub AreUsable : Failure ⊎ TokenPair → Type 0
AreUsable (inl e) = Unit
AreUsable (inr tokens) = IsUsable tokens

-- After a change of the password, with room in localStorage, the tab and localStorage hold the
-- session of the new login if that succeeds, and the old one if it fails.
pub changed-IsHeld :
    (p : Platform) (login : Failure ⊎ TokenPair) (a : StoredAuth) (c : Passwords) (s : State)
    → IsFaithful p
    → Accepts p
    → AreUsable login
    → truthy (some a.user.email) ≡ true
    → IsHeld p a s
    → IsHeld p (session_after login a) (changed p (some a.user.email) login c s).1
unfolding changed
changed-IsHeld p (inl e) a c s ok room full email h = rw email h
changed-IsHeld p (inr tokens) a c s ok room full email h = rw email (
    subst (IsHeld p (of_tokens tokens)) (sym (kept_in-auth _ _))
      (set_session-IsHeld p tokens s ok room full).1)
