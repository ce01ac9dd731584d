-- ===== src/Login/Session.antt =====
-- The session after web/src/pages/LoginPage.tsx.
use sky_panel.Base.{true, false, ◌≡◌, refl, arith}
use sky_panel.Wire.Account.{TokenPair}
use sky_panel.Auth.{Platform, IsFaithful, State, of_tokens, returned, threw, Outcome}
use sky_panel.Auth.Holding.{IsHeld, IsUsable, Accepts, set_session-IsHeld}
use sky_panel.Login.{
  LoginForm, LoginReply, granted, denied, failed, Login, handle_submit, session_set,
}

-- Tokens that the panel grants are not empty.
abbrev pub IsGood : LoginReply → Type 0
IsGood (granted t) = IsUsable t
IsGood _ = Unit

-- What the reply makes of the session `s`
abbrev pub Ends : Platform → State → LoginReply → Login → Type 0
Ends p s (granted t) l = IsHeld p (of_tokens t) l.auth × (l.navigated ≡ true)
Ends p s _ l = (l.auth ≡ s) × (l.navigated ≡ false)

session_set_lem :
    (p : Platform) (f : LoginForm) (s : State) (t : TokenPair) (o : Outcome × State)
    → o.0 ≡ returned
    → IsHeld p (of_tokens t) o.1
    → Ends p s (granted t) (session_set f o)
session_set_lem p f s t (returned, s') e h = (h, refl)
session_set_lem p f s t (threw, s') e h = ground (arith, e)

-- With room in localStorage, a login that the panel grants leaves the tab and localStorage with the
-- granted session and opens the dashboard; any other reply leaves the session and the page.
pub handle_submit-Ends :
    (p : Platform) (r : LoginReply) (f : LoginForm) (s : State)
    → IsFaithful p
    → Accepts p
    → IsGood r
    → Ends p s r (handle_submit p r f s)
unfolding handle_submit
handle_submit-Ends p (granted t) f s ok room full =
    let done = set_session-IsHeld p t s ok room full in session_set_lem p f s t _ done.0 done.1
handle_submit-Ends p (denied e) f s ok room full = (refl, refl)
handle_submit-Ends p failed f s ok room full = (refl, refl)
