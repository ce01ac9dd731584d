-- ===== src/Tests/Account.antt =====
-- Pages that change the session, the toasts, the preview of a command and the look of the instance at
-- concrete data.
use sky_panel.Base.{
  ℕ, String, Option, none, some, Bool, true, false, List, [], ◌∷◌, str_eq, lookup, if◌then◌else◌,
  ◌==◌, ◌≡◌, refl, arith,
}
use sky_panel.Base.Int.{pos}
use sky_panel.Wire.Account.{TokenPair}
use sky_panel.Auth.{StoredAuth, of_tokens, boot}
use sky_panel.Auth.{set_session}
use sky_panel.Auth.Holding.{IsHeld, Accepts, set_session-IsHeld}
use sky_panel.Wallet.Balance.{
  Credit, gift_reply, code_reply, purchase_reply, Pages, settle_all, last_balance, with_balance,
  settle_all-IsHeld,
}
use sky_panel.Account.{Factor, Passwords}
use sky_panel.Login.{LoginForm, granted, handle_submit}
use sky_panel.Login.Session.{Ends, handle_submit-Ends}
use sky_panel.Toasts.{ToastKind, start}
use sky_panel.Toasts.Timers.{Event, pushed, dismissed, run, expire_all, expire_all-run}
use sky_panel.Startup.Render.{Text, render_startup}
use sky_panel.Startup.Template.{Piece, unit, token, print, filled, IsSpaces, render_startup-print}
use sky_panel.Appearance.{safe_media_url, BackgroundMode, BackgroundConfig, PartialBackground}
use sky_panel.Admin.Look.{Form, hydrate, written, writes, whole, hydrate-written}
use sky_panel.Admin.Users.{impersonated}
use sky_panel.Banner.{exited}
use sky_panel.Banner.ViewAs.{impersonated-exited}
use sky_panel.Tests.Session.{roomy, roomy-IsFaithful, ann, ann_tokens, bob_tokens, signed_in}

abbrev ann_auth : StoredAuth
ann_auth = of_tokens ann_tokens

roomy-Accepts : Accepts roomy
roomy-Accepts storage key value = refl

signed_in-IsHeld : IsHeld roomy ann_auth (signed_in roomy)
signed_in-IsHeld =
    (set_session-IsHeld roomy ann_tokens (boot roomy []) roomy-IsFaithful roomy-Accepts
      (refl, refl)).1

abbrev pages : Pages
pages = record {
  wallet = record { gift_to = "bob"; gift_amount = "2"; code = ""; note = none };
  shop = record { pending_id = some "i1"; message = none };
  auth = signed_in roomy;
}

abbrev credits : List Credit
credits =
    gift_reply (pos 3)
    ∷ code_reply (record { credited = pos 10; balance = pos 13 })
    ∷ purchase_reply none "i1" (pos 1)
    ∷ []

settle_all-IsHeld_example :
    IsHeld roomy
      (with_balance (last_balance ann_auth.user.coins credits) ann_auth)
      (settle_all roomy credits pages).auth
settle_all-IsHeld_example =
    settle_all-IsHeld roomy roomy-IsFaithful roomy-Accepts credits ann_auth pages signed_in-IsHeld

abbrev factor : Factor
factor = record { setup = none; code = "123456"; message = none }

abbrev passwords : Passwords
passwords = record { current = "old"; next = "longer one"; repeated = "longer one"; note = none }

abbrev again : TokenPair
again = record { access_token = "a3"; refresh_token = "r3"; user = ann }

abbrev form : LoginForm
form = record {
  email = "bob@x.io";
  password = "secret";
  totp_code = "";
  needs_totp = false;
  error = none;
  loading = true;
}

handle_submit-Ends_example :
    Ends roomy
      (signed_in roomy)
      (granted bob_tokens)
      (handle_submit roomy (granted bob_tokens) form (signed_in roomy))
handle_submit-Ends_example =
    handle_submit-Ends roomy (granted bob_tokens) form (signed_in roomy) roomy-IsFaithful
      roomy-Accepts (refl, refl)

abbrev events : List Event
events = pushed "saved" ToastKind.success ∷ pushed "failed" ToastKind.error ∷ dismissed 1 ∷ []

expire_all-run_example : (expire_all (run events start).timers (run events start)).toasts ≡ []
expire_all-run_example = expire_all-run events

abbrev only_blank : ℕ → Bool
only_blank c = c == 32

only_blank-IsSpaces : IsSpaces only_blank
only_blank-IsSpaces = record { no_word = λ c h. ground (arith, h); no_brace = refl }

abbrev pieces : List Piece
pieces = unit 120 ∷ token (32 ∷ []) (65 ∷ []) [] ∷ token [] (66 ∷ []) (32 ∷ []) ∷ []

abbrev values : Text → Option Text
values [] = none
values (c ∷ cs) = if c == 65 then some (49 ∷ []) else none

render_startup-print_example :
    render_startup only_blank values (print pieces) ≡ filled values pieces
render_startup-print_example =
    render_startup-print only_blank only_blank-IsSpaces values pieces
      (refl, (((refl, tt), ((refl, tt), tt)), ((tt, ((refl, tt), (refl, tt))), tt)))

abbrev background : BackgroundConfig ℕ
background = record {
  mode = BackgroundMode.solid;
  color = "#112233";
  gradient_css = "";
  image_url = "";
  video_url = "";
  blur = 0;
  dim = 40;
}

abbrev look : Form ℕ
look = record {
  theme_preset = "void";
  custom_css = "";
  background = background;
  maintenance = true;
  maintenance_message = "Back soon.";
}

abbrev no_protocol : String → Option String
no_protocol url = none

abbrev parse : String → Option (PartialBackground ℕ)
parse text = if str_eq text "{}" then some (whole background) else none

abbrev stringify : BackgroundConfig ℕ → String
stringify b = "{}"

hydrate-written_example : hydrate 0 40 no_protocol parse (written (writes stringify look) []) ≡ look
hydrate-written_example =
    hydrate-written 0 40 no_protocol parse stringify look [] (refl, refl)
      (unfold safe_media_url in refl) (unfold safe_media_url in refl)

impersonated-exited_example :
    let v = impersonated roomy bob_tokens (signed_in roomy) in
    (IsHeld roomy (of_tokens bob_tokens) v × (v.impersonating ≡ true))
    × (IsHeld roomy ann_auth (exited roomy v) × ((exited roomy v).impersonating ≡ false))
impersonated-exited_example =
    impersonated-exited roomy roomy-IsFaithful roomy-Accepts ann_auth bob_tokens (signed_in roomy)
      signed_in-IsHeld (unfold set_session boot lookup in refl) (refl, refl)
