-- ===== src/Api/Races.antt =====
-- What happens to the session between the start of a refresh and its reply (`refreshPromise` of
-- web/src/lib/api.ts beside the actions of web/src/lib/authStore.ts).
use sky_panel.Base.{List, ◌∷◌, String, none, some, true, false, ◌≡◌, arith}
use sky_panel.Wire.Account.{TokenPair}
use sky_panel.Auth.{
  Platform, IsFaithful, StoredAuth, returned, load_stored, load_backup, set_session,
  begin_impersonation, clear, of_tokens, complete,
}
use sky_panel.Auth.Action.{Action, run}
use sky_panel.Auth.Reload.{stored-insert_auth, backup-insert_auth}
use sky_panel.Auth.Impersonation.{Holds, begin-Holds, begin-IsViewing}
use sky_panel.Api.Client.{Client, tokens, refreshed, acted, settle_refresh, step}

-- The user signs out while a refresh is in flight, and the refresh then succeeds: the tab is signed
-- in again with the new tokens, and so is a reload of the page.
pub sign_out_undone :
    (p : Platform)
    → IsFaithful p
    → (base : String) (c : Client) (t : TokenPair) → c.refresher.refreshing ≡ true
    → (set_session p t (clear p c.auth).1).0 ≡ returned
    → let out = step p base (acted Action.sign_out) c in
      let c' = step p base (refreshed (tokens t)) out in
      (out.auth.user ≡ none)
      × Holds (of_tokens t) c'.auth
      × (load_stored p c'.auth.storage ≡ some (of_tokens t))
unfolding step settle_refresh set_session clear run
sign_out_undone p ok base c t flying room =
    ground (arith, stored-insert_auth p ok (of_tokens t) (clear p c.auth).1.storage)

-- While a refresh is in flight that has posted the refresh token of the session `a`, the tab, which
-- holds `a` and is not viewing as anyone, begins to view as the user of `t`, and the refresh then
-- succeeds with the tokens `n`. Where neither of the two changes of the session throws, the
-- tab first holds `t` and then `n`, and is still flagged as view-as; the stash, which leaving view-as restores, holds `a`,
-- and its refresh token is still the last one that was posted.
pub view_as_undone :
    (p : Platform)
    → IsFaithful p
    → (base : String) (c : Client) (a : StoredAuth) (t n : TokenPair) (posts : List String)
    → c.refresher.refreshing ≡ true
    → c.refresher.posts ≡ a.refresh_token ∷ posts
    → c.auth.impersonating ≡ false
    → complete c.auth ≡ some a
    → (begin_impersonation p t c.auth).1.impersonating ≡ true
    → (set_session p n (begin_impersonation p t c.auth).1).0 ≡ returned
    → let viewing = step p base (acted (Action.view_as t)) c in
      let c' = step p base (refreshed (tokens n)) viewing in
      Holds (of_tokens t) viewing.auth
      × Holds (of_tokens n) c'.auth
      × (c'.auth.impersonating ≡ true)
      × (load_backup p c'.auth.storage ≡ some a)
      × (c'.refresher.posts ≡ a.refresh_token ∷ posts)
unfolding step settle_refresh set_session run
view_as_undone p ok base c a t n posts flying posted off e entered room =
    let viewing = (begin_impersonation p t c.auth).1 in
    let v = begin-IsViewing p ok a t c.auth off e entered in
    (
      begin-Holds p ok a t c.auth off e entered,
      (ground arith, ground arith, ground arith),
      ground (arith, v.flag),
      ground (arith, v.stash, backup-insert_auth p ok (of_tokens n) viewing.storage),
      ground (arith, posted),
    )
