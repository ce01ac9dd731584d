-- ===== src/Tests/Session.antt =====
-- web/src/lib/authStore.ts at concrete sessions.
use sky_panel.Base.{none, some, true, false, ◌≡◌, ◌⊎◌, refl, [], ◌∷◌, str_eq, insert, lookup, erase}
use sky_panel.Base.Int.{pos}
use sky_panel.Wire.Account.{Role, User, TokenPair}
use sky_panel.Auth.{
  Platform, IsFaithful, State, threw, backup_key, load_stored, load_backup, boot, set_session,
  begin_impersonation, end_impersonation, clear, of_tokens, complete,
}
use sky_panel.Auth.Action.{Action, run, run_all, loaded, acted}
use sky_panel.Auth.Reload.{boot-Reached}
use sky_panel.Auth.Impersonation.{Holds, view_as_round_trip, begin_impersonation_torn}
use sky_panel.Tests.Codec.{browser, browser-IsFaithful}

abbrev pub roomy : Platform
roomy = browser (λ key. false)

pub roomy-IsFaithful : IsFaithful roomy
roomy-IsFaithful = browser-IsFaithful (λ key. false)

abbrev pub ann : User
ann = record {
  id = "1";
  email = "ann@x.io";
  username = "ann";
  role = Role.admin;
  totp_enabled = false;
  coins = pos 5;
}

abbrev pub bob : User
bob = record {
  id = "2";
  email = "bob@x.io";
  username = "bob";
  role = Role.user;
  totp_enabled = true;
  coins = pos 0;
}

abbrev pub ann_tokens : TokenPair
ann_tokens = record { access_token = "a1"; refresh_token = "r1"; user = ann }

abbrev pub bob_tokens : TokenPair
bob_tokens = record { access_token = "a2"; refresh_token = "r2"; user = bob }

abbrev pub signed_in : Platform → State
signed_in p = (set_session p ann_tokens (boot p [])).1

session : Unit {0}
unfolding boot set_session begin_impersonation end_impersonation clear run run_all lookup insert
    erase load_stored load_backup
session = tt

view_as_test :
    Holds (of_tokens bob_tokens) (begin_impersonation roomy bob_tokens (signed_in roomy)).1
unfolding session
view_as_test = (refl, refl, refl)

boot-Reached_example :
    let s = (begin_impersonation roomy bob_tokens (signed_in roomy)).1 in boot roomy s.storage ≡ s
unfolding session
boot-Reached_example =
    boot-Reached roomy roomy-IsFaithful [] _ (
      acted (Action.view_as bob_tokens) (acted (Action.sign_in ann_tokens) loaded tt refl) refl
        refl)

view_as_round_trip_example :
    let (r, s') = end_impersonation roomy (
      run_all roomy
        (Action.refresh_user ann ∷ Action.view_as ann_tokens ∷ [])
        (begin_impersonation roomy bob_tokens (signed_in roomy)).1) in
    Holds (of_tokens ann_tokens) s'
    × (s'.impersonating ≡ false)
    × (load_backup roomy s'.storage ≡ none)
    × ((r ≡ threw) ⊎ (load_stored roomy s'.storage ≡ some (of_tokens ann_tokens)))
unfolding session complete
view_as_round_trip_example =
    view_as_round_trip roomy roomy-IsFaithful (of_tokens ann_tokens) bob_tokens (signed_in roomy)
      (Action.refresh_user ann ∷ Action.view_as ann_tokens ∷ []) refl refl refl (tt, (tt, tt))

abbrev no_stash : Platform
no_stash = browser (λ key. str_eq key backup_key)

-- A browser whose storage is full once the stash has been written.
abbrev tight : Platform
tight = record {
  stringify = roomy.stringify;
  parse = roomy.parse;
  accepts = λ storage key value. elim (lookup backup_key storage) [ none ↦ true | some _ ↦ false ];
}

begin_impersonation_torn_example :
    let (r, s') = begin_impersonation tight bob_tokens (signed_in tight) in
    (r ≡ threw)
    × Holds (of_tokens bob_tokens) s'
    × Holds (of_tokens ann_tokens) (boot tight s'.storage)
    × ((boot tight s'.storage).impersonating ≡ true)
unfolding session complete
begin_impersonation_torn_example =
    begin_impersonation_torn tight
      (record {
        nonempty_text = roomy-IsFaithful.nonempty_text;
        round_trip = roomy-IsFaithful.round_trip;
      })
      (of_tokens ann_tokens) bob_tokens (signed_in tight) refl refl refl refl refl
