-- ===== src/Tests/Shell.antt =====
-- The frame of the pages at concrete users.
use sky_panel.Base.{
  Option, none, some, Bool, true, false, ◌&&◌, str_eq, eq_iff, arith, ◌≡◌, [], ◌∷◌, map, refl,
}
use sky_panel.Wire.Account.{User}
use sky_panel.Auth.{of_tokens, boot}
use sky_panel.Auth.Holding.{IsHeld, Accepts, set_session-IsHeld}
use sky_panel.Shell.{
  Shell, mounted, answered, signed_out, signed_in, step, run, same_int, same_role, same_flag,
}
use sky_panel.Shell.Polling.{
  Agrees, IsSharing, same_int_lem, same_role_lem, same_flag_lem, answered-Agrees, run-stale,
}
use sky_panel.Tests.Session.{roomy, roomy-IsFaithful, ann, bob, ann_tokens, bob_tokens}
use sky_panel.Tests.Session

roomy-Accepts : Accepts roomy
roomy-Accepts storage key value = refl

-- Ann is signed in, and the poll has answered with her.
abbrev shell : Shell
shell = record { auth = sky_panel.Tests.Session.signed_in roomy; me = some ann }

shell-IsHeld : IsHeld roomy (of_tokens ann_tokens) shell.auth
shell-IsHeld =
    (set_session-IsHeld roomy ann_tokens (boot roomy []) roomy-IsFaithful roomy-Accepts
      (refl, refl)).1

same_user : User → Option User → Bool
same_user me none = false
same_user me (some old) =
    str_eq old.id me.id
    && str_eq old.email me.email
    && str_eq old.username me.username
    && same_role old.role me.role
    && same_flag old.totp_enabled me.totp_enabled
    && same_int old.coins me.coins

all_true :
    (a b c d e f : Bool)
    → (a && b && c && d && e && f) ≡ true
    → (a ≡ true) × ((b ≡ true) × ((c ≡ true) × ((d ≡ true) × ((e ≡ true) × (f ≡ true)))))
all_true a b c d e f h = (
  ground (arith, h),
  (
    ground (arith, h),
    (ground (arith, h), (ground (arith, h), (ground (arith, h), ground (arith, h)))),
  ),
)

same_user-IsSharing : IsSharing same_user
unfolding same_user
same_user-IsSharing me none h = absurd (ground (arith, h))
same_user-IsSharing me (some old) h =
    let all =
      all_true (str_eq old.id me.id) (str_eq old.email me.email) (str_eq old.username me.username)
        (same_role old.role me.role) (same_flag old.totp_enabled me.totp_enabled)
        (same_int old.coins me.coins) h in
    let id : old.id ≡ me.id = ground (arith, eq_iff old.id me.id, all.0) in
    let email : old.email ≡ me.email = ground (arith, eq_iff old.email me.email, all.1.0) in
    let name : old.username ≡ me.username =
      ground (arith, eq_iff old.username me.username, all.1.1.0) in
    let role = same_role_lem old.role me.role all.1.1.1.0 in
    let flag = same_flag_lem old.totp_enabled me.totp_enabled all.1.1.1.1.0 in
    let coins = same_int_lem old.coins me.coins all.1.1.1.1.1 in
    let fields : some (record {
      id = old.id;
      email = old.email;
      username = old.username;
      role = old.role;
      totp_enabled = old.totp_enabled;
      coins = old.coins;
    })
        ≡ some me =
      rw (id, email, name, role, flag, coins) refl in
    fields

-- The cached answer again, and then bob
answered-Agrees_example :
    (u : User) × (IsHeld roomy
        (record (of_tokens ann_tokens) { user = u })
        (step same_user roomy
          (answered bob)
          (run same_user roomy (mounted ∷ map answered (ann ∷ [])) shell)).auth
      × Agrees u bob)
answered-Agrees_example =
    answered-Agrees same_user roomy roomy-IsFaithful roomy-Accepts same_user-IsSharing (ann ∷ [])
      bob (of_tokens ann_tokens) shell shell-IsHeld

run-stale_example :
    IsHeld roomy
      (record (of_tokens bob_tokens) { user = ann })
      (run same_user roomy (signed_out ∷ signed_in bob_tokens ∷ mounted ∷ []) shell).auth
run-stale_example =
    run-stale same_user roomy roomy-IsFaithful roomy-Accepts ann bob_tokens shell refl refl
      (refl, refl)
