-- ===== src/Auth/Holding.antt =====
-- A session that is held in the store and in localStorage alike (web/src/lib/authStore.ts), and what
-- `updateUser` and `setSession` make of it.
use sky_panel.Base.{nonempty, String, Dict, insert, some, true, ◌≡◌, refl, arith, ◌∙◌}
use sky_panel.Wire.Account.{User, TokenPair}
use sky_panel.Auth.{
  set_session, of_tokens, adopt, Platform, Storage, IsFaithful, StoredAuth, State, returned,
  complete, load_stored, update_user, auth_key, write, persist,
}
use sky_panel.Auth.Reload.{stored-insert_auth}

-- The tab holds `a`, and so does localStorage.
pub record IsHeld (p : Platform) (a : StoredAuth) (s : State) : Type 0 where
  pub held : complete s ≡ some a
  pub stored : load_stored p s.storage ≡ some a

-- No write to localStorage fails.
abbrev pub Accepts : Platform → Type 0
Accepts p = (storage : Dict String) (key value : String) → p.accepts storage key value ≡ true

complete_user :
    (s : State) (u : User) (a : StoredAuth)
    → complete s ≡ some a
    → complete (record s { user = some u }) ≡ some (record a { user = u })
unfolding complete
complete_user s u a h = ground (arith, h)

pub write-accepted :
    (p : Platform) (key : String) (a : StoredAuth) (s : State)
    → Accepts p
    → write p key a s ≡ (returned, record s { storage = insert key (p.stringify a) s.storage })
unfolding write
write-accepted p key a s ok = rw (ok s.storage key (p.stringify a)) refl

-- `updateUser` while `a` is held
update_user_held :
    (p : Platform) (u : User) (a : StoredAuth) (s : State)
    → Accepts p
    → complete s ≡ some a
    → update_user p u s ≡ (
      returned,
      record s {
        user = some u;
        storage = insert auth_key (p.stringify (record a { user = u })) s.storage;
      },
    )
unfolding update_user persist
update_user_held p u a s room h = ground (
  arith,
  complete_user s u a h,
  write-accepted p auth_key (record a { user = u }) (record s { user = some u }) room,
)

complete_stored :
    (s : State) (storage : Storage) → complete (record s { storage = storage }) ≡ complete s
unfolding complete
complete_stored s storage = refl

pub update_user-IsHeld :
    (p : Platform) (u : User) (a : StoredAuth) (s : State)
    → IsFaithful p
    → Accepts p
    → complete s ≡ some a
    → ((update_user p u s).0 ≡ returned) × IsHeld p (record a { user = u }) (update_user p u s).1
update_user-IsHeld p u a s ok room h =
    let b : StoredAuth = record a { user = u } in
    let s' : State = record s { user = some u } in
    rw (update_user_held p u a s room h) (
      refl,
      record {
        held = complete_stored s' _ ∙ complete_user s u a h;
        stored = stored-insert_auth p ok b s.storage;
      },
    )

pub user-complete : (s : State) (a : StoredAuth) → complete s ≡ some a → s.user ≡ some a.user
unfolding complete
user-complete s a h = ground (arith, h)

-- The panel's tokens are not empty.
abbrev pub IsUsable : TokenPair → Type 0
IsUsable t = (nonempty t.access_token ≡ true) × (nonempty t.refresh_token ≡ true)

pub set_session-IsHeld :
    (p : Platform) (t : TokenPair) (s : State)
    → IsFaithful p
    → Accepts p
    → IsUsable t
    → ((set_session p t s).0 ≡ returned) × IsHeld p (of_tokens t) (set_session p t s).1
unfolding set_session persist
set_session-IsHeld p t s ok room full =
    rw (write-accepted p auth_key (of_tokens t) (adopt (of_tokens t) s.impersonating s) room) (
      refl,
      record {
        held = unfold complete in ground (arith, full.0, full.1);
        stored = stored-insert_auth p ok (of_tokens t) s.storage;
      },
    )
