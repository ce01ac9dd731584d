-- ===== src/Auth/Impersonation.antt =====
-- View-as (`beginImpersonation` and `endImpersonation` of web/src/lib/authStore.ts).
use sky_panel.Base.{
  none, some, true, false, ◌≡◌, ◌⊎◌, arith, List, [], ◌∷◌, insert, erase, Option-cases, All, inl,
  inr,
}
use sky_panel.Wire.Account.{TokenPair}
use sky_panel.Auth.{
  Platform, IsFaithful, StoredAuth, State, returned, threw, auth_key, backup_key, load_stored,
  load_backup, write, boot, set_session, update_user, enter, backed_up, begin_impersonation,
  end_impersonation, clear, of_tokens, complete,
}
use sky_panel.Auth.Action.{Action, run, run_all}
use sky_panel.Auth.Reload.{
  stored-insert_auth, backup-insert_auth, stored-insert_backup, backup-insert_backup,
  stored-erase_auth, backup-erase_auth, backup-erase_backup,
}

-- An admin's session `a` is stashed, and the tab knows that it views as another user.
pub record IsViewing (p : Platform) (a : StoredAuth) (s : State) : Type 0 where
  pub flag : s.impersonating ≡ true
  pub stash : load_backup p s.storage ≡ some a

-- Neither signs out nor leaves view-as.
abbrev pub Stays : Action → Type 0
Stays (Action.sign_in t) = Unit
Stays (Action.refresh_user u) = Unit
Stays (Action.view_as t) = Unit
Stays Action.exit_view = ⊥
Stays Action.sign_out = ⊥

-- The tab holds the session `a`.
abbrev pub Holds : StoredAuth → State → Type 0
Holds a s =
    (s.access_token ≡ some a.access_token)
    × (s.refresh_token ≡ some a.refresh_token)
    × (s.user ≡ some a.user)

module _ (p : Platform) (ok : IsFaithful p) (a : StoredAuth) where
  run-IsViewing : (c : Action) (s : State) → Stays c → IsViewing p a s → IsViewing p a (run p c s).1
  unfolding run set_session update_user begin_impersonation
  run-IsViewing (Action.sign_in t) s stays h =
      ground (arith, backup-insert_auth p ok (of_tokens t) s.storage)
  run-IsViewing (Action.refresh_user u) s stays h =
      elim (Option-cases (complete (record s { user = some u }))) [
        | inl e ↦ ground arith
        | inr (b, e) ↦ ground (arith, backup-insert_auth p ok b s.storage)
      ]
  run-IsViewing (Action.view_as t) s stays h =
      ground (arith, backup-insert_auth p ok (of_tokens t) s.storage)
  run-IsViewing Action.exit_view s stays h = absurd stays
  run-IsViewing Action.sign_out s stays h = absurd stays

  pub run_all-IsViewing :
      (cs : List Action) (s : State)
      → All Stays cs
      → IsViewing p a s
      → IsViewing p a (run_all p cs s)
  unfolding run_all
  run_all-IsViewing [] s stays h = h
  run_all-IsViewing (c ∷ cs) s stays h =
      run_all-IsViewing cs (run p c s).1 stays.1 (run-IsViewing c s stays.0 h)

  exit_restores :
      (s : State)
      → IsViewing p a s
      → let (r, s') = end_impersonation p s in
        (Holds a s')
        × (s'.impersonating ≡ false)
        × (load_backup p s'.storage ≡ none)
        × ((r ≡ threw) ⊎ (load_stored p s'.storage ≡ some a))
  unfolding end_impersonation
  exit_restores s h = ground (
    arith,
    stored-insert_auth p ok a (erase backup_key s.storage),
    backup-insert_auth p ok a (erase backup_key s.storage),
    backup-erase_backup p s.storage,
  )

  pub begin-Holds :
      (t : TokenPair) (s : State)
      → s.impersonating ≡ false
      → complete s ≡ some a
      → (begin_impersonation p t s).1.impersonating ≡ true
      → Holds (of_tokens t) (begin_impersonation p t s).1
  unfolding begin_impersonation
  begin-Holds t s off e entered = ground arith

  pub begin-IsViewing :
      (t : TokenPair) (s : State)
      → s.impersonating ≡ false
      → complete s ≡ some a
      → (begin_impersonation p t s).1.impersonating ≡ true
      → IsViewing p a (begin_impersonation p t s).1
  unfolding begin_impersonation backed_up write enter
  begin-IsViewing t s off e done =
      let s' = record s { storage = insert backup_key (p.stringify a) s.storage } in
      ground (
        arith,
        backup-insert_auth p ok (of_tokens t) s'.storage,
        backup-insert_backup p ok a s.storage,
      )

-- An admin with the session `a` views as a user. Whatever follows, short of signing out or leaving
-- view-as - token refreshes, updates of the user, further view-as calls, and writes that throw -
-- leaving view-as gives the admin's session `a` back, clears the view-as flag and removes the
-- stash; and if its write to localStorage succeeds, a reload finds `a` there too.
pub view_as_round_trip :
    (p : Platform)
    → IsFaithful p
    → (a : StoredAuth) (t : TokenPair) (s : State) (cs : List Action) → s.impersonating ≡ false
    → complete s ≡ some a
    → (begin_impersonation p t s).1.impersonating ≡ true
    → All Stays cs
    → let (r, s') = end_impersonation p (run_all p cs (begin_impersonation p t s).1) in
      Holds a s'
      × (s'.impersonating ≡ false)
      × (load_backup p s'.storage ≡ none)
      × ((r ≡ threw) ⊎ (load_stored p s'.storage ≡ some a))
view_as_round_trip p ok a t s cs off e entered stays =
    exit_restores p ok a _
      (run_all-IsViewing p ok a cs _ stays (begin-IsViewing p ok a t s off e entered))

-- When localStorage has no room for the admin's stash, view-as does not begin: nothing changes.
pub begin_impersonation_full :
    (p : Platform) (a : StoredAuth) (t : TokenPair) (s : State)
    → s.impersonating ≡ false
    → complete s ≡ some a
    → p.accepts s.storage backup_key (p.stringify a) ≡ false
    → begin_impersonation p t s ≡ (returned, s)
unfolding begin_impersonation
begin_impersonation_full p a t s off e full = ground arith

-- When there is room for the stash but not for the new session, view-as throws after the tab has
-- switched: the tab acts as the user, while a reload finds the admin's session, flagged as view-as.
pub begin_impersonation_torn :
    (p : Platform)
    → IsFaithful p
    → (a : StoredAuth) (t : TokenPair) (s : State) → s.impersonating ≡ false
    → complete s ≡ some a
    → load_stored p s.storage ≡ some a
    → p.accepts s.storage backup_key (p.stringify a) ≡ true
    → p.accepts (insert backup_key (p.stringify a) s.storage) auth_key (p.stringify (of_tokens t))
      ≡ false
    → let (r, s') = begin_impersonation p t s in
      (r ≡ threw)
      × Holds (of_tokens t) s'
      × Holds a (boot p s'.storage)
      × ((boot p s'.storage).impersonating ≡ true)
unfolding begin_impersonation boot
begin_impersonation_torn p ok a t s off e stored room full =
    ground (arith, stored-insert_backup p ok a s.storage, backup-insert_backup p ok a s.storage)

-- Signing out, from any state, leaves nothing behind: a reload is the signed-out state itself,
-- with no session, no stash and no view-as flag.
pub boot-clear :
    (p : Platform) (s : State)
    → let s' = (clear p s).1 in
      (boot p s'.storage ≡ s')
      × (s'.access_token ≡ none)
      × (s'.refresh_token ≡ none)
      × (s'.user ≡ none)
      × (s'.impersonating ≡ false)
      × (load_backup p s'.storage ≡ none)
unfolding boot clear
boot-clear p s = ground (
  arith,
  stored-erase_auth p (erase backup_key s.storage),
  backup-erase_auth p (erase backup_key s.storage),
  backup-erase_backup p s.storage,
)
