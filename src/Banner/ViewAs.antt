-- ===== src/Banner/ViewAs.antt =====
-- Viewing as a user from web/src/components/admin/AdminUsersTab.tsx, and leaving by the banner, with
-- the page loaded again after each.
use sky_panel.Base.{
  none, some, true, false, nonempty, insert, erase, is_some, ◌≡◌, refl, ap, ◌∙◌, arith,
}
use sky_panel.Wire.Account.{TokenPair}
use sky_panel.Auth.{
  Platform, IsFaithful, StoredAuth, Storage, State, auth_key, backup_key, of_tokens, complete,
  adopt, enter, persist, backed_up, load_stored, load_backup, boot, begin_impersonation,
  end_impersonation,
}
use sky_panel.Auth.Reload.{
  stored-insert_auth, backup-insert_auth, backup-insert_backup, backup-erase_backup,
}
use sky_panel.Auth.Holding.{IsHeld, IsUsable, Accepts, write-accepted}
use sky_panel.Admin.Users.{impersonated}
use sky_panel.Banner.{exited}

-- The tokens of a session are not empty.
abbrev pub IsWhole : StoredAuth → Type 0
IsWhole a = (nonempty a.access_token ≡ true) × (nonempty a.refresh_token ≡ true)

complete-boot :
    (p : Platform) (a : StoredAuth) (storage : Storage)
    → IsWhole a
    → load_stored p storage ≡ some a
    → complete (boot p storage) ≡ some a
unfolding boot complete
complete-boot p a storage full e = ground (arith, e, full.0, full.1)

IsWhole-of_held : (s : State) (a : StoredAuth) → complete s ≡ some a → IsWhole a
unfolding complete
IsWhole-of_held s a h = (ground (arith, h), ground (arith, h))

viewing-boot :
    (p : Platform) (storage : Storage)
    → (boot p storage).impersonating ≡ is_some (load_backup p storage)
unfolding boot
viewing-boot p storage = refl

module _ (p : Platform) (ok : IsFaithful p) (room : Accepts p) (a : StoredAuth) where
  begin_storage :
      (t : TokenPair) (s : State)
      → complete s ≡ some a
      → s.impersonating ≡ false
      → impersonated p t s
        ≡ boot p (
            insert auth_key
              (p.stringify (of_tokens t))
              (insert backup_key (p.stringify a) s.storage))
  unfolding impersonated begin_impersonation enter persist backed_up
  begin_storage t s h off =
      let backed : State = record s { storage = insert backup_key (p.stringify a) s.storage } in
      ground (
        arith,
        h,
        off,
        write-accepted p backup_key a s room,
        write-accepted p auth_key (of_tokens t) (adopt (of_tokens t) true backed) room,
      )

  end_storage :
      (s : State)
      → load_backup p s.storage ≡ some a
      → exited p s ≡ boot p (insert auth_key (p.stringify a) (erase backup_key s.storage))
  unfolding exited end_impersonation persist
  end_storage s h =
      let erased : State = record s { storage = erase backup_key s.storage } in
      ground (arith, h, write-accepted p auth_key a (adopt a false erased) room)

  IsHeld-boot :
      (b : StoredAuth) (storage : Storage)
      → IsWhole b
      → load_stored p storage ≡ some b
      → IsHeld p b (boot p storage)
  unfolding boot
  IsHeld-boot b storage full e = record { held = complete-boot p b storage full e; stored = e }

  backup-boot : (storage : Storage) → load_backup p (boot p storage).storage ≡ load_backup p storage
  unfolding boot
  backup-boot storage = refl

  -- Where an admin holds the session `a` and does not view as anyone, "View as" leaves the loaded page
  -- with the user's session, in the tab and in localStorage, and with the banner; "Exit view-as" then
  -- leaves it with the admin's own session and without the banner, as long as localStorage has room.
  pub impersonated-exited :
      (t : TokenPair) (s : State)
      → IsHeld p a s
      → s.impersonating ≡ false
      → IsUsable t
      → let v = impersonated p t s in
        (IsHeld p (of_tokens t) v × (v.impersonating ≡ true))
        × (IsHeld p a (exited p v) × ((exited p v).impersonating ≡ false))
  impersonated-exited t s h off full =
      let inner : Storage = insert backup_key (p.stringify a) s.storage in
      let viewing : Storage = insert auth_key (p.stringify (of_tokens t)) inner in
      let stash : load_backup p viewing ≡ some a =
        backup-insert_auth p ok (of_tokens t) inner ∙ backup-insert_backup p ok a s.storage in
      let back : Storage = erase backup_key (boot p viewing).storage in
      let cleared : load_backup p (insert auth_key (p.stringify a) back) ≡ none =
        backup-insert_auth p ok a back ∙ backup-erase_backup p (boot p viewing).storage in
      rw (begin_storage t s h.held off, end_storage (boot p viewing) (backup-boot viewing ∙ stash))
        (
          (
            IsHeld-boot (of_tokens t) viewing full (stored-insert_auth p ok (of_tokens t) inner),
            viewing-boot p viewing ∙ ap is_some stash,
          ),
          (
            IsHeld-boot a _ (IsWhole-of_held s a h.held) (stored-insert_auth p ok a back),
            viewing-boot p _ ∙ ap is_some cleared,
          ),
        )
