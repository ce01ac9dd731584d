-- ===== src/Auth/Reload.antt =====
-- The session of the tab and its copy in localStorage (`loadStored`, `loadBackup`, `persist` and
-- the actions of web/src/lib/authStore.ts): what a reload of the page finds.
use mathlib.Core.Option
use sky_panel.Base.{
  String, none, some, true, ◌||◌, ◌≡◌, ◌≢◌, refl, arith, is_some, str_eq, insert, erase,
  lookup-insert, lookup-erase, if◌then◌else◌, Option-cases, inl, inr,
}
use sky_panel.Wire.Account.{User, TokenPair}
use sky_panel.Auth.Action.{Action, run, IsAllowed, Reached, loaded, acted}
use sky_panel.Auth.{
  Platform, IsFaithful, StoredAuth, Storage, State, returned, auth_key, backup_key, load,
  load_stored, load_backup, write, boot, set_session, update_user, enter, backed_up,
  begin_impersonation, end_impersonation, clear, of_tokens, complete,
}

-- The memory of the tab is what a reload would find.
pub record IsSynced (p : Platform) (s : State) : Type 0 where
  pub access :
      s.access_token ≡ Option.map (λ (a : StoredAuth). a.access_token) (load_stored p s.storage)
  pub refresh :
      s.refresh_token ≡ Option.map (λ (a : StoredAuth). a.refresh_token) (load_stored p s.storage)
  pub holder : s.user ≡ Option.map (λ (a : StoredAuth). a.user) (load_stored p s.storage)
  pub viewing : s.impersonating ≡ is_some (load_backup p s.storage)

pub boot-eq_of_IsSynced : (p : Platform) (s : State) → IsSynced p s → boot p s.storage ≡ s
unfolding boot
boot-eq_of_IsSynced p s h = ground arith

pub boot-IsSynced : (p : Platform) (storage : Storage) → IsSynced p (boot p storage)
unfolding boot
boot-IsSynced p storage = record { access = refl; refresh = refl; holder = refl; viewing = refl }

module _ (p : Platform) (ok : IsFaithful p) where
  -- A slot holds what was last written to it.
  pub load-insert :
      (j k : String) (a : StoredAuth) (storage : Storage)
      → load p k (insert j (p.stringify a) storage)
        ≡ (if str_eq j k then some a else load p k storage)
  unfolding load
  load-insert j k a storage =
      ground (arith, lookup-insert j k (p.stringify a) storage, ok.nonempty_text a, ok.round_trip a)

pub load-erase :
    (p : Platform) (j k : String) (storage : Storage)
    → load p k (erase j storage) ≡ (if str_eq j k then none else load p k storage)
unfolding load
load-erase p j k storage = ground (arith, lookup-erase j k storage)

-- The slots of localStorage after each of the writes that the actions make.
module _ (p : Platform) (ok : IsFaithful p) (a : StoredAuth) (storage : Storage) where
  pub stored-insert_auth : load_stored p (insert auth_key (p.stringify a) storage) ≡ some a
  unfolding load_stored
  stored-insert_auth = load-insert p ok auth_key auth_key a storage

  pub backup-insert_auth :
      load_backup p (insert auth_key (p.stringify a) storage) ≡ load_backup p storage
  unfolding load_backup
  backup-insert_auth = load-insert p ok auth_key backup_key a storage

  pub stored-insert_backup :
      load_stored p (insert backup_key (p.stringify a) storage) ≡ load_stored p storage
  unfolding load_stored
  stored-insert_backup = load-insert p ok backup_key auth_key a storage

  pub backup-insert_backup : load_backup p (insert backup_key (p.stringify a) storage) ≡ some a
  unfolding load_backup
  backup-insert_backup = load-insert p ok backup_key backup_key a storage

module _ (p : Platform) (storage : Storage) where
  pub stored-erase_auth : load_stored p (erase auth_key storage) ≡ none
  unfolding load_stored
  stored-erase_auth = load-erase p auth_key auth_key storage

  pub backup-erase_auth : load_backup p (erase auth_key storage) ≡ load_backup p storage
  unfolding load_backup
  backup-erase_auth = load-erase p auth_key backup_key storage

  pub stored-erase_backup : load_stored p (erase backup_key storage) ≡ load_stored p storage
  unfolding load_stored
  stored-erase_backup = load-erase p backup_key auth_key storage

  pub backup-erase_backup : load_backup p (erase backup_key storage) ≡ none
  unfolding load_backup
  backup-erase_backup = load-erase p backup_key backup_key storage

pub ruleset slots = (
  stored-insert_auth, backup-insert_auth, stored-insert_backup, backup-insert_backup,
  stored-erase_auth, backup-erase_auth, stored-erase_backup, backup-erase_backup,
)

module _ (p : Platform) (ok : IsFaithful p) where
  set_session-IsSynced :
      (t : TokenPair) (s : State)
      → IsSynced p s
      → (set_session p t s).0 ≡ returned
      → IsSynced p (set_session p t s).1
  unfolding set_session
  set_session-IsSynced t s h done = ground (
    arith,
    stored-insert_auth p ok (of_tokens t) s.storage,
    backup-insert_auth p ok (of_tokens t) s.storage,
  )

  update_user-IsSynced :
      (u : User) (s : State)
      → IsSynced p s
      → is_some (complete s) ≡ true
      → (update_user p u s).0 ≡ returned
      → IsSynced p (update_user p u s).1
  unfolding update_user complete
  update_user-IsSynced u s h held done = elim (Option-cases s.access_token) [
    | inl e ↦ absurd (not_held e)
    | inr (a, ea) ↦ elim (Option-cases s.refresh_token) [
      | inl e ↦ absurd (not_held' e)
      | inr (r, er) ↦
          let b : StoredAuth = record { access_token = a; refresh_token = r; user = u } in
          ground (arith, stored-insert_auth p ok b s.storage, backup-insert_auth p ok b s.storage)
    ]
  ]
    where
      not_held : s.access_token ≡ none → ⊥
      not_held e = ground arith

      not_held' : s.refresh_token ≡ none → ⊥
      not_held' e = ground arith

  enter-IsSynced :
      (t : TokenPair) (s : State)
      → load_backup p s.storage ≢ none
      → (enter p t s).0 ≡ returned
      → IsSynced p (enter p t s).1
  unfolding enter
  enter-IsSynced t s h done = ground (
    arith,
    stored-insert_auth p ok (of_tokens t) s.storage,
    backup-insert_auth p ok (of_tokens t) s.storage,
  )

  backed_up-IsSynced :
      (a : StoredAuth) (t : TokenPair) (s : State)
      → IsSynced p s
      → (backed_up p (write p backup_key a s) t s).0 ≡ returned
      → IsSynced p (backed_up p (write p backup_key a s) t s).1
  unfolding backed_up write
  backed_up-IsSynced a t s h done =
      let s' = record s { storage = insert backup_key (p.stringify a) s.storage } in
      ground (arith, enter-IsSynced t s', backup-insert_backup p ok a s.storage)

  begin_impersonation-IsSynced :
      (t : TokenPair) (s : State)
      → IsSynced p s
      → (s.impersonating || is_some (complete s)) ≡ true
      → (begin_impersonation p t s).0 ≡ returned
      → IsSynced p (begin_impersonation p t s).1
  unfolding begin_impersonation
  begin_impersonation-IsSynced t s h held done = elim (Option-cases (complete s)) [
    | inl e ↦ ground (arith, enter-IsSynced t s)
    | inr (a, e) ↦ ground (arith, enter-IsSynced t s, backed_up-IsSynced a t s h)
  ]

  end_impersonation-IsSynced :
      (s : State)
      → IsSynced p s
      → (end_impersonation p s).0 ≡ returned
      → IsSynced p (end_impersonation p s).1
  unfolding end_impersonation
  end_impersonation-IsSynced s h done = elim (Option-cases (load_backup p s.storage)) [
    | inl e ↦ ground (arith, stored-erase_backup p s.storage, backup-erase_backup p s.storage)
    | inr (a, e) ↦ ground (
      arith,
      stored-insert_auth p ok a (erase backup_key s.storage),
      backup-insert_auth p ok a (erase backup_key s.storage),
      backup-erase_backup p s.storage,
    )
  ]

  clear-IsSynced : (s : State) → IsSynced p (clear p s).1
  unfolding clear
  clear-IsSynced s = ground (
    arith,
    stored-erase_auth p (erase backup_key s.storage),
    backup-erase_auth p (erase backup_key s.storage),
    backup-erase_backup p s.storage,
  )

run-IsSynced :
    (p : Platform)
    → IsFaithful p
    → (a : Action) (s : State) → IsSynced p s
    → IsAllowed a s
    → (run p a s).0 ≡ returned
    → IsSynced p (run p a s).1
unfolding run
run-IsSynced p ok (Action.sign_in t) s h held done = set_session-IsSynced p ok t s h done
run-IsSynced p ok (Action.refresh_user u) s h held done = update_user-IsSynced p ok u s h held done
run-IsSynced p ok (Action.view_as t) s h held done =
    begin_impersonation-IsSynced p ok t s h held done
run-IsSynced p ok Action.exit_view s h held done = end_impersonation-IsSynced p ok s h done
run-IsSynced p ok Action.sign_out s h held done = clear-IsSynced p ok s

Reached-IsSynced :
    (p : Platform)
    → IsFaithful p
    → (storage : Storage) {s : State} → Reached p storage s
    → IsSynced p s
Reached-IsSynced p ok storage loaded = boot-IsSynced p storage
Reached-IsSynced p ok storage (acted {s} a r held done) =
    run-IsSynced p ok a s (Reached-IsSynced p ok storage r) held done

-- Whatever allowed actions a tab performs after its loading, so long as none throws, a reload of
-- the page at any moment gives back exactly its session, user, view-as flag and storage.
pub boot-Reached :
    (p : Platform)
    → IsFaithful p
    → (storage : Storage) (s : State) → Reached p storage s
    → boot p s.storage ≡ s
boot-Reached p ok storage s r = boot-eq_of_IsSynced p s (Reached-IsSynced p ok storage r)
