-- ===== src/Auth.antt =====
-- web/src/lib/authStore.ts: the session that the tab holds, its copy in localStorage, and the
-- admin's own session, which is stashed there while an admin views as another user.
pub mod Action
pub mod Holding
pub mod Reload
pub mod Impersonation
use sky_panel.Base.{
  String, Option, none, some, Bool, true, false, not, ◌&&◌, ◌≡◌, is_some, nonempty, truthy, Dict,
  lookup, insert, erase, if◌then◌else◌,
}
use mathlib.Core.Option
use sky_panel.Wire.Account.{User, TokenPair}

abbrev pub auth_key : String
auth_key = "sky-panel:auth"

abbrev pub backup_key : String
backup_key = "sky-panel:admin-session"

pub record StoredAuth : Type 0 where
  pub access_token : String
  pub refresh_token : String
  pub user : User

abbrev pub Storage : Type 0
Storage = Dict String

-- What the browser supplies: `JSON.stringify` and `JSON.parse` at this type (`none` is an
-- exception, `some none` the value null), and whether `setItem` has room for a value.
pub record Platform : Type 0 where
  pub stringify : StoredAuth → String
  pub parse : String → Option (Option StoredAuth)
  pub accepts : Storage → String → String → Bool

-- The documented behaviour of `JSON`: an object is printed as a text that is not empty, and reads
-- back as it was.
pub record IsFaithful (p : Platform) : Type 0 where
  pub nonempty_text : (a : StoredAuth) → nonempty (p.stringify a) ≡ true
  pub round_trip : (a : StoredAuth) → p.parse (p.stringify a) ≡ some (some a)

-- The zustand store, and localStorage beside it.
pub record State : Type 0 where
  pub access_token : Option String
  pub refresh_token : Option String
  pub user : Option User
  pub impersonating : Bool
  pub storage : Storage

-- How an action ends. What was set before an exception stays set.
pub data Outcome : Type 0 where
  returned threw : Outcome

abbrev pub of_tokens : TokenPair → StoredAuth
of_tokens t = record {
  access_token = t.access_token;
  refresh_token = t.refresh_token;
  user = t.user;
}

-- `JSON.parse` in the `try` block; an exception gives null.
abbrev caught : Option (Option StoredAuth) → Option StoredAuth
caught none = none
caught (some r) = r

-- `set({ accessToken, refreshToken, user })`
abbrev pub adopt : StoredAuth → Bool → State → State
adopt a viewing s = record s {
  access_token = some a.access_token;
  refresh_token = some a.refresh_token;
  user = some a.user;
  impersonating = viewing;
}

-- The three fields as one value, when `accessToken && refreshToken && user`.
unfoldable pub complete : State → Option StoredAuth
complete s = elim s.access_token [
  | none ↦ none
  | some a ↦ elim s.refresh_token [
    | none ↦ none
    | some r ↦ elim s.user [
      | none ↦ none
      | some u ↦
          if nonempty a && nonempty r
          then some (record { access_token = a; refresh_token = r; user = u })
          else none
    ]
  ]
]

module _ (p : Platform) where
  -- The body of `loadStored` and of `loadBackup`.
  unfoldable pub load : String → Storage → Option StoredAuth
  load key storage = elim (lookup key storage) [
    | none ↦ none
    | some raw ↦ if nonempty raw then caught (p.parse raw) else none
  ]

  unfoldable pub load_stored : Storage → Option StoredAuth
  unfolding load
  load_stored = load auth_key

  unfoldable pub load_backup : Storage → Option StoredAuth
  unfolding load
  load_backup = load backup_key

  -- `localStorage.setItem(key, JSON.stringify(a))`
  unfoldable pub write : String → StoredAuth → State → Outcome × State
  write key a s =
      if p.accepts s.storage key (p.stringify a)
      then (returned, record s { storage = insert key (p.stringify a) s.storage })
      else (threw, s)

  unfoldable pub persist : Option StoredAuth → State → Outcome × State
  unfolding write
  persist (some a) s = write auth_key a s
  persist none s = (returned, record s { storage = erase auth_key s.storage })

  -- The store as it is created when the page loads.
  unfoldable pub boot : Storage → State
  unfolding load_stored load_backup
  boot storage = record {
    access_token = Option.map (λ (a : StoredAuth). a.access_token) (load_stored storage);
    refresh_token = Option.map (λ (a : StoredAuth). a.refresh_token) (load_stored storage);
    user = Option.map (λ (a : StoredAuth). a.user) (load_stored storage);
    impersonating = is_some (load_backup storage);
    storage = storage;
  }

  unfoldable pub set_session : TokenPair → State → Outcome × State
  unfolding persist
  set_session t s = persist (some (of_tokens t)) (adopt (of_tokens t) s.impersonating s)

  -- `if (accessToken && refreshToken) persist({ accessToken, refreshToken, user })`
  unfoldable pub update_user : User → State → Outcome × State
  unfolding persist complete
  update_user u s =
      let s' = record s { user = some u } in
      elim (complete s') [ none ↦ (returned, s') | some a ↦ persist (some a) s' ]

  -- `set` and `persist` at the end of `beginImpersonation`
  unfoldable pub enter : TokenPair → State → Outcome × State
  unfolding persist
  enter t s = persist (some (of_tokens t)) (adopt (of_tokens t) true s)

  -- The backup is written first; when that throws, the action returns and nothing has changed.
  unfoldable pub backed_up : Outcome × State → TokenPair → State → Outcome × State
  unfolding enter
  backed_up (returned, s') t s = enter t s'
  backed_up (threw, s') t s = (returned, s)

  unfoldable pub begin_impersonation : TokenPair → State → Outcome × State
  unfolding enter backed_up complete write
  begin_impersonation t s =
      if s.impersonating
      then enter t s
      else elim (complete s) [ none ↦ enter t s | some a ↦ backed_up (write backup_key a s) t s ]

  unfoldable pub end_impersonation : State → Outcome × State
  unfolding load_backup persist
  end_impersonation s =
      let s' = record s { storage = erase backup_key s.storage } in
      elim (load_backup s.storage) [
        | none ↦ (returned, record s' { impersonating = false })
        | some a ↦ persist (some a) (adopt a false s')
      ]

  unfoldable pub clear : State → Outcome × State
  unfolding persist
  clear s = persist none (record s {
    access_token = none;
    refresh_token = none;
    user = none;
    impersonating = false;
    storage = erase backup_key s.storage;
  })
