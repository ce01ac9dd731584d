-- ===== src/Auth/Action.antt =====
-- The actions of the session store as data, and the states that a tab reaches by them.
use sky_panel.Base.{true, ◌||◌, ◌≡◌, is_some, List, [], ◌∷◌}
use sky_panel.Wire.Account.{User, TokenPair}
use sky_panel.Auth.{
  Platform, Storage, State, Outcome, returned, boot, set_session, update_user, begin_impersonation,
  end_impersonation, clear, complete,
}

-- The actions of the store.
pub data Action : Type 0 where
  sign_in view_as : TokenPair → Action
  refresh_user : User → Action
  exit_view sign_out : Action

unfoldable pub run : Platform → Action → State → Outcome × State
run p (Action.sign_in t) s = set_session p t s
run p (Action.refresh_user u) s = update_user p u s
run p (Action.view_as t) s = begin_impersonation p t s
run p Action.exit_view s = end_impersonation p s
run p Action.sign_out s = clear p s

-- A sequence of actions. One that throws leaves what it had set, and the tab lives on.
unfoldable pub run_all : Platform → List Action → State → State
run_all p [] s = s
run_all p (a ∷ actions) s = run_all p actions (run p a s).1

-- The pages update the user, and view as another one, only while a session is held.
abbrev pub IsAllowed : Action → State → Type 0
IsAllowed (Action.refresh_user u) s = is_some (complete s) ≡ true
IsAllowed (Action.view_as t) s = (s.impersonating || is_some (complete s)) ≡ true
IsAllowed _ s = Unit

-- The states that a tab reaches from its loading by actions that do not throw.
pub data Reached (p : Platform) (storage : Storage) : State → Type 0 where
  loaded : Reached p storage (boot p storage)
  acted :
      {s : State} (a : Action)
      → Reached p storage s
      → IsAllowed a s
      → (run p a s).0 ≡ returned
      → Reached p storage (run p a s).1
