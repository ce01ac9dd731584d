-- ===== src/Shell/Polling.antt =====
-- Whose name the frame of web/src/components/AppShell.tsx shows.
use sky_panel.Base.{
  Option, none, some, Bool, true, false, not, ◌||◌, List, [], ◌∷◌, map, str_eq, ◌≡◌, refl, ap,
  arith, ◌∙◌, sym, subst, eq_iff, Bool-cases, inl, inr,
}
use sky_panel.Base.Int.{ℤ, pos, negsuc}
use sky_panel.Wire.Account.{User, Role, TokenPair}
use sky_panel.Auth.{
  Platform, IsFaithful, StoredAuth, State, of_tokens, update_user, set_session, clear,
}
use sky_panel.Auth.Holding.{
  IsHeld, IsUsable, Accepts, update_user-IsHeld, set_session-IsHeld, user-complete,
}
use sky_panel.Shell.{
  Shell, mounted, answered, signed_out, signed_in, same_int, same_role, same_flag, differs, synced,
  sync, step, run,
}

-- The parts of a user that the frame compares
pub record Agrees (u me : User) : Type 0 where
  pub coins : u.coins ≡ me.coins
  pub role : u.role ≡ me.role
  pub username : u.username ≡ me.username
  pub totp_enabled : u.totp_enabled ≡ me.totp_enabled

pub same_int_lem : (m n : ℤ) → same_int m n ≡ true → m ≡ n
same_int_lem (pos m) (pos n) h = ap pos (ground (arith, h))
same_int_lem (pos m) (negsuc n) h = ground (arith, h)
same_int_lem (negsuc m) (pos n) h = ground (arith, h)
same_int_lem (negsuc m) (negsuc n) h = ap negsuc (ground (arith, h))

pub same_role_lem : (r s : Role) → same_role r s ≡ true → r ≡ s
same_role_lem Role.admin Role.admin h = refl
same_role_lem Role.admin Role.user h = ground (arith, h)
same_role_lem Role.user Role.admin h = ground (arith, h)
same_role_lem Role.user Role.user h = refl

pub same_flag_lem : (b c : Bool) → same_flag b c ≡ true → b ≡ c
same_flag_lem true c h = sym h
same_flag_lem false c h = ground (arith, h)

none_differs :
    (a b c d : Bool)
    → (not a || not b || not c || not d) ≡ false
    → (a ≡ true) × ((b ≡ true) × ((c ≡ true) × (d ≡ true)))
none_differs true true true true h = (refl, (refl, (refl, refl)))
none_differs false b c d h = ground (arith, h)
none_differs true false c d h = ground (arith, h)
none_differs true true false d h = ground (arith, h)
none_differs true true true false h = ground (arith, h)

differs_lem : (me u : User) → differs me (some u) ≡ false → Agrees u me
unfolding differs
differs_lem me u h =
    let all = none_differs _ _ _ _ h in
    record {
      coins = same_int_lem u.coins me.coins all.0;
      role = same_role_lem u.role me.role all.1.0;
      username = ground (arith, eq_iff u.username me.username, all.1.1.0);
      totp_enabled = same_flag_lem u.totp_enabled me.totp_enabled all.1.1.1;
    }

differs_name : (me u : User) → str_eq u.username me.username ≡ false → differs me (some u) ≡ true
unfolding differs
differs_name me u h = ground (arith, h)

synced_new :
    (p : Platform) (me : User) (s : State)
    → differs me s.user ≡ true
    → synced p (some me) s ≡ (update_user p me s).1
synced_new p me s h = simp h refl

synced_same :
    (p : Platform) (me : User) (s : State) → differs me s.user ≡ false → synced p (some me) s ≡ s
synced_same p me s h = simp h refl

-- `u` agrees with the cached answer, if there is one.
abbrev AgreesWith : User → Option User → Type 0
AgreesWith u none = Unit
AgreesWith u (some me) = Agrees u me

-- The cache keeps its object only where the answer equals it.
abbrev pub IsSharing : (User → Option User → Bool) → Type 0
IsSharing shares = (me : User) (cached : Option User) → shares me cached ≡ true → cached ≡ some me

module _ (shares : User → Option User → Bool) (p : Platform) (ok : IsFaithful p)
    (room : Accepts p) where
  synced-Agrees :
      (me : User) (a : StoredAuth) (s : State)
      → IsHeld p a s
      → (u : User) × (IsHeld p (record a { user = u }) (synced p (some me) s) × Agrees u me)
  synced-Agrees me a s h = elim (Bool-cases (differs me s.user)) [
    | inl e ↦ (
      me,
      (
        subst (IsHeld p (record a { user = me })) (sym (synced_new p me s e))
            (update_user-IsHeld p me a s ok room h.held).1,
        record { coins = refl; role = refl; username = refl; totp_enabled = refl },
      ),
    )
    | inr e ↦ (
      a.user,
      (
        subst (IsHeld p a) (sym (synced_same p me s e)) h,
        differs_lem me a.user (sym (ap (differs me) (user-complete s a h.held)) ∙ e),
      ),
    )
  ]

  synced-AgreesWith :
      (o : Option User) (a : StoredAuth) (s : State)
      → IsHeld p a s
      → (u : User) × (IsHeld p (record a { user = u }) (synced p o s) × AgreesWith u o)
  synced-AgreesWith none a s h = (a.user, (h, tt))
  synced-AgreesWith (some me) a s h = synced-Agrees me a s h

  -- The tab and localStorage hold the tokens of `a`, and a user that agrees with the cached answer.
  IsCurrent : StoredAuth → Shell → Type 0
  IsCurrent a s = (u : User) × (IsHeld p (record a { user = u }) s.auth × AgreesWith u s.me)

  mounted-IsCurrent :
      (a : StoredAuth) (s : Shell) → IsHeld p a s.auth → IsCurrent a (step shares p mounted s)
  unfolding IsCurrent step sync
  mounted-IsCurrent a s h = synced-AgreesWith s.me a s.auth h

  answered-IsCurrent :
      (me : User) (a : StoredAuth) (s : Shell)
      → IsCurrent a s
      → IsCurrent a (step shares p (answered me) s)
  unfolding IsCurrent step sync
  answered-IsCurrent me a s (u, now) = elim (Bool-cases (shares me s.me)) [
    | inl e ↦ simp e (u, now)
    | inr e ↦ simp e (synced-Agrees me (record a { user = u }) s.auth now.0)
  ]

  polled-IsCurrent :
      (answers : List User) (a : StoredAuth) (s : Shell)
      → IsCurrent a s
      → IsCurrent a (run shares p (map answered answers) s)
  unfolding run
  polled-IsCurrent [] a s h = h
  polled-IsCurrent (me ∷ answers) a s h =
      polled-IsCurrent answers a (step shares p (answered me) s) (answered-IsCurrent me a s h)

  last-Agrees :
      IsSharing shares
      → (me : User) (a : StoredAuth) (s : Shell) → IsCurrent a s
      → (u : User) × (IsHeld p (record a { user = u }) (step shares p (answered me) s).auth
          × Agrees u me)
  unfolding IsCurrent step sync
  last-Agrees keeps me a s (u, now) = elim (Bool-cases (shares me s.me)) [
    | inl e ↦ simp e (u, (now.0, subst (AgreesWith u) (keeps me s.me e) now.1))
    | inr e ↦ simp e (synced-Agrees me (record a { user = u }) s.auth now.0)
  ]

  -- Where the query's cache keeps its object only for an answer that equals it, with room in
  -- localStorage, from the mount of the frame on, after any answers of the poll and with no other
  -- change of the session in between, the session and its copy in localStorage have the tokens of
  -- before, and a user with the coins, role, name and second factor of the last answer.
  pub answered-Agrees :
      IsSharing shares
      → (answers : List User) (me : User) (a : StoredAuth) (s : Shell) → IsHeld p a s.auth
      → let before = run shares p (mounted ∷ map answered answers) s in
        (u : User) × (IsHeld p (record a { user = u }) (step shares p (answered me) before).auth
          × Agrees u me)
  unfolding run
  answered-Agrees keeps answers me a s h =
      last-Agrees keeps me a _ (polled-IsCurrent answers a _ (mounted-IsCurrent a s h))

  -- When a user signs out and another signs in without the page being loaded, the frame mounts with
  -- the cached answer for the first one: the new session, in the tab and in localStorage, has the new
  -- tokens with the first user's name, role and coins.
  pub run-stale :
      (me : User) (t : TokenPair) (s : Shell)
      → s.me ≡ some me
      → str_eq t.user.username me.username ≡ false
      → IsUsable t
      → IsHeld p
          (record (of_tokens t) { user = me })
          (run shares p (signed_out ∷ signed_in t ∷ mounted ∷ []) s).auth
  unfolding run step sync
  run-stale me t s cached other full =
      let out : State = (clear p s.auth).1 in
      let new : State = (set_session p t out).1 in
      let held = (set_session-IsHeld p t out ok room full).1 in
      let old : differs me new.user ≡ true =
        ap (differs me) (user-complete new (of_tokens t) held.held)
        ∙ differs_name me t.user other in
      subst (IsHeld p (record (of_tokens t) { user = me }))
        (sym (ap (λ (o : Option User). synced p o new) cached ∙ synced_new p me new old))
        (update_user-IsHeld p me (of_tokens t) new ok room held.held).1
