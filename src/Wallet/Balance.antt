-- ===== src/Wallet/Balance.antt =====
-- The balance of coins that the pages show, after gifts, codes and purchases.
use sky_panel.Base.{String, Option, List, [], ◌∷◌, ◌≡◌, refl, sym, subst}
use sky_panel.Base.Int.{ℤ}
use sky_panel.Wire.Economy.{CoinResult, StoreItem}
use sky_panel.Auth.{Platform, State, StoredAuth, IsFaithful, Outcome, returned, threw}
use sky_panel.Auth.Holding.{IsHeld, Accepts, update_user-IsHeld, user-complete}
use sky_panel.Wallet.{
  after_balance_change, gift_noted, code_noted, bought, item_named, gift_sent, code_redeemed,
  purchased, Wallet, Shop,
}

-- A reply that reports a balance
pub data Credit : Type 0 where
  gift_reply : ℤ → Credit
  code_reply : CoinResult → Credit
  purchase_reply : Option (List StoreItem) → String → ℤ → Credit

abbrev pub balance_of : Credit → ℤ
balance_of (gift_reply b) = b
balance_of (code_reply r) = r.balance
balance_of (purchase_reply items id b) = b

-- The two pages over one session store
pub record Pages : Type 0 where
  pub wallet : Wallet
  pub shop : Shop
  pub auth : State

unfoldable pub settle : Platform → Credit → Pages → Pages
settle p (gift_reply b) g =
    let r : Wallet × State = gift_sent p b g.wallet g.auth in record g { wallet = r.0; auth = r.1 }
settle p (code_reply c) g =
    let r : Wallet × State = code_redeemed p c g.wallet g.auth in
    record g { wallet = r.0; auth = r.1 }
settle p (purchase_reply items id b) g =
    let r : Shop × State = purchased p items id b g.shop g.auth in
    record g { shop = r.0; auth = r.1 }

unfoldable pub settle_all : Platform → List Credit → Pages → Pages
unfolding settle
settle_all p [] g = g
settle_all p (c ∷ cs) g = settle_all p cs (settle p c g)

abbrev pub last_balance : ℤ → List Credit → ℤ
last_balance balance [] = balance
last_balance balance (c ∷ cs) = last_balance (balance_of c) cs

-- The session `a` with another balance
abbrev pub with_balance : ℤ → StoredAuth → StoredAuth
with_balance balance a = record a { user = record a.user { coins = balance } }

-- The notes of the pages leave the session as `updateUser` has it.
gift_noted-auth : (o : Outcome × State) (w : Wallet) → (gift_noted o w).1 ≡ o.1
gift_noted-auth (returned, s) w = refl
gift_noted-auth (threw, s) w = refl

code_noted-auth : (n : ℤ) (o : Outcome × State) (w : Wallet) → (code_noted n o w).1 ≡ o.1
code_noted-auth n (returned, s) w = refl
code_noted-auth n (threw, s) w = refl

bought-auth : (name : String) (o : Outcome × State) (shop : Shop) → (bought name o shop).1 ≡ o.1
bought-auth name (returned, s) shop = refl
bought-auth name (threw, s) shop = refl

module _ (p : Platform) (ok : IsFaithful p) (room : Accepts p) where
  after_balance_change-IsHeld :
      (balance : ℤ) (a : StoredAuth) (s : State)
      → IsHeld p a s
      → ((after_balance_change p balance s).0 ≡ returned)
        × IsHeld p (with_balance balance a) (after_balance_change p balance s).1
  unfolding after_balance_change
  after_balance_change-IsHeld balance a s h =
      simp (user-complete s a h.held)
        (update_user-IsHeld p (record a.user { coins = balance }) a s ok room h.held)

  settle-IsHeld :
      (c : Credit) (a : StoredAuth) (g : Pages)
      → IsHeld p a g.auth
      → IsHeld p (with_balance (balance_of c) a) (settle p c g).auth
  unfolding settle gift_sent code_redeemed purchased
  settle-IsHeld (gift_reply b) a g h =
      let after = after_balance_change p b g.auth in
      subst (IsHeld p (with_balance b a)) (sym (gift_noted-auth after g.wallet))
        (after_balance_change-IsHeld b a g.auth h).1
  settle-IsHeld (code_reply r) a g h =
      let after = after_balance_change p r.balance g.auth in
      subst (IsHeld p (with_balance r.balance a)) (sym (code_noted-auth r.credited after g.wallet))
        (after_balance_change-IsHeld r.balance a g.auth h).1
  settle-IsHeld (purchase_reply items id b) a g h =
      let after = after_balance_change p b g.auth in
      subst (IsHeld p (with_balance b a)) (sym (bought-auth (item_named items id) after g.shop))
        (after_balance_change-IsHeld b a g.auth h).1

  -- After any gifts, codes and purchases that the panel has answered, and with room in localStorage,
  -- the session and its copy in localStorage show the balance that was reported last, and all else of
  -- the session is as before.
  pub settle_all-IsHeld :
      (cs : List Credit) (a : StoredAuth) (g : Pages)
      → IsHeld p a g.auth
      → IsHeld p (with_balance (last_balance a.user.coins cs) a) (settle_all p cs g).auth
  unfolding settle_all
  settle_all-IsHeld [] a g h = h
  settle_all-IsHeld (c ∷ cs) a g h =
      settle_all-IsHeld cs (with_balance (balance_of c) a) (settle p c g) (settle-IsHeld c a g h)
