-- ===== src/Wallet.antt =====
-- web/src/pages/WalletPage.tsx and web/src/pages/StorePage.tsx: what changes the balance of coins,
-- with the session store that shows it.
pub mod Balance
use Prim.Native.String
use sky_panel.Base.{
  ℕ, zero, suc, ltb, ◌==◌, String, Option, none, some, Bool, true, false, ◌&&◌, List, [], ◌∷◌,
  find?, nonempty, str_eq, if◌then◌else◌, ◌≡◌, refl,
}
use sky_panel.Base.Int.{ℤ, pos, negsuc}
use sky_panel.Base.Decimal.{show}
use sky_panel.Base.Json.{Json, str}
use sky_panel.Wire.Account.{User}
use sky_panel.Wire.Economy.{CoinResult, StoreItem, StoreDimension}
use sky_panel.Api.{Failure, api, other, message_or}
use sky_panel.Auth.{Platform, State, Outcome, returned, threw, update_user}
use sky_panel.Endpoints.Shop.{ShopApi}

pub record Note : Type 0 where
  pub text : Json
  pub ok : Bool

abbrev with_coins : ℤ → User → User
with_coins balance u = record u { coins = balance }

-- `const cur = useAuthStore.getState().user; if (cur) updateUser({ ...cur, coins: balance })`
abbrev pub credited_user : Platform → ℤ → Option User → State → Outcome × State
credited_user p balance none s = (returned, s)
credited_user p balance (some u) s = update_user p (with_coins balance u) s

unfoldable pub after_balance_change : Platform → ℤ → State → Outcome × State
after_balance_change p balance s = credited_user p balance s.user s

-- The wallet's state
pub record Wallet : Type 0 where
  pub gift_to : String
  pub gift_amount : String
  pub code : String
  pub note : Option Note

abbrev followed : String → String → String
followed a b = String.◌++◌ a b

abbrev has_code : String → Failure → Bool
has_code code (api e) = elim e.code [ str c ↦ str_eq c code | _ ↦ false ]
has_code code other = false

abbrev is_positive : Option ℤ → Bool
is_positive (some (pos (suc n))) = true
is_positive _ = false

abbrev or_zero : Option ℤ → ℤ
or_zero none = pos 0
or_zero (some n) = n

-- `trim` is that of strings; `number` is `Number`, with none for NaN.
module _ (trim : String → String) (number : String → Option ℤ) where
  -- The submission of the gift: the note is taken away, and a call is sent if the form is filled.
  unfoldable pub submit_gift : Wallet → Wallet × Option ShopApi
  submit_gift w = (
    record w { note = none },
    if nonempty (trim w.gift_to) && is_positive (number w.gift_amount)
        then some (ShopApi.gift (trim w.gift_to) (or_zero (number w.gift_amount)))
        else none,
  )

  unfoldable pub submit_code : Wallet → Wallet × Option ShopApi
  submit_code w = (
    record w { note = none },
    if nonempty (trim w.code) then some (ShopApi.redeem (trim w.code)) else none,
  )

-- `onSuccess` of `gift`; where `updateUser` throws, `onError` has the exception.
abbrev pub gift_noted : Outcome × State → Wallet → Wallet × State
gift_noted (returned, s) w = (
  record w {
    gift_to = "";
    gift_amount = "";
    note = some (record { text = str "Coins sent."; ok = true });
  },
  s,
)
gift_noted (threw, s) w =
    (record w { note = some (record { text = str "Failed to send coins."; ok = false }) }, s)

unfoldable pub gift_sent : Platform → (balance : ℤ) → Wallet → State → Wallet × State
unfolding after_balance_change
gift_sent p balance w s = gift_noted (after_balance_change p balance s) w

abbrev gift_error : Failure → Json
gift_error e =
    if has_code "not_found" e
    then str "No user with that username."
    else if has_code "insufficient_balance" e
    then str "You don't have enough coins."
    else message_or "Failed to send coins." e

unfoldable pub gift_refused : Failure → Wallet → Wallet
gift_refused e w = record w { note = some (record { text = gift_error e; ok = false }) }

abbrev show_int : ℤ → String
show_int (pos n) = show n
show_int (negsuc n) = followed "-" (show (suc n))

abbrev pub code_noted : ℤ → Outcome × State → Wallet → Wallet × State
code_noted credited (returned, s) w = (
  record w {
    code = "";
    note = some (record {
      text = str (followed "Redeemed — +" (followed (show_int credited) " coins."));
      ok = true;
    });
  },
  s,
)
code_noted credited (threw, s) w =
    (record w { note = some (record { text = str "Failed to redeem code."; ok = false }) }, s)

unfoldable pub code_redeemed : Platform → CoinResult → Wallet → State → Wallet × State
unfolding after_balance_change
code_redeemed p r w s = code_noted r.credited (after_balance_change p r.balance s) w

unfoldable pub code_refused : Failure → Wallet → Wallet
code_refused e w = record w {
  note = some (record { text = message_or "Failed to redeem code." e; ok = false });
}

-- The store's state
pub record Shop : Type 0 where
  pub pending_id : Option String
  pub message : Option Note

-- `onBuy` with `onMutate`
unfoldable pub buy : String → Shop → Shop × ShopApi
buy id shop = (record { pending_id = some id; message = none }, ShopApi.purchase id)

abbrev name_of : Option StoreItem → String
name_of none = "upgrade"
name_of (some i) = i.name

abbrev pub item_named : Option (List StoreItem) → String → String
item_named none id = "upgrade"
item_named (some items) id = name_of (find? (λ (i : StoreItem). str_eq i.id id) items)

-- `onSuccess` and `onSettled`
abbrev pub bought : String → Outcome × State → Shop → Shop × State
bought name (returned, s) shop = (
  record {
    pending_id = none;
    message = some (record {
      text = str (followed "Purchased " (followed name " — quota raised."));
      ok = true;
    });
  },
  s,
)
bought name (threw, s) shop = (
  record {
    pending_id = none;
    message = some (record { text = str "Purchase failed."; ok = false });
  },
  s,
)

unfoldable pub purchased :
    Platform → Option (List StoreItem) → String → (balance : ℤ) → Shop → State → Shop × State
unfolding after_balance_change
purchased p items id balance shop s =
    bought (item_named items id) (after_balance_change p balance s) shop

unfoldable pub purchase_refused : Failure → Shop → Shop
purchase_refused e shop = record {
  pending_id = none;
  message = some (record {
    text = str (
        if has_code "insufficient_balance" e
        then "Not enough coins for that yet — earn more on the AFK page."
        else "Purchase failed.");
    ok = false;
  });
}

-- `amountLabel`, given `formatBytes`
unfoldable pub amount_label : (format_bytes : ℕ → String) → StoreItem → String
amount_label format_bytes i = elim i.dimension [
  | StoreDimension.cpu ↦ followed "+" (followed (show i.amount) "% CPU")
  | StoreDimension.databases ↦
      followed "+" (followed (show i.amount) (if i.amount == 1 then " DB" else " DBs"))
  | _ ↦ followed "+" (format_bytes i.amount)
]
