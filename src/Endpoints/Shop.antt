-- ===== src/Endpoints/Shop.antt =====
-- web/src/lib/endpoints.ts: eggsApi, nodesApi, coinsApi, quotaApi and storeApi.
use sky_panel.Base.{String, some, [], ◌∷◌}
use sky_panel.Base.Int.{ℤ}
use sky_panel.Base.Json.{str, num}
use sky_panel.Api.{Call}
use sky_panel.Endpoints.Options.{bare, with_body}

pub data ShopApi : Type 0 where
  eggs : ShopApi
  nodes : ShopApi
  wallet : ShopApi
  heartbeat : String → ShopApi
  claim_daily : ShopApi
  gift : String → ℤ → ShopApi
  redeem : String → ShopApi
  quota : ShopApi
  store_items : ShopApi
  purchase : String → ShopApi

unfoldable pub call : ShopApi → Call
call eggs = bare "GET" "/api/v1/eggs"
call nodes = bare "GET" "/api/v1/nodes"
call wallet = bare "GET" "/api/v1/wallet"
call (heartbeat session_id) =
    with_body "POST" "/api/v1/afk/heartbeat" (("session_id", some (str session_id)) ∷ [])
call claim_daily = bare "POST" "/api/v1/daily-reward/claim"
call (gift username amount) =
    with_body "POST" "/api/v1/coins/gift"
      (("username", some (str username)) ∷ ("amount", some (num amount)) ∷ [])
call (redeem code) = with_body "POST" "/api/v1/coins/redeem" (("code", some (str code)) ∷ [])
call quota = bare "GET" "/api/v1/me/quota"
call store_items = bare "GET" "/api/v1/store"
call (purchase item_id) =
    with_body "POST" "/api/v1/store/purchase" (("item_id", some (str item_id)) ∷ [])
