-- ===== src/Endpoints/Access.antt =====
-- Which calls of web/src/lib/endpoints.ts carry the access token, and which a body.
use sky_panel.Base.{
  ◌≡◌, refl, ap, ◌∙◌, arith, String, Option, some, none, Bool, true, false, not, ◌&&◌, ◌||◌, str_eq,
  is_some, nonempty, lookup, if◌then◌else◌, List,
}
use sky_panel.Api.{Call, Response, Request, do_fetch, bearer, conclude}
use sky_panel.Api.Client.{Refresher, asked, settled, answer}
use sky_panel.Api.Headers.{do_fetch-headers}
use sky_panel.Endpoints.Options.{Encoding}
use sky_panel.Endpoints.Account.{AccountApi}
use sky_panel.Endpoints.Account
use sky_panel.Endpoints.Schedules.{SchedulesApi}
use sky_panel.Endpoints.Schedules
use sky_panel.Endpoints.Open.{OpenApi}
use sky_panel.Endpoints.Open
use sky_panel.Endpoints.Modrinth.{ModrinthApi}
use sky_panel.Endpoints.Modrinth
use sky_panel.Endpoints.Auth.{AuthApi}
use sky_panel.Endpoints.Auth
use sky_panel.Endpoints.Servers.{ServersApi}
use sky_panel.Endpoints.Servers
use sky_panel.Endpoints.Backups.{BackupsApi}
use sky_panel.Endpoints.Backups
use sky_panel.Endpoints.Databases.{DatabasesApi}
use sky_panel.Endpoints.Databases
use sky_panel.Endpoints.Subusers.{SubusersApi}
use sky_panel.Endpoints.Subusers
use sky_panel.Endpoints.Files.{FilesApi}
use sky_panel.Endpoints.Files
use sky_panel.Endpoints.Shop.{ShopApi}
use sky_panel.Endpoints.Shop
use sky_panel.Endpoints.Admin.{AdminApi}
use sky_panel.Endpoints.Admin

-- A call of one of the API objects.
pub data Endpoint : Type 0 where
  account_api : AccountApi → Endpoint
  schedules_api : SchedulesApi → Endpoint
  open_api : OpenApi → Endpoint
  modrinth_api : ModrinthApi → Endpoint
  auth_api : AuthApi → Endpoint
  servers_api : ServersApi → Endpoint
  backups_api : BackupsApi → Endpoint
  databases_api : DatabasesApi → Endpoint
  subusers_api : SubusersApi → Endpoint
  files_api : FilesApi → Endpoint
  shop_api : ShopApi → Endpoint
  admin_api : AdminApi → Endpoint

unfoldable pub call_of : Encoding → Endpoint → Call
call_of u (account_api a) = sky_panel.Endpoints.Account.call u a
call_of u (schedules_api a) = sky_panel.Endpoints.Schedules.call a
call_of u (open_api a) = sky_panel.Endpoints.Open.call a
call_of u (modrinth_api a) = sky_panel.Endpoints.Modrinth.call u a
call_of u (auth_api a) = sky_panel.Endpoints.Auth.call a
call_of u (servers_api a) = sky_panel.Endpoints.Servers.call a
call_of u (backups_api a) = sky_panel.Endpoints.Backups.call u a
call_of u (databases_api a) = sky_panel.Endpoints.Databases.call a
call_of u (subusers_api a) = sky_panel.Endpoints.Subusers.call a
call_of u (files_api a) = sky_panel.Endpoints.Files.call u a
call_of u (shop_api a) = sky_panel.Endpoints.Shop.call a
call_of u (admin_api a) = sky_panel.Endpoints.Admin.call a

-- The calls with `auth: false`: the public ones, and those that start or end a session.
unfoldable pub is_open : Endpoint → Bool
is_open (open_api OpenApi.leaderboard) = false
is_open (open_api _) = true
is_open (auth_api (AuthApi.register _ _ _)) = true
is_open (auth_api (AuthApi.login _ _ _)) = true
is_open (auth_api (AuthApi.logout _)) = true
is_open (auth_api AuthApi.registration_status) = true
is_open _ = false

call_lem :
    (u : Encoding) (e : Endpoint)
    → let c = call_of u e in
      (c.auth ≡ not (is_open e))
      × ((is_some c.body && (str_eq c.method "GET" || str_eq c.method "DELETE")) ≡ false)
unfolding call_of is_open sky_panel.Endpoints.Account.call sky_panel.Endpoints.Schedules.call
    sky_panel.Endpoints.Open.call sky_panel.Endpoints.Modrinth.call sky_panel.Endpoints.Auth.call
    sky_panel.Endpoints.Servers.call sky_panel.Endpoints.Backups.call
    sky_panel.Endpoints.Databases.call sky_panel.Endpoints.Subusers.call
    sky_panel.Endpoints.Files.call sky_panel.Endpoints.Shop.call sky_panel.Endpoints.Admin.call
call_lem u (account_api (AccountApi.change_password _ _)) = (refl, refl)
call_lem u (account_api _) = (refl, refl)
call_lem u (schedules_api (SchedulesApi.list _)) = (refl, refl)
call_lem u (schedules_api _) = (refl, refl)
call_lem u (open_api OpenApi.leaderboard) = (refl, refl)
call_lem u (open_api _) = (refl, refl)
call_lem u (modrinth_api (ModrinthApi.search _ _ _ _ _)) = (refl, refl)
call_lem u (modrinth_api _) = (refl, refl)
call_lem u (auth_api (AuthApi.register _ _ _)) = (refl, refl)
call_lem u (auth_api _) = (refl, refl)
call_lem u (servers_api ServersApi.list) = (refl, refl)
call_lem u (servers_api _) = (refl, refl)
call_lem u (backups_api (BackupsApi.list _)) = (refl, refl)
call_lem u (backups_api _) = (refl, refl)
call_lem u (databases_api (DatabasesApi.list _)) = (refl, refl)
call_lem u (databases_api _) = (refl, refl)
call_lem u (subusers_api (SubusersApi.list _)) = (refl, refl)
call_lem u (subusers_api _) = (refl, refl)
call_lem u (files_api (FilesApi.list _ _)) = (refl, refl)
call_lem u (files_api _) = (refl, refl)
call_lem u (shop_api ShopApi.eggs) = (refl, refl)
call_lem u (shop_api _) = (refl, refl)
call_lem u (admin_api AdminApi.list_users) = (refl, refl)
call_lem u (admin_api _) = (refl, refl)

-- No GET or DELETE call has a body: `fetch` throws at a GET that has one.
pub call_of-body :
    (u : Encoding) (e : Endpoint)
    → let c = call_of u e in
      (is_some c.body && (str_eq c.method "GET" || str_eq c.method "DELETE")) ≡ false
call_of-body u e = (call_lem u e).1

if_not : {A : Type 0} (x y : A) (b : Bool) → (if not b then y else x) ≡ (if b then x else y)
if_not x y true = refl
if_not x y false = refl

module _ (base token : String) (c : Call) where
  header_of :
      nonempty token ≡ true
      → lookup "Authorization" (do_fetch base c (some token)).headers
        ≡ (if c.auth then some (bearer token) else none)
  header_of h = ground (arith, (do_fetch-headers base c (some token)).0)

answer_open :
    (c : Call) (refresh : Option String) (r : Response) (f : Refresher) (sent : List Request)
    → c.auth ≡ false
    → answer refresh r (record { call = c; phase = asked; sent = sent }) f
      ≡ (record { call = c; phase = settled (conclude r); sent = sent }, f)
unfolding answer
answer_open c refresh r f sent e = ground arith

-- With a token at hand, a request carries it exactly when its call is not one of the open calls.
call_of-header :
    (u : Encoding) (e : Endpoint) (base token : String)
    → nonempty token ≡ true
    → lookup "Authorization" (do_fetch base (call_of u e) (some token)).headers
      ≡ (if is_open e then none else some (bearer token))
call_of-header u e base token h =
    header_of base token (call_of u e) h
    ∙ ap (λ a. if a then some (bearer token) else none) (call_lem u e).0
    ∙ if_not none (some (bearer token)) (is_open e)

-- No response to an open call, a 401 included, starts or joins a refresh: the call settles with it.
pub open_calls :
    (u : Encoding) (e : Endpoint) (refresh : Option String) (r : Response) (f : Refresher)
    (sent : List Request)
    → is_open e ≡ true
    → answer refresh r (record { call = call_of u e; phase = asked; sent = sent }) f
      ≡ (record { call = call_of u e; phase = settled (conclude r); sent = sent }, f)
open_calls u e refresh r f sent o =
    answer_open (call_of u e) refresh r f sent ((call_lem u e).0 ∙ ap not o)
