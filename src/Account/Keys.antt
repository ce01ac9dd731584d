-- ===== src/Account/Keys.antt =====
-- The card of the API keys of web/src/pages/AccountPage.tsx. A new key is shown once.
use sky_panel.Base.{String, Option, none, some, Bool, false, or_text}
use sky_panel.Endpoints.Account.{AccountApi}

pub record Keys : Type 0 where
  pub name : String
  pub fresh_key : Option String
  pub copied : Bool

-- `trim` is that of strings.
unfoldable pub create_call : (trim : String → String) → Keys → AccountApi
create_call trim k = AccountApi.create_api_key (or_text (trim k.name) "API key")

-- `onSuccess` of `create`
unfoldable pub created : (key : String) → Keys → Keys
created key k = record { name = ""; fresh_key = some key; copied = false }

-- "Done"
unfoldable pub hidden : Keys → Keys
hidden k = record k { fresh_key = none; copied = false }

-- The answer of `copyText`
unfoldable pub copy_answered : Bool → Keys → Keys
copy_answered ok k = record k { copied = ok }

unfoldable pub copied_timeout : Keys → Keys
copied_timeout k = record k { copied = false }
