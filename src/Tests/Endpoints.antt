-- ===== src/Tests/Endpoints.antt =====
-- web/src/lib/endpoints.ts at concrete calls.
use sky_panel.Base.{◌≡◌, refl, none, false, []}
use sky_panel.Api.{Response}
use sky_panel.Api.Client.{Refresher}
use sky_panel.Endpoints.Options.{Encoding}
use sky_panel.Endpoints.Auth.{AuthApi}
use sky_panel.Endpoints.Files.{FilesApi}
use sky_panel.Endpoints.Files

abbrev plain : Encoding
plain = record { encode_uri_component = λ s. s; query_string = λ ps. "" }

read_test :
    (sky_panel.Endpoints.Files.call plain (FilesApi.read "s1" "a.txt")).path
    ≡ "/api/v1/servers/s1/files/content?path=a.txt"
unfolding sky_panel.Endpoints.Files.call
read_test = refl

abbrev logout : AuthApi
logout = AuthApi.logout "r1"

abbrev idle : Refresher
idle = record { refreshing = false; posts = [] }

abbrev denied : Response
denied = record { status = 401; json = none }
