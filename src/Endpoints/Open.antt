-- ===== src/Endpoints/Open.antt =====
-- web/src/lib/endpoints.ts: publicApi, with leaderboardApi.
use sky_panel.Base.{String, [], ◌∷◌}
use sky_panel.Api.{Call}
use sky_panel.Endpoints.Options.{path_of, bare, without_auth}

pub data OpenApi : Type 0 where
  leaderboard : OpenApi
  appearance : OpenApi
  maintenance : OpenApi
  server_status : String → OpenApi

unfoldable pub call : OpenApi → Call
call leaderboard = bare "GET" "/api/v1/leaderboard"
call appearance = without_auth (bare "GET" "/api/v1/public/appearance")
call maintenance = without_auth (bare "GET" "/api/v1/public/maintenance")
call (server_status id) = without_auth (bare "GET" (path_of ("/api/v1/public/status/" ∷ id ∷ [])))
