-- ===== src/Endpoints/Modrinth.antt =====
-- web/src/lib/endpoints.ts: modrinthApi.
use sky_panel.Base.{ℕ, String, Option, none, some, List, [], ◌∷◌, ◌++◌, nonempty, if◌then◌else◌}
use sky_panel.Base.Decimal.{show}
use sky_panel.Base.Json.{str}
use sky_panel.Api.{Call}
use sky_panel.Endpoints.Options.{Encoding, path_of, bare, with_body}

-- `if (value) qs.set(key, value)`
abbrev when_set : String → Option String → List (String × String)
when_set key none = []
when_set key (some value) = if nonempty value then (key, value) ∷ [] else []

abbrev limit_text : Option ℕ → String
limit_text none = "20"
limit_text (some n) = show n

abbrev search_query :
    String → String → Option String → Option String → Option ℕ → List (String × String)
search_query q kind loader version limit =
    ("q", q) ∷ ("type", kind) ∷ ("limit", limit_text limit) ∷ when_set "loader" loader
    ++ when_set "version" version

pub data ModrinthApi : Type 0 where
  search : String → String → Option String → Option String → Option ℕ → ModrinthApi
  versions : String → Option String → Option String → ModrinthApi
  install : String → String → String → String → ModrinthApi

unfoldable pub call : Encoding → ModrinthApi → Call
unfolding show
call u (search q kind loader version limit) = bare "GET" (
    path_of
      ("/api/v1/modrinth/search?" ∷ u.query_string (search_query q kind loader version limit) ∷ []))
call u (versions project loader version) = bare "GET" (
    path_of (
      "/api/v1/modrinth/versions?"
      ∷ u.query_string
          (("project", project) ∷ when_set "loader" loader ++ when_set "version" version)
      ∷ []))
call u (install server_id download_url filename folder) =
    with_body "POST" (path_of ("/api/v1/servers/" ∷ server_id ∷ "/modrinth/install" ∷ [])) (
      ("download_url", some (str download_url))
      ∷ ("filename", some (str filename))
      ∷ ("folder", some (str folder))
      ∷ [])
