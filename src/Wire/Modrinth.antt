-- ===== src/Wire/Modrinth.antt =====
-- web/src/types/api.ts: the Modrinth catalogue.
use sky_panel.Base.{ℕ, String, Bool, List}

pub record ModrinthHit : Type 0 where
  pub project_id : String
  pub slug : String
  pub title : String
  pub description : String
  pub author : String
  pub project_type : String
  pub downloads : ℕ
  pub follows : ℕ
  pub categories : List String
  pub versions : List String
  pub icon_url : String

pub record ModrinthSearchResult : Type 0 where
  pub hits : List ModrinthHit
  pub total_hits : ℕ

pub record ModrinthVersionFile : Type 0 where
  pub url : String
  pub filename : String
  pub primary : Bool
  pub size : ℕ

pub record ModrinthVersion : Type 0 where
  pub id : String
  pub name : String
  pub version_number : String
  pub version_type : String
  pub game_versions : List String
  pub loaders : List String
  pub files : List ModrinthVersionFile
