-- ===== src/Wire/Nodes.antt =====
-- web/src/types/api.ts: nodes and their ports.
use sky_panel.Base.{ℕ, String, Bool, List, Option}

pub record Node : Type 0 where
  pub id : String
  pub name : String
  pub address : String
  pub docker_socket : String
  pub expires_at : String

pub record CreateNodeResult : Type 0 where
  pub base : Node
  pub open base use *
  pub node_token : String

pub record RotateNodeTokenResult : Type 0 where
  pub node_token : String
  pub expires_at : String

pub record NodeSummary : Type 0 where
  pub id : String
  pub name : String
  pub address : String
  pub connected : Bool

pub record Allocation : Type 0 where
  pub id : String
  pub port : ℕ
  pub server_id : Option String
  pub server_name : Option String

pub record ServerPort : Type 0 where
  pub id : String
  pub port : ℕ
  pub primary : Bool

-- An element of `ServerAllocations.free`.
pub record FreePort : Type 0 where
  pub id : String
  pub port : ℕ

pub record ServerAllocations : Type 0 where
  pub ports : List ServerPort
  pub free : List FreePort
