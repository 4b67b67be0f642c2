-- ===== src/Protocol/Auth.antt =====
-- protocol/auth.go: what a client sends first on a connection.
use go_uspclient.Base.{ℕ, Bool, List, String}
use go_uspclient.Protocol.Mapping.{MappingDescriptor, IndexDescriptor}

abbrev pub current_version : ℕ
current_version = 2

pub record ConnectionHeader : Type 0 where
  pub version : ℕ
  pub oid : String
  pub installation_key : String
  pub hostname : String
  pub platform : String
  pub architecture : String
  pub mapping : MappingDescriptor
  pub mappings : List MappingDescriptor
  pub sensor_seed_key : String
  pub is_compressed : Bool
  pub data_format : String
  pub instance_id : String
  pub indexing : List IndexDescriptor
