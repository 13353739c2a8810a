-- ===== src/Meta/Server/State.antt =====
-- awex/meta/meta_server.py: the server's state, its requests and its responses.
use awex.Prelude.{ℕ, String, Bool, Option, List}
use awex.Meta.Server.Dict.{Dict}

-- What the handlers use of the other code: `to_binary` and `from_binary`, which Util/Framing models,
-- the `json` library, a Python set as an object, and the hash and the equality
-- that a set works by. A call that raises has no result.
pub record Codec (Bytes Obj Json : Type 0) : Type 0 where
  pub to_binary : Obj → Option Bytes
  pub from_binary : Bytes → Option Obj
  pub set_object : List Obj → Obj
  pub hashable : Obj → Bool
  pub same : Obj → Obj → Bool
  pub parse_json : Bytes → Option Json
  pub dump_json : Json → Bytes

-- An entry of the storage: bytes, or a set, whose elements stand in the order of their arrival.
pub data Stored (Bytes Obj : Type 0) : Type 0 where
  binary : Bytes → Stored Bytes Obj
  object_set : List Obj → Stored Bytes Obj

pub record MetaServer (Bytes Obj : Type 0) : Type 0 where
  pub storage : Dict (Stored Bytes Obj)
  pub id_counter : ℕ

-- The routes, with the key of the path and the body.
pub data Request (Bytes : Type 0) : Type 0 where
  get_binary : String → Request Bytes
  put_binary : String → Bytes → Request Bytes
  add_object_to_set : String → Bytes → Request Bytes
  get_json : String → Request Bytes
  put_json : String → Bytes → Request Bytes
  delete : String → Request Bytes
  health : Request Bytes
  list_keys : Request Bytes
  has_key : String → Request Bytes
  allocate_auto_grow_id : Request Bytes

-- The responses; the texts of messages and errors are left out.
pub data Response (Bytes Json : Type 0) : Type 0 where
  octets : Bytes → Response Bytes Json
  json_data : Json → Response Bytes Json
  success : Response Bytes Json
  failure : ℕ → Response Bytes Json
  healthy : ℕ → Response Bytes Json
  key_list : List String → Response Bytes Json
  key_found : Bool → Response Bytes Json
  new_id : ℕ → Response Bytes Json
