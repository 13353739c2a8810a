-- ===== src/Meta/Server/Handlers.antt =====
-- awex/meta/meta_server.py: the handlers of `MetaServer`. A handler changes the state after its last
-- `await`, so the requests are served one after the other.
use awex.Prelude.{◌+◌, String, Option, none, some, List, [], ◌∷◌, length, if◌then◌else◌}
use awex.Meta.Server.Dict.{Dict, get, has, put, remove, keys}
use awex.Meta.Server.State.{
  Codec, Stored, binary, object_set, MetaServer, Request, get_binary, put_binary, add_object_to_set,
  get_json, put_json, delete, health, list_keys, has_key, allocate_auto_grow_id, Response, octets,
  json_data, success, failure, healthy, key_list, key_found, new_id,
}

abbrev pub init_server : {Bytes Obj : Type 0} → MetaServer Bytes Obj
init_server = record { storage = []; id_counter = 0 }

module _ {Bytes Obj Json : Type 0} (lib : Codec Bytes Obj Json) where
  abbrev pub or_500 : Option Bytes → Response Bytes Json
  or_500 none = failure 500
  or_500 (some content) = octets content

  abbrev pub binary_response : Option (Stored Bytes Obj) → Response Bytes Json
  binary_response none = failure 404
  binary_response (some (binary content)) = octets content
  binary_response (some (object_set objs)) = or_500 (lib.to_binary (lib.set_object objs))

  -- `set.add`
  abbrev pub add_element : Obj → List Obj → List Obj
  add_element obj [] = obj ∷ []
  add_element obj (o ∷ objs) =
      let rest = add_element obj objs in if lib.same o obj then o ∷ objs else o ∷ rest

  -- `self.storage[key].add(obj)`: bytes have no `add`, and a set takes hashable objects only.
  abbrev pub add_to :
      String
      → Obj
      → Dict (Stored Bytes Obj)
      → Option (Stored Bytes Obj)
      → Option (Dict (Stored Bytes Obj))
  add_to key obj storage (some (object_set objs)) =
      if lib.hashable obj then some (put key (object_set (add_element obj objs)) storage) else none
  add_to key obj storage _ = none

  -- `if key not in self.storage: self.storage[key] = set()`
  abbrev pub with_set : String → Dict (Stored Bytes Obj) → Dict (Stored Bytes Obj)
  with_set key storage = if has key storage then storage else put key (object_set []) storage

  -- The empty set stays where the object cannot be added to it.
  abbrev pub added :
      MetaServer Bytes Obj
      → Dict (Stored Bytes Obj)
      → Option (Dict (Stored Bytes Obj))
      → MetaServer Bytes Obj × Response Bytes Json
  added server storage none = (record server { storage = storage }, failure 500)
  added server storage (some more) = (record server { storage = more }, success)

  abbrev pub add_object :
      MetaServer Bytes Obj → String → Option Obj → MetaServer Bytes Obj × Response Bytes Json
  add_object server key none = (server, failure 500)
  add_object server key (some obj) =
      let storage = with_set key server.storage in
      added server storage (add_to key obj storage (get key storage))

  abbrev pub parsed : Option Json → Response Bytes Json
  parsed none = failure 500
  parsed (some json) = json_data json

  -- A set has no `decode`.
  abbrev pub json_response : Option (Stored Bytes Obj) → Response Bytes Json
  json_response none = failure 404
  json_response (some (binary content)) = parsed (lib.parse_json content)
  json_response (some (object_set objs)) = failure 500

  abbrev pub store_json :
      MetaServer Bytes Obj → String → Option Json → MetaServer Bytes Obj × Response Bytes Json
  store_json server key none = (server, failure 500)
  store_json server key (some json) =
      (record server { storage = put key (binary (lib.dump_json json)) server.storage }, success)

  unfoldable pub handle :
      MetaServer Bytes Obj → Request Bytes → MetaServer Bytes Obj × Response Bytes Json
  handle server (get_binary key) = (server, binary_response (get key server.storage))
  handle server (put_binary key content) =
      (record server { storage = put key (binary content) server.storage }, success)
  handle server (add_object_to_set key content) = add_object server key (lib.from_binary content)
  handle server (get_json key) = (server, json_response (get key server.storage))
  handle server (put_json key content) = store_json server key (lib.parse_json content)
  handle server (delete key) =
      if has key server.storage
      then (record server { storage = remove key server.storage }, success)
      else (server, failure 404)
  handle server health = (server, healthy (length server.storage))
  handle server list_keys = (server, key_list (keys server.storage))
  handle server (has_key key) = (server, key_found (has key server.storage))
  handle server allocate_auto_grow_id =
      (record server { id_counter = server.id_counter + 1 }, new_id server.id_counter)

  -- The requests of all clients in the order in which they are served.
  unfoldable pub serve :
      MetaServer Bytes Obj
      → List (Request Bytes)
      → MetaServer Bytes Obj × List (Response Bytes Json)
  serve server [] = (server, [])
  serve server (request ∷ requests) =
      let (next, response) = handle server request in
      let (last, responses) = serve next requests in (last, response ∷ responses)
