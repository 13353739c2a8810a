-- ===== src/Meta/Server/Client.antt =====
-- awex/meta/meta_server.py: the calls of `MetaServerClient` without a timeout, each around one
-- request. The connection with its retries is left out.
use awex.Prelude.{ℕ, String, Option, none, some, ◌==◌, if◌then◌else◌}
use awex.Prelude.Outcome.{Outcome, ok, err, ◌>>=◌, or_raise}
use awex.Meta.Server.State.{
  Codec, MetaServer, Request, get_binary, put_binary, add_object_to_set, delete, Response, octets,
  failure, success,
}
use awex.Meta.Server.Handlers.{handle}

-- The `ValueError` of a missing key, the `HTTPError` of `raise_for_status`, what pickling raises, and
-- a body of another kind than the route returns, which does not occur.
pub data ClientError : Type 0 where
  key_not_found : ClientError
  http_error : ℕ → ClientError
  pickle_error : ClientError
  other_body : ClientError

module _ {Bytes Obj Json : Type 0} (lib : Codec Bytes Obj Json) where
  abbrev pub binary_of : Response Bytes Json → Outcome ClientError Bytes
  binary_of (octets content) = ok content
  binary_of (failure status) = err (if status == 404 then key_not_found else http_error status)
  binary_of _ = err other_body

  unfoldable pub client_get_binary : MetaServer Bytes Obj → String → Outcome ClientError Bytes
  client_get_binary server key = binary_of (handle lib server (get_binary key)).1

  abbrev pub object_of : Option Obj → Response Bytes Json → Outcome ClientError (Option Obj)
  object_of default_value (octets content) = do
    obj ← or_raise (lib.from_binary content) pickle_error
    ok (some obj)
  object_of default_value (failure status) =
      if status == 404 then ok default_value else err (http_error status)
  object_of default_value _ = err other_body

  unfoldable pub get_object :
      MetaServer Bytes Obj → String → Option Obj → Outcome ClientError (Option Obj)
  get_object server key default_value =
      object_of default_value (handle lib server (get_binary key)).1

  abbrev pub checked : Response Bytes Json → Outcome ClientError (Unit {0})
  checked success = ok tt
  checked (failure status) = err (http_error status)
  checked _ = err other_body

  abbrev pub checked_result :
      MetaServer Bytes Obj × Response Bytes Json
      → MetaServer Bytes Obj × Outcome ClientError (Unit {0})
  checked_result (server, response) = (server, checked response)

  -- The request is made after the object is pickled.
  abbrev pub send_object :
      MetaServer Bytes Obj
      → (Bytes → Request Bytes)
      → Option Bytes
      → MetaServer Bytes Obj × Outcome ClientError (Unit {0})
  send_object server request none = (server, err pickle_error)
  send_object server request (some content) = checked_result (handle lib server (request content))

  unfoldable pub put_object :
      MetaServer Bytes Obj → String → Obj → MetaServer Bytes Obj × Outcome ClientError (Unit {0})
  put_object server key obj = send_object server (put_binary key) (lib.to_binary obj)

  unfoldable pub client_add_object_to_set :
      MetaServer Bytes Obj → String → Obj → MetaServer Bytes Obj × Outcome ClientError (Unit {0})
  client_add_object_to_set server key obj =
      send_object server (add_object_to_set key) (lib.to_binary obj)

  unfoldable pub client_delete :
      MetaServer Bytes Obj → String → MetaServer Bytes Obj × Outcome ClientError (Unit {0})
  client_delete server key = checked_result (handle lib server (delete key))

  -- `except Exception: pass`
  unfoldable pub delete_if_exists : MetaServer Bytes Obj → String → MetaServer Bytes Obj
  delete_if_exists server key = (client_delete server key).0
