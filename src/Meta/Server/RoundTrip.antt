-- ===== src/Meta/Server/RoundTrip.antt =====
-- awex/meta/meta_server.py: what one client puts, another gets.
use text.Mathlib.Text.{◌==◌ as str_eq}
use text.Mathlib.TextPositions.{eq_refl}
use awex.Prelude.{◌≡◌, refl, ◌∙◌, ap, String, Bool, false, Option, some, List, [], ◌∷◌, All}
use awex.Prelude.Outcome.{ok}
use awex.Meta.Server.Dict.{IsDict, get}
use awex.Meta.Server.State.{
  Codec, Stored, binary, MetaServer, Request, get_binary, put_binary, add_object_to_set, get_json,
  put_json, delete, health, list_keys, has_key, allocate_auto_grow_id,
}
use awex.Meta.Server.Handlers.{binary_response, handle, serve}
use awex.Meta.Server.Storage.{entry_after, entry_after_all, handle-Refines, serve-Refines}
use awex.Meta.Server.Client.{object_of, get_object, put_object}

-- The request may change what stands under the key.
abbrev pub touches : {Bytes : Type 0} → String → Request Bytes → Bool
touches key (put_binary k content) = str_eq k key
touches key (add_object_to_set k content) = str_eq k key
touches key (put_json k content) = str_eq k key
touches key (delete k) = str_eq k key
touches key _ = false

module _ {Bytes Obj Json : Type 0} (lib : Codec Bytes Obj Json) (key : String) where
  entry_after-touches :
      (request : Request Bytes) (entry : Option (Stored Bytes Obj))
      → touches key request ≡ false
      → entry_after lib key request entry ≡ entry
  entry_after-touches (get_binary k) entry h = refl
  entry_after-touches (put_binary k content) entry h = rw h
  entry_after-touches (add_object_to_set k content) entry h = rw h
  entry_after-touches (get_json k) entry h = refl
  entry_after-touches (put_json k content) entry h = rw h
  entry_after-touches (delete k) entry h = rw h
  entry_after-touches health entry h = refl
  entry_after-touches list_keys entry h = refl
  entry_after-touches (has_key k) entry h = refl
  entry_after-touches allocate_auto_grow_id entry h = refl

  entry_after_all-touches :
      (requests : List (Request Bytes)) (entry : Option (Stored Bytes Obj))
      → All (λ request. touches key request ≡ false) requests
      → entry_after_all lib key requests entry ≡ entry
  entry_after_all-touches [] entry h = refl
  entry_after_all-touches (request ∷ requests) entry h =
      ap (entry_after_all lib key requests) (entry_after-touches request entry h.0)
      ∙ entry_after_all-touches requests entry h.1

  -- An object that can be pickled is put without an error, and whatever requests are served in
  -- between that leave the key alone, the next client gets that object.
  pub get_object-put_object :
      (server : MetaServer Bytes Obj) (obj : Obj) (content : Bytes) (default_value : Option Obj)
      → (requests : List (Request Bytes)) → IsDict server.storage
      → lib.to_binary obj ≡ some content
      → lib.from_binary content ≡ some obj
      → All (λ request. touches key request ≡ false) requests
      → ((put_object lib server key obj).1 ≡ ok tt)
        × (get_object lib (serve lib (put_object lib server key obj).0 requests).0 key default_value
            ≡ ok (some obj))
  unfolding get_object put_object handle
  get_object-put_object server obj content default_value requests d pickled unpickled others =
      let put_step = handle-Refines lib server (put_binary key content) key d in
      let (_, holds) =
        serve-Refines lib (handle lib server (put_binary key content)).0 requests key
          put_step.is_dict in
      let kept : get key
            (serve lib (handle lib server (put_binary key content)).0 requests).0.storage
          ≡ some (binary content) =
        holds
        ∙ entry_after_all-touches requests _ others
        ∙ put_step.holds
        ∙ rw (eq_refl key) refl in
      (rw pickled refl, rw pickled (read default_value _ kept))
    where
      read :
          (o : Option Obj) (entry : Option (Stored Bytes Obj))
          → entry ≡ some (binary content)
          → object_of lib o (binary_response lib entry) ≡ ok (some obj)
      read o entry e = rw (e, unpickled) refl
