-- ===== src/Meta/Server/Ids.antt =====
-- awex/meta/meta_server.py: `allocate_auto_grow_id`, with any other requests in between.
use awex.Prelude.{
  String, Option, none, some, Bool-cases, inl, inr, ℕ, zero, suc, ◌+◌, ◌≡◌, refl, ap, ◌∙◌, List, [],
  ◌∷◌, ◌++◌, arith,
}
use awex.Prelude.Range.{range_from}
use awex.Meta.Server.Dict.{Dict, get, has}
use awex.Meta.Server.State.{
  Codec, Stored, MetaServer, Request, get_binary, put_binary, add_object_to_set, get_json, put_json,
  delete, health, list_keys, has_key, allocate_auto_grow_id, Response, octets, json_data, success,
  failure, healthy, key_list, key_found, new_id, binary, object_set,
}
use awex.Meta.Server.Handlers.{
  or_500, binary_response, json_response, parsed, add_to, with_set, added, add_object, store_json,
  handle, serve,
}

abbrev pub counts : {Bytes : Type 0} → Request Bytes → ℕ
counts allocate_auto_grow_id = 1
counts _ = 0

abbrev pub allocations : {Bytes : Type 0} → List (Request Bytes) → ℕ
allocations [] = 0
allocations (request ∷ requests) = counts request + allocations requests

abbrev pub ids : {Bytes Json : Type 0} → List (Response Bytes Json) → List ℕ
ids [] = []
ids (new_id n ∷ responses) = n ∷ ids responses
ids (_ ∷ responses) = ids responses

range_from-append :
    (m n start : ℕ)
    → range_from m start 1 ++ range_from n (start + m) 1 ≡ range_from (m + n) start 1
range_from-append zero n start =
    ap (λ s. range_from n s 1) (omega arith) ∙ ap (λ k. range_from k start 1) (omega arith)
range_from-append (suc m) n start =
    let rest = range_from-append m n (start + 1) in
    let from : start + suc m ≡ start + 1 + m = omega arith in
    let length : suc m + n ≡ suc (m + n) = omega arith in
    rw (from, length) (ap (λ ns. start ∷ ns) rest)

module _ {Bytes Obj Json : Type 0} (lib : Codec Bytes Obj Json) where
  -- What one request does to the counter, and the id that it returns.
  record Allots (server : MetaServer Bytes Obj) (request : Request Bytes)
      (result : MetaServer Bytes Obj × Response Bytes Json) : Type 0 where
    counter : result.0.id_counter ≡ server.id_counter + counts request
    given : ids (result.1 ∷ []) ≡ range_from (counts request) server.id_counter 1

  abbrev GivesNone : Response Bytes Json → Type 0
  GivesNone response = ids (response ∷ []) ≡ []

  or_500-GivesNone : (o : Option Bytes) → GivesNone (or_500 lib o)
  or_500-GivesNone none = refl
  or_500-GivesNone (some content) = refl

  binary_response-GivesNone : (o : Option (Stored Bytes Obj)) → GivesNone (binary_response lib o)
  binary_response-GivesNone none = refl
  binary_response-GivesNone (some (binary content)) = refl
  binary_response-GivesNone (some (object_set objs)) =
      or_500-GivesNone (lib.to_binary (lib.set_object objs))

  json_response-GivesNone : (o : Option (Stored Bytes Obj)) → GivesNone (json_response lib o)
  json_response-GivesNone none = refl
  json_response-GivesNone (some (binary content)) = parsed-GivesNone (lib.parse_json content)
    where
      parsed-GivesNone : (o : Option Json) → GivesNone (parsed lib o)
      parsed-GivesNone none = refl
      parsed-GivesNone (some json) = refl
  json_response-GivesNone (some (object_set objs)) = refl

  -- A result that leaves the counter alone and gives no id.
  abbrev IsQuiet : MetaServer Bytes Obj → MetaServer Bytes Obj × Response Bytes Json → Type 0
  IsQuiet server result = (result.0.id_counter ≡ server.id_counter) × GivesNone result.1

  added-IsQuiet :
      (server : MetaServer Bytes Obj) (storage : Dict (Stored Bytes Obj))
      → (o : Option (Dict (Stored Bytes Obj))) → IsQuiet server (added lib server storage o)
  added-IsQuiet server storage none = (refl, refl)
  added-IsQuiet server storage (some more) = (refl, refl)

  add_object-IsQuiet :
      (server : MetaServer Bytes Obj) (key : String) (o : Option Obj)
      → IsQuiet server (add_object lib server key o)
  add_object-IsQuiet server key none = (refl, refl)
  add_object-IsQuiet server key (some obj) =
      let storage = with_set lib key server.storage in
      added-IsQuiet server storage (add_to lib key obj storage (get key storage))

  store_json-IsQuiet :
      (server : MetaServer Bytes Obj) (key : String) (o : Option Json)
      → IsQuiet server (store_json lib server key o)
  store_json-IsQuiet server key none = (refl, refl)
  store_json-IsQuiet server key (some json) = (refl, refl)

  delete-IsQuiet :
      (server : MetaServer Bytes Obj) (key : String)
      → IsQuiet server (handle lib server (delete key))
  unfolding handle
  delete-IsQuiet server key = elim (Bool-cases (has key server.storage)) [
    | inl there ↦ rw there (refl, refl)
    | inr missing ↦ rw missing (refl, refl)
  ]

  quiet :
      (server : MetaServer Bytes Obj) (result : MetaServer Bytes Obj × Response Bytes Json)
      → IsQuiet server result
      → (result.0.id_counter ≡ server.id_counter + 0) × (ids (result.1 ∷ []) ≡ [])
  quiet server result (same, given) = (omega (arith, same), given)

  handle-Allots :
      (server : MetaServer Bytes Obj) (request : Request Bytes)
      → Allots server request (handle lib server request)
  unfolding handle
  handle-Allots server (get_binary key) = record {
    counter = omega arith;
    given = binary_response-GivesNone (get key server.storage);
  }
  handle-Allots server (put_binary key content) = record { counter = omega arith; given = refl }
  handle-Allots server (add_object_to_set key content) =
      let (c, g) =
        quiet server (add_object lib server key (lib.from_binary content))
          (add_object-IsQuiet server key (lib.from_binary content)) in
      record { counter = c; given = g }
  handle-Allots server (get_json key) = record {
    counter = omega arith;
    given = json_response-GivesNone (get key server.storage);
  }
  handle-Allots server (put_json key content) =
      let (c, g) =
        quiet server (store_json lib server key (lib.parse_json content))
          (store_json-IsQuiet server key (lib.parse_json content)) in
      record { counter = c; given = g }
  handle-Allots server (delete key) =
      let (c, g) = quiet server (handle lib server (delete key)) (delete-IsQuiet server key) in
      record { counter = c; given = g }
  handle-Allots server health = record { counter = omega arith; given = refl }
  handle-Allots server list_keys = record { counter = omega arith; given = refl }
  handle-Allots server (has_key key) = record { counter = omega arith; given = refl }
  handle-Allots server allocate_auto_grow_id = record { counter = refl; given = refl }

  ids-cons :
      (response : Response Bytes Json) (responses : List (Response Bytes Json))
      → ids (response ∷ responses) ≡ ids (response ∷ []) ++ ids responses
  ids-cons (octets content) responses = refl
  ids-cons (json_data json) responses = refl
  ids-cons success responses = refl
  ids-cons (failure status) responses = refl
  ids-cons (healthy n) responses = refl
  ids-cons (key_list ks) responses = refl
  ids-cons (key_found b) responses = refl
  ids-cons (new_id n) responses = refl

  -- The ids that are given out are the numbers from the counter on, one after the other, none twice,
  -- whatever the other requests are.
  pub serve-ids :
      (server : MetaServer Bytes Obj) (requests : List (Request Bytes))
      → ids (serve lib server requests).1 ≡ range_from (allocations requests) server.id_counter 1
  unfolding serve
  serve-ids server [] = refl
  serve-ids server (request ∷ requests) =
      let step = handle-Allots server request in
      ids-cons (handle lib server request).1 (serve lib (handle lib server request).0 requests).1
      ∙ rw (step.given, serve-ids (handle lib server request).0 requests, step.counter)
          (range_from-append (counts request) (allocations requests) server.id_counter)
