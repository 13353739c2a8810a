-- ===== src/Meta/Server/Storage.antt =====
-- awex/meta/meta_server.py: the storage seen key by key. Each key is a register of its own: what it
-- holds after a request follows from the request and from what it held before.
use text.Mathlib.Text.{◌==◌ as str_eq}
use text.Mathlib.TextEquality.{eq_iff}
use text.Mathlib.TextPositions.{eq_refl}
use awex.Prelude.{
  ◌≡◌, refl, ◌∙◌, ap, String, true, Option, none, some, List, [], ◌∷◌, if◌then◌else◌, Bool-cases,
  inl, inr, arith,
}
use awex.Meta.Server.Dict.{
  Dict, IsDict, get, has, put, get-put, get-has, get-remove, put-IsDict, remove-IsDict,
}
use awex.Meta.Server.State.{
  Codec, Stored, binary, object_set, MetaServer, Request, get_binary, put_binary, add_object_to_set,
  get_json, put_json, delete, health, list_keys, has_key, allocate_auto_grow_id,
}
use awex.Meta.Server.Handlers.{add_element, add_to, added, add_object, store_json, handle, serve}

module _ {Bytes Obj Json : Type 0} (lib : Codec Bytes Obj Json) where
  abbrev Entry : Type 0
  Entry = Option (Stored Bytes Obj)

  -- A set with one object more. Bytes stay as they are, and so does a set that cannot take the
  -- object, which is made where there was nothing.
  abbrev pub entry_with : Obj → Option (Stored Bytes Obj) → Option (Stored Bytes Obj)
  entry_with obj none = some (object_set (if lib.hashable obj then obj ∷ [] else []))
  entry_with obj (some (binary content)) = some (binary content)
  entry_with obj (some (object_set objs)) =
      some (object_set (if lib.hashable obj then add_element lib obj objs else objs))

  abbrev pub entry_added : Option Obj → Option (Stored Bytes Obj) → Option (Stored Bytes Obj)
  entry_added none entry = entry
  entry_added (some obj) entry = entry_with obj entry

  abbrev pub entry_parsed : Option Json → Option (Stored Bytes Obj) → Option (Stored Bytes Obj)
  entry_parsed none entry = entry
  entry_parsed (some json) entry = some (binary (lib.dump_json json))

  -- What the key holds after a request.
  abbrev pub entry_after :
      String → Request Bytes → Option (Stored Bytes Obj) → Option (Stored Bytes Obj)
  entry_after key (put_binary k content) entry =
      if str_eq k key then some (binary content) else entry
  entry_after key (add_object_to_set k content) entry =
      if str_eq k key then entry_added (lib.from_binary content) entry else entry
  entry_after key (put_json k content) entry =
      if str_eq k key then entry_parsed (lib.parse_json content) entry else entry
  entry_after key (delete k) entry = if str_eq k key then none else entry
  entry_after key _ entry = entry

  abbrev pub entry_after_all :
      String → List (Request Bytes) → Option (Stored Bytes Obj) → Option (Stored Bytes Obj)
  entry_after_all key [] entry = entry
  entry_after_all key (request ∷ requests) entry =
      entry_after_all key requests (entry_after key request entry)

  -- What a new storage holds under a key.
  pub record Refines (key : String) (entry : Option (Stored Bytes Obj))
      (new : Dict (Stored Bytes Obj)) : Type 0 where
    pub is_dict : IsDict new
    pub holds : get key new ≡ entry

  has-get :
      (key : String) (dict : Dict (Stored Bytes Obj))
      → has key dict ≡ true
      → (v : Stored Bytes Obj) × (get key dict ≡ some v)
  has-get key [] h = cc
  has-get key ((k, v) ∷ dict) h = elim (Bool-cases (str_eq k key)) [
    | inl same ↦ (v, rw same)
    | inr other ↦ let (w, e) = has-get key dict (rw other at h) in (w, rw (other, e))
  ]

  put-Refines :
      (k key : String) (v : Stored Bytes Obj) (old : Dict (Stored Bytes Obj))
      → IsDict old
      → Refines key (if str_eq k key then some v else get key old) (put k v old)
  put-Refines k key v old d = record { is_dict = put-IsDict k v old d; holds = get-put k key v old }

  -- What the key holds, where `k` held `v` and the key of the request now holds `w`.
  other_key :
      (k key : String) (obj : Obj) (v : Stored Bytes Obj) (old : Dict (Stored Bytes Obj))
      → get k old ≡ some v
      → (if str_eq k key then entry_with obj (some v) else get key old)
        ≡ (if str_eq k key then entry_with obj (get key old) else get key old)
  other_key k key obj v old e = elim (Bool-cases (str_eq k key)) [
    | inl same ↦
        let there : get key old ≡ some v = rw (← (eq_iff k key).0 same) e in rw (same, there)
    | inr other ↦ rw other
  ]

  unchanged :
      (k key : String) (v : Stored Bytes Obj) (old : Dict (Stored Bytes Obj))
      → get k old ≡ some v
      → get key old ≡ (if str_eq k key then some v else get key old)
  unchanged k key v old e = elim (Bool-cases (str_eq k key)) [
    | inl same ↦ rw same (rw (← (eq_iff k key).0 same) e)
    | inr other ↦ rw other
  ]

  added_to_old :
      (server : MetaServer Bytes Obj) (k key : String) (obj : Obj) (v : Stored Bytes Obj)
      → IsDict server.storage
      → get k server.storage ≡ some v
      → Refines key
          (if str_eq k key then entry_with obj (some v) else get key server.storage)
          (added lib server server.storage (add_to lib k obj server.storage (some v))).0.storage
  added_to_old server k key obj (binary content) d e = record {
    is_dict = d;
    holds = unchanged k key (binary content) server.storage e;
  }
  added_to_old server k key obj (object_set objs) d e = elim (Bool-cases (lib.hashable obj)) [
    | inl fits ↦
        rw fits (put-Refines k key (object_set (add_element lib obj objs)) server.storage d)
    | inr unfit ↦
        rw unfit
          (record { is_dict = d; holds = unchanged k key (object_set objs) server.storage e })
  ]

  made_first :
      (k key : String) (obj : Obj) (old : Dict (Stored Bytes Obj))
      → get k old ≡ none
      → (if str_eq k key
          then entry_with obj (some (object_set []))
          else get key (put k (object_set []) old))
        ≡ (if str_eq k key then entry_with obj (get key old) else get key old)
  made_first k key obj old e = elim (Bool-cases (str_eq k key)) [
    | inl same ↦ let there : get key old ≡ none = rw (← (eq_iff k key).0 same) e in rw (same, there)
    | inr other ↦ rw (other, get-put k key (object_set []) old, other)
  ]

  add_object-Refines :
      (server : MetaServer Bytes Obj) (k key : String) (o : Option Obj)
      → IsDict server.storage
      → Refines key
          (if str_eq k key then entry_added o (get key server.storage) else get key server.storage)
          (add_object lib server k o).0.storage
  add_object-Refines server k key none d = record { is_dict = d; holds = ground arith }
  add_object-Refines server k key (some obj) d = elim (Bool-cases (has k server.storage)) [
    | inl there ↦
        let (v, e) = has-get k server.storage there in
        rw (there, e, ← other_key k key obj v server.storage e)
          (added_to_old server k key obj v d e)
    | inr missing ↦
        let made = put k (object_set []) server.storage in
        let none_yet = get-has k server.storage missing in
        let holds_set : get k made ≡ some (object_set []) =
          get-put k k (object_set []) server.storage ∙ rw (eq_refl k) refl in
        rw (missing, holds_set, ← made_first k key obj server.storage none_yet)
          (added_to_old (record server { storage = made }) k key obj (object_set [])
            (put-IsDict k (object_set []) server.storage d) holds_set)
  ]

  store_json-Refines :
      (server : MetaServer Bytes Obj) (k key : String) (o : Option Json)
      → IsDict server.storage
      → Refines key
          (if str_eq k key then entry_parsed o (get key server.storage) else get key server.storage)
          (store_json lib server k o).0.storage
  store_json-Refines server k key none d = record { is_dict = d; holds = ground arith }
  store_json-Refines server k key (some json) d =
      put-Refines k key (binary (lib.dump_json json)) server.storage d

  delete-Refines :
      (server : MetaServer Bytes Obj) (k key : String)
      → IsDict server.storage
      → Refines key
          (if str_eq k key then none else get key server.storage)
          (handle lib server (delete k)).0.storage
  unfolding handle
  delete-Refines server k key d = elim (Bool-cases (has k server.storage)) [
    | inl there ↦ rw there (record {
      is_dict = remove-IsDict k server.storage d;
      holds = get-remove k key server.storage d;
    })
    | inr missing ↦
        let none_yet = get-has k server.storage missing in
        rw missing (record { is_dict = d; holds = ground (arith, none_yet, eq_iff k key) })
  ]

  -- After a request the keys are still all different, and every key holds what follows from the
  -- request and from what it held before.
  pub handle-Refines :
      (server : MetaServer Bytes Obj) (request : Request Bytes) (key : String)
      → IsDict server.storage
      → Refines key
          (entry_after key request (get key server.storage))
          (handle lib server request).0.storage
  unfolding handle
  handle-Refines server (get_binary k) key d = record { is_dict = d; holds = refl }
  handle-Refines server (put_binary k content) key d =
      put-Refines k key (binary content) server.storage d
  handle-Refines server (add_object_to_set k content) key d =
      add_object-Refines server k key (lib.from_binary content) d
  handle-Refines server (get_json k) key d = record { is_dict = d; holds = refl }
  handle-Refines server (put_json k content) key d =
      store_json-Refines server k key (lib.parse_json content) d
  handle-Refines server (delete k) key d = delete-Refines server k key d
  handle-Refines server health key d = record { is_dict = d; holds = refl }
  handle-Refines server list_keys key d = record { is_dict = d; holds = refl }
  handle-Refines server (has_key k) key d = record { is_dict = d; holds = refl }
  handle-Refines server allocate_auto_grow_id key d = record { is_dict = d; holds = refl }

  -- After any requests of any clients the keys of the storage are all different, and each key holds
  -- what its own requests, in their order, have made of what it held before.
  pub serve-Refines :
      (server : MetaServer Bytes Obj) (requests : List (Request Bytes)) (key : String)
      → IsDict server.storage
      → IsDict (serve lib server requests).0.storage
        × (get key (serve lib server requests).0.storage
            ≡ entry_after_all key requests (get key server.storage))
  unfolding serve
  serve-Refines server [] key d = (d, refl)
  serve-Refines server (request ∷ requests) key d =
      let step = handle-Refines server request key d in
      let (last, holds) = serve-Refines (handle lib server request).0 requests key step.is_dict in
      (last, holds ∙ ap (entry_after_all key requests) step.holds)
