-- ===== src/Meta/Server/Tests.antt =====
-- A server with lists of numbers as objects: a pickled object is the list itself, and a set is the
-- list of all numbers of its elements.
use awex.Prelude.{
  Bool-cases, ==→eq, eq→==, inl, inr, In, ◌↔◌, ℕ, ◌≡◌, refl, ◌==◌, ◌&&◌, Bool, true, false, none,
  some, List, [], ◌∷◌, ◌++◌,
}
use awex.Prelude.Outcome.{ok, err}
use awex.Meta.Server.Dict.{IsDict, get}
use awex.Meta.Server.State.{
  Codec, object_set, MetaServer, Request, get_binary, put_binary, add_object_to_set, get_json,
  delete, allocate_auto_grow_id, octets, json_data, success, failure,
}
use awex.Meta.Server.Handlers.{init_server, handle, serve}
use awex.Meta.Server.Ids.{ids, serve-ids}
use awex.Meta.Server.Storage.{serve-Refines}
use awex.Meta.Server.Sets.{AreDistinct}
use awex.Meta.Server.Arrivals.{objects_of, serve-arrivals}
use awex.Meta.Server.Client.{client_get_binary, get_object, put_object, key_not_found}
use awex.Meta.Server.RoundTrip.{get_object-put_object}

abbrev pub Numbers : Type 0
Numbers = List ℕ

abbrev flatten : List Numbers → Numbers
flatten [] = []
flatten (ns ∷ rest) = ns ++ flatten rest

abbrev same_numbers : Numbers → Numbers → Bool
same_numbers [] [] = true
same_numbers (m ∷ ms) (n ∷ ns) = m == n && same_numbers ms ns
same_numbers _ _ = false

abbrev pub codec : Codec Numbers Numbers Numbers
codec = record {
  to_binary = λ ns. some ns;
  from_binary = λ ns. some ns;
  set_object = flatten;
  hashable = λ ns. true;
  same = same_numbers;
  parse_json = λ ns. some ns;
  dump_json = λ ns. ns;
}

abbrev pub rank : ℕ → Numbers
rank n = n ∷ []

abbrev start : MetaServer Numbers Numbers
start = init_server

-- A retried arrival at a barrier does not count twice.
two_arrivals :
    (serve codec start (
      add_object_to_set "b" (rank 0)
      ∷ add_object_to_set "b" (rank 1)
      ∷ add_object_to_set "b" (rank 0)
      ∷ get_binary "b"
      ∷ [])).1
    ≡ success ∷ success ∷ success ∷ octets (0 ∷ 1 ∷ []) ∷ []
unfolding serve handle
two_arrivals = refl

-- A barrier of two ranks: rank 0 sees both arrivals and deletes the set before rank 1 has asked for
-- it. From then on rank 1 finds no set.
late_rank :
    (serve codec start (
      add_object_to_set "b" (rank 0)
      ∷ add_object_to_set "b" (rank 1)
      ∷ get_binary "b"
      ∷ delete "b"
      ∷ get_binary "b"
      ∷ [])).1
    ≡ success ∷ success ∷ octets (0 ∷ 1 ∷ []) ∷ success ∷ failure 404 ∷ []
unfolding serve handle
late_rank = refl

-- A key that holds bytes takes no object.
bytes_take_no_object :
    (serve codec start (
      put_binary "k" (3 ∷ [])
      ∷ add_object_to_set "k" (rank 0)
      ∷ get_json "k"
      ∷ delete "other"
      ∷ [])).1
    ≡ success ∷ failure 500 ∷ json_data (3 ∷ []) ∷ failure 404 ∷ []
unfolding serve handle
bytes_take_no_object = refl

missing_key : client_get_binary codec start "k" ≡ err key_not_found
unfolding client_get_binary handle
missing_key = refl

abbrev requests : List (Request Numbers)
requests =
    put_binary "a" (1 ∷ [])
    ∷ allocate_auto_grow_id
    ∷ delete "b"
    ∷ allocate_auto_grow_id
    ∷ add_object_to_set "s" (rank 4)
    ∷ []

serve-ids_example : ids (serve codec start requests).1 ≡ 0 ∷ 1 ∷ []
serve-ids_example = serve-ids codec start requests

serve-Refines_example :
    IsDict (serve codec start requests).0.storage
    × (get "s" (serve codec start requests).0.storage ≡ some (object_set (rank 4 ∷ [])))
serve-Refines_example = serve-Refines codec start requests "s" tt

get_object-put_object_example :
    ((put_object codec start "w" (7 ∷ 8 ∷ [])).1 ≡ ok tt)
    × (get_object codec
          (serve codec (put_object codec start "w" (7 ∷ 8 ∷ [])).0 requests).0
          "w"
          none
        ≡ ok (some (7 ∷ 8 ∷ [])))
get_object-put_object_example =
    get_object-put_object codec "w" start (7 ∷ 8 ∷ []) (7 ∷ 8 ∷ []) none requests tt refl refl
      (refl, (refl, (refl, (refl, (refl, tt)))))

same_numbers_lem : (a b : Numbers) → (same_numbers a b ≡ true) ↔ (a ≡ b)
same_numbers_lem [] [] = (λ h. refl, λ h. refl)
same_numbers_lem [] (n ∷ ns) = (λ h. cc, λ h. cc)
same_numbers_lem (m ∷ ms) [] = (λ h. cc, λ h. cc)
same_numbers_lem (m ∷ ms) (n ∷ ns) = elim (Bool-cases (m == n)) [
  | inl same ↦
      let e : m ≡ n = ==→eq m n same in
      let ih = same_numbers_lem ms ns in
      rw same (λ h. let rest = ih.0 h in cc (e, rest), λ h. ih.1 (let both = h in cc both))
  | inr other ↦
      rw other (λ h. cc, λ h. let e : m ≡ n = cc h in let yes = eq→== m n e in cc (yes, other))
]

-- Both ranks stand in the set, though rank 0 has arrived twice.
serve-arrivals_example :
    let objs = objects_of (
      get "b"
        (serve codec start (
          add_object_to_set "b" (rank 0)
          ∷ add_object_to_set "b" (rank 1)
          ∷ add_object_to_set "b" (rank 0)
          ∷ [])).0.storage) in
    AreDistinct objs × ((x : Numbers) → In x objs ↔ In x (rank 0 ∷ rank 1 ∷ rank 0 ∷ []))
serve-arrivals_example =
    serve-arrivals codec same_numbers_lem start "b"
      (add_object_to_set "b" (rank 0)
        ∷ add_object_to_set "b" (rank 1)
        ∷ add_object_to_set "b" (rank 0)
        ∷ [])
      tt refl (refl, (refl, (refl, tt)))
