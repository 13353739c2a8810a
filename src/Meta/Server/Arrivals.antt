-- ===== src/Meta/Server/Arrivals.antt =====
-- awex/meta/meta_server.py: a key that requests only add objects to, as the ranks at a barrier do.
use text.Mathlib.Text.{◌==◌ as str_eq}
use awex.Prelude.{
  ◌≡◌, ◌↔◌, ◌⊎◌, sym, ap, ◌∙◌, String, Bool, true, false, Option, none, some, List, [], ◌∷◌, All,
  In, Bool-cases, inl, inr, if◌then◌else◌,
}
use awex.Meta.Server.Dict.{IsDict, get}
use awex.Meta.Server.State.{
  Codec, Stored, binary, object_set, MetaServer, Request, get_binary, put_binary, add_object_to_set,
  get_json, put_json, delete, health, list_keys, has_key, allocate_auto_grow_id,
}
use awex.Meta.Server.Handlers.{serve}
use awex.Meta.Server.Sets.{AreDistinct, In-add_element, add_element-AreDistinct}
use awex.Meta.Server.Storage.{entry_with, entry_added, entry_after, entry_after_all, serve-Refines}

-- The request puts something else under the key, or deletes it.
abbrev pub replaces : {Bytes : Type 0} → String → Request Bytes → Bool
replaces key (put_binary k content) = str_eq k key
replaces key (put_json k content) = str_eq k key
replaces key (delete k) = str_eq k key
replaces key _ = false

-- The objects of an entry.
abbrev pub objects_of : {Bytes Obj : Type 0} → Option (Stored Bytes Obj) → List Obj
objects_of none = []
objects_of (some (binary content)) = []
objects_of (some (object_set objs)) = objs

module _ {Bytes Obj Json : Type 0} (lib : Codec Bytes Obj Json) where
  abbrev pub arrival : Option Obj → List Obj → List Obj
  arrival none objs = objs
  arrival (some obj) objs = if lib.hashable obj then obj ∷ objs else objs

  -- The objects that the requests add under the key.
  abbrev pub arrivals : String → List (Request Bytes) → List Obj
  arrivals key [] = []
  arrivals key (add_object_to_set k content ∷ requests) =
      let later = arrivals key requests in
      if str_eq k key then arrival (lib.from_binary content) later else later
  arrivals key (_ ∷ requests) = arrivals key requests

  module _ (equal : (a b : Obj) → (lib.same a b ≡ true) ↔ (a ≡ b)) where
    -- A set of distinct objects, or nothing yet.
    abbrev HoldsSet : Option (Stored Bytes Obj) → Type 0
    HoldsSet none = Unit
    HoldsSet (some (binary content)) = ⊥
    HoldsSet (some (object_set objs)) = AreDistinct objs

    -- What a step from one entry to the next owes to the objects that it adds.
    record Gains (old new : Option (Stored Bytes Obj)) (added : List Obj) : Type 0 where
      holds : HoldsSet new
      objects : (x : Obj) → In x (objects_of new) ↔ (In x (objects_of old) ⊎ In x added)

    same_entry-Gains : (entry : Option (Stored Bytes Obj)) → HoldsSet entry → Gains entry entry []
    same_entry-Gains entry h = record {
      holds = h;
      objects = λ x. (λ i. inl i, λ i. elim i [ inl old ↦ old | inr nothing ↦ elim nothing [ ] ]);
    }

    entry_with-Gains :
        (obj : Obj) (entry : Option (Stored Bytes Obj))
        → HoldsSet entry
        → Gains entry (entry_with lib obj entry) (arrival (some obj) [])
    entry_with-Gains obj none h = elim (Bool-cases (lib.hashable obj)) [
      | inl fits ↦ rw fits (record {
        holds = (λ i. i, tt);
        objects = λ x. (λ i. inr i, λ i. elim i [ inl nothing ↦ elim nothing [ ] | inr new ↦ new ]);
      })
      | inr unfit ↦ rw unfit (record {
        holds = tt;
        objects = λ x. (λ i. inl i, λ i. elim i [ inl nothing ↦ nothing | inr nothing ↦ nothing ]);
      })
    ]
    entry_with-Gains obj (some (binary content)) h = elim h [ ]
    entry_with-Gains obj (some (object_set objs)) h = elim (Bool-cases (lib.hashable obj)) [
      | inl fits ↦ rw fits (record {
        holds = add_element-AreDistinct lib equal obj objs h;
        objects = λ x. (
          λ i. elim ((In-add_element lib equal x obj objs).0 i) [
            | inl new ↦ inr (inl new)
            | inr old ↦ inl old
          ],
          λ i. elim i [
            | inl old ↦ (In-add_element lib equal x obj objs).1 (inr old)
            | inr new ↦ elim new [
              | inl same ↦ (In-add_element lib equal x obj objs).1 (inl same)
              | inr nothing ↦ elim nothing [ ]
            ]
          ],
        );
      })
      | inr unfit ↦ rw unfit (same_entry-Gains (some (object_set objs)) h)
    ]

    entry_after-Gains :
        (key : String) (request : Request Bytes) (entry : Option (Stored Bytes Obj))
        → HoldsSet entry
        → replaces key request ≡ false
        → Gains entry (entry_after lib key request entry) (arrivals key (request ∷ []))
    entry_after-Gains key (get_binary k) entry h e = same_entry-Gains entry h
    entry_after-Gains key (put_binary k content) entry h e = rw e (same_entry-Gains entry h)
    entry_after-Gains key (get_json k) entry h e = same_entry-Gains entry h
    entry_after-Gains key (put_json k content) entry h e = rw e (same_entry-Gains entry h)
    entry_after-Gains key (delete k) entry h e = rw e (same_entry-Gains entry h)
    entry_after-Gains key health entry h e = same_entry-Gains entry h
    entry_after-Gains key list_keys entry h e = same_entry-Gains entry h
    entry_after-Gains key (has_key k) entry h e = same_entry-Gains entry h
    entry_after-Gains key allocate_auto_grow_id entry h e = same_entry-Gains entry h
    entry_after-Gains key (add_object_to_set k content) entry h e =
        elim (Bool-cases (str_eq k key)) [
          | inl its ↦ rw its (received (lib.from_binary content))
          | inr other ↦ rw other (same_entry-Gains entry h)
        ]
      where
        received : (o : Option Obj) → Gains entry (entry_added lib o entry) (arrival o [])
        received none = same_entry-Gains entry h
        received (some obj) = entry_with-Gains obj entry h

    later : {P : Type 0} → P ↔ (⊥ ⊎ P)
    later = (λ i. inr i, λ i. elim i [ inl nothing ↦ elim nothing [ ] | inr it ↦ it ])

    -- The arrivals of the first request stand before the others.
    arrivals-cons :
        (key : String) (request : Request Bytes) (requests : List (Request Bytes)) (x : Obj)
        → In x (arrivals key (request ∷ requests))
          ↔ (In x (arrivals key (request ∷ [])) ⊎ In x (arrivals key requests))
    arrivals-cons key (get_binary k) requests x = later
    arrivals-cons key (put_binary k content) requests x = later
    arrivals-cons key (get_json k) requests x = later
    arrivals-cons key (put_json k content) requests x = later
    arrivals-cons key (delete k) requests x = later
    arrivals-cons key health requests x = later
    arrivals-cons key list_keys requests x = later
    arrivals-cons key (has_key k) requests x = later
    arrivals-cons key allocate_auto_grow_id requests x = later
    arrivals-cons key (add_object_to_set k content) requests x = elim (Bool-cases (str_eq k key)) [
      | inl its ↦ rw its (first (lib.from_binary content))
      | inr other ↦ rw other later
    ]
      where
        first :
            (o : Option Obj)
            → In x (arrival o (arrivals key requests))
              ↔ (In x (arrival o []) ⊎ In x (arrivals key requests))
        first none = later
        first (some obj) = elim (Bool-cases (lib.hashable obj)) [
          | inl fits ↦ rw fits (
            λ i. elim i [ inl new ↦ inl (inl new) | inr rest ↦ inr rest ],
            λ i. elim i [
              | inl new ↦ elim new [ inl same ↦ inl same | inr nothing ↦ elim nothing [ ] ]
              | inr rest ↦ inr rest
            ],
          )
          | inr unfit ↦ rw unfit later
        ]

    entry_after_all-Gains :
        (key : String) (requests : List (Request Bytes)) (entry : Option (Stored Bytes Obj))
        → HoldsSet entry
        → All (λ request. replaces key request ≡ false) requests
        → Gains entry (entry_after_all lib key requests entry) (arrivals key requests)
    entry_after_all-Gains key [] entry h all = same_entry-Gains entry h
    entry_after_all-Gains key (request ∷ requests) entry h all =
        let step = entry_after-Gains key request entry h all.0 in
        let rest =
          entry_after_all-Gains key requests (entry_after lib key request entry) step.holds all.1 in
        record {
          holds = rest.holds;
          objects = λ x. (
            λ i. elim ((rest.objects x).0 i) [
              | inl before ↦ elim ((step.objects x).0 before) [
                | inl old ↦ inl old
                | inr new ↦ inr ((arrivals-cons key request requests x).1 (inl new))
              ]
              | inr new ↦ inr ((arrivals-cons key request requests x).1 (inr new))
            ],
            λ i. elim i [
              | inl old ↦ (rest.objects x).1 (inl ((step.objects x).1 (inl old)))
              | inr new ↦ elim ((arrivals-cons key request requests x).0 new) [
                | inl here ↦ (rest.objects x).1 (inl ((step.objects x).1 (inr here)))
                | inr there ↦ (rest.objects x).1 (inr there)
              ]
            ],
          );
        }

    distinct : (entry : Option (Stored Bytes Obj)) → HoldsSet entry → AreDistinct (objects_of entry)
    distinct none h = tt
    distinct (some (binary content)) h = tt
    distinct (some (object_set objs)) h = h

    -- Where a key holds nothing at first and requests only add objects to it, with any requests on
    -- other keys in between, it holds each object that was added once, however often it was added,
    -- and nothing else.
    pub serve-arrivals :
        (server : MetaServer Bytes Obj) (key : String) (requests : List (Request Bytes))
        → IsDict server.storage
        → get key server.storage ≡ none
        → All (λ request. replaces key request ≡ false) requests
        → let objs = objects_of (get key (serve lib server requests).0.storage) in
          AreDistinct objs × ((x : Obj) → In x objs ↔ In x (arrivals key requests))
    serve-arrivals server key requests d start all =
        let (_, holds) = serve-Refines lib server requests key d in
        let gains = entry_after_all-Gains key requests none tt all in
        let e : entry_after_all lib key requests none
            ≡ get key (serve lib server requests).0.storage =
          sym (holds ∙ ap (entry_after_all lib key requests) start) in
        rw (← e) (
          distinct (entry_after_all lib key requests none) gains.holds,
          λ x. (
            λ i. elim ((gains.objects x).0 i) [ inl nothing ↦ elim nothing [ ] | inr new ↦ new ],
            λ i. (gains.objects x).1 (inr i),
          ),
        )
