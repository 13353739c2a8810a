-- ===== src/Meta/Server/Dict.antt =====
-- A Python `dict` with texts as keys, in insertion order, and what one write does to the lookups.
use text.Mathlib.Text.{◌==◌ as str_eq}
use text.Mathlib.TextEquality.{eq_iff}
use awex.Prelude.{
  String, ◌≡◌, refl, Option, none, some, Bool, true, false, List, [], ◌∷◌, if◌then◌else◌, arith,
  Bool-cases, inl, inr,
}

abbrev pub Dict : Type 0 → Type 0
Dict V = List (String × V)

module _ {V : Type 0} where
  abbrev pub get : String → Dict V → Option V
  get key [] = none
  get key ((k, v) ∷ dict) = if str_eq k key then some v else get key dict

  abbrev pub has : String → Dict V → Bool
  has key [] = false
  has key ((k, _) ∷ dict) = if str_eq k key then true else has key dict

  -- A key that is there keeps its place.
  abbrev pub put : String → V → Dict V → Dict V
  put key value [] = (key, value) ∷ []
  put key value ((k, v) ∷ dict) =
      let rest = put key value dict in if str_eq k key then (k, value) ∷ dict else (k, v) ∷ rest

  abbrev pub remove : String → Dict V → Dict V
  remove key [] = []
  remove key ((k, v) ∷ dict) =
      let rest = remove key dict in if str_eq k key then dict else (k, v) ∷ rest

  abbrev pub keys : Dict V → List String
  keys [] = []
  keys ((k, _) ∷ dict) = k ∷ keys dict

  -- No key stands twice.
  abbrev pub IsDict : Dict V → Type 0
  IsDict [] = Unit
  IsDict ((k, _) ∷ dict) = (has k dict ≡ false) × IsDict dict

  pub get-put :
      (k key : String) (value : V) (dict : Dict V)
      → get key (put k value dict) ≡ (if str_eq k key then some value else get key dict)
  get-put k key value [] = refl
  get-put k key value ((j, v) ∷ dict) =
      ground (arith, get-put k key value dict, eq_iff j k, eq_iff j key, eq_iff k key)

  pub has-put :
      (k key : String) (value : V) (dict : Dict V)
      → has key (put k value dict) ≡ (if str_eq k key then true else has key dict)
  has-put k key value [] = refl
  has-put k key value ((j, v) ∷ dict) =
      ground (arith, has-put k key value dict, eq_iff j k, eq_iff j key, eq_iff k key)

  has-remove_other :
      (k key : String) (dict : Dict V) → has key dict ≡ false → has key (remove k dict) ≡ false
  has-remove_other k key [] h = refl
  has-remove_other k key ((j, v) ∷ dict) h = ground (arith, has-remove_other k key dict)

  pub get-has : (key : String) (dict : Dict V) → has key dict ≡ false → get key dict ≡ none
  get-has key [] h = refl
  get-has key ((j, v) ∷ dict) h = ground (arith, get-has key dict)

  pub get-remove :
      (k key : String) (dict : Dict V)
      → IsDict dict
      → get key (remove k dict) ≡ (if str_eq k key then none else get key dict)
  get-remove k key [] d = ground arith
  get-remove k key ((j, v) ∷ dict) d =
      ground (
        arith,
        get-remove k key dict d.1,
        get-has j dict d.0,
        eq_iff j k,
        eq_iff j key,
        eq_iff k key,
      )

  pub put-IsDict :
      (k : String) (value : V) (dict : Dict V) → IsDict dict → IsDict (put k value dict)
  put-IsDict k value [] d = (refl, tt)
  put-IsDict k value ((j, v) ∷ dict) d = elim (Bool-cases (str_eq j k)) [
    | inl same ↦ rw same d
    | inr other ↦
        let fresh : has j (put k value dict) ≡ false =
          ground (arith, has-put k j value dict, d.0, eq_iff j k, eq_iff k j) in
        rw other (fresh, put-IsDict k value dict d.1)
  ]

  pub remove-IsDict : (k : String) (dict : Dict V) → IsDict dict → IsDict (remove k dict)
  remove-IsDict k [] d = tt
  remove-IsDict k ((j, v) ∷ dict) d = elim (Bool-cases (str_eq j k)) [
    | inl same ↦ rw same d.1
    | inr other ↦ rw other (has-remove_other k j dict d.0, remove-IsDict k dict d.1)
  ]
