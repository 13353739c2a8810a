-- ===== src/Transfer/Comm/Filed.antt =====
-- Lists of operations that hold, of every rank, its first operations in order.
use mathlib.Core.List.{append-nil}
use mathlib.Core.Path.{subst}
use awex.Prelude.{
  ℕ, zero, suc, ◌+◌, ◌≡◌, refl, ap, sym, ◌∙◌, inl, inr, true, false, some, List, [], ◌∷◌, ◌++◌, map,
  map-append, All, length, get_elem?, take, filter, filter-append, ◌==◌, arith, Bool-cases, ==→eq,
  eq→==,
}
use awex.Transfer.Plan.Defs.{CommunicationOperation}
use awex.Transfer.Plan.Local.{OpDict, ops_at}
use awex.Transfer.Comm.Rotation.{put_progress}
use awex.Transfer.Comm.Build.{DirectedOp}

take-suc :
    {A : Type 0} (xs : List A) (i : ℕ) {x : A}
    → get_elem? xs i ≡ some x
    → take (suc i) xs ≡ take i xs ++ (x ∷ [])
take-suc [] i h = cc
take-suc (y ∷ xs) zero {x} h = let e : y ≡ x = cc in rw e refl
take-suc (y ∷ xs) (suc i) h = ap (λ ys. y ∷ ys) (take-suc xs i h)

pub take-next :
    {A : Type 0} (xs : List A) (i : ℕ) {x : A}
    → get_elem? xs i ≡ some x
    → take (i + 1) xs ≡ take i xs ++ (x ∷ [])
take-next xs i h = let e : i + 1 ≡ suc i = omega arith in rw e (take-suc xs i h)

pub take-length : {A : Type 0} (xs : List A) → take (length xs) xs ≡ xs
take-length [] = refl
take-length (x ∷ xs) = ap (λ ys. x ∷ ys) (take-length xs)

pub get_elem-All :
    {A : Type 0} (Q : A → Type 0) (xs : List A) (i : ℕ) {x : A}
    → All Q xs
    → get_elem? xs i ≡ some x
    → Q x
get_elem-All Q [] i all h = cc
get_elem-All Q (y ∷ xs) zero {x} all h = let e : x ≡ y = cc in rw e all.0
get_elem-All Q (y ∷ xs) (suc i) all h = get_elem-All Q xs i all.1 h

-- The operations of the list with one peer.
abbrev pub to_peer : ℕ → List DirectedOp → List DirectedOp
to_peer r = filter (λ d. d.peer == r)

module _ (operations : OpDict) where
  -- The first operations of a rank.
  abbrev pub done_of : (ℕ → ℕ) → ℕ → List CommunicationOperation
  done_of progress r = take (progress r) (ops_at r operations)

  -- A turn of `rank` adds its next operation to those of this rank, and nothing to another's.
  pub done_of-same :
      (progress : ℕ → ℕ) (rank : ℕ) (op : CommunicationOperation)
      → get_elem? (ops_at rank operations) (progress rank) ≡ some op
      → done_of (put_progress rank (progress rank + 1) progress) rank
        ≡ done_of progress rank ++ (op ∷ [])
  done_of-same progress rank op h =
      rw (eq→== rank rank refl) (take-next (ops_at rank operations) (progress rank) h)

  pub done_of-other :
      (progress : ℕ → ℕ) (rank r value : ℕ)
      → (rank == r) ≡ false
      → done_of (put_progress rank value progress) r ≡ done_of progress r
  done_of-other progress rank r value other = rw other refl

  -- A list that has, of every rank, what `f` makes of its first operations.
  abbrev pub Filed :
      (ℕ → CommunicationOperation → DirectedOp) → (ℕ → ℕ) → ℕ → List DirectedOp → Type 0
  Filed f progress r list = to_peer r list ≡ map (f r) (done_of progress r)

  Filed-same :
      (f : ℕ → CommunicationOperation → DirectedOp) (progress : ℕ → ℕ) (rank : ℕ)
      (op : CommunicationOperation) (list : List DirectedOp)
      → (f rank op).peer ≡ rank
      → get_elem? (ops_at rank operations) (progress rank) ≡ some op
      → Filed f progress rank list
      → Filed f (put_progress rank (progress rank + 1) progress) rank (list ++ (f rank op ∷ []))
  Filed-same f progress rank op list peer h filed =
      let d = f rank op in
      let t : (d.peer == rank) ≡ true = ap (λ k. k == rank) peer ∙ eq→== rank rank refl in
      let one : to_peer rank (d ∷ []) ≡ d ∷ [] = rw t refl in
      filter-append (λ x. x.peer == rank) list (d ∷ [])
      ∙ ap (λ l. l ++ to_peer rank (d ∷ [])) filed
      ∙ ap (λ l. map (f rank) (done_of progress rank) ++ l) one
      ∙ sym (map-append (f rank) (done_of progress rank) (op ∷ []))
      ∙ ap (map (f rank)) (sym (done_of-same progress rank op h))

  pub Filed-next :
      (f : ℕ → CommunicationOperation → DirectedOp) (progress : ℕ → ℕ) (rank r : ℕ)
      (op : CommunicationOperation) (list : List DirectedOp)
      → (f rank op).peer ≡ rank
      → get_elem? (ops_at rank operations) (progress rank) ≡ some op
      → Filed f progress r list
      → Filed f (put_progress rank (progress rank + 1) progress) r (list ++ (f rank op ∷ []))
  Filed-next f progress rank r op list peer h filed = elim (Bool-cases (rank == r)) [
    | inl same ↦
        subst
          (λ k.
            Filed f progress k list
            → Filed f (put_progress rank (progress rank + 1) progress) k (list ++ (f rank op ∷ [])))
          (==→eq rank r same) (Filed-same f progress rank op list peer h) filed
    | inr other ↦
        let t : ((f rank op).peer == r) ≡ false = ap (λ k. k == r) peer ∙ other in
        let nothing : to_peer r (f rank op ∷ []) ≡ [] = rw t refl in
        filter-append (λ x. x.peer == r) list (f rank op ∷ [])
        ∙ ap (λ l. to_peer r list ++ l) nothing
        ∙ append-nil (to_peer r list)
        ∙ filed
        ∙ ap (map (f r)) (sym (done_of-other progress rank r (progress rank + 1) other))
  ]

  pub Filed-end :
      (f : ℕ → CommunicationOperation → DirectedOp) (progress : ℕ → ℕ) (r : ℕ)
      (list : List DirectedOp)
      → progress r ≡ length (ops_at r operations)
      → Filed f progress r list
      → to_peer r list ≡ map (f r) (ops_at r operations)
  Filed-end f progress r list all filed =
      filed
      ∙ ap (map (f r))
          (ap (λ k. take k (ops_at r operations)) all ∙ take-length (ops_at r operations))
