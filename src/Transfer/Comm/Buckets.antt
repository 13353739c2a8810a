-- ===== src/Transfer/Comm/Buckets.antt =====
-- The buckets of `_interleave_p2p_ops_by_peer`: one for each peer, with its operations in order.
use mathlib.Core.List.{append-nil, append_assoc}
use awex.Prelude.{
  ℕ, ◌+◌, ◌≡◌, refl, ap, sym, ◌∙◌, inl, inr, true, false, List, [], ◌∷◌, ◌++◌, length, leb, ◌==◌,
  if◌then◌else◌, arith, Bool-cases, ==→eq, eq→==,
}
use awex.Prelude.Sort.{sort, insert_sorted}
use awex.Transfer.Comm.Rotation.{has_rank}
use awex.Transfer.Comm.Build.{DirectedOp}
use awex.Transfer.Comm.Turns.{has_rank-insert_sorted, has_rank-sort}
use awex.Transfer.Comm.Filed.{to_peer}
use awex.Transfer.Comm.Interleave.{
  PeerDict, append_op, group_by_peer, bucket_of, bucket_keys, bucket_total,
}

bucket_of-append_op :
    (r peer : ℕ) (op : DirectedOp) (by_peer : PeerDict)
    → bucket_of r (append_op peer op by_peer)
      ≡ (if peer == r then bucket_of r by_peer ++ (op ∷ []) else bucket_of r by_peer)
bucket_of-append_op r peer op [] = ground arith
bucket_of-append_op r peer op ((p, ops) ∷ rest) = ground (arith, bucket_of-append_op r peer op rest)

bucket_of-group_by_peer :
    (r : ℕ) (by_peer : PeerDict) (ops : List DirectedOp)
    → bucket_of r (group_by_peer by_peer ops) ≡ bucket_of r by_peer ++ to_peer r ops
unfolding group_by_peer
bucket_of-group_by_peer r by_peer [] = sym (append-nil (bucket_of r by_peer))
bucket_of-group_by_peer r by_peer (op ∷ ops) =
    rw
      (
        bucket_of-group_by_peer r (append_op op.peer op by_peer) ops,
        bucket_of-append_op r op.peer op by_peer,
      )
      (elim (Bool-cases (op.peer == r)) [
        | inl same ↦ rw same (append_assoc (bucket_of r by_peer) (op ∷ []) _)
        | inr other ↦ rw other refl
      ])

pub group_by_peer-to_peer :
    (r : ℕ) (ops : List DirectedOp) → bucket_of r (group_by_peer [] ops) ≡ to_peer r ops
group_by_peer-to_peer r ops = bucket_of-group_by_peer r [] ops

-- No peer stands twice in the list.
abbrev pub Distinct : List ℕ → Type 0
Distinct [] = Unit
Distinct (p ∷ ps) = (has_rank p ps ≡ false) × Distinct ps

has_rank-append_op :
    (r peer : ℕ) (op : DirectedOp) (by_peer : PeerDict)
    → has_rank r (bucket_keys (append_op peer op by_peer))
      ≡ (if peer == r then true else has_rank r (bucket_keys by_peer))
has_rank-append_op r peer op [] = ground arith
has_rank-append_op r peer op ((p, ops) ∷ rest) = ground (arith, has_rank-append_op r peer op rest)

append_op-Distinct :
    (peer : ℕ) (op : DirectedOp) (by_peer : PeerDict)
    → Distinct (bucket_keys by_peer)
    → Distinct (bucket_keys (append_op peer op by_peer))
append_op-Distinct peer op [] h = (refl, tt)
append_op-Distinct peer op ((p, ops) ∷ rest) (fresh, h) =
    ground (arith, append_op-Distinct peer op rest h, has_rank-append_op p peer op rest)

pub group_by_peer-Distinct :
    (by_peer : PeerDict) (ops : List DirectedOp)
    → Distinct (bucket_keys by_peer)
    → Distinct (bucket_keys (group_by_peer by_peer ops))
unfolding group_by_peer
group_by_peer-Distinct by_peer [] h = h
group_by_peer-Distinct by_peer (op ∷ ops) h =
    group_by_peer-Distinct (append_op op.peer op by_peer) ops
      (append_op-Distinct op.peer op by_peer h)

insert_sorted-Distinct :
    (x : ℕ) (xs : List ℕ) → has_rank x xs ≡ false → Distinct xs → Distinct (insert_sorted leb x xs)
insert_sorted-Distinct x [] fresh h = (refl, tt)
insert_sorted-Distinct x (y ∷ ys) fresh (fresh', h) =
    ground (arith, insert_sorted-Distinct x ys, has_rank-insert_sorted y x ys)

pub sort-Distinct : (xs : List ℕ) → Distinct xs → Distinct (sort leb xs)
unfolding sort
sort-Distinct [] h = tt
sort-Distinct (x ∷ xs) (fresh, h) =
    insert_sorted-Distinct x (sort leb xs) (has_rank-sort x xs ∙ fresh) (sort-Distinct xs h)

-- The sum of what `f` gives for the peers.
abbrev pub sum_over : (ℕ → ℕ) → List ℕ → ℕ
sum_over f [] = 0
sum_over f (p ∷ ps) = f p + sum_over f ps

sum_over-insert_sorted :
    (f : ℕ → ℕ) (x : ℕ) (xs : List ℕ) → sum_over f (insert_sorted leb x xs) ≡ f x + sum_over f xs
sum_over-insert_sorted f x [] = refl
sum_over-insert_sorted f x (y ∷ ys) = ground (arith, sum_over-insert_sorted f x ys)

pub sum_over-sort : (f : ℕ → ℕ) (xs : List ℕ) → sum_over f (sort leb xs) ≡ sum_over f xs
unfolding sort
sum_over-sort f [] = refl
sum_over-sort f (x ∷ xs) =
    omega (arith, sum_over-insert_sorted f x (sort leb xs), sum_over-sort f xs)

-- Functions that agree on the peers of a list have the same sum over it.
pub sum_over-ext :
    (f g : ℕ → ℕ) (ps : List ℕ)
    → ((r : ℕ) → has_rank r ps ≡ true → f r ≡ g r)
    → sum_over f ps ≡ sum_over g ps
sum_over-ext f g [] h = refl
sum_over-ext f g (p ∷ ps) h =
    let first : f p ≡ g p = h p (rw (eq→== p p refl) refl) in
    let rest = sum_over-ext f g ps (λ r there. h r (ground arith)) in omega arith

-- A peer of the list is not one outside it.
pub member_apart :
    (p r : ℕ) (ps : List ℕ) → has_rank p ps ≡ false → has_rank r ps ≡ true → (p == r) ≡ false
member_apart p r ps fresh there = elim (Bool-cases (p == r)) [
  | inl same ↦
      let e : has_rank p ps ≡ has_rank r ps = ap (λ k. has_rank k ps) (==→eq p r same) in cc
  | inr other ↦ other
]

-- The total is the sum over the keys.
pub bucket_total-sum_over :
    (by_peer : PeerDict)
    → Distinct (bucket_keys by_peer)
    → bucket_total by_peer ≡ sum_over (λ r. length (bucket_of r by_peer)) (bucket_keys by_peer)
bucket_total-sum_over [] h = refl
bucket_total-sum_over ((p, ops) ∷ rest) (fresh, h) =
    let later =
      sum_over-ext (λ r. length (bucket_of r ((p, ops) ∷ rest))) (λ r. length (bucket_of r rest))
        (bucket_keys rest) (λ r there. rw (member_apart p r (bucket_keys rest) fresh there) refl) in
    rw (eq→== p p refl) (omega (arith, later, bucket_total-sum_over rest h))
