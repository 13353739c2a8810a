-- ===== src/Transfer/Plan/Grouping.antt =====
-- awex/transfer/transfer_plan.py: what `_group_operations_by_rank` files under each peer.
use mathlib.Core.List.{append_assoc, append-nil, Perm}
use awex.Prelude.{
  ℕ, ◌≡◌, refl, Bool, true, false, ◌&&◌, ◌||◌, List, [], ◌∷◌, ◌++◌, map, filter, leb, ◌==◌,
  if◌then◌else◌, arith, ap, ◌∙◌, sym, Bool-cases, inl, inr,
}
use Prim.Native.Nat.{Ordering}
use mathlib.Core.Path.{subst}
use awex.Prelude.Lex.{codes, compare_tuple, swapped, swapped-then_by, swapped-compare_tuple}
use awex.Prelude.Sort.{sort, insert_sorted, IsSorted, sort-IsSorted, sort-perm}
use awex.Transfer.Plan.Defs.{CommunicationOperation}
use awex.Transfer.Plan.Local.{
  OpDict, ops_at, compare_ops, peer_keys, add_to_group, op_le, KeyName, get_key, group_from,
  sort_groups, group_operations_by_rank, every, every_grouped,
}

ops_at-add_to_group :
    (key k : ℕ) (op : CommunicationOperation) (dict : OpDict)
    → ops_at k (add_to_group key op dict)
      ≡ (if key == k then ops_at k dict ++ op ∷ [] else ops_at k dict)
unfolding add_to_group
ops_at-add_to_group key k op [] = ground arith
ops_at-add_to_group key k op ((j, ops) ∷ rest) = ground (arith, ops_at-add_to_group key k op rest)

ops_at-group_from :
    (key_name : KeyName) (k : ℕ) (dict : OpDict) (ops : List CommunicationOperation)
    → ops_at k (group_from key_name dict ops)
      ≡ ops_at k dict ++ filter (λ op. get_key key_name op == k) ops
unfolding group_from
ops_at-group_from key_name k dict [] = sym (append-nil (ops_at k dict))
ops_at-group_from key_name k dict (op ∷ ops) =
    rw
      (
        ops_at-group_from key_name k (add_to_group (get_key key_name op) op dict) ops,
        ops_at-add_to_group (get_key key_name op) k op dict,
      )
      (elim (Bool-cases (get_key key_name op == k)) [
        | inl same ↦ rw same (append_assoc (ops_at k dict) (op ∷ []) _)
        | inr other ↦ rw other
      ])

ops_at-sort_groups :
    (k : ℕ) (dict : OpDict) → ops_at k (sort_groups dict) ≡ sort op_le (ops_at k dict)
unfolding sort
ops_at-sort_groups k [] = refl
ops_at-sort_groups k ((j, ops) ∷ rest) = elim (Bool-cases (j == k)) [
  | inl same ↦ rw same
  | inr other ↦ rw other (ops_at-sort_groups k rest)
]

abbrev member : ℕ → List ℕ → Bool
member k [] = false
member k (j ∷ ks) = j == k || member k ks

member-insert_sorted :
    (k j : ℕ) (ks : List ℕ) → member k (insert_sorted leb j ks) ≡ (j == k || member k ks)
member-insert_sorted k j [] = refl
member-insert_sorted k j (i ∷ ks) = ground (arith, member-insert_sorted k j ks)

member-sort : (k : ℕ) (ks : List ℕ) → member k (sort leb ks) ≡ member k ks
unfolding sort
member-sort k [] = refl
member-sort k (j ∷ ks) =
    member-insert_sorted k j (sort leb ks) ∙ ap (λ b. j == k || b) (member-sort k ks)

ops_at-map :
    (k : ℕ) (f : ℕ → List CommunicationOperation) (ks : List ℕ)
    → ops_at k (map (λ key. (key, f key)) ks) ≡ (if member k ks then f k else [])
ops_at-map k f [] = refl
ops_at-map k f (j ∷ ks) = ground (arith, ops_at-map k f ks)

ops_at-missing : (k : ℕ) (dict : OpDict) → member k (peer_keys dict) ≡ false → ops_at k dict ≡ []
ops_at-missing k [] h = refl
ops_at-missing k ((j, ops) ∷ rest) h = ground (arith, ops_at-missing k rest)

-- A peer's group is the list of its operations, sorted; a peer without operations has none.
pub ops_at-group_operations_by_rank :
    (key_name : KeyName) (k : ℕ) (ops : List CommunicationOperation)
    → ops_at k (group_operations_by_rank ops key_name)
      ≡ sort op_le (filter (λ op. get_key key_name op == k) ops)
unfolding group_operations_by_rank
ops_at-group_operations_by_rank key_name k ops =
    let grouped = sort_groups (group_from key_name [] ops) in
    let found : ops_at k grouped ≡ sort op_le (filter (λ op. get_key key_name op == k) ops) =
      rw (ops_at-sort_groups k (group_from key_name [] ops), ops_at-group_from key_name k [] ops) in
    rw
      (
        ops_at-map k (λ key. ops_at key grouped) (sort leb (peer_keys grouped)),
        member-sort k (peer_keys grouped),
      )
      (elim (Bool-cases (member k (peer_keys grouped))) [
        | inl there ↦ rw there found
        | inr missing ↦ rw missing (sym (ops_at-missing k grouped missing) ∙ found)
      ])

and_left_comm : (a b c : Bool) → (a && (b && c)) ≡ (b && (a && c))
and_left_comm a b c = ground arith

every-insert_sorted :
    (le : CommunicationOperation → CommunicationOperation → Bool)
    (p : CommunicationOperation → Bool) (op : CommunicationOperation)
    (ops : List CommunicationOperation)
    → every p (insert_sorted le op ops) ≡ (p op && every p ops)
every-insert_sorted le p op [] = refl
every-insert_sorted le p op (x ∷ ops) = elim (Bool-cases (le op x)) [
  | inl before ↦ rw before
  | inr after ↦
      rw (after, every-insert_sorted le p op ops) (and_left_comm (p x) (p op) (every p ops))
]

every-sort :
    (p : CommunicationOperation → Bool) (ops : List CommunicationOperation)
    → every p (sort op_le ops) ≡ every p ops
unfolding sort
every-sort p [] = refl
every-sort p (op ∷ ops) =
    every-insert_sorted op_le p op (sort op_le ops) ∙ ap (λ b. p op && b) (every-sort p ops)

every-filter :
    (p q : CommunicationOperation → Bool) (ops : List CommunicationOperation)
    → every p (filter q (filter p ops)) ≡ true
every-filter p q [] = refl
every-filter p q (op ∷ ops) = ground (arith, every-filter p q ops)

-- Grouping and sorting operations that pass a test leaves only such operations in the groups.
pub every-group_operations_by_rank :
    (key_name : KeyName) (p : CommunicationOperation → Bool) (ops : List CommunicationOperation)
    → every_grouped p (group_operations_by_rank (filter p ops) key_name) ≡ true
unfolding group_operations_by_rank
every-group_operations_by_rank key_name p ops =
    let grouped = sort_groups (group_from key_name [] (filter p ops)) in
    over (sort leb (peer_keys grouped))
  where
    over :
        (ks : List ℕ)
        → every_grouped p (
            map (λ key. (key, ops_at key (sort_groups (group_from key_name [] (filter p ops))))) ks)
          ≡ true
    over [] = refl
    over (k ∷ ks) =
        rw
          (
            ops_at-sort_groups k (group_from key_name [] (filter p ops)),
            ops_at-group_from key_name k [] (filter p ops),
            every-sort p (filter (λ op. get_key key_name op == k) (filter p ops)),
            every-filter p (λ op. get_key key_name op == k) ops,
          )
          (over ks)

swapped-compare_ops : (a b : CommunicationOperation) → swapped (compare_ops a b) ≡ compare_ops b a
swapped-compare_ops a b = rw (
  swapped-then_by (compare_tuple (codes a.send_shard_meta.name) (codes b.send_shard_meta.name)),
  swapped-then_by (compare_tuple a.send_offset b.send_offset),
  swapped-compare_tuple (codes a.send_shard_meta.name) (codes b.send_shard_meta.name),
  swapped-compare_tuple a.send_offset b.send_offset,
  swapped-compare_tuple a.recv_offset b.recv_offset,
)

abbrev is_le : Ordering → Bool
is_le o = elim o [ Ordering.gt ↦ false | _ ↦ true ]

swapped_le : (o : Ordering) → is_le o ≡ false → is_le (swapped o) ≡ true
swapped_le Ordering.lt h = cc
swapped_le Ordering.eq h = cc
swapped_le Ordering.gt h = refl

op_le_total : (a b : CommunicationOperation) → op_le a b ≡ false → op_le b a ≡ true
op_le_total a b h =
    subst (λ o. is_le o ≡ true) (swapped-compare_ops a b) (swapped_le (compare_ops a b) h)

leb_total : (a b : ℕ) → leb a b ≡ false → leb b a ≡ true
leb_total a b h = ground arith

peer_keys-map :
    (f : ℕ → List CommunicationOperation) (ks : List ℕ)
    → peer_keys (map (λ key. (key, f key)) ks) ≡ ks
peer_keys-map f [] = refl
peer_keys-map f (k ∷ ks) = ap (λ l. k ∷ l) (peer_keys-map f ks)

-- Under each peer stand exactly its operations, each as often as it was given, in ascending order of
-- parameter name, send offset and receive offset; and the peers stand in ascending order.
pub group_operations_by_rank-IsSorted :
    (key_name : KeyName) (k : ℕ) (ops : List CommunicationOperation)
    → let grouped = group_operations_by_rank ops key_name in
      IsSorted op_le (ops_at k grouped)
      × Perm (ops_at k grouped) (filter (λ op. get_key key_name op == k) ops)
      × IsSorted leb (peer_keys grouped)
group_operations_by_rank-IsSorted key_name k ops = (
  rw (ops_at-group_operations_by_rank key_name k ops) (sort-IsSorted op_le op_le_total _),
  rw (ops_at-group_operations_by_rank key_name k ops) (sort-perm op_le _),
  unfold group_operations_by_rank in
      rw (peer_keys-map (λ key. ops_at key (sort_groups (group_from key_name [] ops))))
        (sort-IsSorted leb leb_total _),
)
