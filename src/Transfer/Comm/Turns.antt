-- ===== src/Transfer/Comm/Turns.antt =====
-- Lists of ranks, and the progress of the ranks after a turn.
use awex.Prelude.{
  ℕ, zero, suc, ◌+◌, ◌≤◌, ◌<◌, ◌≡◌, refl, ap, ◌∙◌, inl, inr, Bool, true, false, ◌&&◌, none, some,
  List, [], ◌∷◌, length, get_elem?, filter, leb, ◌==◌, if◌then◌else◌, arith, Bool-cases, ==→eq,
}
use awex.Prelude.Sort.{sort, insert_sorted}
use awex.Transfer.Plan.Local.{OpDict, ops_at, peer_keys}
use awex.Transfer.Comm.Rotation.{has_rank, put_progress, longest}

pub and_false : (b : Bool) → (b && false) ≡ false
and_false true = refl
and_false false = refl

pub has_rank-filter :
    (q : ℕ → Bool) (rank : ℕ) (xs : List ℕ)
    → has_rank rank (filter q xs) ≡ (has_rank rank xs && q rank)
has_rank-filter q rank [] = refl
has_rank-filter q rank (x ∷ xs) =
    let ih = has_rank-filter q rank xs in
    elim (Bool-cases (x == rank)) [
      | inl same ↦
          let e : q x ≡ q rank = ap q (==→eq x rank same) in
          elim (Bool-cases (q rank)) [
            | inl kept ↦ rw (e ∙ kept, same, kept) refl
            | inr gone ↦ rw (e ∙ gone, same, ih, gone) (and_false (has_rank rank xs))
          ]
      | inr other ↦ elim (Bool-cases (q x)) [
        | inl kept ↦ rw (kept, other, ih) refl
        | inr gone ↦ rw (gone, other, ih) refl
      ]
    ]

pub has_rank-insert_sorted :
    (rank x : ℕ) (xs : List ℕ) → has_rank rank (insert_sorted leb x xs) ≡ has_rank rank (x ∷ xs)
has_rank-insert_sorted rank x [] = refl
has_rank-insert_sorted rank x (y ∷ ys) = ground (arith, has_rank-insert_sorted rank x ys)

pub has_rank-sort : (rank : ℕ) (xs : List ℕ) → has_rank rank (sort leb xs) ≡ has_rank rank xs
unfolding sort
has_rank-sort rank [] = refl
has_rank-sort rank (x ∷ xs) =
    has_rank-insert_sorted rank x (sort leb xs)
    ∙ ap (λ b. if x == rank then true else b) (has_rank-sort rank xs)

pub get_elem-none : {A : Type 0} (xs : List A) (i : ℕ) → get_elem? xs i ≡ none → length xs ≤ i
get_elem-none [] i h = omega arith
get_elem-none (x ∷ xs) zero h = cc
get_elem-none (x ∷ xs) (suc i) h = omega (arith, get_elem-none xs i h)

pub get_elem-some :
    {A : Type 0} (xs : List A) (i : ℕ) {x : A} → get_elem? xs i ≡ some x → i < length xs
get_elem-some [] i h = cc
get_elem-some (x ∷ xs) zero h = omega arith
get_elem-some (x ∷ xs) (suc i) h = omega (arith, get_elem-some xs i h)

-- Progress after one turn.
pub put_progress-le :
    (rank r : ℕ) (progress : ℕ → ℕ) → progress r ≤ put_progress rank (progress rank + 1) progress r
put_progress-le rank r progress = elim (Bool-cases (rank == r)) [
  | inl same ↦
      let e : progress rank ≡ progress r = ap progress (==→eq rank r same) in rw same (omega arith)
  | inr other ↦ rw other (omega arith)
]

pub put_progress-bounded :
    (rank r : ℕ) (progress count : ℕ → ℕ)
    → progress rank < count rank
    → progress r ≤ count r
    → put_progress rank (progress rank + 1) progress r ≤ count r
put_progress-bounded rank r progress count more h = elim (Bool-cases (rank == r)) [
  | inl same ↦ let e : count rank ≡ count r = ap count (==→eq rank r same) in rw same (omega arith)
  | inr other ↦ rw other h
]

pub ops_at-longest :
    (operations : OpDict) (r : ℕ) → length (ops_at r operations) ≤ longest operations
ops_at-longest [] r = omega arith
ops_at-longest ((k, ops) ∷ rest) r = elim (Bool-cases (k == r)) [
  | inl same ↦ rw same (omega arith)
  | inr other ↦ rw other (omega (arith, ops_at-longest rest r))
]

pub ops_at-missing :
    (operations : OpDict) (r : ℕ)
    → has_rank r (peer_keys operations) ≡ false
    → length (ops_at r operations) ≤ 0
ops_at-missing [] r h = omega arith
ops_at-missing ((k, ops) ∷ rest) r h = elim (Bool-cases (k == r)) [
  | inl same ↦ absurd (ground (arith, rw same at h))
  | inr other ↦ rw other (ops_at-missing rest r (rw other at h))
]
