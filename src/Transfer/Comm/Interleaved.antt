-- ===== src/Transfer/Comm/Interleaved.antt =====
-- What `_interleave_p2p_ops_by_peer` returns.
use mathlib.Core.Path.{subst}
use awex.Prelude.{
  ℕ, ◌+◌, ◌-◌, ◌≤◌, ◌≡◌, refl, ap, sym, ◌∙◌, inl, inr, true, false, List, [], ◌∷◌, All, length,
  take, leb, ◌==◌, arith, Bool-cases, ==→eq,
}
use awex.Prelude.Outcome.{ok}
use awex.Prelude.Sort.{sort}
use awex.Transfer.Comm.Rotation.{has_rank}
use awex.Transfer.Comm.Turns.{has_rank-sort}
use awex.Transfer.Comm.Build.{DirectedOp}
use awex.Transfer.Comm.Filed.{to_peer, take-length}
use awex.Transfer.Comm.Interleave.{
  PeerDict, group_by_peer, bucket_of, bucket_keys, bucket_total, interleave_p2p_ops_by_peer,
}
use awex.Transfer.Comm.Buckets.{
  group_by_peer-to_peer, group_by_peer-Distinct, sort-Distinct, sum_over, sum_over-sort,
  sum_over-ext, bucket_total-sum_over,
}
use awex.Transfer.Comm.Weaving.{weave-ends}

sum_over-zero :
    (f : ℕ → ℕ) (ps : List ℕ) (r : ℕ) → sum_over f ps ≡ 0 → has_rank r ps ≡ true → f r ≡ 0
sum_over-zero f [] r h there = cc
sum_over-zero f (p ∷ ps) r h there = elim (Bool-cases (p == r)) [
  | inl same ↦ let e : f p ≡ f r = ap f (==→eq p r same) in omega arith
  | inr other ↦ sum_over-zero f ps r (omega arith) (rw other at there)
]

bucket_of-missing :
    (by_peer : PeerDict) (r : ℕ)
    → has_rank r (bucket_keys by_peer) ≡ false
    → length (bucket_of r by_peer) ≤ 0
bucket_of-missing [] r h = omega arith
bucket_of-missing ((k, ops) ∷ rest) r h = elim (Bool-cases (k == r)) [
  | inl same ↦ absurd (ground (arith, rw same at h))
  | inr other ↦ rw other (bucket_of-missing rest r (rw other at h))
]

pub to_peer-All : (p : ℕ) (ops : List DirectedOp) → All (λ d. d.peer ≡ p) (to_peer p ops)
to_peer-All p [] = tt
to_peer-All p (op ∷ ops) = elim (Bool-cases (op.peer == p)) [
  | inl same ↦ rw same (==→eq op.peer p same, to_peer-All p ops)
  | inr other ↦ rw other (to_peer-All p ops)
]

-- The interleaving ends, and to every peer it has the operations of the input, each once and in
-- their order.
pub interleave_p2p_ops_by_peer-to_peer :
    (ops : List DirectedOp)
    → (interleaved : List DirectedOp) × (interleave_p2p_ops_by_peer ops ≡ ok interleaved)
      × ((r : ℕ) → to_peer r interleaved ≡ to_peer r ops)
unfolding interleave_p2p_ops_by_peer
interleave_p2p_ops_by_peer-to_peer ops =
    let by_peer = group_by_peer [] ops in
    let keys = bucket_keys by_peer in
    let distinct = group_by_peer-Distinct [] ops tt in
    let named = λ (p : ℕ).
      subst (All (λ d. d.peer ≡ p)) (sym (group_by_peer-to_peer p ops)) (to_peer-All p ops) in
    let total = bucket_total by_peer in
    let count = λ (r : ℕ). length (bucket_of r by_peer) in
    let whole = sum_over-ext (λ r. count r - 0) count (sort leb keys) (λ r there. omega arith) in
    let counted : total ≡ sum_over (λ r. count r - 0) (sort leb keys) + 0 =
      omega (arith, whole, bucket_total-sum_over by_peer distinct, sum_over-sort count keys) in
    let (last, e, woven, used) =
      weave-ends by_peer named (sort leb keys) (sort-Distinct keys distinct) total
        (record { progress = λ _. 0; remaining = total; interleaved = [] })
        (record { taken = λ r. refl; bounded = λ r. omega arith }) counted (omega arith) in
    (
      last.interleaved,
      e,
      λ r.
          let all : last.progress r ≡ count r = elim (Bool-cases (has_rank r keys)) [
            | inl there ↦
                let z =
                  sum_over-zero (λ k. count k - last.progress k) (sort leb keys) r used
                    (has_rank-sort r keys ∙ there) in
                omega (arith, woven.bounded r)
            | inr missing ↦ omega (arith, woven.bounded r, bucket_of-missing by_peer r missing)
          ] in
          woven.taken r
          ∙ ap (λ k. take k (bucket_of r by_peer)) all
          ∙ take-length (bucket_of r by_peer)
          ∙ group_by_peer-to_peer r ops,
    )
