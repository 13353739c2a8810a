-- ===== src/Transfer/Stream/Partition.antt =====
-- The partitions of the ranks into runs of one size.
use native.Mathlib.Nat.{div-mul-le_self, lt-div-mul-add, div-eq_of_lt-le, mul-le-mul_right}
use awex.Prelude.{
  ℕ, suc, ◌+◌, ◌*◌, ◌/◌, ◌≤◌, ◌<◌, ◌≡◌, ap, ◌⊎◌, inl, inr, true, ltb, Bool-cases, arith,
}

abbrev pub base : ℕ → ℕ → ℕ
base p r = r / p * p

-- A rank lies in the run that starts at its base.
pub base-le : (p r : ℕ) → base p r ≤ r
base-le p r = div-mul-le_self r p

pub lt-base : (p r : ℕ) → 0 < p → r < base p r + p
lt-base p r h = lt-div-mul-add h

-- The base is the only multiple of the size with the rank in its run.
pub base_unique : (p r k : ℕ) → k * p ≤ r → r < k * p + p → base p r ≡ k * p
base_unique p r k low high = ap (λ n. n * p) (div-eq_of_lt-le p low (omega (arith, high)))

-- Two runs are the same, or one ends before the other starts.
pub base-cases :
    (p r q : ℕ) → (base p r ≡ base p q) ⊎ ((base p r + p ≤ base p q) ⊎ (base p q + p ≤ base p r))
base-cases p r q = elim (Bool-cases (ltb (r / p) (q / p))) [
  | inl before ↦ inr (inl (apart (r / p) (q / p) before))
  | inr not_before ↦ elim (Bool-cases (ltb (q / p) (r / p))) [
    | inl after ↦ inr (inr (apart (q / p) (r / p) after))
    | inr not_after ↦ let e : r / p ≡ q / p = ground arith in inl (ap (λ n. n * p) e)
  ]
]
  where
    apart : (a b : ℕ) → ltb a b ≡ true → a * p + p ≤ b * p
    apart a b h =
        let le : suc a ≤ b = ground arith in
        let scaled : suc a * p ≤ b * p = mul-le-mul_right p le in omega (arith, scaled)
