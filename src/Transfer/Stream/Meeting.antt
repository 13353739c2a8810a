-- ===== src/Transfer/Stream/Meeting.antt =====
-- Among 2 ^ k ranks, each pair meets in exactly one phase in either direction.
use native.Mathlib.Nat.{two-pow-succ, mul-div_cancel_left, div-one, mul_assoc}
use awex.Prelude.{
  ℕ, zero, suc, ◌+◌, ◌-◌, ◌*◌, ◌/◌, ◌^◌, ◌≤◌, ◌<◌, ◌≡◌, refl, sym, ap, ◌∙◌, ◌⊎◌, inl, inr, Bool,
  true, false, not, ◌&&◌, ltb, if◌then◌else◌, arith, ◌==◌, Bool-cases, ==→eq,
}
use awex.Prelude.Loops.{count, count-append}
use awex.Transfer.Stream.Rounds.{half_phases, round_phases, phases_from}
use awex.Transfer.Stream.Partition.{base, base-le, lt-base, base_unique, base-cases}
use awex.Transfer.Stream.Lockstep.{sends_to}

-- The half of a partition in which a rank lies.
base-half :
    (p r : ℕ)
    → 0 < p
    → base p r ≡ (if ltb (r - base (2 * p) r) p then base (2 * p) r else base (2 * p) r + p)
base-half p r h =
    let b = base (2 * p) r in
    let low = base-le (2 * p) r in
    let high = lt-base (2 * p) r (omega arith) in
    let e : r / (2 * p) * 2 * p ≡ b = mul_assoc (r / (2 * p)) 2 p in
    let e' : (r / (2 * p) * 2 + 1) * p ≡ b + p = omega (arith, e) in
    elim (Bool-cases (ltb (r - b) p)) [
      | inl first ↦
          rw first (base_unique p r (r / (2 * p) * 2) (omega (arith, e)) (ground arith) ∙ e)
      | inr second ↦
          rw second (base_unique p r (r / (2 * p) * 2 + 1) (ground arith) (ground arith) ∙ e')
    ]

half_phases-meets_once :
    (p r q br bq : ℕ) (fr fq : Bool)
    → 0 < p
    → br ≤ r
    → r < br + 2 * p
    → bq ≤ q
    → q < bq + 2 * p
    → (br ≡ bq) ⊎ ((br + 2 * p ≤ bq) ⊎ (bq + 2 * p ≤ br))
    → ltb (r - br) p ≡ fr
    → ltb (q - bq) p ≡ fq
    → count (sends_to q) (half_phases fr br p (br + 2 * p)) ≡ (
        if br == bq && not ((if fr then br else br + p) == (if fq then bq else bq + p))
        then 1
        else 0)
half_phases-meets_once p r q br bq true true h a b c d e f g = ground arith
half_phases-meets_once p r q br bq true false h a b c d e f g = ground arith
half_phases-meets_once p r q br bq false true h a b c d e f g = ground arith
half_phases-meets_once p r q br bq false false h a b c d e f g = ground arith

round_phases-meets_once :
    (p r q : ℕ)
    → 0 < p
    → count (sends_to q) (round_phases (2 * p) r)
      ≡ (if base (2 * p) r == base (2 * p) q && not (base p r == base p q) then 1 else 0)
unfolding round_phases
round_phases-meets_once p r q h =
    let half : 2 * p / 2 ≡ p = mul-div_cancel_left p (omega arith) in
    rw (half, base-half p r h, base-half p q h)
      (half_phases-meets_once p r q (base (2 * p) r) (base (2 * p) q) _ _ h (base-le (2 * p) r)
        (lt-base (2 * p) r (omega arith)) (base-le (2 * p) q) (lt-base (2 * p) q (omega arith))
        (base-cases (2 * p) r q) refl refl)

pub two_pow-pos : (i : ℕ) → 0 < 2 ^ i
two_pow-pos zero = omega arith
two_pow-pos (suc i) = let ih = two_pow-pos i in omega (arith, ih, two-pow-succ i)

-- Ranks of one half are of one partition.
base-nested : (p r q : ℕ) → 0 < p → base p r ≡ base p q → base (2 * p) r ≡ base (2 * p) q
base-nested p r q h e = elim (base-cases (2 * p) r q) [
  | inl same ↦ same
  | inr (inl before) ↦ absurd (apart r q e before)
  | inr (inr after) ↦ absurd (apart q r (sym e) after)
]
  where
    apart : (a b : ℕ) → base p a ≡ base p b → base (2 * p) a + 2 * p ≤ base (2 * p) b → ⊥
    apart a b same before =
        let low : base p a ≤ a = base-le p a in
        let high : a < base (2 * p) a + 2 * p = lt-base (2 * p) a (omega arith) in
        let half = base-half p b h in ground (arith, low, high, half, same, before)

met_or_later :
    (br bq pr pq r q : ℕ)
    → (pr ≡ pq → br ≡ bq)
    → (r ≡ q → pr ≡ pq)
    → (if br == bq && not (pr == pq) then 1 else 0) + (if pr == pq && not (r == q) then 1 else 0)
      ≡ (if br == bq && not (r == q) then 1 else 0)
met_or_later br bq pr pq r q outer inner = elim (Bool-cases (pr == pq)) [
  | inl same ↦ let wide = outer (==→eq pr pq same) in ground arith
  | inr other ↦ elim (Bool-cases (r == q)) [
    | inl one ↦ let near = inner (==→eq r q one) in ground arith
    | inr two ↦ ground arith
  ]
]

-- From the round on whose partitions have 2 ^ n ranks, two ranks of one partition meet once.
pub phases_from-meets_once :
    (world_size r q i n : ℕ)
    → world_size ≡ 2 ^ i * 2 ^ n
    → count (sends_to q) (phases_from world_size r i n)
      ≡ (if base (2 ^ n) r == base (2 ^ n) q && not (r == q) then 1 else 0)
unfolding phases_from
phases_from-meets_once world_size r q i zero e = rw (div-one r, div-one q) (ground arith)
phases_from-meets_once world_size r q i (suc n) e =
    let size : world_size / 2 ^ i ≡ 2 ^ suc n =
      rw e (mul-div_cancel_left (2 ^ suc n) (two_pow-pos i)) in
    let next : world_size ≡ 2 ^ suc i * 2 ^ n =
      e ∙ rw (two-pow-succ n, two-pow-succ i) (omega arith) in
    let double : 2 ^ suc n ≡ 2 * 2 ^ n = omega (arith, two-pow-succ n) in
    let round = round_phases-meets_once (2 ^ n) r q (two_pow-pos n) in
    let ih = phases_from-meets_once world_size r q (suc i) n next in
    rw
      (
        size,
        double,
        count-append (sends_to q) (round_phases (2 * 2 ^ n) r) (phases_from world_size r (suc i) n),
        round,
        ih,
      )
      (met_or_later _ _ _ _ r q (base-nested (2 ^ n) r q (two_pow-pos n))
        (λ same. ap (base (2 ^ n)) same))
