-- ===== src/Transfer/Stages/Inverse.antt =====
-- awex/transfer/nccl_comm.py: `compute_two_phase_partition` returns: the inverse that it asks for
-- exists, since the numbers have no common divisor.
use native.Mathlib.Nat.{
  div-add-mod, div-mul_cancel, dvd_of_mod-eq-zero, pos_of_dvd_of_pos, add-mul-mod_self_left,
  eq_of_mul-eq-mul_right, mod-lt, mul-le-mul_right,
}
use awex.Prelude.{
  ℕ, zero, suc, ◌+◌, ◌-◌, ◌*◌, ◌/◌, ◌%◌, ◌≤◌, ◌<◌, ◌≡◌, refl, sym, ap, ◌∙◌, ◌⊎◌, true, false, some,
  inl, inr, ◌==◌, arith, Bool-cases, ==→eq, eq→==,
}
use awex.Prelude.Outcome.{ok}
use awex.Transfer.Stages.Build.{send_to}
use awex.Transfer.Stages.Phases.{gcd_from, inverse_from, compute_two_phase_partition}
use awex.Transfer.Stages.Colours.{gcd_from-divides, colours_differ}

-- The divisor that Euclid's steps find is a difference of multiples of the two numbers.
gcd_from-combines :
    (fuel a b : ℕ)
    → b < fuel
    → (x : ℕ) × (y : ℕ) × ((b * x ≡ a * y + gcd_from fuel a b)
        ⊎ (b * x + gcd_from fuel a b ≡ a * y))
unfolding gcd_from
gcd_from-combines zero a b h = absurd (omega arith)
gcd_from-combines (suc fuel) a b h = elim (Bool-cases (b == 0)) [
  | inl done ↦ (0, 1, inr (rw done (omega arith)))
  | inr more ↦
      let positive : 0 < b = ground arith in
      let smaller : a % b < b = omega (arith, positive) in
      let (x, y, found) = gcd_from-combines fuel b (a % b) (omega (arith, smaller)) in
      let parts : b * (a / b) + a % b ≡ a = div-add-mod a b in
      let scaled = ap (λ k. k * x) parts in
      (
        y + a / b * x,
        x,
        elim found [
          | inl over ↦ inr (rw more (omega (arith, over, scaled)))
          | inr under ↦ inl (rw more (omega (arith, under, scaled)))
        ],
      )
]

-- The search finds an inverse, if there is one in its range.
inverse_from-finds :
    (n i x m v : ℕ)
    → i ≤ v
    → v < i + n
    → x * v % m ≡ 1 % m
    → (inv : ℕ) × (inverse_from n i x m ≡ some inv)
unfolding inverse_from
inverse_from-finds zero i x m v low high e = absurd (omega arith)
inverse_from-finds (suc n) i x m v low high e = elim (Bool-cases (x * i % m == 1 % m)) [
  | inl found ↦ (i, rw found refl)
  | inr other ↦ elim (Bool-cases (i == v)) [
    | inl here ↦
        let same : i ≡ v = ==→eq i v here in
        let yes = eq→== (x * i % m) (1 % m) (ap (λ k. x * k % m) same ∙ e) in
        let clash : true ≡ false = sym yes ∙ other in cc
    | inr later ↦
        let (inv, found) = inverse_from-finds n (i + 1) x m v (ground arith) (omega arith) e in
        (inv, rw other found)
  ]
]

reduced : (t n w : ℕ) → t * w % n ≡ 1 % n → t * (w % n) % n ≡ 1 % n
reduced t n w e =
    let parts = ap (λ k. t * k) (div-add-mod w n) in
    let whole : t * (w % n) + n * (t * (w / n)) ≡ t * w = omega (arith, parts) in
    sym (add-mul-mod_self_left (t * (w % n)) n (t * (w / n))) ∙ ap (λ k. k % n) whole ∙ e

inverse_exists :
    (g n t x y : ℕ)
    → 0 < g
    → 0 < n
    → (t * g * x ≡ n * g * y + g) ⊎ (t * g * x + g ≡ n * g * y)
    → (v : ℕ) × (v < n) × (t * v % n ≡ 1 % n)
inverse_exists g n t x y hg hn (inl over) =
    let scaled : t * x * g ≡ (n * y + 1) * g = omega (arith, over) in
    let e : t * x ≡ n * y + 1 = eq_of_mul-eq-mul_right g hg (t * x) (n * y + 1) scaled in
    let turned : t * x ≡ 1 + n * y = omega (arith, e) in
    (x % n, mod-lt x hn, reduced t n x (ap (λ k. k % n) turned ∙ add-mul-mod_self_left 1 n y))
inverse_exists g n t x y hg hn (inr under) =
    let scaled : (t * x + 1) * g ≡ n * y * g = omega (arith, under) in
    let e : t * x + 1 ≡ n * y = eq_of_mul-eq-mul_right g hg (t * x + 1) (n * y) scaled in
    let w = n * x - x in
    let scaled_one : 1 * x ≤ n * x = mul-le-mul_right x hn in
    let le : x ≤ n * x = omega (arith, scaled_one) in
    let split : w + x ≡ n * x = omega (arith, le) in
    let times = ap (λ k. t * k) split in
    let sum : t * w + n * y ≡ 1 + n * (t * x) = omega (arith, times, e) in
    (
      w % n,
      mod-lt w hn,
      reduced t n w (
          sym (add-mul-mod_self_left (t * w) n y)
          ∙ ap (λ k. k % n) sum
          ∙ add-mul-mod_self_left 1 n (t * x)),
    )

-- For any rank of a world the colour is computed.
compute_two_phase_partition_total :
    (rank s world_size : ℕ)
    → 0 < world_size
    → (colour : ℕ) × (compute_two_phase_partition rank (suc s) world_size ≡ ok colour)
unfolding compute_two_phase_partition
compute_two_phase_partition_total rank s world_size h =
    let g = gcd_from (suc (suc s)) world_size (suc s) in
    let (of_world, of_stage) = gcd_from-divides (suc (suc s)) world_size (suc s) (omega arith) in
    let positive : 0 < g = pos_of_dvd_of_pos (dvd_of_mod-eq-zero g of_stage) (omega arith) in
    let n = world_size / g in
    let t = suc s / g in
    let world : n * g ≡ world_size = div-mul_cancel g (dvd_of_mod-eq-zero g of_world) in
    let stage : t * g ≡ suc s = div-mul_cancel g (dvd_of_mod-eq-zero g of_stage) in
    let some_ranks : 0 < n = ground (arith, world, h) in
    let (x, y, combined) = gcd_from-combines (suc (suc s)) world_size (suc s) (omega arith) in
    let divided : (t * g * x ≡ n * g * y + g) ⊎ (t * g * x + g ≡ n * g * y) = elim combined [
      | inl e ↦ inl (ap (λ k. k * x) stage ∙ e ∙ ap (λ k. k * y + g) (sym world))
      | inr e ↦ inr (ap (λ k. k * x + g) stage ∙ e ∙ ap (λ k. k * y) (sym world))
    ] in
    let (v, small, inverse) = inverse_exists g n t x y positive some_ranks divided in
    let (inv, found) = inverse_from-finds n 0 t n v (omega arith) (omega (arith, small)) inverse in
    ((rank - rank % g) / g * inv % n % 2, rw found refl)

-- Where the number of ranks on a cycle is even, a rank and the rank that it sends to in a stage have
-- colours, and the two differ.
pub compute_two_phase_partition-send_to :
    (rank s world_size : ℕ)
    → rank < world_size
    → world_size / gcd_from (suc (suc s)) world_size (suc s) % 2 ≡ 0
    → (colour : ℕ) × (other : ℕ) × (compute_two_phase_partition rank (suc s) world_size ≡ ok colour)
      × (compute_two_phase_partition (send_to world_size rank (suc s)) (suc s) world_size
          ≡ ok other)
      × (colour + other ≡ 1)
compute_two_phase_partition-send_to rank s world_size h even =
    let q = send_to world_size rank (suc s) in
    let (colour, c) = compute_two_phase_partition_total rank s world_size (omega arith) in
    let (other, o) = compute_two_phase_partition_total q s world_size (omega arith) in
    (colour, other, c, o, colours_differ rank s world_size colour other h even c o)
