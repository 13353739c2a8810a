-- ===== src/Transfer/Stages/Colours.antt =====
-- awex/transfer/nccl_comm.py: the colours that `compute_two_phase_partition` gives to neighbours.
use native.Mathlib.Nat.{
  dvd_refl, dvd-zero, dvd-mod_iff, mod-eq-zero_of_dvd, pos_of_dvd_of_pos, div-mul_cancel,
  mod-mod_of_dvd, dvd_of_mod-eq-zero, add-mul-div_right, div-add-mod', dvd-mul_right_of_dvd,
  mul-div_cancel,
}
use awex.Prelude.{
  ℕ, zero, suc, ◌+◌, ◌-◌, ◌*◌, ◌/◌, ◌%◌, ◌<◌, ◌≡◌, sym, ap, ◌∙◌, ◌⊎◌, Option, some, inl, inr, leb,
  leb→le, ◌==◌, arith, Bool-cases, ==→eq,
}
use awex.Prelude.Outcome.{ok, or_raise, bind-eq-ok, or_raise-eq-ok, ok-injective}
use awex.Transfer.Stages.Mapping.{not_invertible}
use awex.Transfer.Stages.Build.{send_to}
use awex.Transfer.Stages.Phases.{gcd_from, inverse_from, compute_two_phase_partition}

pub gcd_from-divides :
    (fuel a b : ℕ) → b < fuel → (a % gcd_from fuel a b ≡ 0) × (b % gcd_from fuel a b ≡ 0)
unfolding gcd_from
gcd_from-divides zero a b h = absurd (omega arith)
gcd_from-divides (suc fuel) a b h = elim (Bool-cases (b == 0)) [
  | inl done ↦
      let nothing : b ≡ 0 = ==→eq b 0 done in
      rw done (mod-eq-zero_of_dvd a (dvd_refl a), rw nothing (mod-eq-zero_of_dvd a (dvd-zero a)))
  | inr more ↦
      let positive : 0 < b = ground arith in
      let smaller : a % b < b = omega (arith, positive) in
      let (of_b, of_rest) = gcd_from-divides fuel b (a % b) (omega (arith, smaller)) in
      let g = gcd_from fuel b (a % b) in
      let divides = dvd_of_mod-eq-zero g of_b in
      let both = (dvd-mod_iff g divides).0 (dvd_of_mod-eq-zero g of_rest) in
      rw more (mod-eq-zero_of_dvd g both, of_b)
]

inverse_from-inverts : (n i x m inv : ℕ) → inverse_from n i x m ≡ some inv → x * inv % m ≡ 1 % m
unfolding inverse_from
inverse_from-inverts zero i x m inv h = cc
inverse_from-inverts (suc n) i x m inv h = elim (Bool-cases (x * i % m == 1 % m)) [
  | inl found ↦
      let this : ◌≡◌ {A = Option ℕ} (some i) (some inv) = rw found at h in
      let e : i ≡ inv = cc this in ap (λ k. x * k % m) (sym e) ∙ ==→eq (x * i % m) (1 % m) found
  | inr other ↦ inverse_from-inverts n (i + 1) x m inv (rw other at h)
]

-- One step along the cycle turns the colour, where its length `n` is even.
colour-step :
    (i j t n inv : ℕ)
    → 0 < n
    → n % 2 ≡ 0
    → t * inv % n ≡ 1 % n
    → (j ≡ i + t) ⊎ (j + n ≡ i + t)
    → i * inv % n % 2 + j * inv % n % 2 ≡ 1
colour-step i j t n inv positive even inverse step =
    let two_divides = dvd_of_mod-eq-zero 2 even in
    let of_i : i * inv % n % 2 ≡ i * inv % 2 = mod-mod_of_dvd 2 (i * inv) two_divides in
    let of_j : j * inv % n % 2 ≡ j * inv % 2 = mod-mod_of_dvd 2 (j * inv) two_divides in
    let odd : t * inv % 2 ≡ 1 =
      sym (mod-mod_of_dvd 2 (t * inv) two_divides)
      ∙ ap (λ k. k % 2) inverse
      ∙ mod-mod_of_dvd 2 1 two_divides in
    let even_part : n * inv % 2 ≡ 0 =
      mod-eq-zero_of_dvd 2 (dvd-mul_right_of_dvd 2 two_divides inv) in
    let sum : (j * inv ≡ i * inv + t * inv) ⊎ (j * inv + n * inv ≡ i * inv + t * inv) = elim step [
      | inl on ↦ inl (ap (λ k. k * inv) on ∙ omega arith)
      | inr around ↦ inr (let e = ap (λ k. k * inv) around in omega (arith, e))
    ] in
    rw (of_i, of_j) (ground (arith, odd, even_part, sum))

-- The place of a rank on its cycle, and that of the rank that it sends to.
cycle_index : (g rank : ℕ) → 0 < g → (rank - rank % g) / g ≡ rank / g
cycle_index g rank h =
    let parts : rank / g * g + rank % g ≡ rank = div-add-mod' rank g in
    let whole : rank - rank % g ≡ rank / g * g = omega (arith, parts) in
    ap (λ k. k / g) whole ∙ mul-div_cancel (rank / g) h

neighbour_index :
    (g n t rank world_size s : ℕ)
    → 0 < g
    → n * g ≡ world_size
    → t * g ≡ s
    → (send_to world_size rank s / g ≡ rank / g + t)
      ⊎ (send_to world_size rank s / g + n ≡ rank / g + t)
neighbour_index g n t rank world_size s h world stage =
    let on : (rank + t * g) / g ≡ rank / g + t = add-mul-div_right rank t h in
    let from : rank + s ≡ rank + t * g = omega (arith, stage) in
    elim (Bool-cases (leb world_size (rank + s))) [
      | inl around ↦
          let past = leb→le world_size (rank + s) around in
          let q = rank + s - world_size in
          let back : q + n * g ≡ rank + t * g = omega (arith, past, world, stage) in
          inr (rw around (sym (add-mul-div_right q n h) ∙ ap (λ k. k / g) back ∙ on))
      | inr before ↦ inl (rw before (ap (λ k. k / g) from ∙ on))
    ]

-- What a returned colour comes from.
partition-eq-ok :
    (rank s world_size colour : ℕ)
    → compute_two_phase_partition rank (suc s) world_size ≡ ok colour
    → let g = gcd_from (suc (suc s)) world_size (suc s) in
      (inv : ℕ) × (inverse_from (world_size / g) 0 (suc s / g) (world_size / g) ≡ some inv)
      × (colour ≡ (rank - rank % g) / g * inv % (world_size / g) % 2)
unfolding compute_two_phase_partition
partition-eq-ok rank s world_size colour h =
    let g = gcd_from (suc (suc s)) world_size (suc s) in
    let (inv, e, last) =
      bind-eq-ok
        (or_raise (inverse_from (world_size / g) 0 (suc s / g) (world_size / g)) not_invertible) _
        h in
    (
      inv,
      or_raise-eq-ok (inverse_from (world_size / g) 0 (suc s / g) (world_size / g)) not_invertible
          e,
      ok-injective last,
    )

-- Where the number of ranks on a cycle is even, a rank and the rank that it sends to in a stage have
-- different colours.
pub colours_differ :
    (rank s world_size colour other : ℕ)
    → rank < world_size
    → world_size / gcd_from (suc (suc s)) world_size (suc s) % 2 ≡ 0
    → compute_two_phase_partition rank (suc s) world_size ≡ ok colour
    → compute_two_phase_partition (send_to world_size rank (suc s)) (suc s) world_size ≡ ok other
    → colour + other ≡ 1
colours_differ rank s world_size colour other h even c o =
    let g = gcd_from (suc (suc s)) world_size (suc s) in
    let (of_world, of_stage) = gcd_from-divides (suc (suc s)) world_size (suc s) (omega arith) in
    let positive : 0 < g = pos_of_dvd_of_pos (dvd_of_mod-eq-zero g of_stage) (omega arith) in
    let n = world_size / g in
    let t = suc s / g in
    let world : n * g ≡ world_size = div-mul_cancel g (dvd_of_mod-eq-zero g of_world) in
    let stage : t * g ≡ suc s = div-mul_cancel g (dvd_of_mod-eq-zero g of_stage) in
    let (inv, found, is_colour) = partition-eq-ok rank s world_size colour c in
    let (inv', found', is_other) =
      partition-eq-ok (send_to world_size rank (suc s)) s world_size other o in
    let same : inv' ≡ inv = cc (found, found') in
    let q = send_to world_size rank (suc s) in
    let steps = neighbour_index g n t rank world_size (suc s) positive world stage in
    let some_ranks : 0 < n = ground (arith, world, h) in
    let inverse = inverse_from-inverts n 0 t n inv found in
    let colour_of : colour ≡ rank / g * inv % n % 2 =
      is_colour ∙ ap (λ k. k * inv % n % 2) (cycle_index g rank positive) in
    let other_of : other ≡ q / g * inv % n % 2 =
      is_other
      ∙ ap (λ k. k * inv' % n % 2) (cycle_index g q positive)
      ∙ ap (λ k. q / g * k % n % 2) same in
    ap (λ k. k + other) colour_of
    ∙ ap (λ k. rank / g * inv % n % 2 + k) other_of
    ∙ colour-step (rank / g) (q / g) t n inv some_ranks even inverse steps
