-- ===== src/Transfer/Stream/Lockstep.antt =====
-- Two ranks meet: when one sends to the other, the other receives from it.
use native.Mathlib.Nat.{div-le_self, mul-zero}
use awex.Prelude.{
  map-append, ℕ, zero, suc, ◌+◌, ◌-◌, ◌/◌, ◌^◌, ◌≤◌, ◌<◌, ◌≡◌, refl, ◌⊎◌, Bool, true, false, not,
  ◌&&◌, map, ltb, leb, arith,
}
use awex.Transfer.Stream.Rounds.{Phase, half_phases, round_phases, phases_from}
use awex.Transfer.Stream.Partition.{base, base-le, lt-base, base-cases}

-- The phase has the rank among its peers.
abbrev pub meets : ℕ → Phase → Bool
meets q phase = leb phase.other_half_start q && ltb q phase.other_half_end

abbrev pub sends_to : ℕ → Phase → Bool
sends_to q phase = phase.sends && meets q phase

abbrev pub receives_from : ℕ → Phase → Bool
receives_from q phase = not phase.sends && meets q phase

half_phases-lockstep :
    (p h r q br bq : ℕ) (fr fq : Bool)
    → h ≤ p
    → br ≤ r
    → r < br + p
    → bq ≤ q
    → q < bq + p
    → (br ≡ bq) ⊎ ((br + p ≤ bq) ⊎ (bq + p ≤ br))
    → ltb (r - br) h ≡ fr
    → ltb (q - bq) h ≡ fq
    → map (sends_to q) (half_phases fr br h (br + p))
      ≡ map (receives_from r) (half_phases fq bq h (bq + p))
half_phases-lockstep p h r q br bq true true a b c d e f g i = ground arith
half_phases-lockstep p h r q br bq true false a b c d e f g i = ground arith
half_phases-lockstep p h r q br bq false true a b c d e f g i = ground arith
half_phases-lockstep p h r q br bq false false a b c d e f g i = ground arith

no_peers :
    (r q : ℕ) (fr fq : Bool)
    → map (sends_to q) (half_phases fr 0 0 0) ≡ map (receives_from r) (half_phases fq 0 0 0)
no_peers r q true true = ground arith
no_peers r q true false = ground arith
no_peers r q false true = ground arith
no_peers r q false false = ground arith

-- Without ranks in a partition there are no peers.
round_phases-lockstep :
    (p r q : ℕ) → map (sends_to q) (round_phases p r) ≡ map (receives_from r) (round_phases p q)
unfolding round_phases
round_phases-lockstep zero r q =
    rw (mul-zero (r / 0), mul-zero (q / 0)) (no_peers r q (ltb (r - 0) 0) (ltb (q - 0) 0))
round_phases-lockstep (suc p) r q =
    half_phases-lockstep (suc p) (suc p / 2) r q (base (suc p) r) (base (suc p) q) _ _
      (div-le_self (suc p) 2) (base-le (suc p) r) (lt-base (suc p) r (omega arith))
      (base-le (suc p) q) (lt-base (suc p) q (omega arith)) (base-cases (suc p) r q) refl refl

-- Phase by phase, whatever the number of ranks: a rank has another among those it sends to just if
-- the other has it among those it receives from.
pub phases_from-lockstep :
    (world_size r q round_idx n : ℕ)
    → map (sends_to q) (phases_from world_size r round_idx n)
      ≡ map (receives_from r) (phases_from world_size q round_idx n)
unfolding phases_from
phases_from-lockstep world_size r q round_idx zero = refl
phases_from-lockstep world_size r q round_idx (suc n) =
    let p = world_size / 2 ^ round_idx in
    rw (
      map-append (sends_to q) (round_phases p r) (phases_from world_size r (suc round_idx) n),
      map-append (receives_from r) (round_phases p q) (phases_from world_size q (suc round_idx) n),
      round_phases-lockstep p r q,
      phases_from-lockstep world_size r q (suc round_idx) n,
    )
