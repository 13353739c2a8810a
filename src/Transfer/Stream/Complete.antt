-- ===== src/Transfer/Stream/Complete.antt =====
-- The whole transfer among 2 ^ k ranks.
use native.Mathlib.Nat.{two-pow-succ, mul-div_cancel_left, div-eq_of_lt}
use awex.Prelude.{
  ℕ, zero, suc, ◌*◌, ◌/◌, ◌^◌, ◌≤◌, ◌<◌, ◌≡◌, ◌≢◌, refl, sym, ap, ◌∙◌, inl, inr, Bool, true, false,
  List, [], ◌∷◌, map, ltb, arith, ◌==◌, Bool-cases, ==→eq, eq→==,
}
use mathlib.Core.List.{append-nil}
use awex.Prelude.Loops.{count}
use awex.Prelude.Outcome.{ok}
use awex.Transfer.Stream.Rounds.{
  OpsDict, Batch, ops_of, p2p_of, log2, int_log2, num_rounds, phases_from, execute_phases,
  execute_recursive_partition_stream_transfer,
}
use awex.Transfer.Stream.Lockstep.{sends_to, receives_from, phases_from-lockstep}
use awex.Transfer.Stream.Partition.{base}
use awex.Transfer.Stream.Meeting.{phases_from-meets_once, two_pow-pos}
use awex.Transfer.Stream.Delivery.{exchanged, exchanged-execute_phases, phase_goes}

log2-two_pow : (k fuel : ℕ) → k ≤ fuel → log2 fuel (2 ^ k) ≡ k
unfolding log2
log2-two_pow zero zero h = refl
log2-two_pow zero (suc fuel) h = refl
log2-two_pow (suc k) zero h = absurd (omega arith)
log2-two_pow (suc k) (suc fuel) h =
    let positive = two_pow-pos k in
    let double : 2 ^ suc k ≡ 2 * 2 ^ k = omega (arith, two-pow-succ k) in
    let large : ltb (2 * 2 ^ k) 2 ≡ false = ground arith in
    let half : 2 * 2 ^ k / 2 ≡ 2 ^ k = mul-div_cancel_left (2 ^ k) (omega arith) in
    rw (double, large, half, log2-two_pow k fuel (omega arith))

lt-two_pow : (k : ℕ) → k < 2 ^ k
lt-two_pow zero = omega arith
lt-two_pow (suc k) = omega (arith, lt-two_pow k, two-pow-succ k)

int_log2-two_pow : (large_log2 : ℕ → ℕ) (k : ℕ) → int_log2 large_log2 (2 ^ k) ≡ k
unfolding int_log2
int_log2-two_pow large_log2 k =
    let enough : k ≤ 2 ^ k = omega (arith, lt-two_pow k) in
    let exact = log2-two_pow k (2 ^ k) enough in
    let is_power : (2 ^ k == 2 ^ k) ≡ true = eq→== (2 ^ k) (2 ^ k) refl in rw (exact, is_power) refl

num_rounds-positive :
    (large_log2 : ℕ → ℕ) (n : ℕ) → 0 < n → num_rounds large_log2 n ≡ ok (int_log2 large_log2 n)
unfolding num_rounds
num_rounds-positive large_log2 zero h = absurd (omega arith)
num_rounds-positive large_log2 (suc n) h = refl

num_rounds-two_pow : (large_log2 : ℕ → ℕ) (k : ℕ) → num_rounds large_log2 (2 ^ k) ≡ ok k
num_rounds-two_pow large_log2 k =
    num_rounds-positive large_log2 (2 ^ k) (two_pow-pos k) ∙ ap ok (int_log2-two_pow large_log2 k)

-- Phases that match one another are as many on both sides.
count-same :
    {A : Type 0} (f g : A → Bool) (xs ys : List A) → map f xs ≡ map g ys → count f xs ≡ count g ys
count-same f g xs ys h = trues f xs ∙ ap (count id) h ∙ sym (trues g ys)
  where
    id : Bool → Bool
    id b = b

    trues : {A : Type 0} (p : A → Bool) (zs : List A) → count p zs ≡ count id (map p zs)
    trues p [] = refl
    trues p (z ∷ zs) = rw (trues p zs)

sends-once :
    (k r q : ℕ) → r < 2 ^ k → q < 2 ^ k → r ≢ q → count (sends_to q) (phases_from (2 ^ k) r 0 k) ≡ 1
sends-once k r q hr hq apart =
    let other : (r == q) ≡ false = elim (Bool-cases (r == q)) [
      | inl same ↦ absurd (apart (==→eq r q same))
      | inr different ↦ different
    ] in
    phases_from-meets_once (2 ^ k) r q 0 k (omega arith)
    ∙ rw (base_zero r hr, base_zero q hq, other) refl
  where
    base_zero : (x : ℕ) → x < 2 ^ k → base (2 ^ k) x ≡ 0
    base_zero x h = ap (λ n. n * 2 ^ k) (div-eq_of_lt h) ∙ (omega arith)

-- Among 2 ^ k ranks the transfer returns, and a rank hands over the operations that it has for each
-- other rank exactly once, in their order, in either direction.
pub execute_recursive_partition_stream_transfer_complete :
    {A B : Type 0} (large_log2 : ℕ → ℕ) (k r q : ℕ)
    (all_send_p2p_ops all_recv_p2p_ops : OpsDict A B)
    → r < 2 ^ k
    → q < 2 ^ k
    → r ≢ q
    → (batches : List (Batch B)) × (execute_recursive_partition_stream_transfer large_log2 r
          (2 ^ k)
          all_send_p2p_ops
          all_recv_p2p_ops
        ≡ ok batches)
      × (exchanged true q batches ≡ map p2p_of (ops_of q all_send_p2p_ops))
      × (exchanged false q batches ≡ map p2p_of (ops_of q all_recv_p2p_ops))
unfolding execute_recursive_partition_stream_transfer
execute_recursive_partition_stream_transfer_complete large_log2 k r q sends recvs hr hq apart =
    let phases = phases_from (2 ^ k) r 0 k in
    let sent : count (phase_goes true q) phases ≡ 1 = sends-once k r q hr hq apart in
    let received : count (phase_goes false q) phases ≡ 1 =
      sym (
        count-same (sends_to r) (receives_from q) (phases_from (2 ^ k) q 0 k) phases
          (phases_from-lockstep (2 ^ k) q r 0 k))
      ∙ sends-once k q r hq hr (λ e. apart (sym e)) in
    (
      execute_phases sends recvs phases,
      rw (num_rounds-two_pow large_log2 k),
      exchanged-execute_phases true q phases sends recvs
          ∙ rw (sent, append-nil (map p2p_of (ops_of q sends))),
      exchanged-execute_phases false q phases sends recvs
          ∙ rw (received, append-nil (map p2p_of (ops_of q recvs))),
    )
