-- ===== src/Transfer/Stages/Ring.antt =====
-- awex/transfer/nccl_comm.py: the ring of stages: whom a rank sends to, and whom it receives from.
use awex.Prelude.{ℕ, ◌<◌, ◌≡◌, ◌↔◌, arith}
use awex.Transfer.Stages.Build.{send_to, recv_from}

-- In a stage one rank sends to another just if the other receives from it. For any two ranks there is
-- one stage in which the first sends to the second, and no other.
pub send_to-recv_from :
    (world_size r q : ℕ)
    → r < world_size
    → q < world_size
    → ((stage : ℕ)
        → stage < world_size
        → (send_to world_size r stage ≡ q) ↔ (recv_from world_size q stage ≡ r))
      × ((stage : ℕ) × (stage < world_size)
          × (send_to world_size r stage ≡ q)
          × ((other : ℕ) → other < world_size → send_to world_size r other ≡ q → other ≡ stage))
send_to-recv_from world_size r q hr hq = (
  λ stage h. (λ e. ground arith, λ e. ground arith),
  (recv_from world_size q r, ground arith, ground arith, λ other h e. ground arith),
)
