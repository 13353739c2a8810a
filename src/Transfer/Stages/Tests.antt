-- ===== src/Transfer/Stages/Tests.antt =====
-- Two ranks with a device each, and the colours of three ranks.
use awex.Prelude.{◌+◌, ℕ, ◌≡◌, ◌↔◌, ◌<◌, refl, some, List, [], ◌∷◌, arith}
use awex.Prelude.Int.{negsuc}
use awex.Prelude.Outcome.{ok, err}
use awex.Sharding.Kind.{no_sharding}
use awex.Meta.Weight.{ParameterShardMeta}
use awex.Transfer.Plan.Defs.{CommunicationOperation}
use awex.Transfer.Stages.Mapping.{
  RankMapping, inconsistent_mapping, image, validate_inverse, validate_rank_mappings,
  image-validate_rank_mappings,
}
use awex.Transfer.Stages.Build.{
  Transport, P2pOp, Stage, send_to, recv_from, build_stage, build_stages, all_stages, all_copies,
}
use awex.Transfer.Stages.Ring.{send_to-recv_from}
use awex.Transfer.Stages.Inverse.{compute_two_phase_partition-send_to}
use awex.Transfer.Stages.Content.{sent_to, all_stages-ops}
use awex.Transfer.Stages.Phases.{
  run_sends, run_recvs, barrier, gcd_from, inverse_from, compute_two_phase_partition, execute_stage,
  execute_stages, execute_tensors_to_copy, update_weights_in_colocate_mode,
}

abbrev shard : ℕ → ParameterShardMeta
shard rank = record {
  tp_rank = rank;
  attn_tp_rank = rank;
  pp_rank = 0;
  ep_rank = 0;
  ep_tp_rank = 0;
  global_rank = rank;
  world_size = 2;
  engine_rank = 0;
  name = "w";
  shape = 4 ∷ [];
  numel = 4;
  dtype = "bfloat16";
  global_offset = 0 ∷ [];
  sharding_type = no_sharding;
  num_shards = 1;
  sharding_dim = 0;
  cp_rank = 0;
  cp_size = 1;
  cp_mode = "none";
}

abbrev operation : ℕ → ℕ → CommunicationOperation
operation send_rank recv_rank = record {
  send_rank = send_rank;
  send_shard_meta = shard send_rank;
  send_offset = 0 ∷ [];
  recv_rank = recv_rank;
  recv_shard_meta = shard recv_rank;
  recv_offset = 0 ∷ [];
  overlap_shape = 4 ∷ [];
  train_slices = [];
  inf_slices = [];
  pp_rank = 0;
  placement_version = negsuc 0;
  param_class = "dense_other";
  send_tensor_span_numels = [];
}

abbrev forward : RankMapping
forward = (2, 0) ∷ (3, 1) ∷ []

abbrev backward : RankMapping
backward = (0, 2) ∷ (1, 3) ∷ []

-- Rank 0 trains as rank 2: it copies to itself, sends to rank 1 and receives from rank 3.
abbrev transport : Transport
transport = record {
  transfer_rank = 0;
  world_size = 2;
  train_to_infer_device_mapping = forward;
  infer_to_train_device_mapping = backward;
  send_ops = (0, operation 2 0 ∷ []) ∷ (1, operation 2 1 ∷ []) ∷ [];
  recv_ops = (2, operation 2 0 ∷ []) ∷ (3, operation 3 0 ∷ []) ∷ [];
  send_parameters = "w" ∷ [];
  recv_parameters = "w" ∷ [];
}

abbrev p2p : CommunicationOperation → ℕ → P2pOp
p2p op peer = record { op = op; peer = peer }

abbrev stages : List Stage
stages =
    (record { sends = []; recvs = []; copies = operation 2 0 ∷ [] })
    ∷ (record {
      sends = p2p (operation 2 1) 1 ∷ [];
      recvs = p2p (operation 3 0) 1 ∷ [];
      copies = [];
    })
    ∷ []

stages_built : all_stages transport ≡ ok stages
unfolding all_stages build_stages build_stage
stages_built = refl

weights_updated :
    update_weights_in_colocate_mode transport
    ≡ ok (
      (operation 2 0, operation 2 0) ∷ [],
      run_sends (p2p (operation 2 1) 1 ∷ [])
          ∷ barrier
          ∷ run_recvs (p2p (operation 3 0) 1 ∷ [])
          ∷ barrier
          ∷ [],
    )
unfolding update_weights_in_colocate_mode validate_rank_mappings validate_inverse all_stages
    build_stages build_stage execute_tensors_to_copy execute_stages execute_stage
    compute_two_phase_partition gcd_from inverse_from
weights_updated = refl

swapped_mapping : validate_rank_mappings forward ((0, 3) ∷ (1, 2) ∷ []) ≡ err inconsistent_mapping
unfolding validate_rank_mappings validate_inverse
swapped_mapping = refl

-- Four ranks in stage 1: neighbours have different colours.
four_colours :
    (compute_two_phase_partition 0 1 4 ≡ ok 0)
    × (compute_two_phase_partition 1 1 4 ≡ ok 1)
    × (compute_two_phase_partition 2 1 4 ≡ ok 0)
    × (compute_two_phase_partition 3 1 4 ≡ ok 1)
unfolding compute_two_phase_partition gcd_from inverse_from
four_colours = (refl, refl, refl, refl)

-- Three ranks in stage 1: rank 2 sends to rank 0, and both send first.
three_colours :
    (compute_two_phase_partition 0 1 3 ≡ ok 0)
    × (compute_two_phase_partition 2 1 3 ≡ ok 0)
    × (send_to 3 2 1 ≡ 0)
unfolding compute_two_phase_partition gcd_from inverse_from
three_colours = (refl, refl, refl)

image-validate_rank_mappings_example : (image 2 forward ≡ some 0) ↔ (image 0 backward ≡ some 2)
unfolding validate_rank_mappings validate_inverse
image-validate_rank_mappings_example = image-validate_rank_mappings forward backward 2 0 refl

send_to-recv_from_example :
    ((stage : ℕ) → stage < 4 → (send_to 4 3 stage ≡ 1) ↔ (recv_from 4 1 stage ≡ 3))
    × ((stage : ℕ) × (stage < 4)
        × (send_to 4 3 stage ≡ 1)
        × ((other : ℕ) → other < 4 → send_to 4 3 other ≡ 1 → other ≡ stage))
send_to-recv_from_example = send_to-recv_from 4 3 1 (omega arith) (omega arith)

all_stages-ops_example :
    (sent_to 1 stages ≡ operation 2 1 ∷ []) × (all_copies stages ≡ operation 2 0 ∷ [])
all_stages-ops_example =
    all_stages-ops transport 1 stages (λ e. absurd (omega (arith, e))) (omega arith) (omega arith)
      stages_built

-- Rank 3 of four sends to rank 0 in stage 1.
compute_two_phase_partition-send_to_example :
    (colour : ℕ) × (other : ℕ) × (compute_two_phase_partition 3 1 4 ≡ ok colour)
    × (compute_two_phase_partition 0 1 4 ≡ ok other)
    × (colour + other ≡ 1)
unfolding gcd_from
compute_two_phase_partition-send_to_example =
    compute_two_phase_partition-send_to 3 0 4 (omega arith) refl
