-- ===== src/Transfer/Device/Multicast.antt =====
-- `_find_multicast_groups`, and `_build_send_batch` as a whole.
use awex.Prelude.{
  ℕ, ◌+◌, ◌*◌, ◌%◌, String, Bool, true, false, not, ◌&&◌, ◌||◌, List, [], ◌∷◌, map, filter, length,
  set, replicate, ltb, ◌==◌, if◌then◌else◌,
}
use awex.Prelude.Int.{ℤ}
use awex.Prelude.Outcome.{Outcome, ok, ◌>>=◌, ◌>>◌, raise_if}
use awex.Prelude.Indices.{indices}
use awex.Transfer.Plan.Local.{OpDict}
use awex.Transfer.Device.Defs.{
  DeviceError, topology_exceeds, Task, DeviceBatch, any_outside, check_chunk_bytes,
  operation_groups,
}
use awex.Transfer.Device.Send.{Torch, Parameter, same_numels, send_group_loop, empty_batch}

-- `[peer for peer, count in enumerate(expected_counts) if count > 0]`
abbrev pub active_peers : ℕ → List ℕ → List ℕ
active_peers peer [] = []
active_peers peer (count ∷ counts) =
    let rest = active_peers (peer + 1) counts in if ltb 0 count then peer ∷ rest else rest

-- Whether `{peer % instance_world_size for peer in peers}` has just this element.
abbrev pub all_logical : ℕ → ℕ → List ℕ → Bool
all_logical size logical [] = true
all_logical size logical (peer ∷ peers) = (peer % size == logical) && all_logical size logical peers

-- `task_signature`
abbrev pub task_signature : Task → List ℕ
task_signature t =
    t.tensor.data_ptr ∷ t.offset ∷ t.length ∷ t.tensor_offset ∷ t.tensor_row_bytes
    ∷ t.tensor_row_stride ∷ t.ordinal ∷ t.region_index ∷ []

-- The signatures of a peer's tasks, in order.
abbrev pub peer_signatures : List Task → ℕ → List (List ℕ)
peer_signatures tasks peer = map task_signature (filter (λ t. t.peer == peer) tasks)

abbrev pub same_signatures : List (List ℕ) → List (List ℕ) → Bool
same_signatures [] [] = true
same_signatures (s ∷ ss) (t ∷ ts) = same_numels s t && same_signatures ss ts
same_signatures _ _ = false

abbrev pub is_empty_stream : List (List ℕ) → Bool
is_empty_stream [] = true
is_empty_stream (_ ∷ _) = false

-- `for peer in target_peers[1:]`
abbrev pub all_same_stream : List Task → List (List ℕ) → List ℕ → Bool
all_same_stream tasks canonical [] = true
all_same_stream tasks canonical (peer ∷ peers) =
    same_signatures (peer_signatures tasks peer) canonical && all_same_stream tasks canonical peers

-- `target_peers`
abbrev pub target_peers : ℕ → ℕ → ℕ → List ℕ
target_peers instance_world_size logical_peer engine_count =
    map (λ engine_rank. engine_rank * instance_world_size + logical_peer) (indices 0 engine_count)

-- The tests after the topology check, for the active peers.
abbrev pub is_replicated : List Task → ℕ → ℕ → List ℕ → Bool
is_replicated tasks instance_world_size engine_count [] = false
is_replicated tasks instance_world_size engine_count (first ∷ others) =
    let targets = target_peers instance_world_size (first % instance_world_size) engine_count in
    let canonical = peer_signatures tasks first in
    not (any_outside (engine_count * instance_world_size) (first ∷ others))
    && (all_logical instance_world_size (first % instance_world_size) others
        && (same_numels (first ∷ others) targets
            && (not (is_empty_stream canonical) && all_same_stream tasks canonical others)))

-- `groups[canonical_peer] = target_peers`
abbrev pub put_group : List (List ℕ) → List ℕ → List (List ℕ)
put_group groups [] = groups
put_group groups (first ∷ others) = set groups first (first ∷ others)

unfoldable pub find_multicast_groups : DeviceBatch → ℕ → ℕ → Outcome DeviceError (List (List ℕ))
find_multicast_groups batch instance_world_size engine_count =
    let world_size = length batch.expected_counts in
    let groups = replicate world_size [] in
    let peers = active_peers 0 batch.expected_counts in
    if ltb engine_count 2 || (instance_world_size == 0)
    then ok groups
    else (raise_if (ltb world_size (engine_count * instance_world_size)) topology_exceeds
        >> ok (
            if is_replicated batch.tasks instance_world_size engine_count peers
            then put_group groups peers
            else groups))

module _ (torch : Torch) (allow_staging : Bool) (parameters : List (String × Parameter)) where
  unfoldable pub build_send_batch : OpDict → ℕ → ℕ → ℤ → ℕ → ℕ → Outcome DeviceError DeviceBatch
  build_send_batch operations rank world_size chunk_bytes instance_world_size engine_count =
      check_chunk_bytes chunk_bytes >>= λ resolved.
      operation_groups operations rank world_size >>= λ groups.
      send_group_loop torch allow_staging parameters resolved rank groups (empty_batch world_size)
      >>= λ batch. find_multicast_groups batch instance_world_size engine_count >>= λ multicast.
          ok (record {
            tasks = batch.tasks;
            region_bytes = batch.region_bytes;
            expected_counts = batch.expected_counts;
            copybacks = [];
            multicast_groups = multicast;
          })
