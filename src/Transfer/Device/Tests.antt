-- ===== src/Transfer/Device/Tests.antt =====
-- Rank 2 sends two elements to rank 0 and, where there are two engines, the same to rank 1.
use Prim.Native.String.{String}
use awex.Prelude.{
  ℕ, ◌-◌, ◌*◌, ◌≤◌, ◌≡◌, refl, true, false, some, none, List, [], ◌∷◌, map, get_elem?,
}
use awex.Prelude.Int.{pos, negsuc}
use awex.Prelude.Outcome.{ok, err}
use awex.Prelude.Sort.{sort}
use awex.Prelude.Range.{range}
use awex.Transfer.Chunks.{chunk_at, split_chunks, build_transfer_chunks}
use awex.Transfer.Plan.Defs.{Slice, CommunicationOperation}
use awex.Transfer.Plan.Local.{OpDict}
use awex.Transfer.Sample.{sample_operation}
use awex.Transfer.Device.Defs.{
  DeviceTensor, Task, DeviceBatch, narrow, operation_groups, resolve_chunk_bytes,
  sequence_from_step, invalid_peer, self_transfer, unaligned_chunk,
}
use awex.Transfer.Device.Ranges.{tensor_copy_layout, append_tensor_range}
use awex.Transfer.Device.Send.{Parameter, plain, Torch, PeerCursor, send_op_loop}
use awex.Transfer.Device.Multicast.{find_multicast_groups, build_send_batch}
use awex.Transfer.Device.Recv.{recv_op_loop}
use awex.Transfer.Device.Stream.{place}
use awex.Transfer.Device.Matching.{CopiesKeepSize, Compatible, send_op_loop-recv_op_loop}
use awex.Transfer.Device.Consecutive.{Follows}
use awex.Transfer.Device.Batches.{origin, tasks_to, build_send_batch-Follows}
use awex.Transfer.Device.Replicated.{Shared, find_multicast_groups-Shared}

abbrev tensor : ℕ → DeviceTensor
tensor data_ptr = record {
  data_ptr = data_ptr;
  element_size = 2;
  shape = 4 ∷ [];
  strides = 1 ∷ [];
  is_contiguous = true;
  is_cuda = true;
}

-- Tensors of one dimension, indexed by one slice.
abbrev pub index_one : DeviceTensor → List Slice → DeviceTensor
index_one t [] = t
index_one t (s ∷ _) = narrow t s.start (s.stop - s.start)

abbrev pub torch : Torch
torch = record { index = index_one; contiguous = λ t. t; empty_like = λ t. t }

abbrev laws : CopiesKeepSize torch
laws = record {
  contiguous_numel = λ t. refl;
  contiguous_size = λ t. refl;
  empty_like_numel = λ t. refl;
  empty_like_size = λ t. refl;
}

abbrev pub at : ℕ → List (String × Parameter)
at data_ptr = ("w", plain (tensor data_ptr)) ∷ []

abbrev op : ℕ → ℕ → CommunicationOperation
op = sample_operation 2

abbrev one_engine : OpDict
one_engine = (0, op 0 1 ∷ op 0 3 ∷ []) ∷ []

abbrev pub two_engines : OpDict
two_engines = (1, op 1 1 ∷ op 1 3 ∷ []) ∷ (0, op 0 1 ∷ op 0 3 ∷ []) ∷ []

abbrev pub task : ℕ → ℕ → ℕ → ℕ → ℕ → ℕ → Task
task data_ptr offset count peer ordinal region = record {
  tensor = narrow (tensor data_ptr) 0 count;
  offset = offset;
  length = 2 * count;
  tensor_offset = 0;
  tensor_row_bytes = 2 * count;
  tensor_row_stride = 2 * count;
  peer = peer;
  ordinal = ordinal;
  region_index = region;
}

abbrev pub sent_batch : DeviceBatch
sent_batch = record {
  tasks = task 102 0 1 0 0 2 ∷ task 106 2 1 0 1 2 ∷ task 102 0 1 1 0 2 ∷ task 106 2 1 1 1 2 ∷ [];
  region_bytes = 0 ∷ 0 ∷ 4 ∷ [];
  expected_counts = 2 ∷ 2 ∷ 0 ∷ [];
  copybacks = [];
  multicast_groups = (0 ∷ 1 ∷ []) ∷ [] ∷ [] ∷ [];
}

built_batch : build_send_batch torch true (at 100) two_engines 2 3 (pos 16) 1 2 ≡ ok sent_batch
unfolding build_send_batch operation_groups sort tensor_copy_layout append_tensor_range
    build_transfer_chunks split_chunks chunk_at range find_multicast_groups
built_batch = refl

sent_tasks :
    send_op_loop torch true (at 100) 16 2 0 (op 0 1 ∷ op 0 3 ∷ []) origin
    ≡ ok (task 102 0 1 0 0 2 ∷ task 106 2 1 0 1 2 ∷ [], record { peer_offset = 4; ordinal = 2 })
unfolding tensor_copy_layout append_tensor_range build_transfer_chunks split_chunks chunk_at range
sent_tasks = refl

received_tasks :
    recv_op_loop torch true (at 200) 16 2 (op 0 1 ∷ op 0 3 ∷ []) origin
    ≡ ok (
      (task 202 0 1 2 0 2 ∷ task 206 2 1 2 1 2 ∷ [], record { peer_offset = 4; ordinal = 2 }),
      [],
    )
unfolding tensor_copy_layout append_tensor_range build_transfer_chunks split_chunks chunk_at range
received_tasks = refl

no_such_peer : operation_groups one_engine 2 0 ≡ err invalid_peer
unfolding operation_groups sort
no_such_peer = refl

to_itself : operation_groups one_engine 0 3 ≡ err self_transfer
unfolding operation_groups sort
to_itself = refl

odd_chunk : resolve_chunk_bytes (λ _. none) none (some (pos 24)) ≡ err unaligned_chunk
unfolding resolve_chunk_bytes
odd_chunk = refl

first_sequence : sequence_from_step (negsuc 0) ≡ ok 1
unfolding sequence_from_step
first_sequence = refl

-- Rows of three elements in rows of four.
rows_of_view :
    tensor_copy_layout (record {
      data_ptr = 0;
      element_size = 2;
      shape = 2 ∷ 3 ∷ [];
      strides = 4 ∷ 1 ∷ [];
      is_contiguous = false;
      is_cuda = true;
    })
    ≡ ok (6, 8)
unfolding tensor_copy_layout
rows_of_view = refl

abbrev compatible : (offset : ℕ) → Compatible torch laws (at 100) (at 200) (op 0 offset)
compatible offset = record {
  sent = plain (tensor 100);
  tensor = tensor 200;
  found = refl;
  found_tensor = refl;
  agrees = (refl, refl);
}

send_op_loop-recv_op_loop_example :
    (map place (task 102 0 1 0 0 2 ∷ task 106 2 1 0 1 2 ∷ [])
      ≡ map place (task 202 0 1 2 0 2 ∷ task 206 2 1 2 1 2 ∷ []))
    × (◌≡◌ {A = PeerCursor}
        (record { peer_offset = 4; ordinal = 2 })
        (record { peer_offset = 4; ordinal = 2 }))
send_op_loop-recv_op_loop_example =
    send_op_loop-recv_op_loop torch laws (at 100) (at 200) 16 2 0 true true (op 0 1 ∷ op 0 3 ∷ [])
      origin (task 102 0 1 0 0 2 ∷ task 106 2 1 0 1 2 ∷ [], record { peer_offset = 4; ordinal = 2 })
      ((task 202 0 1 2 0 2 ∷ task 206 2 1 2 1 2 ∷ [], record { peer_offset = 4; ordinal = 2 }), [])
      (compatible 1, (compatible 3, tt)) sent_tasks received_tasks

build_send_batch-Follows_example :
    (end : PeerCursor) × (region : ℕ) × Follows origin (map place (tasks_to 0 sent_batch.tasks)) end
    × (get_elem? sent_batch.expected_counts 0 ≡ some end.ordinal)
    × (get_elem? sent_batch.region_bytes 2 ≡ some region)
    × (end.peer_offset ≤ region)
build_send_batch-Follows_example =
    build_send_batch-Follows torch true (at 100) two_engines 2 3 (pos 16) 1 2 sent_batch
      (refl, (refl, tt)) built_batch 0 refl

found_group : find_multicast_groups sent_batch 1 2 ≡ ok ((0 ∷ 1 ∷ []) ∷ [] ∷ [] ∷ [])
unfolding find_multicast_groups
found_group = refl

find_multicast_groups-Shared_example : (◌≡◌ {A = ℕ} 0 0) × Shared sent_batch 1 2 0 (0 ∷ 1 ∷ [])
find_multicast_groups-Shared_example =
    find_multicast_groups-Shared sent_batch 1 2 ((0 ∷ 1 ∷ []) ∷ [] ∷ [] ∷ []) 0 0 (1 ∷ [])
      found_group refl
