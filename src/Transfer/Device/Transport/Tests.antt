-- ===== src/Transfer/Device/Transport/Tests.antt =====
-- A transport of rank 2 of 3, for the sample plan with two engines. The state has address 99.
use awex.Prelude.{ℕ, ◌≡◌, refl, true, false, some, none, List, [], ◌∷◌, arith, map}
use awex.Prelude.Int.{pos, negsuc}
use awex.Prelude.Outcome.{Outcome, ok, err}
use awex.Prelude.Sort.{sort}
use awex.Prelude.Range.{range}
use awex.Transfer.Chunks.{chunk_at, split_chunks, build_transfer_chunks}
use awex.Transfer.Device.Defs.{
  DeviceBatch, Task, operation_groups, resolve_chunk_bytes, sequence_from_step,
}
use awex.Transfer.Device.Ranges.{tensor_copy_layout, append_tensor_range}
use awex.Transfer.Device.Multicast.{find_multicast_groups, build_send_batch}
use awex.Transfer.Device.Recv.{build_recv_batch}
use awex.Transfer.Device.Tests.{torch, at, two_engines, sent_batch, index_one}
use awex.Transfer.Device.Send.{Torch}
use awex.Transfer.Device.Transport.{
  unsupported_world_size, plan_grew, Extension, Group, NcclDeviceTransport, Launch, new_transport,
  TransportError, DeviceState, launched, run, run_built, send_batch, send, prepare_send, close,
}
use awex.Transfer.Device.Transport.Bounds.{ReducesToMax}
use awex.Transfer.Device.Transport.Calls.{
  Surroundings, ParameterDict, Plan, Call, send_call, recv_call, prepare_send_call, close_call,
  after_calls,
}
use awex.Transfer.Device.Transport.Sending.{AllInside, send-AllInside}
use awex.Transfer.Device.Transport.Preparation.{send-prepare_send}

abbrev extension : Extension
extension = record {
  loads = true;
  unique_id_size = 2;
  get_unique_id = 7 ∷ 8 ∷ [];
  create = λ unique_id world_size rank max_bytes timeout_ms. some 99;
}

abbrev group : Group
group = record { all_reduce_max = λ xs. xs; broadcast = λ xs. xs }

reduces : ReducesToMax group
reduces xs i n m e e' = let same : n ≡ m = cc in omega arith

abbrev transport : NcclDeviceTransport
transport = record {
  settings = record {
    rank = 2;
    world_size = 3;
    timeout_ms = 120000;
    chunk_bytes = 16;
    infer_instance_world_size = 1;
    num_infer_engines = 2;
  };
  handle = none;
  initialized = false;
  region_sizes = none;
  prepared_send = none;
  prepared_recv = none;
}

abbrev parameters : ParameterDict
parameters = record { identity = 11; content = at 100 }

abbrev plan : Plan
plan = record { identity = 12; content = two_engines }

new_example : new_transport (λ s. none) none 120000 2 3 none (some (pos 16)) 1 2 ≡ ok transport
unfolding new_transport resolve_chunk_bytes
new_example = refl

one_rank : new_transport (λ s. none) none 120000 0 1 none none 1 1 ≡ err unsupported_world_size
unfolding new_transport
one_rank = refl

abbrev state : ℕ → DeviceState
state logical_data_bytes = record { address = 99; logical_data_bytes = logical_data_bytes }

abbrev started : Launch
started = launched extension group sent_batch true 2 (state 4) (0 ∷ 2 ∷ 0 ∷ 2 ∷ [])

first_send : (send extension group torch parameters plan (pos 0) transport).1 ≡ ok started
unfolding build_send_batch operation_groups sort tensor_copy_layout append_tensor_range
    build_transfer_chunks split_chunks chunk_at range find_multicast_groups sequence_from_step
first_send = refl

-- A batch that asks for more than the regions have.
abbrev larger_batch : DeviceBatch
larger_batch = record sent_batch { region_bytes = 0 ∷ 0 ∷ 5 ∷ [] }

grown :
    (run extension group larger_batch true 3 (run extension group sent_batch true 2 transport).0).1
    ≡ err plan_grew
grown = refl

-- After `close` the regions are measured anew.
reopened :
    (run extension group larger_batch true 3
      (close extension group (run extension group sent_batch true 2 transport).0)).1
    ≡ ok (launched extension group larger_batch true 3 (state 5) (0 ∷ 2 ∷ 0 ∷ 2 ∷ []))
reopened = refl

abbrev around : Surroundings
around = record { extension = extension; group = group; torch = torch }

abbrev calls : List (Surroundings × Call)
calls =
    (around, prepare_send_call parameters plan true)
    ∷ (around, send_call parameters plan (pos 0))
    ∷ (around, recv_call parameters plan (negsuc 4))
    ∷ (around, close_call)
    ∷ (around, send_call parameters plan (pos 1))
    ∷ []

-- The launch after these calls: the regions are those of the send before.
send-AllInside_example :
    AllInside
      (send extension group torch parameters plan (pos 0) (after_calls calls transport)).0
      started
unfolding build_send_batch operation_groups sort tensor_copy_layout append_tensor_range
    build_transfer_chunks split_chunks chunk_at range find_multicast_groups sequence_from_step
    build_recv_batch
send-AllInside_example =
    send-AllInside (λ s. none) none 120000 2 3 none (some (pos 16)) 1 2 transport new_example calls
      around parameters plan (pos 0) started reduces refl

-- Rows of a wider tensor, which are not contiguous, and torch with a copy of them at an address.
abbrev copying : ℕ → Torch
copying data_ptr = record torch {
  index = λ t slices. record (index_one t slices) {
    shape = 1 ∷ 1 ∷ [];
    strides = 4 ∷ 1 ∷ [];
    is_contiguous = false;
  };
  contiguous = λ t. record t { data_ptr = data_ptr; is_contiguous = true };
}

abbrev sent_ptrs : Outcome TransportError Launch → List ℕ
sent_ptrs (ok l) = map (λ (t : Task). t.tensor.data_ptr) l.tasks
sent_ptrs (err e) = []

-- Where staging is allowed at the preparation, a later call sends the copy that was made then.
copied_when_prepared :
    sent_ptrs
      (send extension group
        (copying 600)
        parameters
        plan
        (pos 0)
        (prepare_send extension group (copying 500) parameters plan true transport).0).1
    ≡ 500 ∷ 500 ∷ 500 ∷ 500 ∷ []
unfolding build_send_batch operation_groups sort tensor_copy_layout append_tensor_range
    build_transfer_chunks split_chunks chunk_at range find_multicast_groups sequence_from_step
copied_when_prepared = refl

send-prepare_send_example :
    (send extension group
      (copying 600)
      parameters
      plan
      (pos 0)
      (prepare_send extension group (copying 500) parameters plan false transport).0).1
    ≡ (run_built extension group true
        (pos 0)
        transport
        (send_batch extension group (copying 600) transport.settings false (at 100) two_engines)).1
unfolding build_send_batch operation_groups sort tensor_copy_layout append_tensor_range
    build_transfer_chunks split_chunks chunk_at range find_multicast_groups
send-prepare_send_example =
    send-prepare_send extension group parameters plan (copying 500) (copying 600) transport (pos 0)
      (λ t slices. refl) refl
