-- ===== src/Transfer/Device/Transport.antt =====
-- awex/transfer/nccl_device.py: the class `NCCLDeviceTransport`. The CUDA extension, the process
-- group and torch are arguments.
use awex.Prelude.{
  ℕ, zero, suc, ◌+◌, ◌-◌, String, Bool, true, false, not, ◌&&◌, ◌||◌, Option, none, some, List, [],
  ◌∷◌, length, get_elem?, ltb, ◌==◌, if◌then◌else◌,
}
use awex.Prelude.Int.{ℤ, pos}
use awex.Prelude.Outcome.{Outcome, ok, err, ◌>>=◌, ◌>>◌, raise_if, require, or_raise}
use awex.Transfer.Plan.Local.{OpDict}
use awex.Transfer.Layout.{sum}
use awex.Transfer.Device.Defs.{
  DeviceError, DeviceTensor, Task, DeviceBatch, resolve_chunk_bytes, sequence_from_step,
}
use awex.Transfer.Device.Send.{Torch, Parameter}
use awex.Transfer.Device.Multicast.{build_send_batch}
use awex.Transfer.Device.Recv.{build_recv_batch}
pub mod Offsets
pub mod Bounds
pub mod Calls
pub mod Preparation
pub mod Sending
mod Tests

pub data TransportError : Type 0 where
  batch_error : DeviceError → TransportError
  unsupported_world_size : TransportError
  plan_grew : TransportError
  extension_unavailable : TransportError
  inconsistent_unique_id : TransportError
  create_failed : TransportError
  not_initialized : TransportError
  region_index_error : TransportError

abbrev pub as_transport_error {ℓ} : {A : Type ℓ} → Outcome DeviceError A → Outcome TransportError A
as_transport_error (ok a) = ok a
as_transport_error (err e) = err (batch_error e)

-- What a handle points at, the `DeviceState` of awex/transfer/nccl_device_ext.cu: of its fields only
-- the one that `launch` checks the tasks against. The ring buffer that it registers as the window has
-- a length of its own.
pub record DeviceState : Type 0 where
  pub address : ℕ
  pub logical_data_bytes : ℕ

-- The state that `make_state` leaves, where it does not raise.
abbrev pub state_at : ℕ → Option ℕ → Outcome TransportError DeviceState
state_at data_bytes none = err create_failed
state_at data_bytes (some address) =
    ok (record { address = address; logical_data_bytes = data_bytes })

-- Whether `launch` raises for a task at this offset and of this length.
abbrev pub exceeds_logical_layout : ℕ → ℕ → ℕ → Bool
exceeds_logical_layout logical_data_bytes logical_offset task_bytes =
    ltb logical_data_bytes logical_offset || ltb (logical_data_bytes - logical_offset) task_bytes

-- The CUDA extension. `create` takes the unique id, the number of ranks, the rank, the bytes of the
-- regions and the time limit, and raises where it has no address.
pub record Extension : Type 0 where
  pub loads : Bool
  pub unique_id_size : ℕ
  pub get_unique_id : List ℕ
  pub create : List ℕ → ℕ → ℕ → ℕ → ℕ → Option ℕ

-- What `torch.distributed` hands to this rank.
pub record Group : Type 0 where
  pub all_reduce_max : List ℕ → List ℕ
  pub broadcast : List ℕ → List ℕ

-- An object, with what `is` compares.
pub record Object (A : Type 0) : Type 0 where
  pub identity : ℕ
  pub content : A

pub record Prepared : Type 0 where
  pub parameters : ℕ
  pub plan : ℕ
  pub batch : DeviceBatch

pub record Settings : Type 0 where
  pub rank : ℕ
  pub world_size : ℕ
  pub timeout_ms : ℕ
  pub chunk_bytes : ℕ
  pub infer_instance_world_size : ℕ
  pub num_infer_engines : ℕ

pub record NcclDeviceTransport : Type 0 where
  pub settings : Settings
  pub handle : Option DeviceState
  pub initialized : Bool
  pub region_sizes : Option (List ℕ)
  pub prepared_send : Option Prepared
  pub prepared_recv : Option Prepared

-- What the extension is asked to launch, and what is copied back after it.
pub record Launch : Type 0 where
  pub handle : DeviceState
  pub tasks : List Task
  pub absolute_offsets : List ℕ
  pub expected_counts : List ℕ
  pub multicast_groups : List (List ℕ)
  pub sender : Bool
  pub sequence : ℕ
  pub copybacks : List (DeviceTensor × DeviceTensor)

-- `timeout_ms or ...`
abbrev pub timeout_or : Option ℕ → ℕ → ℕ
timeout_or none configured = configured
timeout_or (some n) configured = if n == 0 then configured else n

unfoldable pub new_transport :
    (String → Option ℤ)
    → Option String
    → ℕ
    → ℕ
    → ℕ
    → Option ℕ
    → Option ℤ
    → ℕ
    → ℕ
    → Outcome TransportError NcclDeviceTransport
new_transport parse_int configured configured_timeout rank world_size timeout_ms chunk_bytes
      instance_world_size engine_count =
    raise_if (ltb world_size 2 || ltb 256 world_size) unsupported_world_size
    >> (as_transport_error (resolve_chunk_bytes parse_int configured chunk_bytes) >>= λ resolved.
        ok (record {
          settings = record {
            rank = rank;
            world_size = world_size;
            timeout_ms = timeout_or timeout_ms configured_timeout;
            chunk_bytes = resolved;
            infer_instance_world_size = instance_world_size;
            num_infer_engines = engine_count;
          };
          handle = none;
          initialized = false;
          region_sizes = none;
          prepared_send = none;
          prepared_recv = none;
        }))

-- `any(requested > allocated for requested, allocated in zip(...))`
abbrev pub any_grew : List ℕ → List ℕ → Bool
any_grew (requested ∷ requests) (allocated ∷ sizes) =
    ltb allocated requested || any_grew requests sizes
any_grew _ _ = false

-- `region_offsets`, on from `total_bytes`.
abbrev pub region_offsets : ℕ → List ℕ → List ℕ
region_offsets total_bytes [] = []
region_offsets total_bytes (region_size ∷ sizes) =
    total_bytes ∷ region_offsets (total_bytes + region_size) sizes

abbrev pub absolute_offsets : List ℕ → List Task → Outcome TransportError (List ℕ)
absolute_offsets regions [] = ok []
absolute_offsets regions (task ∷ tasks) =
    or_raise (get_elem? regions task.region_index) region_index_error >>= λ region.
    absolute_offsets regions tasks >>= λ offsets. ok ((region + task.offset) ∷ offsets)

module _ (extension : Extension) (group : Group) where
  -- The handle that `_ensure_initialized` leaves.
  abbrev pub create_handle : Settings → ℕ → Outcome TransportError DeviceState
  create_handle settings total_bytes =
      require extension.loads extension_unavailable
      >> (raise_if
            (settings.rank == 0 && not (length extension.get_unique_id == extension.unique_id_size))
            inconsistent_unique_id
          >> state_at total_bytes (
              extension.create
                (group.broadcast (if settings.rank == 0 then extension.get_unique_id else []))
                settings.world_size settings.rank total_bytes settings.timeout_ms))

  abbrev pub ensure_initialized : NcclDeviceTransport → ℕ → Outcome TransportError DeviceState
  ensure_initialized transport total_bytes =
      if transport.initialized
      then or_raise transport.handle not_initialized
      else create_handle transport.settings total_bytes

  -- The sizes of the regions: of all ranks at the first run, and kept from then on.
  abbrev pub region_metadata : Option (List ℕ) → List ℕ → Outcome TransportError (List ℕ)
  region_metadata none region_bytes = ok (group.all_reduce_max region_bytes)
  region_metadata (some sizes) region_bytes =
      raise_if (any_grew region_bytes sizes) plan_grew >> ok sizes

  abbrev pub with_sizes : NcclDeviceTransport → List ℕ → NcclDeviceTransport
  with_sizes transport sizes = record transport { region_sizes = some sizes }

  abbrev pub with_handle : NcclDeviceTransport → DeviceState → NcclDeviceTransport
  with_handle transport handle = record transport { handle = some handle; initialized = true }

  module _ (batch : DeviceBatch) (sender : Bool) (sequence : ℕ) where
    abbrev pub launched : DeviceState → List ℕ → Launch
    launched handle offsets = record {
      handle = handle;
      tasks = batch.tasks;
      absolute_offsets = offsets;
      expected_counts = batch.expected_counts;
      multicast_groups = batch.multicast_groups;
      sender = sender;
      sequence = sequence;
      copybacks = batch.copybacks;
    }

    abbrev pub launch :
        NcclDeviceTransport
        → List ℕ
        → Outcome TransportError DeviceState
        → NcclDeviceTransport × Outcome TransportError Launch
    launch transport offsets (err e) = (transport, err e)
    launch transport offsets (ok handle) =
        (with_handle transport handle, ok (launched handle offsets))

    abbrev pub run_placed :
        NcclDeviceTransport
        → List ℕ
        → Outcome TransportError (List ℕ)
        → NcclDeviceTransport × Outcome TransportError Launch
    run_placed transport sizes (err e) = (transport, err e)
    run_placed transport sizes (ok offsets) =
        launch transport offsets (ensure_initialized transport (sum sizes))

    abbrev pub run_sized :
        NcclDeviceTransport
        → Outcome TransportError (List ℕ)
        → NcclDeviceTransport × Outcome TransportError Launch
    run_sized transport (err e) = (transport, err e)
    run_sized transport (ok sizes) =
        run_placed (with_sizes transport sizes) sizes
          (absolute_offsets (region_offsets 0 sizes) batch.tasks)

    abbrev pub run : NcclDeviceTransport → NcclDeviceTransport × Outcome TransportError Launch
    run transport = run_sized transport (region_metadata transport.region_sizes batch.region_bytes)

  -- `prepared[0] is parameters and prepared[1] is plan`
  abbrev pub prepared_or :
      Option Prepared
      → ℕ
      → ℕ
      → Outcome TransportError DeviceBatch
      → Outcome TransportError DeviceBatch
  prepared_or none parameters plan built = built
  prepared_or (some prepared) parameters plan built =
      if (prepared.parameters == parameters) && (prepared.plan == plan)
      then ok prepared.batch
      else built

  abbrev pub run_step :
      Bool
      → NcclDeviceTransport
      → DeviceBatch
      → Outcome TransportError ℕ
      → NcclDeviceTransport × Outcome TransportError Launch
  run_step sender transport batch (err e) = (transport, err e)
  run_step sender transport batch (ok sequence) = run batch sender sequence transport

  abbrev pub run_built :
      Bool
      → ℤ
      → NcclDeviceTransport
      → Outcome TransportError DeviceBatch
      → NcclDeviceTransport × Outcome TransportError Launch
  run_built sender step_id transport (err e) = (transport, err e)
  run_built sender step_id transport (ok batch) =
      run_step sender transport batch (as_transport_error (sequence_from_step step_id))

  module _ (torch : Torch) where
    abbrev pub send_batch :
        Settings → Bool → List (String × Parameter) → OpDict → Outcome TransportError DeviceBatch
    send_batch settings allow_staging parameters plan = as_transport_error (
        build_send_batch torch allow_staging parameters plan settings.rank settings.world_size
          (pos settings.chunk_bytes) settings.infer_instance_world_size settings.num_infer_engines)

    abbrev pub recv_batch :
        Settings → Bool → List (String × Parameter) → OpDict → Outcome TransportError DeviceBatch
    recv_batch settings allow_staging parameters plan = as_transport_error (
        build_recv_batch torch allow_staging parameters plan settings.rank settings.world_size
          (pos settings.chunk_bytes))

    module _ (parameters : Object (List (String × Parameter))) (plan : Object OpDict) where
      abbrev pub send :
          ℤ → NcclDeviceTransport → NcclDeviceTransport × Outcome TransportError Launch
      send step_id transport = run_built true step_id transport (
          prepared_or transport.prepared_send parameters.identity plan.identity
            (send_batch transport.settings true parameters.content plan.content))

      abbrev pub recv :
          ℤ → NcclDeviceTransport → NcclDeviceTransport × Outcome TransportError Launch
      recv step_id transport = run_built false step_id transport (
          prepared_or transport.prepared_recv parameters.identity plan.identity
            (recv_batch transport.settings true parameters.content plan.content))

      abbrev pub prepared_with : DeviceBatch → Prepared
      prepared_with batch = record {
        parameters = parameters.identity;
        plan = plan.identity;
        batch = batch;
      }

      abbrev pub keep_send :
          NcclDeviceTransport
          → Outcome TransportError DeviceBatch
          → NcclDeviceTransport × Outcome TransportError (Unit {0})
      keep_send transport (err e) = (transport, err e)
      keep_send transport (ok batch) =
          (record transport { prepared_send = some (prepared_with batch) }, ok tt)

      abbrev pub keep_recv :
          NcclDeviceTransport
          → Outcome TransportError DeviceBatch
          → NcclDeviceTransport × Outcome TransportError (Unit {0})
      keep_recv transport (err e) = (transport, err e)
      keep_recv transport (ok batch) =
          (record transport { prepared_recv = some (prepared_with batch) }, ok tt)

      abbrev pub prepare_send :
          Bool → NcclDeviceTransport → NcclDeviceTransport × Outcome TransportError (Unit {0})
      prepare_send allow_staging transport =
          keep_send transport
            (send_batch transport.settings allow_staging parameters.content plan.content)

      abbrev pub prepare_recv :
          Bool → NcclDeviceTransport → NcclDeviceTransport × Outcome TransportError (Unit {0})
      prepare_recv allow_staging transport =
          keep_recv transport
            (recv_batch transport.settings allow_staging parameters.content plan.content)

  abbrev pub close : NcclDeviceTransport → NcclDeviceTransport
  close transport = record transport {
    handle = none;
    initialized = false;
    region_sizes = none;
    prepared_send = none;
    prepared_recv = none;
  }
