-- ===== src/Lib.antt =====
-- Awex moves the weights of a model from the ranks that train it to the ranks that serve it, which cut
-- the parameters in different ways. This library models the parts that decide what is moved where.
--
-- How the parts work together. Every rank reports its parameters; the resolver (Meta/Resolver) groups
-- the reports into replicas and gives every shard its offset in the whole parameter. Ranks exchange such
-- metadata through a key-value server (Meta/Server). The planner (Transfer/Plan) intersects the shards of
-- the training side with those of the inference side and makes an operation for each overlap; each rank
-- keeps the operations in which it takes part, grouped by its peers. A transport then runs them: in
-- stages around a ring (Transfer/Stages), by halving the ranks (Transfer/Stream), as batches of
-- point-to-point operations (Transfer/Comm) or as tasks of a device kernel (Transfer/Device), which cuts
-- slices out of concatenated tensors (Transfer/Layout).
--
-- Files and code, the paths from the repository's root:
--   Prelude       tests, lists, loops with exceptions, sorting and orders that all modules share
--   Util/Alias    awex/util/common.py: the aliases that only the inference side has
--   Util/Framing  awex/util/common.py: to_binary and from_binary
--   Sharding      awex/sharding/param_sharding.py (ShardingType), awex/sharding/rank_info.py (RankInfo)
--   Meta/Weight   awex/meta/weight_meta.py: Records has the data classes, Local the methods of
--                 ParameterMeta and compute_total_model_size
--   Meta/Resolver awex/meta/meta_resolver.py, ParamMetaResolver._build_params_meta: Build has the first
--                 loop (param_shards) and the whole, Replicas the second loop, Offsets the third
--   Meta/Server   awex/meta/meta_server.py: State and Handlers have the class MetaServer with one
--                 constructor of Request for each route, Client the calls of MetaServerClient
--   Meta/Server/Wait  awex/meta/meta_server.py: wait_key, wait_set_until_size and barrier of
--                 MetaServerClient
--   Transfer/Layout  awex/transfer/tensor_layout.py: _selected_flat_runs and
--                 slice_layout_fragments in the module itself, StaticTensorLayout in Static
--   Transfer/Chunks  awex/transfer/transfer_plan.py, build_transfer_chunks
--   Transfer/Plan    awex/transfer/transfer_plan.py, TransferPlanBuilder: Defs has the records, Regions
--                 _find_overlapping_regions and _build_region_communication_plan, Build the plan from
--                 _create_shard_offset_for_replica up to build_weights_mapping_operations, Local
--                 _group_operations_by_rank, TransferPlan and build_local_transfer_plan
--   Transfer/Stages  awex/transfer/nccl_comm.py, NcclColocateTransport: Mapping has
--                 validate_rank_mappings, Build the loop over the stages, Phases
--                 compute_two_phase_partition and the run
--   Transfer/Stream  awex/transfer/nccl_stream_batch.py, execute_recursive_partition_stream_transfer and
--                 _execute_ops_concurrent, in Rounds
--   Transfer/Comm    awex/transfer/nccl_comm.py: Rotation and Build have nccl_build_send_ops and
--                 nccl_build_recv_ops, Interleave has _interleave_p2p_ops_by_peer, Batch batch_send_recv
--   Transfer/Device  awex/transfer/nccl_device.py: Defs has the checks and the split of a tensor, Ranges
--                 _append_tensor_range, Send and Multicast the batch of a sender, Recv that of a receiver,
--                 Transport the class NCCLDeviceTransport, with the check of the tasks in
--                 awex/transfer/nccl_device_ext.cu
-- The other files under these hold proofs, and the files named Tests concrete runs.
--
-- How the code is modelled. A function that can raise returns an Outcome, with one error for each kind of
-- exception of its module, in the order in which the code meets them. Loops over a list are recursions on
-- it. Ranks, shapes and offsets are never negative in the code and are natural numbers. Dictionaries are
-- lists of pairs in insertion order. Objects that the code mutates in place are numbered where that
-- matters (ShardObject in Meta/Resolver). A torch dtype is known by its name, a tensor slice by its
-- operation. The requests of all clients of the server are a list, in the order in which they are served:
-- a handler changes the state after its last await.
--
-- Bounds and fuel. The binary logarithm halves its argument on fuel n, which is more than the number
-- of halvings; int(math.log2(n)) is exact for powers of 2 and below 2 ^ 40, and an argument beyond.
-- Euclid's steps for math.gcd have the second argument and one as fuel, and the modular inverse is
-- searched below the modulus. The loops over stages and rounds run as often as the code counts, and a
-- range has as many elements as Python computes from its ends and its step. The round-robin over the
-- operations of all ranks has the longest of the lists and one more as fuel, since every round takes
-- one operation of each; the interleaving has the number of operations, since every round takes one at
-- least. A wait sleeps at least 0.2 seconds in every round, so its timeout in milliseconds is fuel
-- enough.
--
-- Parameters. What subclasses of the resolver implement (_get_sharding_info), what the server uses of
-- pickle and json (Codec), what the device transport uses of torch (Torch, with CopiesKeepSize for what
-- contiguous and empty_like keep, and SameViews for what indexing gives at two times), its process group
-- and its CUDA extension (Group, Extension, with ReducesToMax for the reduction), the streams and work
-- handles of torch.distributed, what len makes of an object, and what happens while a client waits
-- (World) are arguments of the definitions.
--
-- Not modelled: tensors and CUDA; of the CUDA extension anything but the logical size that a handle
-- keeps and the check of the tasks against it (its ring buffer has a layout of its own); the process
-- groups, the HTTP connection with its retries, logs, hashes and dumps of plans, the converters and model
-- adapters, the engines, readers and writers, and the second version of the device transport. Each shard
-- of a replica writes its end offset into one shared buffer in the code; only the places of the shard's
-- own dimensions are read, and those are what end_offset holds.
pub mod Prelude
pub mod Util
pub mod Sharding
pub mod Meta
pub mod Transfer
