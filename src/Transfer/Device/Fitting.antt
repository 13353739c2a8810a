-- ===== src/Transfer/Device/Fitting.antt =====
-- The tasks of a sender lie in its own region, inside the bytes that the batch asks for there.
use awex.Prelude.{
  ℕ, zero, suc, ◌+◌, ◌≤◌, ◌≡◌, ap, sym, ◌∙◌, inl, inr, String, Bool, some, List, [], ◌∷◌, map, All,
  All-append, get_elem?, max, arith, Bool-cases,
}
use awex.Prelude.Int.{ℤ}
use awex.Prelude.Outcome.{
  ok, bind-eq-ok, raise_if-eq-ok, require-eq-ok, or_raise, or_raise-eq-ok, ok-injective,
}
use awex.Transfer.Chunks.{TransferChunk}
use awex.Transfer.Plan.Defs.{CommunicationOperation}
use awex.Transfer.Plan.Local.{OpDict}
use awex.Transfer.Device.Defs.{
  key_error, index_error, DeviceTensor, Task, DeviceBatch, check_chunk_bytes, operation_groups,
}
use awex.Transfer.Device.Ranges.{
  tensor_copy_layout, device_chunks, TensorRange, chunk_task, append_chunks, append_tensor_range,
}
use awex.Transfer.Device.Send.{
  Torch, Parameter, find_parameter, send_fragments, PeerCursor, Appended, send_fragment_loop,
  send_op_loop, send_group_loop, empty_batch,
}
use awex.Transfer.Device.Multicast.{find_multicast_groups, build_send_batch}
use awex.Transfer.Device.Stream.{place}
use awex.Transfer.Device.Consecutive.{Follows, send_op_loop-Follows}
use awex.Transfer.Device.Batches.{origin, HasRoom, HasRoom-le, filed, filed-room, some_injective}

-- Each task ends inside the bytes that its batch asks for in its region.
abbrev pub Fits : DeviceBatch → Type 0
Fits batch =
    (i : ℕ) (task : Task)
    → get_elem? batch.tasks i ≡ some task
    → (n : ℕ) × (get_elem? batch.region_bytes task.region_index ≡ some n)
      × (task.offset + task.length ≤ n)

abbrev Lies : ℕ → List Task → Type 0
Lies region = All (λ t. t.region_index ≡ region)

chunk_task-region :
    (range : TensorRange) (chunk : TransferChunk) (ordinal : ℕ) (task : Task)
    → chunk_task range chunk ordinal ≡ ok task
    → task.region_index ≡ range.region_index
chunk_task-region range chunk ordinal task h = elim (Bool-cases range.tensor.is_contiguous) [
  | inl flat ↦
      let (aligned, last) = raise_if-eq-ok _ _ _ (rw flat at h) in
      ap (λ (t : Task). t.region_index) (ok-injective last)
  | inr strided ↦ ap (λ (t : Task). t.region_index) (ok-injective (rw strided at h))
]

append_chunks-Lies :
    (range : TensorRange) (chunks : List TransferChunk) (ordinal : ℕ) (result : List Task × ℕ)
    → append_chunks range chunks ordinal ≡ ok result
    → Lies range.region_index result.0
append_chunks-Lies range [] ordinal result h = rw (ok-injective h) tt
append_chunks-Lies range (chunk ∷ chunks) ordinal result h =
    let (task, e, rest) = bind-eq-ok (chunk_task range chunk ordinal) _ h in
    let (more, e', last) = bind-eq-ok (append_chunks range chunks (ordinal + 1)) _ rest in
    rw (ok-injective last) (
      chunk_task-region range chunk ordinal task e,
      append_chunks-Lies range chunks (ordinal + 1) more e',
    )

append_tensor_range-Lies :
    (chunk_bytes : ℕ) (range : TensorRange) (nbytes ordinal : ℕ) (result : List Task × ℕ)
    → append_tensor_range chunk_bytes range nbytes ordinal ≡ ok result
    → Lies range.region_index result.0
unfolding append_tensor_range
append_tensor_range-Lies chunk_bytes range nbytes ordinal result h =
    let (chunks, e, rest) = bind-eq-ok (device_chunks nbytes chunk_bytes) _ h in
    append_chunks-Lies range chunks ordinal result rest

send_fragment_loop-Lies :
    (chunk_bytes rank peer : ℕ) (fragments : List DeviceTensor) (cursor : PeerCursor)
    (result : Appended)
    → send_fragment_loop chunk_bytes rank peer fragments cursor ≡ ok result
    → Lies rank result.0
send_fragment_loop-Lies chunk_bytes rank peer [] cursor result h = rw (ok-injective h) tt
send_fragment_loop-Lies chunk_bytes rank peer (fragment ∷ fragments) cursor result h =
    let (cuda, laid) = require-eq-ok fragment.is_cuda _ _ h in
    let (rows, e, rest) = bind-eq-ok (tensor_copy_layout fragment) _ laid in
    let (here, e', rest') =
      bind-eq-ok (append_tensor_range chunk_bytes _ _ cursor.ordinal) _ rest in
    let (more, e'', last) =
      bind-eq-ok (send_fragment_loop chunk_bytes rank peer fragments _) _ rest' in
    rw (ok-injective last) (
      All-append (λ t. t.region_index ≡ rank) here.0 more.0
        (append_tensor_range-Lies chunk_bytes _ _ cursor.ordinal here e')
        (send_fragment_loop-Lies chunk_bytes rank peer fragments _ more e''))

Follows-le :
    (tasks : List Task) (c end : PeerCursor)
    → Follows c (map place tasks) end
    → c.peer_offset ≤ end.peer_offset
Follows-le [] c end (e, e') = omega (arith, e)
Follows-le (t ∷ tasks) c end (at, some_byte, counted, rest) =
    let ih = Follows-le tasks _ end rest in omega (arith, ih)

-- No task ends after the cursor at the end.
Follows-within :
    (tasks : List Task) (c end : PeerCursor)
    → Follows c (map place tasks) end
    → All (λ t. t.offset + t.length ≤ end.peer_offset) tasks
Follows-within [] c end h = tt
Follows-within (t ∷ tasks) c end (at, some_byte, counted, rest) =
    let le = Follows-le tasks _ end rest in (omega (arith, at, le), Follows-within tasks _ end rest)

module _ (torch : Torch) (allow_staging : Bool) (parameters : List (String × Parameter))
    (chunk_bytes rank : ℕ) where
  send_op_loop-Lies :
      (peer : ℕ) (ops : List CommunicationOperation) (cursor : PeerCursor) (result : Appended)
      → send_op_loop torch allow_staging parameters chunk_bytes rank peer ops cursor ≡ ok result
      → Lies rank result.0
  send_op_loop-Lies peer [] cursor result h = rw (ok-injective h) tt
  send_op_loop-Lies peer (op ∷ ops) cursor result h =
      let (parameter, e, rest) =
        bind-eq-ok (or_raise (find_parameter op.send_shard_meta.name parameters) key_error) _ h in
      let (fragments, e', rest') =
        bind-eq-ok (send_fragments torch allow_staging parameter op) _ rest in
      let (here, e'', rest'') =
        bind-eq-ok (send_fragment_loop chunk_bytes rank peer fragments cursor) _ rest' in
      let (more, e3, last) =
        bind-eq-ok (send_op_loop torch allow_staging parameters chunk_bytes rank peer ops here.1) _
          rest'' in
      rw (ok-injective last) (
        All-append (λ t. t.region_index ≡ rank) here.0 more.0
          (send_fragment_loop-Lies chunk_bytes rank peer fragments cursor here e'')
          (send_op_loop-Lies peer ops here.1 more e3))

  abbrev Roomy : DeviceBatch → List Task → Type 0
  Roomy batch = All (λ t.
      (t.region_index ≡ rank)
      × HasRoom torch allow_staging parameters chunk_bytes rank batch (t.offset + t.length))

  Roomy-filed :
      (peer : ℕ) (here : Appended) (region : ℕ) (batch : DeviceBatch) (tasks : List Task)
      → get_elem? batch.region_bytes rank ≡ some region
      → Roomy batch tasks
      → Roomy (filed torch allow_staging parameters chunk_bytes rank peer here region batch) tasks
  Roomy-filed peer here region batch [] e roomy = tt
  Roomy-filed peer here region batch (t ∷ tasks) e ((at, room), roomy) =
      let same : region ≡ room.0 = some_injective e room.1 in
      (
        (
          at,
          HasRoom-le torch allow_staging parameters chunk_bytes rank
              (filed torch allow_staging parameters chunk_bytes rank peer here region batch)
              (t.offset + t.length) (max region here.1.peer_offset) (omega (arith, room.2))
              (filed-room torch allow_staging parameters chunk_bytes rank peer here region batch e),
        ),
        Roomy-filed peer here region batch tasks e roomy,
      )

  Roomy-here :
      (peer : ℕ) (here : Appended) (region : ℕ) (batch : DeviceBatch) (tasks : List Task)
      → get_elem? batch.region_bytes rank ≡ some region
      → Lies rank tasks
      → All (λ t. t.offset + t.length ≤ here.1.peer_offset) tasks
      → Roomy (filed torch allow_staging parameters chunk_bytes rank peer here region batch) tasks
  Roomy-here peer here region batch [] e lies within = tt
  Roomy-here peer here region batch (t ∷ tasks) e (at, lies) (le, within) = (
    (
      at,
      HasRoom-le torch allow_staging parameters chunk_bytes rank
          (filed torch allow_staging parameters chunk_bytes rank peer here region batch)
          (t.offset + t.length) (max region here.1.peer_offset) (omega (arith, le))
          (filed-room torch allow_staging parameters chunk_bytes rank peer here region batch e),
    ),
    Roomy-here peer here region batch tasks e lies within,
  )

  send_group_loop-Roomy :
      (groups : List (ℕ × List CommunicationOperation)) (before after : DeviceBatch)
      → Roomy before before.tasks
      → send_group_loop torch allow_staging parameters chunk_bytes rank groups before ≡ ok after
      → Roomy after after.tasks
  send_group_loop-Roomy [] before after roomy h = rw (ok-injective h) roomy
  send_group_loop-Roomy ((peer, ops) ∷ groups) before after roomy h =
      let (here, e, rest) =
        bind-eq-ok (send_op_loop torch allow_staging parameters chunk_bytes rank peer ops origin) _
          h in
      let (region, e', last) =
        bind-eq-ok (or_raise (get_elem? before.region_bytes rank) index_error) _ rest in
      let known = or_raise-eq-ok _ _ e' in
      let next = filed torch allow_staging parameters chunk_bytes rank peer here region before in
      send_group_loop-Roomy groups next after
        (All-append
          (λ t.
            (t.region_index ≡ rank)
            × HasRoom torch allow_staging parameters chunk_bytes rank next (t.offset + t.length))
          before.tasks here.0 (Roomy-filed peer here region before before.tasks known roomy)
          (Roomy-here peer here region before here.0 known
            (send_op_loop-Lies peer ops origin here e)
            (Follows-within here.0 origin here.1 (
              send_op_loop-Follows torch allow_staging parameters chunk_bytes rank peer ops origin
                here e))))
        last

  Roomy-Fits :
      (batch : DeviceBatch) (tasks : List Task)
      → Roomy batch tasks
      → (i : ℕ) (task : Task) → get_elem? tasks i ≡ some task
      → (n : ℕ) × (get_elem? batch.region_bytes task.region_index ≡ some n)
        × (task.offset + task.length ≤ n)
  Roomy-Fits batch [] roomy i task h = cc
  Roomy-Fits batch (t ∷ tasks) ((at, room), roomy) zero task h =
      let same : t ≡ task = cc in
      rw (sym same) (room.0, ap (λ r. get_elem? batch.region_bytes r) at ∙ room.1, room.2)
  Roomy-Fits batch (t ∷ tasks) (here, roomy) (suc i) task h = Roomy-Fits batch tasks roomy i task h

module _ (torch : Torch) (allow_staging : Bool) (parameters : List (String × Parameter)) where
  pub build_send_batch-Fits :
      (operations : OpDict) (rank world_size : ℕ) (chunk_bytes : ℤ)
      (instance_world_size engine_count : ℕ) (batch : DeviceBatch)
      → build_send_batch torch allow_staging parameters operations rank world_size chunk_bytes
          instance_world_size engine_count
        ≡ ok batch
      → Fits batch
  unfolding build_send_batch
  build_send_batch-Fits operations rank world_size chunk_bytes instance_world_size engine_count
        batch h =
      let (resolved, e, rest) = bind-eq-ok (check_chunk_bytes chunk_bytes) _ h in
      let (groups, e', rest') = bind-eq-ok (operation_groups operations rank world_size) _ rest in
      let (built, e'', rest'') =
        bind-eq-ok
          (send_group_loop torch allow_staging parameters resolved rank groups
            (empty_batch world_size))
          _ rest' in
      let (multicast, e3, last) =
        bind-eq-ok (find_multicast_groups built instance_world_size engine_count) _ rest'' in
      let roomy =
        send_group_loop-Roomy torch allow_staging parameters resolved rank groups
          (empty_batch world_size) built tt e'' in
      rw (ok-injective last)
        (Roomy-Fits torch allow_staging parameters resolved rank built built.tasks roomy)
