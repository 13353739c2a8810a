-- ===== src/Transfer/Device/Stream.antt =====
-- The reference for a peer's tasks: where the chunks of its fragments lie in the stream.
use mathlib.Core.List.{append_assoc}
use awex.Prelude.{
  ℕ, ◌+◌, ◌*◌, ◌≡◌, refl, ap, sym, ◌∙◌, inl, inr, List, [], ◌∷◌, ◌++◌, map, map-append, All,
  All-append, length, arith, Bool-cases,
}
use awex.Prelude.Int.{pos}
use awex.Prelude.Outcome.{ok, bind-eq-ok, raise_if-eq-ok, require-eq-ok, ok-injective}
use awex.Transfer.Chunks.{TransferChunk}
use awex.Transfer.Chunks.Tiling.{build_transfer_chunks-Tiles}
use awex.Transfer.Device.Defs.{DeviceTensor, numel, Task}
use awex.Transfer.Device.Ranges.{
  pass_error, tensor_copy_layout, device_chunks, TensorRange, chunk_task, append_chunks,
  append_tensor_range,
}
use awex.Transfer.Device.Send.{PeerCursor, Appended, send_fragment_loop}

-- Offset, length and ordinal of a task.
abbrev pub Place : Type 0
Place = ℕ × (ℕ × ℕ)

abbrev pub place : Task → Place
place t = (t.offset, (t.length, t.ordinal))

abbrev pub chunk_list : ℕ → ℕ → List TransferChunk
chunk_list nbytes chunk_bytes = (build_transfer_chunks-Tiles nbytes (pos chunk_bytes)).0

abbrev pub chunk_places : ℕ → ℕ → List TransferChunk → List Place
chunk_places peer_offset ordinal [] = []
chunk_places peer_offset ordinal (chunk ∷ chunks) =
    (peer_offset + chunk.byte_offset, (chunk.nbytes, ordinal))
    ∷ chunk_places peer_offset (ordinal + 1) chunks

abbrev pub after_range : ℕ → PeerCursor → ℕ → PeerCursor
after_range chunk_bytes cursor nbytes = record {
  peer_offset = cursor.peer_offset + nbytes;
  ordinal = cursor.ordinal + length (chunk_list nbytes chunk_bytes);
}

-- The places of fragments of these lengths, and the cursor after them.
unfoldable pub stream : ℕ → List ℕ → PeerCursor → List Place × PeerCursor
stream chunk_bytes [] cursor = ([], cursor)
stream chunk_bytes (nbytes ∷ lengths) cursor =
    let rest = stream chunk_bytes lengths (after_range chunk_bytes cursor nbytes) in
    (
      chunk_places cursor.peer_offset cursor.ordinal (chunk_list nbytes chunk_bytes) ++ rest.0,
      rest.1,
    )

pub stream-append :
    (chunk_bytes : ℕ) (front back : List ℕ) (cursor : PeerCursor)
    → stream chunk_bytes (front ++ back) cursor ≡ (
        let first = stream chunk_bytes front cursor in
        let second = stream chunk_bytes back first.1 in (first.0 ++ second.0, second.1))
unfolding stream
stream-append chunk_bytes [] back cursor = refl
stream-append chunk_bytes (n ∷ front) back cursor =
    let first = stream chunk_bytes front (after_range chunk_bytes cursor n) in
    let second = stream chunk_bytes back first.1 in
    rw (stream-append chunk_bytes front back (after_range chunk_bytes cursor n)) (
      ap (λ l. (l, second.1))
        (sym (
          append_assoc (chunk_places cursor.peer_offset cursor.ordinal (chunk_list n chunk_bytes))
            first.0 second.0)))

device_chunks-list :
    (nbytes chunk_bytes : ℕ) → device_chunks nbytes chunk_bytes ≡ ok (chunk_list nbytes chunk_bytes)
device_chunks-list nbytes chunk_bytes =
    let (cs, e, tiles, fit) = build_transfer_chunks-Tiles nbytes (pos chunk_bytes) in
    ap pass_error e

chunk_task-place :
    (range : TensorRange) (chunk : TransferChunk) (ordinal : ℕ) (task : Task)
    → chunk_task range chunk ordinal ≡ ok task
    → (place task ≡ (range.peer_offset + chunk.byte_offset, (chunk.nbytes, ordinal)))
      × (task.peer ≡ range.peer)
chunk_task-place range chunk ordinal task h = elim (Bool-cases range.tensor.is_contiguous) [
  | inl flat ↦
      let (aligned, last) = raise_if-eq-ok _ _ _ (rw flat at h) in
      let e = ok-injective last in rw e (refl, refl)
  | inr strided ↦ let e = ok-injective (rw strided at h) in rw e (refl, refl)
]

append_chunks-places :
    (range : TensorRange) (chunks : List TransferChunk) (ordinal : ℕ) (result : List Task × ℕ)
    → append_chunks range chunks ordinal ≡ ok result
    → (map place result.0 ≡ chunk_places range.peer_offset ordinal chunks)
      × (result.1 ≡ ordinal + length chunks)
      × All (λ t. t.peer ≡ range.peer) result.0
append_chunks-places range [] ordinal result h =
    let e = ok-injective h in rw e (refl, omega arith, tt)
append_chunks-places range (chunk ∷ chunks) ordinal result h =
    let (task, e, rest) = bind-eq-ok (chunk_task range chunk ordinal) _ h in
    let (more, e', last) = bind-eq-ok (append_chunks range chunks (ordinal + 1)) _ rest in
    let (here, peer) = chunk_task-place range chunk ordinal task e in
    let (there, count, peers) = append_chunks-places range chunks (ordinal + 1) more e' in
    let first : Place = (range.peer_offset + chunk.byte_offset, (chunk.nbytes, ordinal)) in
    rw (ok-injective last)
      (ap (λ p. p ∷ map place more.0) here ∙ ap (λ l. first ∷ l) there, omega arith, (peer, peers))

-- A range is appended at the places of its chunks.
pub append_tensor_range-places :
    (chunk_bytes : ℕ) (range : TensorRange) (nbytes ordinal : ℕ) (result : List Task × ℕ)
    → append_tensor_range chunk_bytes range nbytes ordinal ≡ ok result
    → (map place result.0 ≡ chunk_places range.peer_offset ordinal (chunk_list nbytes chunk_bytes))
      × (result.1 ≡ ordinal + length (chunk_list nbytes chunk_bytes))
      × All (λ t. t.peer ≡ range.peer) result.0
unfolding append_tensor_range
append_tensor_range-places chunk_bytes range nbytes ordinal result h =
    append_chunks-places range (chunk_list nbytes chunk_bytes) ordinal result
      (rw (device_chunks-list nbytes chunk_bytes) at h)

-- The bytes of a tensor.
abbrev pub bytes_of : DeviceTensor → ℕ
bytes_of tensor = numel tensor * tensor.element_size

-- The tasks of a first range, and those after it.
pub join_places :
    (chunk_bytes nbytes : ℕ) (lengths : List ℕ) (cursor : PeerCursor) (here : List Task × ℕ)
    (more : Appended)
    → map place here.0
      ≡ chunk_places cursor.peer_offset cursor.ordinal (chunk_list nbytes chunk_bytes)
    → here.1 ≡ cursor.ordinal + length (chunk_list nbytes chunk_bytes)
    → (map place more.0, more.1)
      ≡ stream chunk_bytes lengths
          (record { peer_offset = cursor.peer_offset + nbytes; ordinal = here.1 })
    → (map place (here.0 ++ more.0), more.1) ≡ stream chunk_bytes (nbytes ∷ lengths) cursor
unfolding stream
join_places chunk_bytes nbytes lengths cursor here more places count rest =
    let front = chunk_places cursor.peer_offset cursor.ordinal (chunk_list nbytes chunk_bytes) in
    ap (λ l. (l, more.1)) (map-append place here.0 more.0 ∙ ap (λ l. l ++ map place more.0) places)
    ∙ ap (λ p. (front ++ p.0, p.1))
        (rest
          ∙ ap
              (λ k.
                stream chunk_bytes lengths
                  (record { peer_offset = cursor.peer_offset + nbytes; ordinal = k }))
              count)

-- The tasks of a sender's fragments lie at the places of fragments of their lengths.
pub send_fragment_loop-stream :
    (chunk_bytes rank peer : ℕ) (fragments : List DeviceTensor) (cursor : PeerCursor)
    (result : Appended)
    → send_fragment_loop chunk_bytes rank peer fragments cursor ≡ ok result
    → ((map place result.0, result.1) ≡ stream chunk_bytes (map bytes_of fragments) cursor)
      × All (λ t. t.peer ≡ peer) result.0
unfolding stream
send_fragment_loop-stream chunk_bytes rank peer [] cursor result h = rw (ok-injective h) (refl, tt)
send_fragment_loop-stream chunk_bytes rank peer (f ∷ fragments) cursor result h =
    let (cuda, rest) = require-eq-ok f.is_cuda _ _ h in
    let (rows, e, rest') = bind-eq-ok (tensor_copy_layout f) _ rest in
    let (here, e', rest'') =
      bind-eq-ok (append_tensor_range chunk_bytes _ (bytes_of f) cursor.ordinal) _ rest' in
    let (more, e'', last) =
      bind-eq-ok (send_fragment_loop chunk_bytes rank peer fragments _) _ rest'' in
    let (places, count, peers) =
      append_tensor_range-places chunk_bytes _ (bytes_of f) cursor.ordinal here e' in
    let (places', peers') = send_fragment_loop-stream chunk_bytes rank peer fragments _ more e'' in
    rw (ok-injective last) (
      join_places chunk_bytes (bytes_of f) (map bytes_of fragments) cursor here more places count
          places',
      All-append (λ t. t.peer ≡ peer) here.0 more.0 peers peers',
    )
