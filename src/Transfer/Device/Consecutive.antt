-- ===== src/Transfer/Device/Consecutive.antt =====
-- The tasks for a peer lie end to end in its stream, with consecutive ordinals.
use mathlib.Core.Path.{subst}
use awex.Prelude.{
  ℕ, suc, ◌+◌, ◌<◌, ◌≡◌, refl, ap, sym, ◌∙◌, String, Bool, Option, none, some, List, [], ◌∷◌, ◌++◌,
  map, All, All-append, length, arith,
}
use awex.Prelude.Int.{pos}
use awex.Prelude.Outcome.{Outcome, ok, err, bind-eq-ok, or_raise, ok-injective}
use awex.Prelude.Indices.{concat_map}
use awex.Transfer.Chunks.{TransferChunk}
use awex.Transfer.Chunks.Tiling.{Tiles, build_transfer_chunks-Tiles}
use awex.Transfer.Plan.Defs.{CommunicationOperation}
use awex.Transfer.Device.Defs.{DeviceError, key_error, DeviceTensor}
use awex.Transfer.Device.Send.{
  Parameter, find_parameter, Torch, send_fragments, PeerCursor, Appended, send_fragment_loop,
  send_op_loop,
}
use awex.Transfer.Device.Stream.{
  Place, place, chunk_list, chunk_places, after_range, stream, bytes_of, send_fragment_loop-stream,
}
use awex.Transfer.Device.Agreement.{SendsAs, send_op_loop-stream}

-- The places are not empty, follow one another from one cursor to another, and count up.
abbrev pub Follows : PeerCursor → List Place → PeerCursor → Type 0
Follows c [] end = (c.peer_offset ≡ end.peer_offset) × (c.ordinal ≡ end.ordinal)
Follows c ((offset, (length, ordinal)) ∷ places) end =
    (offset ≡ c.peer_offset)
    × (0 < length)
    × (ordinal ≡ c.ordinal)
    × Follows (record { peer_offset = c.peer_offset + length; ordinal = c.ordinal + 1 }) places end

same_cursor : (a b : PeerCursor) → a.peer_offset ≡ b.peer_offset → a.ordinal ≡ b.ordinal → a ≡ b
same_cursor a b e e' =
    ap (λ n. record { peer_offset = n; ordinal = a.ordinal }) e
    ∙ ap (λ n. record { peer_offset = b.peer_offset; ordinal = n }) e'

Follows-append :
    (c mid end : PeerCursor) (front back : List Place)
    → Follows c front mid
    → Follows mid back end
    → Follows c (front ++ back) end
Follows-append c mid end [] back (e, e') k =
    subst (λ m. Follows m back end) (sym (same_cursor c mid e e')) k
Follows-append c mid end ((offset, (length, ordinal)) ∷ front) back (a, b, d, h) k = (
  a,
  b,
  d,
  Follows-append (record { peer_offset = c.peer_offset + length; ordinal = c.ordinal + 1 }) mid end
      front back h k,
)

chunk_places-Follows :
    (peer_offset ordinal start stop : ℕ) (chunks : List TransferChunk)
    → Tiles start stop chunks
    → Follows
        (record { peer_offset = peer_offset + start; ordinal = ordinal })
        (chunk_places peer_offset ordinal chunks)
        (record { peer_offset = peer_offset + stop; ordinal = ordinal + length chunks })
chunk_places-Follows peer_offset ordinal start stop [] tiles = (omega arith, omega arith)
chunk_places-Follows peer_offset ordinal start stop (chunk ∷ chunks) (at, some_byte, tiles) =
    let ih =
      chunk_places-Follows peer_offset (ordinal + 1) (start + chunk.nbytes) stop chunks tiles in
    let e : peer_offset + (start + chunk.nbytes) ≡ peer_offset + start + chunk.nbytes =
      omega arith in
    let e' : ordinal + 1 + length chunks ≡ ordinal + suc (length chunks) = omega arith in
    (omega arith, some_byte, refl, rw (sym e, sym e') ih)

stream-Follows :
    (chunk_bytes : ℕ) (lengths : List ℕ) (cursor : PeerCursor)
    → Follows cursor (stream chunk_bytes lengths cursor).0 (stream chunk_bytes lengths cursor).1
unfolding stream
stream-Follows chunk_bytes [] cursor = (refl, refl)
stream-Follows chunk_bytes (n ∷ lengths) cursor =
    let (cs, made, tiles, fit) = build_transfer_chunks-Tiles n (pos chunk_bytes) in
    let first =
      chunk_places-Follows cursor.peer_offset cursor.ordinal 0 n (chunk_list n chunk_bytes) tiles in
    let z : cursor.peer_offset + 0 ≡ cursor.peer_offset = omega arith in
    Follows-append cursor (after_range chunk_bytes cursor n) _ _ _ (rw z at first)
      (stream-Follows chunk_bytes lengths (after_range chunk_bytes cursor n))

module _ (torch : Torch) (allow_staging : Bool) (parameters : List (String × Parameter)) where
  abbrev fragment_lengths : Outcome DeviceError (List DeviceTensor) → List ℕ
  fragment_lengths (ok fragments) = map bytes_of fragments
  fragment_lengths (err e) = []

  abbrev parameter_lengths : CommunicationOperation → Option Parameter → List ℕ
  parameter_lengths op (some parameter) =
      fragment_lengths (send_fragments torch allow_staging parameter op)
  parameter_lengths op none = []

  abbrev sent_lengths : CommunicationOperation → List ℕ
  sent_lengths op = parameter_lengths op (find_parameter op.send_shard_meta.name parameters)

  All-SendsAs :
      (ops : List CommunicationOperation)
      → All (SendsAs torch allow_staging parameters sent_lengths) ops
  All-SendsAs [] = tt
  All-SendsAs (op ∷ ops) = (
    λ parameter fragments found h. sym (ap (parameter_lengths op) found ∙ ap fragment_lengths h),
    All-SendsAs ops,
  )

  pub send_op_loop-Follows :
      (chunk_bytes rank peer : ℕ) (ops : List CommunicationOperation) (cursor : PeerCursor)
      (result : Appended)
      → send_op_loop torch allow_staging parameters chunk_bytes rank peer ops cursor ≡ ok result
      → Follows cursor (map place result.0) result.1
  send_op_loop-Follows chunk_bytes rank peer ops cursor result h =
      let e =
        send_op_loop-stream torch allow_staging parameters sent_lengths chunk_bytes rank peer ops
          cursor result (All-SendsAs ops) h in
      subst (λ p. Follows cursor p.0 p.1) (sym e)
        (stream-Follows chunk_bytes (concat_map sent_lengths ops) cursor)

  pub send_op_loop-peer :
      (chunk_bytes rank peer : ℕ) (ops : List CommunicationOperation) (cursor : PeerCursor)
      (result : Appended)
      → send_op_loop torch allow_staging parameters chunk_bytes rank peer ops cursor ≡ ok result
      → All (λ t. t.peer ≡ peer) result.0
  send_op_loop-peer chunk_bytes rank peer [] cursor result h = rw (ok-injective h) tt
  send_op_loop-peer chunk_bytes rank peer (op ∷ ops) cursor result h =
      let (parameter, e, rest) =
        bind-eq-ok (or_raise (find_parameter op.send_shard_meta.name parameters) key_error) _ h in
      let (fragments, e', rest') =
        bind-eq-ok (send_fragments torch allow_staging parameter op) _ rest in
      let (here, e'', rest'') =
        bind-eq-ok (send_fragment_loop chunk_bytes rank peer fragments cursor) _ rest' in
      let (more, e3, last) =
        bind-eq-ok (send_op_loop torch allow_staging parameters chunk_bytes rank peer ops here.1) _
          rest'' in
      let (first, peers) =
        send_fragment_loop-stream chunk_bytes rank peer fragments cursor here e'' in
      rw (ok-injective last) (
        All-append (λ t. t.peer ≡ peer) here.0 more.0 peers
          (send_op_loop-peer chunk_bytes rank peer ops here.1 more e3))
