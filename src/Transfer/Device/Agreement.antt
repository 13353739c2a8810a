-- ===== src/Transfer/Device/Agreement.antt =====
-- The tasks of a sender for a receiver and those of the receiver for the sender.
use awex.Prelude.{
  ℕ, ◌+◌, ◌*◌, ◌≡◌, refl, ap, sym, ◌∙◌, String, Bool, some, List, [], ◌∷◌, ◌++◌, map, map-append,
  All, All-append,
}
use awex.Prelude.Outcome.{ok, bind-eq-ok, require-eq-ok, or_raise, or_raise-eq-ok, ok-injective}
use awex.Prelude.Indices.{concat_map}
use awex.Transfer.Plan.Defs.{CommunicationOperation}
use awex.Transfer.Device.Defs.{key_error, DeviceTensor}
use awex.Transfer.Device.Ranges.{append_tensor_range}
use awex.Transfer.Device.Send.{
  Parameter, find_parameter, Torch, send_fragments, PeerCursor, Appended, send_fragment_loop,
  send_op_loop,
}
use awex.Transfer.Device.Recv.{Target, recv_numels, recv_target, recv_fragment_loop, recv_op_loop}
use awex.Transfer.Device.Stream.{
  place, stream, stream-append, append_tensor_range-places, bytes_of, join_places,
  send_fragment_loop-stream,
}

-- The bytes of fragments, for the size of an element.
abbrev pub byte_lengths : ℕ → List ℕ → List ℕ
byte_lengths element_size = map (λ n. n * element_size)

recv_fragment_loop-stream :
    (chunk_bytes peer : ℕ) (target : Target) (numels : List ℕ) (target_offset : ℕ)
    (cursor : PeerCursor) (result : Appended)
    → recv_fragment_loop chunk_bytes peer target numels target_offset cursor ≡ ok result
    → ((map place result.0, result.1)
        ≡ stream chunk_bytes (byte_lengths target.tensor.element_size numels) cursor)
      × All (λ t. t.peer ≡ peer) result.0
unfolding stream
recv_fragment_loop-stream chunk_bytes peer target [] target_offset cursor result h =
    rw (ok-injective h) (refl, tt)
recv_fragment_loop-stream chunk_bytes peer target (n ∷ numels) target_offset cursor result h =
    let size = target.tensor.element_size in
    let (here, e, rest) =
      bind-eq-ok (append_tensor_range chunk_bytes _ (n * size) cursor.ordinal) _ h in
    let (more, e', last) =
      bind-eq-ok (recv_fragment_loop chunk_bytes peer target numels (target_offset + n * size) _) _
        rest in
    let (places, count, peers) =
      append_tensor_range-places chunk_bytes _ (n * size) cursor.ordinal here e in
    let (places', peers') =
      recv_fragment_loop-stream chunk_bytes peer target numels (target_offset + n * size) _ more
        e' in
    rw (ok-injective last) (
      join_places chunk_bytes (n * size) (byte_lengths size numels) cursor here more places count
          places',
      All-append (λ t. t.peer ≡ peer) here.0 more.0 peers peers',
    )

-- What a list of operations adds, where each has these lengths.
join_ops :
    (chunk_bytes : ℕ) (lengths later : List ℕ) (cursor : PeerCursor) (here more : Appended)
    → (map place here.0, here.1) ≡ stream chunk_bytes lengths cursor
    → (map place more.0, more.1) ≡ stream chunk_bytes later here.1
    → (map place (here.0 ++ more.0), more.1) ≡ stream chunk_bytes (lengths ++ later) cursor
join_ops chunk_bytes lengths later cursor here more first rest =
    ap (λ l. (l, more.1)) (map-append place here.0 more.0)
    ∙ ap (λ p. (map place here.0 ++ p.0, p.1)) rest
    ∙ ap (λ p. (p.0 ++ (stream chunk_bytes later p.1).0, (stream chunk_bytes later p.1).1)) first
    ∙ sym (stream-append chunk_bytes lengths later cursor)

module _ (torch : Torch) (allow_staging : Bool) (parameters : List (String × Parameter))
    (lengths_of : CommunicationOperation → List ℕ) where
  -- What an operation sends has these lengths.
  abbrev pub SendsAs : CommunicationOperation → Type 0
  SendsAs op =
      (parameter : Parameter) (fragments : List DeviceTensor)
      → find_parameter op.send_shard_meta.name parameters ≡ some parameter
      → send_fragments torch allow_staging parameter op ≡ ok fragments
      → map bytes_of fragments ≡ lengths_of op

  pub send_op_loop-stream :
      (chunk_bytes rank peer : ℕ) (ops : List CommunicationOperation) (cursor : PeerCursor)
      (result : Appended)
      → All SendsAs ops
      → send_op_loop torch allow_staging parameters chunk_bytes rank peer ops cursor ≡ ok result
      → ((map place result.0, result.1) ≡ stream chunk_bytes (concat_map lengths_of ops) cursor)
  unfolding stream
  send_op_loop-stream chunk_bytes rank peer [] cursor result all h = rw (ok-injective h) refl
  send_op_loop-stream chunk_bytes rank peer (op ∷ ops) cursor result (sends, all) h =
      let (parameter, e, rest) =
        bind-eq-ok (or_raise (find_parameter op.send_shard_meta.name parameters) key_error) _ h in
      let (fragments, e', rest') =
        bind-eq-ok (send_fragments torch allow_staging parameter op) _ rest in
      let (here, e'', rest'') =
        bind-eq-ok (send_fragment_loop chunk_bytes rank peer fragments cursor) _ rest' in
      let (more, e3, last) =
        bind-eq-ok (send_op_loop torch allow_staging parameters chunk_bytes rank peer ops here.1) _
          rest'' in
      let (first, peers) =
        send_fragment_loop-stream chunk_bytes rank peer fragments cursor here e'' in
      let same = sends parameter fragments (or_raise-eq-ok _ _ e) e' in
      rw (ok-injective last) (
        join_ops chunk_bytes (lengths_of op) (concat_map lengths_of ops) cursor here more
          (first ∙ ap (λ l. stream chunk_bytes l cursor) same)
          (send_op_loop-stream chunk_bytes rank peer ops here.1 more all e3))

  -- What an operation receives has these lengths.
  abbrev pub ReceivesAs : CommunicationOperation → Type 0
  ReceivesAs op =
      (parameter : Parameter) (target : Target) (numels : List ℕ)
      → find_parameter op.recv_shard_meta.name parameters ≡ some parameter
      → recv_target torch allow_staging parameter op ≡ ok target
      → recv_numels op target.tensor ≡ ok numels
      → byte_lengths target.tensor.element_size numels ≡ lengths_of op

  pub recv_op_loop-stream :
      (chunk_bytes peer : ℕ) (ops : List CommunicationOperation) (cursor : PeerCursor)
      (result : Appended × List (DeviceTensor × DeviceTensor))
      → All ReceivesAs ops
      → recv_op_loop torch allow_staging parameters chunk_bytes peer ops cursor ≡ ok result
      → ((map place result.0.0, result.0.1) ≡ stream chunk_bytes (concat_map lengths_of ops) cursor)
  unfolding stream
  recv_op_loop-stream chunk_bytes peer [] cursor result all h = rw (ok-injective h) refl
  recv_op_loop-stream chunk_bytes peer (op ∷ ops) cursor result (receives, all) h =
      let (parameter, e, rest) =
        bind-eq-ok (or_raise (find_parameter op.recv_shard_meta.name parameters) key_error) _ h in
      let (target, e', rest') = bind-eq-ok (recv_target torch allow_staging parameter op) _ rest in
      let (cuda, rest'') = require-eq-ok _ _ _ rest' in
      let (numels, e'', rest3) = bind-eq-ok (recv_numels op target.tensor) _ rest'' in
      let (here, e3, rest4) =
        bind-eq-ok (recv_fragment_loop chunk_bytes peer target numels 0 cursor) _ rest3 in
      let (more, e4, last) =
        bind-eq-ok (recv_op_loop torch allow_staging parameters chunk_bytes peer ops here.1) _
          rest4 in
      let (first, peers) =
        recv_fragment_loop-stream chunk_bytes peer target numels 0 cursor here e3 in
      let same = receives parameter target numels (or_raise-eq-ok _ _ e) e' e'' in
      let final : result ≡ ((here.0 ++ more.0.0, more.0.1), target.copybacks ++ more.1) =
        ok-injective last in
      rw final (
        join_ops chunk_bytes (lengths_of op) (concat_map lengths_of ops) cursor here more.0
          (first ∙ ap (λ l. stream chunk_bytes l cursor) same)
          (recv_op_loop-stream chunk_bytes peer ops here.1 more all e4))
