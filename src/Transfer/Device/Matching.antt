-- ===== src/Transfer/Device/Matching.antt =====
-- A sender's tasks for a receiver match the receiver's tasks for the sender.
use awex.Prelude.{
  ℕ, ◌*◌, ◌≡◌, refl, ap, sym, ◌∙◌, inl, inr, String, Bool, true, false, Option, some, List, [], ◌∷◌,
  map, All, arith, Bool-cases, get_elem?, if◌then◌else◌,
}
use awex.Prelude.Outcome.{
  Outcome, ok, err, bind-eq-ok, require-eq-ok, or_raise, or_raise-eq-ok, ok-injective,
}
use awex.Transfer.Comm.Filed.{get_elem-All}
use awex.Transfer.Layout.{Fragment}
use awex.Transfer.Plan.Defs.{Slice, CommunicationOperation}
use awex.Transfer.Device.Defs.{DeviceError, index_error, DeviceTensor, numel, narrow}
use awex.Transfer.Device.Ranges.{tensor_copy_layout}
use awex.Transfer.Device.Send.{
  Parameter, plain, layout, find_parameter, Torch, layout_fragments, span_views, is_nil, staged,
  send_fragments, PeerCursor, Appended, send_op_loop,
}
use awex.Transfer.Device.Recv.{Target, recv_numels, stage_view, recv_op_loop}
use awex.Transfer.Device.Stream.{place, bytes_of}
use awex.Transfer.Device.Agreement.{
  byte_lengths, SendsAs, ReceivesAs, send_op_loop-stream, recv_op_loop-stream,
}

-- What the code relies on in torch: the copies have the elements of their argument.
pub record CopiesKeepSize (torch : Torch) : Type 0 where
  pub contiguous_numel : (t : DeviceTensor) → numel (torch.contiguous t) ≡ numel t
  pub contiguous_size : (t : DeviceTensor) → (torch.contiguous t).element_size ≡ t.element_size
  pub empty_like_numel : (t : DeviceTensor) → numel (torch.empty_like t) ≡ numel t
  pub empty_like_size : (t : DeviceTensor) → (torch.empty_like t).element_size ≡ t.element_size

abbrev pub fragment_numels : Outcome DeviceError (List Fragment) → List ℕ
fragment_numels (ok fragments) = map (λ (f : Fragment). f.numel) fragments
fragment_numels (err e) = []

-- The lengths that both sides expect of an operation, for the receiver's view.
abbrev pub op_lengths : DeviceTensor → CommunicationOperation → List ℕ
op_lengths view op = byte_lengths view.element_size (
    if is_nil op.send_tensor_span_numels
    then numel view ∷ []
    else fragment_numels
        (layout_fragments op.send_shard_meta.shape op.train_slices op.send_tensor_span_numels))

some_injective : {A : Type 0} {o : Option A} {a b : A} → o ≡ some a → o ≡ some b → a ≡ b
some_injective h h' = cc

All-map :
    {A : Type 0} (P Q : A → Type 0) → ((x : A) → P x → Q x) → (xs : List A) → All P xs → All Q xs
All-map P Q f [] all = tt
All-map P Q f (x ∷ xs) (p, all) = (f x p, All-map P Q f xs all)

module _ (torch : Torch) (laws : CopiesKeepSize torch) where
  open laws use {contiguous_numel, contiguous_size, empty_like_numel, empty_like_size}

  -- A sender's parameter against the receiver's view of an operation: a tensor whose slice has the
  -- view's elements, or a layout that is the one the operation names, over spans of the view's
  -- element size.
  abbrev pub Agrees : Parameter → DeviceTensor → CommunicationOperation → Type 0
  Agrees (plain tensor) view op =
      (op.send_tensor_span_numels ≡ [])
      × (bytes_of (torch.index tensor op.train_slices) ≡ bytes_of view)
  Agrees (layout shape spans) view op =
      (op.send_tensor_span_numels ≡ map numel spans)
      × (is_nil op.send_tensor_span_numels ≡ false)
      × (op.send_shard_meta.shape ≡ shape)
      × All (λ s. s.element_size ≡ view.element_size) spans

  staged-bytes : (t : DeviceTensor) → bytes_of (staged torch t) ≡ bytes_of t
  staged-bytes t = elim (Bool-cases t.is_contiguous) [
    | inl flat ↦ rw flat refl
    | inr strided ↦
        let n = contiguous_numel t in
        let size = contiguous_size t in
        ap (λ b. bytes_of (if b then t else torch.contiguous t)) strided
        ∙ (ap (λ k. k * (torch.contiguous t).element_size) n ∙ ap (λ k. numel t * k) size)
  ]

  span_views-bytes :
      (size : ℕ) (spans : List DeviceTensor) (fs : List Fragment) (views : List DeviceTensor)
      → All (λ s. s.element_size ≡ size) spans
      → span_views spans fs ≡ ok views
      → map bytes_of views ≡ byte_lengths size (map (λ (f : Fragment). f.numel) fs)
  span_views-bytes size spans [] views all h = rw (ok-injective h) refl
  span_views-bytes size spans (f ∷ fs) views all h =
      let (span, e, rest) = bind-eq-ok (or_raise (get_elem? spans f.span_index) index_error) _ h in
      let (later, e', last) = bind-eq-ok (span_views spans fs) _ rest in
      let same =
        get_elem-All (λ s. s.element_size ≡ size) spans f.span_index all (or_raise-eq-ok _ _ e) in
      let width : bytes_of (narrow span f.offset f.numel) ≡ f.numel * size =
        let one : f.numel * 1 ≡ f.numel = omega arith in rw (one, same) refl in
      let ih = span_views-bytes size spans fs later all e' in
      rw (ok-injective last)
        (ap (λ k. k ∷ map bytes_of later) width ∙ ap (λ l. (f.numel * size) ∷ l) ih)

  same_slices :
      (shape shape' : List ℕ) (slices : List Slice) (spans spans' : List ℕ) (fs : List Fragment)
      → shape' ≡ shape
      → spans' ≡ spans
      → layout_fragments shape slices spans ≡ ok fs
      → fragment_numels (layout_fragments shape' slices spans') ≡ map (λ (f : Fragment). f.numel) fs
  same_slices shape shape' slices spans spans' fs e e' h = rw (e, e') (ap fragment_numels h)

  Agrees-SendsAs :
      (allow_staging : Bool) (parameters : List (String × Parameter)) (parameter : Parameter)
      (view : DeviceTensor) (op : CommunicationOperation)
      → Agrees parameter view op
      → (fragments : List DeviceTensor)
      → send_fragments torch allow_staging parameter op ≡ ok fragments
      → map bytes_of fragments ≡ op_lengths view op
  Agrees-SendsAs true parameters (plain tensor) view op (e, same) fragments h =
      rw (e, ok-injective h)
        (ap (λ k. k ∷ []) (staged-bytes (torch.index tensor op.train_slices) ∙ same))
  Agrees-SendsAs false parameters (plain tensor) view op (e, same) fragments h =
      rw (e, ok-injective h) (ap (λ k. k ∷ []) same)
  Agrees-SendsAs allow_staging parameters (layout shape spans) view op (e, split, e', sizes)
        fragments h =
      let (fits, rest) = require-eq-ok _ _ _ h in
      let (fs, sliced, last) =
        bind-eq-ok (layout_fragments shape op.train_slices (map numel spans)) _ rest in
      rw split (
        span_views-bytes view.element_size spans fs fragments sizes last
        ∙ ap (byte_lengths view.element_size) (
            sym (
              same_slices shape op.send_shard_meta.shape op.train_slices (map numel spans)
                op.send_tensor_span_numels fs e' e sliced)))

  stage_view-size :
      (allow_staging : Bool) (view : DeviceTensor) (rows : Outcome DeviceError (ℕ × ℕ))
      (target : Target)
      → stage_view torch allow_staging view rows ≡ ok target
      → (target.tensor.element_size ≡ view.element_size) × (numel target.tensor ≡ numel view)
  stage_view-size allow_staging view (ok rows) target h = rw (ok-injective h) (refl, refl)
  stage_view-size false view (err e) target h = cc
  stage_view-size true view (err e) target h =
      let (rows, e', last) = bind-eq-ok (tensor_copy_layout (torch.empty_like view)) _ h in
      let size = empty_like_size view in
      let n = empty_like_numel view in rw (ok-injective last) (size, n)

  recv_numels-lengths :
      (op : CommunicationOperation) (target view : DeviceTensor) (numels : List ℕ)
      → target.element_size ≡ view.element_size
      → numel target ≡ numel view
      → recv_numels op target ≡ ok numels
      → byte_lengths target.element_size numels ≡ op_lengths view op
  recv_numels-lengths op target view numels size n h =
      elim (Bool-cases (is_nil op.send_tensor_span_numels)) [
        | inl whole ↦
            let e : numels ≡ numel target ∷ [] = ok-injective (rw whole at h) in
            rw (whole, e, size, n) refl
        | inr split ↦
            let (fs, e, rest) =
              bind-eq-ok
                (layout_fragments op.send_shard_meta.shape op.train_slices
                  op.send_tensor_span_numels)
                _ (rw split at h) in
            let (counted, last) = require-eq-ok _ _ _ rest in
            let e' : fragment_numels (
                  layout_fragments op.send_shard_meta.shape op.train_slices
                    op.send_tensor_span_numels)
                ≡ numels =
              ap fragment_numels e ∙ sym (ok-injective last) in
            rw (split, e', size) refl
      ]

  -- The lengths that a receiver with these parameters expects.
  abbrev pub lengths_for : CommunicationOperation → Option Parameter → List ℕ
  lengths_for op (some (plain tensor)) = op_lengths (torch.index tensor op.inf_slices) op
  lengths_for op _ = []

  module _ (sender receiver : List (String × Parameter)) where
    -- Both sides have the operation's parameters, and these agree.
    pub record Compatible (op : CommunicationOperation) : Type 0 where
      pub sent : Parameter
      pub tensor : DeviceTensor
      pub found : find_parameter op.send_shard_meta.name sender ≡ some sent
      pub found_tensor : find_parameter op.recv_shard_meta.name receiver ≡ some (plain tensor)
      pub agrees : Agrees sent (torch.index tensor op.inf_slices) op

    abbrev expected : CommunicationOperation → List ℕ
    expected op = lengths_for op (find_parameter op.recv_shard_meta.name receiver)

    Compatible-SendsAs :
        (allow_staging : Bool) (op : CommunicationOperation)
        → Compatible op
        → SendsAs torch allow_staging sender expected op
    Compatible-SendsAs allow_staging op c parameter fragments found h =
        let same : parameter ≡ c.sent = some_injective found c.found in
        Agrees-SendsAs allow_staging sender c.sent (torch.index c.tensor op.inf_slices) op c.agrees
          fragments (rw same at h)
        ∙ sym (ap (lengths_for op) c.found_tensor)

    Compatible-ReceivesAs :
        (allow_staging : Bool) (op : CommunicationOperation)
        → Compatible op
        → ReceivesAs torch allow_staging receiver expected op
    Compatible-ReceivesAs allow_staging op c parameter target numels found h h' =
        let same : parameter ≡ plain c.tensor = some_injective found c.found_tensor in
        let view = torch.index c.tensor op.inf_slices in
        let (size, n) =
          stage_view-size allow_staging view (tensor_copy_layout view) target (rw same at h) in
        recv_numels-lengths op target.tensor view numels size n h'
        ∙ sym (ap (lengths_for op) c.found_tensor)

    -- Where torch's copies keep the size of their argument, and both sides have the parameters of
    -- the operations between them, which agree: if the two build their tasks for one another, these
    -- have the same offsets, lengths and ordinals, in the same order, whatever each side stages.
    pub send_op_loop-recv_op_loop :
        (chunk_bytes rank peer : ℕ) (send_staging recv_staging : Bool)
        (ops : List CommunicationOperation) (cursor : PeerCursor) (sent : Appended)
        (received : Appended × List (DeviceTensor × DeviceTensor))
        → All Compatible ops
        → send_op_loop torch send_staging sender chunk_bytes rank peer ops cursor ≡ ok sent
        → recv_op_loop torch recv_staging receiver chunk_bytes rank ops cursor ≡ ok received
        → (map place sent.0 ≡ map place received.0.0) × (sent.1 ≡ received.0.1)
    send_op_loop-recv_op_loop chunk_bytes rank peer send_staging recv_staging ops cursor sent
          received all h h' =
        let s =
          send_op_loop-stream torch send_staging sender expected chunk_bytes rank peer ops cursor
            sent
            (All-map Compatible (SendsAs torch send_staging sender expected)
              (Compatible-SendsAs send_staging) ops all)
            h in
        let r =
          recv_op_loop-stream torch recv_staging receiver expected chunk_bytes rank ops cursor
            received
            (All-map Compatible (ReceivesAs torch recv_staging receiver expected)
              (Compatible-ReceivesAs recv_staging) ops all)
            h' in
        let same = s ∙ sym r in (ap (λ p. p.0) same, ap (λ p. p.1) same)
