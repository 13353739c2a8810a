-- ===== src/Transfer/Device/Transport/Sending.antt =====
-- What a transport sends lies in its regions, whatever it has been asked for before.
use awex.Prelude.{
  ℕ, ◌≡◌, refl, ap, sym, ◌∙◌, inl, inr, String, Bool, true, false, ◌||◌, ◌&&◌, ◌==◌, Option, none,
  some, List, [], ◌∷◌, get_elem?, ltb, Bool-cases,
}
use awex.Prelude.Int.{ℤ, pos}
use awex.Prelude.Outcome.{Outcome, ok, err, Outcome-cases, bind-eq-ok, raise_if-eq-ok, ok-injective}
use awex.Transfer.Layout.{sum}
use awex.Transfer.Device.Defs.{
  Task, DeviceBatch, DeviceError, sequence_from_step, resolve_chunk_bytes,
}
use awex.Transfer.Device.Send.{Torch}
use awex.Transfer.Device.Fitting.{Fits, build_send_batch-Fits}
use awex.Transfer.Device.Transport.{
  TransportError, as_transport_error, Extension, Group, Prepared, Settings, NcclDeviceTransport,
  Launch, new_transport, region_offsets, absolute_offsets, ensure_initialized, region_metadata,
  with_sizes, run, run_step, run_built, prepared_or, send_batch, send, keep_send, keep_recv,
}
use awex.Transfer.Device.Transport.Bounds.{ReducesToMax, Inside, WellFormed, run-Inside}
use awex.Transfer.Device.Transport.Calls.{
  Surroundings, ParameterDict, Plan, Call, send_call, recv_call, prepare_send_call,
  prepare_recv_call, close_call, after_call, after_calls, after_calls-WellFormed,
}

as_transport_error-eq-ok :
    {A : Type 0} (o : Outcome DeviceError A) {a : A} → as_transport_error o ≡ ok a → o ≡ ok a
as_transport_error-eq-ok (ok b) h = ap (λ x. ok x) (sym (ok-injective h))
as_transport_error-eq-ok (err e) h = cc

-- A prepared batch fits.
abbrev PreparedFits : Option Prepared → Type 0
PreparedFits prepared = (p : Prepared) → prepared ≡ some p → Fits p.batch

module _ (extension : Extension) (group : Group) where
  run-prepared_send :
      (batch : DeviceBatch) (sender : Bool) (sequence : ℕ) (transport : NcclDeviceTransport)
      → (run extension group batch sender sequence transport).0.prepared_send
        ≡ transport.prepared_send
  run-prepared_send batch sender sequence transport =
      elim (Outcome-cases
        (region_metadata extension group transport.region_sizes batch.region_bytes)) [
          | inr (e, raised) ↦ rw raised refl
          | inl (sizes, e) ↦
              elim (Outcome-cases (absolute_offsets (region_offsets 0 sizes) batch.tasks)) [
                | inr (e', raised) ↦ rw (e, raised) refl
                | inl (offsets, e') ↦
                    elim (Outcome-cases (
                      ensure_initialized extension group
                        (with_sizes extension group transport sizes) (sum sizes))) [
                          | inr (e'', raised) ↦ rw (e, e', raised) refl
                          | inl (handle, e'') ↦ rw (e, e', e'') refl
                        ]
              ]
        ]

  run_built-prepared_send :
      (sender : Bool) (step_id : ℤ) (transport : NcclDeviceTransport)
      (built : Outcome TransportError DeviceBatch)
      → (run_built extension group sender step_id transport built).0.prepared_send
        ≡ transport.prepared_send
  run_built-prepared_send sender step_id transport (err e) = refl
  run_built-prepared_send sender step_id transport (ok batch) =
      step (as_transport_error (sequence_from_step step_id))
    where
      step :
          (sequence : Outcome TransportError ℕ)
          → (run_step extension group sender transport batch sequence).0.prepared_send
            ≡ transport.prepared_send
      step (err e) = refl
      step (ok sequence) = run-prepared_send batch sender sequence transport

  prepared_or-Fits :
      (prepared : Option Prepared) (parameters plan : ℕ)
      (built : Outcome TransportError DeviceBatch) (batch : DeviceBatch)
      → PreparedFits prepared
      → ((b : DeviceBatch) → built ≡ ok b → Fits b)
      → prepared_or extension group prepared parameters plan built ≡ ok batch
      → Fits batch
  prepared_or-Fits none parameters plan built batch fits fits' h = fits' batch h
  prepared_or-Fits (some p) parameters plan built batch fits fits' h =
      elim (Bool-cases ((p.parameters == parameters) && (p.plan == plan))) [
        | inl same ↦ rw (ok-injective (rw same at h)) (fits p refl)
        | inr other ↦ fits' batch (rw other at h)
      ]

  module _ (torch : Torch) where
    send_batch-Fits :
        (settings : Settings) (allow_staging : Bool) (parameters : ParameterDict) (plan : Plan)
        (batch : DeviceBatch)
        → send_batch extension group torch settings allow_staging parameters.content plan.content
          ≡ ok batch
        → Fits batch
    send_batch-Fits settings allow_staging parameters plan batch h =
        build_send_batch-Fits torch allow_staging parameters.content plan.content settings.rank
          settings.world_size (pos settings.chunk_bytes) settings.infer_instance_world_size
          settings.num_infer_engines batch (as_transport_error-eq-ok _ h)

    keep_send-PreparedFits :
        (parameters : ParameterDict) (plan : Plan) (transport : NcclDeviceTransport)
        (built : Outcome TransportError DeviceBatch)
        → ((b : DeviceBatch) → built ≡ ok b → Fits b)
        → PreparedFits transport.prepared_send
        → PreparedFits
            (keep_send extension group torch parameters plan transport built).0.prepared_send
    keep_send-PreparedFits parameters plan transport (err e) fits' fits = fits
    keep_send-PreparedFits parameters plan transport (ok batch) fits' fits =
        λ p h. let e : batch ≡ p.batch = cc h in rw (sym e) (fits' batch refl)

    keep_recv-PreparedFits :
        (parameters : ParameterDict) (plan : Plan) (transport : NcclDeviceTransport)
        (built : Outcome TransportError DeviceBatch)
        → PreparedFits transport.prepared_send
        → PreparedFits
            (keep_recv extension group torch parameters plan transport built).0.prepared_send
    keep_recv-PreparedFits parameters plan transport (err e) fits = fits
    keep_recv-PreparedFits parameters plan transport (ok batch) fits = fits

    after_call-PreparedFits :
        (call : Call) (transport : NcclDeviceTransport)
        → PreparedFits transport.prepared_send
        → PreparedFits
            (after_call
              (record { extension = extension; group = group; torch = torch })
              call
              transport).prepared_send
    after_call-PreparedFits (send_call parameters plan step_id) transport fits =
        λ p h. fits p (sym (run_built-prepared_send true step_id transport _) ∙ h)
    after_call-PreparedFits (recv_call parameters plan step_id) transport fits =
        λ p h. fits p (sym (run_built-prepared_send false step_id transport _) ∙ h)
    after_call-PreparedFits (prepare_send_call parameters plan allow_staging) transport fits =
        keep_send-PreparedFits parameters plan transport _
          (λ b h. send_batch-Fits transport.settings allow_staging parameters plan b h) fits
    after_call-PreparedFits (prepare_recv_call parameters plan allow_staging) transport fits =
        keep_recv-PreparedFits parameters plan transport _ fits
    after_call-PreparedFits close_call transport fits = λ p h. cc

after_calls-PreparedFits :
    (calls : List (Surroundings × Call)) (transport : NcclDeviceTransport)
    → PreparedFits transport.prepared_send
    → PreparedFits (after_calls calls transport).prepared_send
after_calls-PreparedFits [] transport fits = fits
after_calls-PreparedFits ((around, call) ∷ calls) transport fits =
    after_calls-PreparedFits calls _
      (after_call-PreparedFits around.extension around.group around.torch call transport fits)

-- Every task of a launch lies inside its region and where the extension takes it.
abbrev pub AllInside : NcclDeviceTransport → Launch → Type 0
AllInside after started =
    (sizes : List ℕ) × (after.region_sizes ≡ some sizes)
    × ((i : ℕ) (task : Task) (offset : ℕ)
        → get_elem? started.tasks i ≡ some task
        → get_elem? started.absolute_offsets i ≡ some offset
        → Inside started.handle sizes task offset)

module _ (extension : Extension) (group : Group) (reduces : ReducesToMax group) where
  run_built-AllInside :
      (sender : Bool) (step_id : ℤ) (transport : NcclDeviceTransport)
      (built : Outcome TransportError DeviceBatch) (started : Launch)
      → WellFormed transport
      → ((b : DeviceBatch) → built ≡ ok b → Fits b)
      → (run_built extension group sender step_id transport built).1 ≡ ok started
      → AllInside (run_built extension group sender step_id transport built).0 started
  run_built-AllInside sender step_id transport (err e) started well fits h = cc
  run_built-AllInside sender step_id transport (ok batch) started well fits h =
      step (as_transport_error (sequence_from_step step_id)) h
    where
      step :
          (sequence : Outcome TransportError ℕ)
          → (run_step extension group sender transport batch sequence).1 ≡ ok started
          → AllInside (run_step extension group sender transport batch sequence).0 started
      step (err e) h = cc
      step (ok sequence) h =
          run-Inside extension group batch sender sequence transport started reduces well
            (fits batch refl) h

module _ (parse_int : String → Option ℤ) (configured : Option String)
    (configured_timeout rank world_size : ℕ) (timeout_ms : Option ℕ) (chunk_bytes : Option ℤ)
    (instance_world_size engine_count : ℕ) (transport : NcclDeviceTransport)
    (made : new_transport parse_int configured configured_timeout rank world_size timeout_ms
        chunk_bytes instance_world_size engine_count
      ≡ ok transport) where
  nothing_prepared : PreparedFits transport.prepared_send
  unfolding new_transport
  nothing_prepared =
      let (supported, rest) = raise_if-eq-ok (ltb world_size 2 || ltb 256 world_size) _ _ made in
      let (resolved, e, last) =
        bind-eq-ok (as_transport_error (resolve_chunk_bytes parse_int configured chunk_bytes)) _
          rest in
      let none_yet : transport.prepared_send ≡ none =
        ap (λ (t : NcclDeviceTransport). t.prepared_send) (ok-injective last) in
      λ p h. cc (none_yet, h)

  -- After any calls on a transport that the constructor returned: if a call to send launches, and the
  -- reduction over the group gives no less than this rank has asked for, each task is launched at
  -- its offset in its region and ends inside that, and the extension's check on its bytes takes it.
  pub send-AllInside :
      (calls : List (Surroundings × Call)) (around : Surroundings) (parameters : ParameterDict)
      (plan : Plan) (step_id : ℤ) (started : Launch)
      → ReducesToMax around.group
      → (send around.extension around.group around.torch parameters plan step_id
          (after_calls calls transport)).1
        ≡ ok started
      → AllInside
          (send around.extension around.group around.torch parameters plan step_id
            (after_calls calls transport)).0
          started
  send-AllInside calls around parameters plan step_id started reduces h =
      let before = after_calls calls transport in
      let well =
        after_calls-WellFormed parse_int configured configured_timeout rank world_size timeout_ms
          chunk_bytes instance_world_size engine_count transport calls made in
      let built =
        send_batch around.extension around.group around.torch before.settings true
          parameters.content plan.content in
      let fits = after_calls-PreparedFits calls transport nothing_prepared in
      run_built-AllInside around.extension around.group reduces true step_id before
        (prepared_or around.extension around.group before.prepared_send parameters.identity
          plan.identity built)
        started well
        (λ b e.
          prepared_or-Fits around.extension around.group before.prepared_send parameters.identity
            plan.identity built b fits
            (λ b' e'.
              send_batch-Fits around.extension around.group around.torch before.settings true
                parameters plan b' e')
            e)
        h
