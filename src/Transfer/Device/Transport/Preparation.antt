-- ===== src/Transfer/Device/Transport/Preparation.antt =====
-- What is prepared without staging is what would be built without staging when it is sent.
use awex.Prelude.{ℕ, ◌≡◌, refl, inl, inr, ap, Bool, true, false, Option, some, eq→==}
use awex.Prelude.Int.{ℤ, pos}
use awex.Prelude.Outcome.{Outcome, ok, err, Outcome-cases}
use awex.Transfer.Layout.{sum}
use awex.Transfer.Device.Defs.{DeviceBatch, sequence_from_step}
use awex.Transfer.Device.Send.{Torch}
use awex.Transfer.Device.Views.{SameViews, build_send_batch-views}
use awex.Transfer.Device.Transport.{
  TransportError, as_transport_error, Extension, Group, Prepared, NcclDeviceTransport,
  region_offsets, absolute_offsets, ensure_initialized, region_metadata, with_sizes, run, run_step,
  run_built, prepared_with, send_batch, send, prepare_send,
}
use awex.Transfer.Device.Transport.Calls.{ParameterDict, Plan}

module _ (extension : Extension) (group : Group) where
  abbrev with_prepared :
      NcclDeviceTransport → Option Prepared → Option Prepared → NcclDeviceTransport
  with_prepared transport for_send for_recv = record transport {
    prepared_send = for_send;
    prepared_recv = for_recv;
  }

  module _ (transport : NcclDeviceTransport) (sends sends' recvs recvs' : Option Prepared) where
    -- What is prepared plays no part in a run.
    run-with_prepared :
        (batch : DeviceBatch) (sender : Bool) (sequence : ℕ)
        → (run extension group batch sender sequence (with_prepared transport sends recvs)).1
          ≡ (run extension group batch sender sequence (with_prepared transport sends' recvs')).1
    run-with_prepared batch sender sequence =
        elim (Outcome-cases
          (region_metadata extension group transport.region_sizes batch.region_bytes)) [
            | inr (e, raised) ↦ rw raised refl
            | inl (sizes, e) ↦
                elim (Outcome-cases (absolute_offsets (region_offsets 0 sizes) batch.tasks)) [
                  | inr (e', raised) ↦ rw (e, raised) refl
                  | inl (offsets, e') ↦
                      elim (Outcome-cases (
                        ensure_initialized extension group
                          (with_sizes extension group transport sizes) (sum sizes))) [
                            | inr (e'', raised) ↦ rw (e, e', raised) refl
                            | inl (handle, e'') ↦ rw (e, e', e'') refl
                          ]
                ]
          ]

    run_built-with_prepared :
        (sender : Bool) (step_id : ℤ) (batch : DeviceBatch)
        → (run_built extension group sender step_id
            (with_prepared transport sends recvs)
            (ok batch)).1
          ≡ (run_built extension group sender step_id
              (with_prepared transport sends' recvs')
              (ok batch)).1
    run_built-with_prepared sender step_id batch =
        step (as_transport_error (sequence_from_step step_id))
      where
        step :
            (sequence : Outcome TransportError ℕ)
            → (run_step extension group sender
                (with_prepared transport sends recvs)
                batch
                sequence).1
              ≡ (run_step extension group sender
                  (with_prepared transport sends' recvs')
                  batch
                  sequence).1
        step (err e) = refl
        step (ok sequence) = run-with_prepared batch sender sequence

  module _ (parameters : ParameterDict) (plan : Plan) where
    -- If a batch has been prepared without staging, and later a call sends for the same objects, which
    -- hold the same tensors: whatever copies torch makes then and now, and whatever was prepared to
    -- send before, the call launches or raises as with a batch that is built without staging now.
    pub send-prepare_send :
        (earlier now : Torch) (transport : NcclDeviceTransport) (step_id : ℤ)
        → SameViews earlier now
        → (prepare_send extension group earlier parameters plan false transport).1 ≡ ok tt
        → (send extension group now parameters plan step_id
            (prepare_send extension group earlier parameters plan false transport).0).1
          ≡ (run_built extension group true step_id transport (
              send_batch extension group now transport.settings false parameters.content
                plan.content)).1
    send-prepare_send earlier now transport step_id views h =
        let same = eq→== parameters.identity parameters.identity refl in
        let same' = eq→== plan.identity plan.identity refl in
        let settings = transport.settings in
        let rebuilt : send_batch extension group earlier settings false parameters.content
              plan.content
            ≡ send_batch extension group now settings false parameters.content plan.content =
          ap as_transport_error (
            build_send_batch-views earlier now views parameters.content plan.content settings.rank
              settings.world_size (pos settings.chunk_bytes) settings.infer_instance_world_size
              settings.num_infer_engines) in
        elim (Outcome-cases
          (send_batch extension group earlier settings false parameters.content plan.content)) [
            | inr (e, raised) ↦ let no = rw raised at h in cc
            | inl (batch, e) ↦
                rw (← rebuilt, e, same, same')
                  (run_built-with_prepared transport
                    (some (prepared_with extension group earlier parameters plan batch))
                    transport.prepared_send transport.prepared_recv transport.prepared_recv true
                    step_id batch)
          ]
