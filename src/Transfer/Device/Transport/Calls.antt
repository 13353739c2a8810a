-- ===== src/Transfer/Device/Transport/Calls.antt =====
-- The calls of a transport, one after the other.
use awex.Prelude.{
  ℕ, ◌≡◌, refl, ap, inl, String, Bool, true, false, Option, List, [], ◌∷◌, ◌||◌, ltb,
}
use awex.Prelude.Int.{ℤ}
use awex.Prelude.Outcome.{Outcome, ok, err, bind-eq-ok, raise_if-eq-ok, ok-injective}
use awex.Transfer.Plan.Local.{OpDict}
use awex.Transfer.Device.Defs.{DeviceBatch, sequence_from_step, resolve_chunk_bytes}
use awex.Transfer.Device.Send.{Torch, Parameter}
use awex.Transfer.Device.Transport.{
  TransportError, as_transport_error, Extension, Group, Object, NcclDeviceTransport, new_transport,
  run_step, run_built, send, recv, keep_send, keep_recv, prepare_send, prepare_recv, close,
}
use awex.Transfer.Device.Transport.Bounds.{WellFormed, run-WellFormed}

abbrev pub ParameterDict : Type 0
ParameterDict = Object (List (String × Parameter))

abbrev pub Plan : Type 0
Plan = Object OpDict

pub data Call : Type 0 where
  send_call : ParameterDict → Plan → ℤ → Call
  recv_call : ParameterDict → Plan → ℤ → Call
  prepare_send_call : ParameterDict → Plan → Bool → Call
  prepare_recv_call : ParameterDict → Plan → Bool → Call
  close_call : Call

-- What a call finds: the other ranks, and torch, whose copies are new ones at each call.
pub record Surroundings : Type 0 where
  pub extension : Extension
  pub group : Group
  pub torch : Torch

module _ (around : Surroundings) where
  -- The transport after one call, whether it returns or raises.
  abbrev pub after_call : Call → NcclDeviceTransport → NcclDeviceTransport
  after_call (send_call parameters plan step_id) transport =
      (send around.extension around.group around.torch parameters plan step_id transport).0
  after_call (recv_call parameters plan step_id) transport =
      (recv around.extension around.group around.torch parameters plan step_id transport).0
  after_call (prepare_send_call parameters plan allow_staging) transport =
      (prepare_send around.extension around.group around.torch parameters plan allow_staging
        transport).0
  after_call (prepare_recv_call parameters plan allow_staging) transport =
      (prepare_recv around.extension around.group around.torch parameters plan allow_staging
        transport).0
  after_call close_call transport = close around.extension around.group transport

  run_built-Well :
      (sender : Bool) (step_id : ℤ) (transport : NcclDeviceTransport)
      (built : Outcome TransportError DeviceBatch)
      → WellFormed transport
      → WellFormed (run_built around.extension around.group sender step_id transport built).0
  run_built-Well sender step_id transport (err e) well = well
  run_built-Well sender step_id transport (ok batch) well =
      run_step-Well (as_transport_error (sequence_from_step step_id))
    where
      run_step-Well :
          (sequence : Outcome TransportError ℕ)
          → WellFormed (run_step around.extension around.group sender transport batch sequence).0
      run_step-Well (err e) = well
      run_step-Well (ok sequence) =
          run-WellFormed around.extension around.group batch sender sequence transport well

  module _ (parameters : ParameterDict) (plan : Plan) where
    keep_send-Well :
        (transport : NcclDeviceTransport) (built : Outcome TransportError DeviceBatch)
        → WellFormed transport
        → WellFormed
            (keep_send around.extension around.group around.torch parameters plan transport built).0
    keep_send-Well transport (err e) well = well
    keep_send-Well transport (ok batch) well = well

    keep_recv-Well :
        (transport : NcclDeviceTransport) (built : Outcome TransportError DeviceBatch)
        → WellFormed transport
        → WellFormed
            (keep_recv around.extension around.group around.torch parameters plan transport built).0
    keep_recv-Well transport (err e) well = well
    keep_recv-Well transport (ok batch) well = well

  after_call-Well :
      (call : Call) (transport : NcclDeviceTransport)
      → WellFormed transport
      → WellFormed (after_call call transport)
  after_call-Well (send_call parameters plan step_id) transport well =
      run_built-Well true step_id transport _ well
  after_call-Well (recv_call parameters plan step_id) transport well =
      run_built-Well false step_id transport _ well
  after_call-Well (prepare_send_call parameters plan allow_staging) transport well =
      keep_send-Well parameters plan transport _ well
  after_call-Well (prepare_recv_call parameters plan allow_staging) transport well =
      keep_recv-Well parameters plan transport _ well
  after_call-Well close_call transport well = inl refl

abbrev pub after_calls : List (Surroundings × Call) → NcclDeviceTransport → NcclDeviceTransport
after_calls [] transport = transport
after_calls ((around, call) ∷ calls) transport =
    after_calls calls (after_call around call transport)

after_calls-Well :
    (calls : List (Surroundings × Call)) (transport : NcclDeviceTransport)
    → WellFormed transport
    → WellFormed (after_calls calls transport)
after_calls-Well [] transport well = well
after_calls-Well ((around, call) ∷ calls) transport well =
    after_calls-Well calls _ (after_call-Well around call transport well)

pub after_calls-WellFormed :
    (parse_int : String → Option ℤ) (configured : Option String)
    (configured_timeout rank world_size : ℕ) (timeout_ms : Option ℕ) (chunk_bytes : Option ℤ)
    (instance_world_size engine_count : ℕ) (transport : NcclDeviceTransport)
    (calls : List (Surroundings × Call))
    → new_transport parse_int configured configured_timeout rank world_size timeout_ms chunk_bytes
        instance_world_size engine_count
      ≡ ok transport
    → WellFormed (after_calls calls transport)
unfolding new_transport
after_calls-WellFormed parse_int configured configured_timeout rank world_size timeout_ms
      chunk_bytes instance_world_size engine_count transport calls h =
    let (supported, rest) = raise_if-eq-ok (ltb world_size 2 || ltb 256 world_size) _ _ h in
    let (resolved, e, last) =
      bind-eq-ok (as_transport_error (resolve_chunk_bytes parse_int configured chunk_bytes)) _
        rest in
    after_calls-Well calls transport
      (inl (ap (λ (t : NcclDeviceTransport). t.initialized) (ok-injective last)))
