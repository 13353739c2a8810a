-- ===== src/Transfer/Stages/Content.antt =====
-- awex/transfer/nccl_comm.py: what the stages hold together.
use mathlib.Core.List.{append-nil}
use awex.Prelude.{
  ℕ, zero, suc, ◌+◌, ◌≤◌, ◌<◌, ◌≡◌, ◌≢◌, refl, sym, ap, ◌∙◌, Bool, true, false, ◌&&◌, Option, none,
  some, List, [], ◌∷◌, ◌++◌, leb, ltb, ◌==◌, if◌then◌else◌, arith, Bool-cases, inl, inr, ==→eq,
}
use awex.Prelude.Outcome.{ok, bind-eq-ok, ok-injective, require-eq-ok, or_raise}
use awex.Transfer.Plan.Defs.{CommunicationOperation}
use awex.Transfer.Plan.Local.{OpDict, ops_at}
use awex.Transfer.Stages.Build.{
  stage_recvs, is_built, Transport, P2pOp, Stage, send_to, recv_from, is_parameter, entry_of,
  send_loop, copy_loop, stage_sends, stage_copies, build_stage, build_stages, all_stages,
  all_copies,
}
use awex.Transfer.Stages.Mapping.{
  image, key_error, rank_unmatched, inconsistent_send_plan, inconsistent_recv_plan,
}

-- The operations of a list that go to this peer.
abbrev pub ops_to : ℕ → List P2pOp → List CommunicationOperation
ops_to q [] = []
ops_to q (p2p ∷ rest) = let later = ops_to q rest in if p2p.peer == q then p2p.op ∷ later else later

-- The same over all stages.
abbrev pub sent_to : ℕ → List Stage → List CommunicationOperation
sent_to q [] = []
sent_to q (stage ∷ stages) = ops_to q stage.sends ++ sent_to q stages

one_more :
    (k peer q : ℕ) (op : CommunicationOperation) (xs ys : List CommunicationOperation)
    → peer ≡ k
    → xs ≡ (if peer == q then ys else [])
    → (if k == q then op ∷ xs else xs) ≡ (if peer == q then op ∷ ys else [])
one_more k peer q op xs ys e ih = elim (Bool-cases (peer == q)) [
  | inl same ↦ rw (← e, same) (ap (λ zs. op ∷ zs) (rw same at ih))
  | inr other ↦ rw (← e, other) (rw other at ih)
]

abbrev or_empty : Option (List CommunicationOperation) → List CommunicationOperation
or_empty none = []
or_empty (some ops) = ops

ops_at-entry_of : (k : ℕ) (dict : OpDict) → or_empty (entry_of k dict) ≡ ops_at k dict
ops_at-entry_of k [] = refl
ops_at-entry_of k ((r, ops) ∷ dict) = elim (Bool-cases (r == k)) [
  | inl same ↦ rw same
  | inr other ↦ rw other (ops_at-entry_of k dict)
]

entry-own :
    (peer q : ℕ) (dict : OpDict)
    → (if peer == q then or_empty (entry_of peer dict) else [])
      ≡ (if peer == q then ops_at q dict else [])
entry-own peer q dict = elim (Bool-cases (peer == q)) [
  | inl same ↦ rw same (ops_at-entry_of peer dict ∙ ap (λ k. ops_at k dict) (==→eq peer q same))
  | inr other ↦ rw other
]

-- Two parts of which at most one holds the list.
join_if :
    (a b c : Bool) (xs : List CommunicationOperation)
    → ◌≡◌ {A = ℕ} ((if a then 1 else 0) + (if b then 1 else 0)) (if c then 1 else 0)
    → (if a then xs else []) ++ (if b then xs else []) ≡ (if c then xs else [])
join_if true true true xs h = absurd (omega (arith, h))
join_if true true false xs h = absurd (omega (arith, h))
join_if true false true xs h = append-nil xs
join_if true false false xs h = absurd (omega (arith, h))
join_if false true true xs h = refl
join_if false true false xs h = absurd (omega (arith, h))
join_if false false true xs h = absurd (omega (arith, h))
join_if false false false xs h = refl

module _ (t : Transport) where
  send_loop-ops :
      (q peer : ℕ) (ops : List CommunicationOperation) (sends : List P2pOp)
      → send_loop t peer ops ≡ ok sends
      → ops_to q sends ≡ (if peer == q then ops else [])
  send_loop-ops q peer [] sends h = rw (ok-injective h) (ground arith)
  send_loop-ops q peer (op ∷ ops) sends h =
      let (named, rest) =
        require-eq-ok (is_parameter op.send_shard_meta.name t.send_parameters) key_error _ h in
      let (matched, loop) = require-eq-ok (peer == op.recv_rank) rank_unmatched _ rest in
      let (others, e, last) = bind-eq-ok (send_loop t peer ops) _ loop in
      let ih = send_loop-ops q peer ops others e in
      rw (ok-injective last)
        (one_more op.recv_rank peer q op (ops_to q others) ops (==→eq peer op.recv_rank matched) ih)

  copy_loop-ops :
      (ops copies : List CommunicationOperation) → copy_loop t ops ≡ ok copies → copies ≡ ops
  copy_loop-ops [] copies h = ok-injective h
  copy_loop-ops (op ∷ ops) copies h =
      let (named, rest) =
        require-eq-ok (is_parameter op.send_shard_meta.name t.send_parameters) key_error _ h in
      let (others, e, last) = bind-eq-ok (copy_loop t ops) _ rest in
      ok-injective last ∙ ap (λ xs. op ∷ xs) (copy_loop-ops ops others e)

  stage_sends-ops :
      (q peer : ℕ) (o : Option (List CommunicationOperation)) (sends : List P2pOp)
      → q ≢ t.transfer_rank
      → stage_sends t peer o ≡ ok sends
      → ops_to q sends ≡ (if peer == q then or_empty o else [])
  stage_sends-ops q peer none sends apart h = rw (ok-injective h) (ground arith)
  stage_sends-ops q peer (some ops) sends apart h = elim (Bool-cases (peer == t.transfer_rank)) [
    | inl itself ↦
        let e : peer ≡ t.transfer_rank = ==→eq peer t.transfer_rank itself in
        let other : (peer == q) ≡ false = elim (Bool-cases (peer == q)) [
          | inl same ↦ absurd (apart (sym (==→eq peer q same) ∙ e))
          | inr differs ↦ differs
        ] in
        rw (ok-injective (rw itself at h), other)
    | inr other ↦ send_loop-ops q peer ops sends (rw other at h)
  ]

  stage_copies-ops :
      (peer : ℕ) (o : Option (List CommunicationOperation)) (copies : List CommunicationOperation)
      → stage_copies t peer o ≡ ok copies
      → copies ≡ (if peer == t.transfer_rank then or_empty o else [])
  stage_copies-ops peer none copies h = rw (ok-injective h) (ground arith)
  stage_copies-ops peer (some ops) copies h = elim (Bool-cases (peer == t.transfer_rank)) [
    | inl itself ↦ rw itself (copy_loop-ops ops copies (rw itself at h))
    | inr other ↦ rw other (ok-injective (rw other at h))
  ]

  -- One stage moves the operations of its peer, or copies those of the rank itself.
  build_stage-ops :
      (q s : ℕ) (stage : Stage)
      → q ≢ t.transfer_rank
      → build_stage t s ≡ ok stage
      → let peer = send_to t.world_size t.transfer_rank s in
        (ops_to q stage.sends ≡ (if peer == q then ops_at q t.send_ops else []))
        × (stage.copies
            ≡ (if peer == t.transfer_rank then ops_at t.transfer_rank t.send_ops else []))
  unfolding build_stage
  build_stage-ops q s stage apart h =
      let peer = send_to t.world_size t.transfer_rank s in
      let (copies, e1, rest1) = bind-eq-ok (stage_copies t peer (entry_of peer t.send_ops)) _ h in
      let (sends, e2, rest2) = bind-eq-ok (stage_sends t peer (entry_of peer t.send_ops)) _ rest1 in
      let from = recv_from t.world_size t.transfer_rank s in
      let (send_rank, e3, rest3) =
        bind-eq-ok (or_raise (image from t.infer_to_train_device_mapping) key_error) _ rest2 in
      let (op_send_rank, e4, rest4) =
        bind-eq-ok (or_raise (image send_rank t.train_to_infer_device_mapping) key_error) _ rest3 in
      let (recvs, e5, rest5) =
        bind-eq-ok (stage_recvs t from send_rank op_send_rank (entry_of send_rank t.recv_ops)) _
          rest4 in
      let (built, rest6) =
        require-eq-ok (is_built t.transfer_rank peer (entry_of peer t.send_ops) sends)
          inconsistent_send_plan _ rest5 in
      let (received, last) =
        require-eq-ok (is_built t.transfer_rank from (entry_of send_rank t.recv_ops) recvs)
          inconsistent_recv_plan _ rest6 in
      rw (ok-injective last) (
        stage_sends-ops q peer (entry_of peer t.send_ops) sends apart e2
            ∙ entry-own peer q t.send_ops,
        stage_copies-ops peer (entry_of peer t.send_ops) copies e1
            ∙ entry-own peer t.transfer_rank t.send_ops,
      )

  -- The stages from `s` on hold the operations for a rank, if its stage is among them.
  build_stages-ops :
      (q s n : ℕ) (stages : List Stage)
      → q ≢ t.transfer_rank
      → q < t.world_size
      → t.transfer_rank < t.world_size
      → s + n ≤ t.world_size
      → build_stages t s n ≡ ok stages
      → let its = recv_from t.world_size q t.transfer_rank in
        (sent_to q stages ≡ (if leb s its && ltb its (s + n) then ops_at q t.send_ops else []))
        × (all_copies stages
            ≡ (if s == 0 && ltb 0 n then ops_at t.transfer_rank t.send_ops else []))
  unfolding build_stages
  build_stages-ops q s zero stages apart hq hr h e =
      rw (ok-injective e) (ground arith, ground arith)
  build_stages-ops q s (suc n) stages apart hq hr h e =
      let its = recv_from t.world_size q t.transfer_rank in
      let (stage, e1, rest) = bind-eq-ok (build_stage t s) _ e in
      let (others, e2, last) = bind-eq-ok (build_stages t (s + 1) n) _ rest in
      let this = build_stage-ops q s stage apart e1 in
      let later = build_stages-ops q (s + 1) n others apart hq hr (omega arith) e2 in
      rw (ok-injective last, this.0, this.1, later.0, later.1)
        (
          join_if (send_to t.world_size t.transfer_rank s == q)
              (leb (s + 1) its && ltb its (s + 1 + n)) (leb s its && ltb its (s + suc n))
              (ops_at q t.send_ops) (ground arith),
          join_if (send_to t.world_size t.transfer_rank s == t.transfer_rank)
              (s + 1 == 0 && ltb 0 n) (s == 0 && ltb 0 (suc n)) (ops_at t.transfer_rank t.send_ops)
              (ground arith),
        )

-- Where the stages can be built, a rank of the exchange sends every other rank exactly the
-- operations that its plan has for that rank, each once and in their order, and copies exactly the
-- operations that it has for itself.
pub all_stages-ops :
    (t : Transport) (q : ℕ) (stages : List Stage)
    → q ≢ t.transfer_rank
    → q < t.world_size
    → t.transfer_rank < t.world_size
    → all_stages t ≡ ok stages
    → (sent_to q stages ≡ ops_at q t.send_ops)
      × (all_copies stages ≡ ops_at t.transfer_rank t.send_ops)
unfolding all_stages
all_stages-ops t q stages apart hq hr e =
    let (sent, copies) = build_stages-ops t q 0 t.world_size stages apart hq hr (omega arith) e in
    let its = recv_from t.world_size q t.transfer_rank in
    let all : (leb 0 its && ltb its (0 + t.world_size)) ≡ true = ground arith in
    let some_stage : ltb 0 t.world_size ≡ true = ground arith in
    (sent ∙ rw all refl, copies ∙ rw some_stage refl)
