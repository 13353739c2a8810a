-- ===== src/Transfer/Stream/Delivery.antt =====
-- What a rank hands over for each peer in the whole of the transfer.
use awex.Prelude.{
  ℕ, zero, suc, ◌+◌, ◌-◌, ◌≡◌, refl, sym, ap, ◌∙◌, inl, inr, ◌⊎◌, Bool, true, false, not, ◌&&◌,
  List, [], ◌∷◌, ◌++◌, map, ltb, leb, if◌then◌else◌, arith, ◌==◌, Bool-cases, ==→eq,
}
use mathlib.Core.List.{append_assoc}
use awex.Prelude.Loops.{count, count-and}
use awex.Prelude.Range.{range_from}
use awex.Transfer.Stream.Rounds.{
  Phase, OpsDict, Batch, ops_of, p2p_of, peer_batch, peer_ranks, execute_ops_concurrent,
  execute_phases,
}
use awex.Transfer.Stream.Lockstep.{meets}

-- Whether a batch or a phase goes this way.
abbrev pub goes : Bool → Bool → Bool
goes true is_send = is_send
goes false is_send = not is_send

-- The operations that the batches move to a peer, or from it, in the order of the batches.
abbrev pub exchanged : {B : Type 0} → Bool → ℕ → List (Batch B) → List B
exchanged to_peer q [] = []
exchanged to_peer q (batch ∷ batches) =
    (if goes to_peer batch.is_send && batch.peer == q then batch.p2p_ops else [])
    ++ exchanged to_peer q batches

abbrev pub times : {B : Type 0} → ℕ → List B → List B
times zero xs = []
times (suc n) xs = xs ++ times n xs

abbrev pub phase_goes : Bool → ℕ → Phase → Bool
phase_goes to_peer q phase = goes to_peer phase.sends && meets q phase

module _ {B : Type 0} where
  exchanged-append :
      (to_peer : Bool) (q : ℕ) (xs ys : List (Batch B))
      → exchanged to_peer q (xs ++ ys) ≡ exchanged to_peer q xs ++ exchanged to_peer q ys
  exchanged-append to_peer q [] ys = refl
  exchanged-append to_peer q (x ∷ xs) ys = rw (exchanged-append to_peer q xs ys) (
      sym (
        append_assoc (if goes to_peer x.is_send && x.peer == q then x.p2p_ops else [])
          (exchanged to_peer q xs) (exchanged to_peer q ys)))

  exchanged-peer_batch :
      (to_peer is_send : Bool) (q r : ℕ) (ops : List B)
      → exchanged to_peer q (peer_batch is_send r ops)
        ≡ times (if goes to_peer is_send && r == q then 1 else 0) ops
  exchanged-peer_batch to_peer is_send q r [] = none_moved (goes to_peer is_send && r == q)
    where
      none_moved : (b : Bool) → [] ≡ times {B = B} (if b then 1 else 0) []
      none_moved true = refl
      none_moved false = refl
  exchanged-peer_batch to_peer is_send q r (op ∷ ops) = moved (goes to_peer is_send && r == q)
    where
      moved :
          (b : Bool) → (if b then op ∷ ops else []) ++ [] ≡ times (if b then 1 else 0) (op ∷ ops)
      moved true = refl
      moved false = refl

  times-add : (m n : ℕ) (xs : List B) → times (m + n) xs ≡ times m xs ++ times n xs
  times-add zero n xs = ap (λ k. times k xs) (omega arith)
  times-add (suc m) n xs =
      let e : suc m + n ≡ suc (m + n) = omega arith in
      rw (e, times-add m n xs) (sym (append_assoc xs (times m xs) (times n xs)))

count-range_from :
    (n start q : ℕ)
    → count (λ r. r == q) (range_from n start 1)
      ≡ (if leb start q && ltb q (start + n) then 1 else 0)
count-range_from zero start q = ground arith
count-range_from (suc n) start q = ground (arith, count-range_from n (start + 1) q)

-- The peers of a phase have the rank once, if they have it.
count-peer_ranks :
    (to_peer is_send : Bool) (q start stop : ℕ)
    → count (λ r. goes to_peer is_send && r == q) (range_from (stop - start) start 1)
      ≡ (if goes to_peer is_send && (leb start q && ltb q stop) then 1 else 0)
count-peer_ranks to_peer is_send q start stop =
    count-and (goes to_peer is_send) (λ r. r == q) (range_from (stop - start) start 1)
    ∙ rw (count-range_from (stop - start) start q) (in_range (goes to_peer is_send))
  where
    in_range :
        (b : Bool)
        → ◌≡◌ {A = ℕ}
            (if b then (if leb start q && ltb q (start + (stop - start)) then 1 else 0) else 0)
            (if b && (leb start q && ltb q stop) then 1 else 0)
    in_range true = ground arith
    in_range false = refl

module _ {A B : Type 0} (to_peer : Bool) (q : ℕ) where
  exchanged-execute_ops :
      (is_send : Bool) (dict : OpsDict A B) (peers : List ℕ)
      → exchanged to_peer q (execute_ops_concurrent is_send dict peers)
        ≡ times (count (λ r. goes to_peer is_send && r == q) peers) (map p2p_of (ops_of q dict))
  unfolding execute_ops_concurrent
  exchanged-execute_ops is_send dict [] = refl
  exchanged-execute_ops is_send dict (r ∷ peers) =
      let ops = λ (k : ℕ). map p2p_of (ops_of k dict) in
      let this : ℕ = if goes to_peer is_send && r == q then 1 else 0 in
      rw
        (
          exchanged-append to_peer q (peer_batch is_send r (ops r))
              (execute_ops_concurrent is_send dict peers),
          exchanged-peer_batch to_peer is_send q r (ops r),
          exchanged-execute_ops is_send dict peers,
          times-add this (count (λ k. goes to_peer is_send && k == q) peers) (ops q),
          its_own (goes to_peer is_send) (Bool-cases (r == q)),
        )
        refl
    where
      its_own :
          (b : Bool)
          → (r == q ≡ true) ⊎ (r == q ≡ false)
          → times (if b && r == q then 1 else 0) (map p2p_of (ops_of r dict))
            ≡ times (if b && r == q then 1 else 0) (map p2p_of (ops_of q dict))
      its_own false _ = refl
      its_own true (inl same) = rw (==→eq r q same)
      its_own true (inr other) = rw other

  exchanged-phase :
      (phase : Phase) (all_send_p2p_ops all_recv_p2p_ops : OpsDict A B)
      → exchanged to_peer q (
          execute_ops_concurrent phase.sends
            (if phase.sends then all_send_p2p_ops else all_recv_p2p_ops)
            (peer_ranks phase))
        ≡ times
            (if phase_goes to_peer q phase then 1 else 0)
            (map p2p_of (ops_of q (if to_peer then all_send_p2p_ops else all_recv_p2p_ops)))
  exchanged-phase phase sends recvs =
      exchanged-execute_ops phase.sends (if phase.sends then sends else recvs) (peer_ranks phase)
      ∙ rw (count-peer_ranks to_peer phase.sends q phase.other_half_start phase.other_half_end)
          (own_dict to_peer phase.sends)
    where
      own_dict :
          (b s : Bool)
          → times
              (if goes b s && meets q phase then 1 else 0)
              (map p2p_of (ops_of q (if s then sends else recvs)))
            ≡ times
                (if goes b s && meets q phase then 1 else 0)
                (map p2p_of (ops_of q (if b then sends else recvs)))
      own_dict true true = refl
      own_dict true false = refl
      own_dict false true = refl
      own_dict false false = refl

  pub exchanged-execute_phases :
      (phases : List Phase) (all_send_p2p_ops all_recv_p2p_ops : OpsDict A B)
      → exchanged to_peer q (execute_phases all_send_p2p_ops all_recv_p2p_ops phases)
        ≡ times
            (count (phase_goes to_peer q) phases)
            (map p2p_of (ops_of q (if to_peer then all_send_p2p_ops else all_recv_p2p_ops)))
  unfolding execute_phases
  exchanged-execute_phases [] sends recvs = refl
  exchanged-execute_phases (phase ∷ phases) sends recvs =
      rw
        (
          exchanged-append to_peer q
              (execute_ops_concurrent phase.sends (if phase.sends then sends else recvs)
                (peer_ranks phase))
              (execute_phases sends recvs phases),
          exchanged-phase phase sends recvs,
          exchanged-execute_phases phases sends recvs,
          times-add (if phase_goes to_peer q phase then 1 else 0)
              (count (phase_goes to_peer q) phases)
              (map p2p_of (ops_of q (if to_peer then sends else recvs))),
        )
        refl
