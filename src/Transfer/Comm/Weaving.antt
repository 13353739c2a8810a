-- ===== src/Transfer/Comm/Weaving.antt =====
-- The rounds of `_interleave_p2p_ops_by_peer`.
use mathlib.Core.Path.{subst}
use mathlib.Core.List.{append-nil}
use awex.Prelude.{
  ℕ, zero, suc, ◌+◌, ◌-◌, ◌≤◌, ◌<◌, ◌≡◌, refl, ap, sym, ◌∙◌, inl, inr, true, false, Option, some,
  List, [], ◌∷◌, ◌++◌, filter-append, All, length, get_elem?, take, ◌==◌, arith, Bool-cases,
  Option-cases, ==→eq, eq→==,
}
use awex.Prelude.Outcome.{ok}
use awex.Transfer.Comm.Rotation.{has_rank, put_progress}
use awex.Transfer.Comm.Turns.{get_elem-none, get_elem-some, put_progress-bounded}
use awex.Transfer.Comm.Build.{DirectedOp}
use awex.Transfer.Comm.Filed.{to_peer, take-next, get_elem-All}
use awex.Transfer.Comm.Interleave.{PeerDict, bucket_of, Weave, weave_at, weave_round, weave}
use awex.Transfer.Comm.Buckets.{Distinct, sum_over, sum_over-ext, member_apart}

module _ (by_peer : PeerDict) (named : (p : ℕ) → All (λ d. d.peer ≡ p) (bucket_of p by_peer)) where
  abbrev pub size : ℕ → ℕ
  size r = length (bucket_of r by_peer)

  -- What is left of the buckets of some peers.
  abbrev pub left_over : (ℕ → ℕ) → List ℕ → ℕ
  left_over progress = sum_over (λ r. size r - progress r)

  pub record Woven (state : Weave) : Type 0 where
    pub taken :
        (r : ℕ) → to_peer r state.interleaved ≡ take (state.progress r) (bucket_of r by_peer)
    pub bounded : (r : ℕ) → state.progress r ≤ size r

  abbrev next_op : ℕ → Weave → Option DirectedOp
  next_op peer state = get_elem? (bucket_of peer by_peer) (state.progress peer)

  weave_at-same :
      (p : ℕ) (state : Weave) (op : DirectedOp)
      → next_op p state ≡ some op
      → to_peer p state.interleaved ≡ take (state.progress p) (bucket_of p by_peer)
      → to_peer p (state.interleaved ++ (op ∷ []))
        ≡ take (put_progress p (state.progress p + 1) state.progress p) (bucket_of p by_peer)
  weave_at-same p state op h taken =
      let peer =
        get_elem-All (λ d. d.peer ≡ p) (bucket_of p by_peer) (state.progress p) (named p) h in
      let t : (op.peer == p) ≡ true = eq→== op.peer p peer in
      let one : to_peer p (op ∷ []) ≡ op ∷ [] = rw t refl in
      filter-append (λ d. d.peer == p) state.interleaved (op ∷ [])
      ∙ ap (λ l. l ++ to_peer p (op ∷ [])) taken
      ∙ ap (λ l. take (state.progress p) (bucket_of p by_peer) ++ l) one
      ∙ rw (eq→== p p refl) (sym (take-next (bucket_of p by_peer) (state.progress p) h))

  weave_at-other :
      (p r : ℕ) (state : Weave) (op : DirectedOp)
      → next_op p state ≡ some op
      → (p == r) ≡ false
      → to_peer r state.interleaved ≡ take (state.progress r) (bucket_of r by_peer)
      → to_peer r (state.interleaved ++ (op ∷ []))
        ≡ take (put_progress p (state.progress p + 1) state.progress r) (bucket_of r by_peer)
  weave_at-other p r state op h other taken =
      let peer =
        get_elem-All (λ d. d.peer ≡ p) (bucket_of p by_peer) (state.progress p) (named p) h in
      let t : (op.peer == r) ≡ false = ap (λ k. k == r) peer ∙ other in
      let nothing : to_peer r (op ∷ []) ≡ [] = rw t refl in
      filter-append (λ d. d.peer == r) state.interleaved (op ∷ [])
      ∙ ap (λ l. to_peer r state.interleaved ++ l) nothing
      ∙ append-nil (to_peer r state.interleaved)
      ∙ rw other taken

  weave_at-Woven :
      (p : ℕ) (state : Weave) (op : DirectedOp)
      → next_op p state ≡ some op
      → Woven state
      → Woven (weave_at p state (some op))
  weave_at-Woven p state op h woven = record {
    taken = λ r. elim (Bool-cases (p == r)) [
      | inl same ↦
          subst
            (λ k.
              to_peer k (state.interleaved ++ (op ∷ []))
              ≡ take (put_progress p (state.progress p + 1) state.progress k) (bucket_of k by_peer))
            (==→eq p r same) (weave_at-same p state op h (woven.taken p))
      | inr other ↦ weave_at-other p r state op h other (woven.taken r)
    ];
    bounded = λ r.
        put_progress-bounded p r state.progress size
          (get_elem-some (bucket_of p by_peer) (state.progress p) h) (woven.bounded r);
  }

  -- A part of a round, where `extra` is what is left of the buckets outside it.
  record Rounded (peers : List ℕ) (extra : ℕ) (before after : Weave) : Type 0 where
    woven : Woven after
    counted : after.remaining ≡ left_over after.progress peers + extra
    outside : (r : ℕ) → has_rank r peers ≡ false → after.progress r ≡ before.progress r
    falls : after.remaining ≤ before.remaining
    falls_more : 0 < left_over before.progress peers → after.remaining < before.remaining

  Rounded-skip :
      (p : ℕ) (peers : List ℕ) (extra : ℕ) (before after : Weave)
      → has_rank p peers ≡ false
      → size p ≤ before.progress p
      → Rounded peers extra before after
      → Rounded (p ∷ peers) extra before after
  Rounded-skip p peers extra before after fresh over r = record {
    woven = r.woven;
    counted = omega (arith, r.counted, r.outside p fresh);
    outside = λ k h. r.outside k (ground arith);
    falls = r.falls;
    falls_more = λ more. r.falls_more (omega arith);
  }

  Rounded-take :
      (p : ℕ) (peers : List ℕ) (extra : ℕ) (before after : Weave) (op : DirectedOp)
      → has_rank p peers ≡ false
      → before.progress p < size p
      → 0 < before.remaining
      → Rounded peers
          (extra + (size p - (before.progress p + 1)))
          (weave_at p before (some op))
          after
      → Rounded (p ∷ peers) extra before after
  Rounded-take p peers extra before after op fresh under more r =
      let here : after.progress p ≡ before.progress p + 1 =
        r.outside p fresh ∙ rw (eq→== p p refl) refl in
      record {
        woven = r.woven;
        counted = omega (arith, r.counted, here);
        outside = λ k h.
            let apart : (p == k) ≡ false = ground arith in
            let rest : has_rank k peers ≡ false = rw apart at h in r.outside k rest ∙ rw apart refl;
        falls = omega (arith, r.falls);
        falls_more = λ _. omega (arith, r.falls);
      }

  weave_round-Rounded :
      (peers : List ℕ) (extra : ℕ) (state : Weave)
      → Distinct peers
      → Woven state
      → state.remaining ≡ left_over state.progress peers + extra
      → Rounded peers extra state (weave_round by_peer peers state)
  weave_round-Rounded [] extra state distinct woven counted = record {
    woven = woven;
    counted = counted;
    outside = λ r h. refl;
    falls = omega arith;
    falls_more = λ more. absurd (omega arith);
  }
  weave_round-Rounded (p ∷ peers) extra state (fresh, distinct) woven counted =
      elim (Option-cases (next_op p state)) [
        | inl at_end ↦
            let over = get_elem-none (bucket_of p by_peer) (state.progress p) at_end in
            rw at_end (
              Rounded-skip p peers extra state (weave_round by_peer peers state) fresh over
                (weave_round-Rounded peers extra state distinct woven (omega arith)))
        | inr (op, e) ↦
            let under = get_elem-some (bucket_of p by_peer) (state.progress p) e in
            let next = weave_at p state (some op) in
            let same =
              sum_over-ext (λ r. size r - next.progress r) (λ r. size r - state.progress r) peers
                (λ r there. rw (member_apart p r peers fresh there) refl) in
            rw e (
              Rounded-take p peers extra state (weave_round by_peer peers next) op fresh under
                (omega arith)
                (weave_round-Rounded peers (extra + (size p - (state.progress p + 1))) next distinct
                  (weave_at-Woven p state op e woven) (omega (arith, same))))
      ]

  module _ (peers : List ℕ) (distinct : Distinct peers) where
    pub weave-ends :
        (fuel : ℕ) (state : Weave)
        → Woven state
        → state.remaining ≡ left_over state.progress peers + 0
        → state.remaining ≤ fuel
        → (last : Weave) × (weave fuel by_peer peers state ≡ ok last.interleaved)
          × Woven last
          × (left_over last.progress peers ≡ 0)
    unfolding weave
    weave-ends zero state woven counted enough =
        let none_left : (state.remaining == 0) ≡ true = eq→== state.remaining 0 (omega arith) in
        (state, rw none_left refl, woven, omega arith)
    weave-ends (suc fuel) state woven counted enough = elim (Bool-cases (state.remaining == 0)) [
      | inl none_left ↦
          (state, rw none_left refl, woven, omega (arith, ==→eq state.remaining 0 none_left))
      | inr more ↦
          let r = weave_round-Rounded peers 0 state distinct woven counted in
          let some_left : 0 < state.remaining = ground arith in
          let (last, e, woven', used) =
            weave-ends fuel (weave_round by_peer peers state) r.woven r.counted
              (omega (arith, r.falls_more (omega arith))) in
          (last, rw (more, e) refl, woven', used)
    ]
