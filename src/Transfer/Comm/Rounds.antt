-- ===== src/Transfer/Comm/Rounds.antt =====
-- A proof rule for the loop of `Rotation`.
use awex.Prelude.{
  ℕ, zero, suc, ◌+◌, ◌≤◌, ◌<◌, ◌≡◌, refl, ap, ◌∙◌, ◌⊎◌, inl, inr, true, false, not, some, List, [],
  ◌∷◌, length, get_elem?, filter, leb, ◌==◌, arith, Bool-cases, Option-cases, ==→eq, eq→==,
}
use awex.Prelude.Outcome.{Outcome, ok}
use awex.Prelude.Sort.{sort}
use awex.Transfer.Plan.Defs.{CommunicationOperation}
use awex.Transfer.Plan.Local.{OpDict, ops_at, peer_keys}
use awex.Transfer.Comm.Rotation.{
  CommError, has_rank, put_progress, Rotation, longest, finish_turn, take_turn, turn_at, round,
  rotate,
}
use awex.Transfer.Comm.Turns.{
  has_rank-filter, has_rank-sort, get_elem-none, get_elem-some, put_progress-le,
  put_progress-bounded, ops_at-longest, ops_at-missing,
}

-- A proof rule for the loop. `P` relates the progress of the ranks to what has been built: it holds
-- at the start, and each turn on the next operation of a rank succeeds and keeps it.
module _ {S : Type 0} (operations : OpDict)
    (emit : ℕ → CommunicationOperation → S → Outcome CommError S) (P : (ℕ → ℕ) → S → Type 0)
    (kept : (progress : ℕ → ℕ) (built : S) (rank : ℕ) (op : CommunicationOperation)
      → get_elem? (ops_at rank operations) (progress rank) ≡ some op
      → P progress built
      → (next : S) × (emit rank op built ≡ ok next)
        × P (put_progress rank (progress rank + 1) progress) next) where
  abbrev ops_count : ℕ → ℕ
  ops_count rank = length (ops_at rank operations)

  record Good (state : Rotation S) : Type 0 where
    holds : P state.progress state.built
    bounded : (r : ℕ) → state.progress r ≤ ops_count r
    ended : (r : ℕ) → has_rank r state.finished_ranks ≡ true → ops_count r ≤ state.progress r

  -- What a part of a round does: no rank falls back, and those that had a turn go on or finish.
  record Moved (ranks : List ℕ) (before after : Rotation S) : Type 0 where
    grows : (r : ℕ) → before.progress r ≤ after.progress r
    stays :
        (r : ℕ) → has_rank r before.finished_ranks ≡ true → has_rank r after.finished_ranks ≡ true
    moved :
        (r : ℕ)
        → has_rank r ranks ≡ true
        → (before.progress r < after.progress r) ⊎ (has_rank r after.finished_ranks ≡ true)

  abbrev Went : List ℕ → Rotation S → Outcome CommError (Rotation S) → Type 0
  Went ranks before outcome =
      (after : Rotation S) × (outcome ≡ ok after) × Good after × Moved ranks before after

  finish_turn-Good :
      (rank : ℕ) (state : Rotation S)
      → Good state
      → ops_count rank ≤ state.progress rank
      → Good (finish_turn rank state)
  finish_turn-Good rank state good over = record {
    holds = good.holds;
    bounded = good.bounded;
    ended = λ r h. elim (Bool-cases (rank == r)) [
      | inl same ↦
          let e = ==→eq rank r same in
          let e' : ops_count rank ≡ ops_count r = ap ops_count e in
          let e'' : state.progress rank ≡ state.progress r = ap state.progress e in omega arith
      | inr other ↦ good.ended r (rw other at h)
    ];
  }

  take_turn-Good :
      (rank : ℕ) (state : Rotation S) (next : S)
      → Good state
      → state.progress rank < ops_count rank
      → P (put_progress rank (state.progress rank + 1) state.progress) next
      → Good (take_turn rank state next)
  take_turn-Good rank state next good more holds = record {
    holds = holds;
    bounded = λ r. put_progress-bounded rank r state.progress ops_count more (good.bounded r);
    ended = λ r h. omega (arith, good.ended r h, put_progress-le rank r state.progress);
  }

  finish_turn-Moved :
      (rank : ℕ) (state : Rotation S) → Moved (rank ∷ []) state (finish_turn rank state)
  finish_turn-Moved rank state = record {
    grows = λ r. omega arith;
    stays = λ r h. elim (Bool-cases (rank == r)) [
      | inl same ↦ rw same refl
      | inr other ↦ rw (other, h) refl
    ];
    moved = λ r h. elim (Bool-cases (rank == r)) [
      | inl same ↦ inr (rw same refl)
      | inr other ↦ absurd (ground (arith, rw other at h))
    ];
  }

  take_turn-Moved :
      (rank : ℕ) (state : Rotation S) (next : S)
      → Moved (rank ∷ []) state (take_turn rank state next)
  take_turn-Moved rank state next = record {
    grows = λ r. put_progress-le rank r state.progress;
    stays = λ r h. h;
    moved = λ r h. elim (Bool-cases (rank == r)) [
      | inl same ↦
          let e : state.progress rank ≡ state.progress r = ap state.progress (==→eq rank r same) in
          inl (rw same (omega arith))
      | inr other ↦ absurd (ground (arith, rw other at h))
    ];
  }

  turn_at-Went :
      (rank : ℕ) (state : Rotation S)
      → Good state
      → Went (rank ∷ []) state (
          turn_at operations emit rank state
            (get_elem? (ops_at rank operations) (state.progress rank)))
  turn_at-Went rank state good =
      let found = get_elem? (ops_at rank operations) (state.progress rank) in
      elim (Option-cases found) [
        | inl at_end ↦
            let over = get_elem-none (ops_at rank operations) (state.progress rank) at_end in
            (
              finish_turn rank state,
              rw at_end refl,
              finish_turn-Good rank state good over,
              finish_turn-Moved rank state,
            )
        | inr (op, e) ↦
            let (next, step, holds) = kept state.progress state.built rank op e good.holds in
            let more = get_elem-some (ops_at rank operations) (state.progress rank) e in
            (
              take_turn rank state next,
              rw (e, step) refl,
              take_turn-Good rank state next good more holds,
              take_turn-Moved rank state next,
            )
      ]

  Moved-cons :
      (rank : ℕ) (ranks : List ℕ) (a b c : Rotation S)
      → Moved (rank ∷ []) a b
      → Moved ranks b c
      → Moved (rank ∷ ranks) a c
  Moved-cons rank ranks a b c first rest = record {
    grows = λ r. omega (arith, first.grows r, rest.grows r);
    stays = λ r h. rest.stays r (first.stays r h);
    moved = λ r h. elim (Bool-cases (rank == r)) [
      | inl same ↦ elim (first.moved r (rw same refl)) [
        | inl up ↦ inl (omega (arith, rest.grows r))
        | inr done ↦ inr (rest.stays r done)
      ]
      | inr other ↦ elim (rest.moved r (rw other at h)) [
        | inl up ↦ inl (omega (arith, first.grows r))
        | inr done ↦ inr done
      ]
    ];
  }

  round-Went :
      (ranks : List ℕ) (state : Rotation S)
      → Good state
      → Went ranks state (round operations emit ranks state)
  round-Went [] state good =
      (state, refl, good, record { grows = λ r. omega arith; stays = λ r h. h; moved = λ r h. cc })
  round-Went (rank ∷ ranks) state good =
      let (mid, e, good', first) = turn_at-Went rank state good in
      let (after, e', good'', rest) = round-Went ranks mid good' in
      (after, rw (e, e') refl, good'', Moved-cons rank ranks state mid after first rest)

  -- Before a round: those that are not in the list are at the end, and the others have fewer
  -- operations left than there are rounds.
  record Pending (fuel : ℕ) (unfinished : List ℕ) (progress : ℕ → ℕ) : Type 0 where
    done : (r : ℕ) → has_rank r unfinished ≡ false → ops_count r ≤ progress r
    enough : (r : ℕ) → has_rank r unfinished ≡ true → ops_count r < fuel + progress r

  Pending-next :
      (fuel : ℕ) (unfinished : List ℕ) (before after : Rotation S)
      → Pending (suc fuel) unfinished before.progress
      → Good after
      → Moved (sort leb unfinished) before after
      → Pending fuel (filter (λ r. not (has_rank r after.finished_ranks)) unfinished) after.progress
  Pending-next fuel unfinished before after pending good went =
      let kept_in =
        λ (r : ℕ). has_rank-filter (λ r. not (has_rank r after.finished_ranks)) r unfinished in
      record {
        done = λ r h. elim (Bool-cases (has_rank r unfinished)) [
          | inl there ↦ elim (Bool-cases (has_rank r after.finished_ranks)) [
            | inl fin ↦ good.ended r fin
            | inr not_fin ↦ absurd (ground (arith, rw (kept_in r, there, not_fin) at h))
          ]
          | inr gone ↦ omega (arith, pending.done r gone, went.grows r)
        ];
        enough = λ r h. elim (Bool-cases (has_rank r unfinished)) [
          | inl there ↦ elim (went.moved r (has_rank-sort r unfinished ∙ there)) [
            | inl up ↦ omega (arith, pending.enough r there)
            | inr fin ↦ absurd (ground (arith, rw (kept_in r, there, fin) at h))
          ]
          | inr gone ↦ absurd (ground (arith, rw (kept_in r, gone) at h))
        ];
      }

  rotate-ends :
      (fuel : ℕ) (unfinished : List ℕ) (progress : ℕ → ℕ) (built : S)
      → P progress built
      → ((r : ℕ) → progress r ≤ ops_count r)
      → Pending fuel unfinished progress
      → (last : S) × (rotate operations emit fuel unfinished progress built ≡ ok last)
        × ((end : ℕ → ℕ) × P end last × ((r : ℕ) → end r ≡ ops_count r))
  unfolding rotate
  rotate-ends fuel [] progress built holds bounded pending =
      (built, refl, (progress, holds, λ r. omega (arith, bounded r, pending.done r refl)))
  rotate-ends zero (rank ∷ ranks) progress built holds bounded pending =
      let there : has_rank rank (rank ∷ ranks) ≡ true = rw (eq→== rank rank refl) refl in
      absurd (omega (arith, bounded rank, pending.enough rank there))
  rotate-ends (suc fuel) (rank ∷ ranks) progress built holds bounded pending =
      let before : Rotation S = record {
        progress = progress;
        finished_ranks = [];
        built = built;
      } in
      let start : Good before = record { holds = holds; bounded = bounded; ended = λ r h. cc } in
      let (after, e, good, went) = round-Went (sort leb (rank ∷ ranks)) before start in
      let (last, e', rest) =
        rotate-ends fuel _ after.progress after.built good.holds good.bounded
          (Pending-next fuel (rank ∷ ranks) before after pending good went) in
      (last, rw (e, e') refl, rest)

  Pending-start : Pending (suc (longest operations)) (peer_keys operations) (λ _. 0)
  Pending-start = record {
    done = λ r h. ops_at-missing operations r h;
    enough = λ r h. omega (arith, ops_at-longest operations r);
  }

  -- From the start the loop ends with the progress of every rank at the number of its operations.
  pub rotate_complete :
      (built : S)
      → P (λ _. 0) built
      → (last : S) × (rotate operations emit
            (suc (longest operations))
            (peer_keys operations)
            (λ _. 0)
            built
          ≡ ok last)
        × ((end : ℕ → ℕ) × P end last × ((r : ℕ) → end r ≡ ops_count r))
  rotate_complete built holds =
      rotate-ends (suc (longest operations)) (peer_keys operations) (λ _. 0) built holds
        (λ r. omega arith) Pending-start
