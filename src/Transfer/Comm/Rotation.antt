-- ===== src/Transfer/Comm/Rotation.antt =====
-- The loop of `nccl_build_send_ops` and of `nccl_build_recv_ops`: in every round each unfinished
-- rank has one turn. What a turn appends is an argument.
use awex.Prelude.{
  ℕ, zero, suc, ◌+◌, Bool, true, false, not, Option, none, some, List, [], ◌∷◌, length, get_elem?,
  filter, leb, max, ◌==◌, if◌then◌else◌,
}
use awex.Prelude.Outcome.{Outcome, ok, err, ◌>>=◌}
use awex.Prelude.Sort.{sort}
use awex.Transfer.Plan.Defs.{CommunicationOperation}
use awex.Transfer.Plan.Local.{OpDict, ops_at}

pub data CommError : Type 0 where
  key_error : CommError
  out_of_fuel : CommError
  division_by_zero : CommError

-- `rank in ranks`
abbrev pub has_rank : ℕ → List ℕ → Bool
has_rank rank [] = false
has_rank rank (r ∷ ranks) = let rest = has_rank rank ranks in if r == rank then true else rest

-- `progress[rank] = value`
abbrev pub put_progress : ℕ → ℕ → (ℕ → ℕ) → ℕ → ℕ
put_progress rank value progress r = if rank == r then value else progress r

-- The state of a round: the progress of each rank, `finished_ranks`, and what has been built.
pub record Rotation (S : Type 0) : Type 0 where
  pub progress : ℕ → ℕ
  pub finished_ranks : List ℕ
  pub built : S

-- The length of the longest list of operations.
abbrev pub longest : OpDict → ℕ
longest [] = 0
longest ((_, ops) ∷ rest) = max (length ops) (longest rest)

module _ {S : Type 0} where
  -- `finished_ranks.add(rank)`
  abbrev pub finish_turn : ℕ → Rotation S → Rotation S
  finish_turn rank state = record {
    progress = state.progress;
    finished_ranks = rank ∷ state.finished_ranks;
    built = state.built;
  }

  -- `progress[rank] = progress + 1`, with what the turn built.
  abbrev pub take_turn : ℕ → Rotation S → S → Rotation S
  take_turn rank state built = record {
    progress = put_progress rank (state.progress rank + 1) state.progress;
    finished_ranks = state.finished_ranks;
    built = built;
  }

module _ {S : Type 0} (operations : OpDict)
    (emit : ℕ → CommunicationOperation → S → Outcome CommError S) where
  -- A turn at `operations[rank][progress[rank]]`, `none` where progress is at the end.
  abbrev pub turn_at :
      ℕ → Rotation S → Option CommunicationOperation → Outcome CommError (Rotation S)
  turn_at rank state none = ok (finish_turn rank state)
  turn_at rank state (some op) =
      emit rank op state.built >>= λ built. ok (take_turn rank state built)

  -- `for rank in sorted(unfinished_ranks)`
  abbrev pub round : List ℕ → Rotation S → Outcome CommError (Rotation S)
  round [] state = ok state
  round (rank ∷ ranks) state =
      turn_at rank state (get_elem? (ops_at rank operations) (state.progress rank)) >>= round ranks

  -- `while len(unfinished_ranks) > 0`
  unfoldable pub rotate : ℕ → List ℕ → (ℕ → ℕ) → S → Outcome CommError S
  rotate fuel [] progress built = ok built
  rotate zero (_ ∷ _) progress built = err out_of_fuel
  rotate (suc fuel) (rank ∷ ranks) progress built =
      round (sort leb (rank ∷ ranks))
        (record { progress = progress; finished_ranks = []; built = built })
      >>= λ state.
          rotate fuel (filter (λ r. not (has_rank r state.finished_ranks)) (rank ∷ ranks))
            state.progress state.built
