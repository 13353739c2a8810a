-- ===== src/Transfer/Chunks/Tiling.antt =====
-- The chunks of `build_transfer_chunks` lie end to end and cover the transfer.
use native.Mathlib.Decide.{dec_le}
use native.Mathlib.Nat.{div-add-mod, mod-lt}
use awex.Prelude.{
  ℕ, zero, suc, ◌+◌, ◌-◌, ◌*◌, ◌/◌, ◌≤◌, ◌<◌, ◌≡◌, refl, List, [], ◌∷◌, map, All, arith, min,
}
use awex.Prelude.Int.{ℤ, pos, negsuc}
use awex.Prelude.Outcome.{ok}
use awex.Prelude.Range.{range_from}
use awex.Transfer.Chunks.{TransferChunk, chunk_at, build_transfer_chunks}

-- The chunks are not empty, begin at `start`, follow one another and end at `stop`.
abbrev pub Tiles : ℕ → ℕ → List TransferChunk → Type 0
Tiles start stop [] = start ≡ stop
Tiles start stop (c ∷ cs) =
    (c.byte_offset ≡ start) × (0 < c.nbytes) × Tiles (start + c.nbytes) stop cs

-- The bound on one chunk: none where the chunk size is not positive.
abbrev pub FitsChunk : ℤ → TransferChunk → Type 0
FitsChunk (pos (suc c)) t = t.nbytes ≤ suc c
FitsChunk _ t = Unit

-- A last round: what is left is less than one chunk.
rounds_done : (n c start total : ℕ) → start + n * c < total → total < start + c → n ≡ 0
rounds_done zero c start total h k = refl
rounds_done (suc n) c start total h k = absurd (grind arith)

round_count :
    (total c : ℕ)
    → 0 < c
    → let n = (total - 0 + (c - 1)) / c in (total ≤ 0 + n * c) × (0 + n * c < total + c)
round_count total c p =
    let x : ℕ = total - 0 + (c - 1) in omega (arith, div-add-mod x c, mod-lt x p)

module _ (total c : ℕ) (p : 0 < c) where
  range_from-Tiles :
      (n start : ℕ)
      → start ≤ total
      → total ≤ start + n * c
      → start + n * c < total + c
      → Tiles start total (map (chunk_at total c) (range_from n start c))
  unfolding chunk_at
  range_from-Tiles zero start h1 h2 h3 = omega arith
  range_from-Tiles (suc n) start h1 h2 h3 = elim (dec_le (start + c) total) [
    | yes full ↦
        let e : min c (total - start) ≡ c = omega arith in
        rw e (refl, p, range_from-Tiles n (start + c) full (omega arith) (omega arith))
    | no short ↦
        let e : n ≡ 0 = rounds_done n c start total (omega arith) (omega arith) in
        rw e (refl, omega arith, omega arith)
  ]

  range_from-FitsChunk :
      (n start : ℕ) → All (λ t. t.nbytes ≤ c) (map (chunk_at total c) (range_from n start c))
  unfolding chunk_at
  range_from-FitsChunk zero start = tt
  range_from-FitsChunk (suc n) start = (omega arith, range_from-FitsChunk n (start + c))

-- Whatever the size of a chunk, a transfer of `total` bytes is cut into non-empty chunks that lie
-- end to end from 0 to `total`, none longer than a positive chunk size.
pub build_transfer_chunks-Tiles :
    (total : ℕ) (chunk : ℤ)
    → (cs : List TransferChunk) × (build_transfer_chunks (pos total) chunk ≡ ok cs)
      × Tiles 0 total cs
      × All (FitsChunk chunk) cs
unfolding build_transfer_chunks
build_transfer_chunks-Tiles zero chunk = ([], refl, refl, tt)
build_transfer_chunks-Tiles (suc n) (negsuc k) =
    (_, refl, (refl, omega arith, omega arith), (tt, tt))
build_transfer_chunks-Tiles (suc n) (pos zero) =
    (_, refl, (refl, omega arith, omega arith), (tt, tt))
build_transfer_chunks-Tiles (suc n) (pos (suc c)) = (
  _,
  refl,
  range_from-Tiles (suc n) (suc c) (omega arith) _ 0 (omega arith)
      (round_count (suc n) (suc c) (omega arith)).0 (round_count (suc n) (suc c) (omega arith)).1,
  range_from-FitsChunk (suc n) (suc c) (omega arith) _ 0,
)
