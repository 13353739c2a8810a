-- ===== src/Transfer/Chunks.antt =====
-- awex/transfer/transfer_plan.py: `TransferChunk` and `build_transfer_chunks`.
pub mod Tiling
mod Tests
use awex.Prelude.{
  ℕ, zero, suc, ◌+◌, ◌-◌, ◌≡◌, refl, Bool, true, false, List, [], ◌∷◌, map, min, ◌==◌,
  if◌then◌else◌,
}
use awex.Prelude.Int.{ℤ, pos, negsuc}
use awex.Prelude.Outcome.{Outcome, ok, err}
use awex.Prelude.Range.{range}

pub record TransferChunk : Type 0 where
  pub byte_offset : ℕ
  pub nbytes : ℕ

-- The one `ValueError` of the function.
pub data ChunkError : Type 0 where
  negative_total : ChunkError

unfoldable pub chunk_at : ℕ → ℕ → ℕ → TransferChunk
chunk_at total chunk byte_offset = record {
  byte_offset = byte_offset;
  nbytes = min chunk (total - byte_offset);
}

-- The comprehension, for a positive total and a positive chunk size.
unfoldable pub split_chunks : ℕ → ℕ → List TransferChunk
unfolding chunk_at range
split_chunks total chunk = map (chunk_at total chunk) (range 0 total chunk)

abbrev whole : ℕ → List TransferChunk
whole total = (record { byte_offset = 0; nbytes = total }) ∷ []

unfoldable pub build_transfer_chunks : ℤ → ℤ → Outcome ChunkError (List TransferChunk)
unfolding split_chunks
build_transfer_chunks (negsuc _) _ = err negative_total
build_transfer_chunks (pos zero) _ = ok []
build_transfer_chunks (pos (suc n)) (negsuc _) = ok (whole (suc n))
build_transfer_chunks (pos (suc n)) (pos zero) = ok (whole (suc n))
build_transfer_chunks (pos (suc n)) (pos (suc c)) = ok (split_chunks (suc n) (suc c))
