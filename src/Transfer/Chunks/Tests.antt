-- ===== src/Transfer/Chunks/Tests.antt =====
-- Runs of `build_transfer_chunks`, and its theorems at inputs.
use awex.Prelude.{◌≡◌, refl, List, [], ◌∷◌, All}
use awex.Prelude.Int.{pos, negsuc}
use awex.Prelude.Outcome.{ok, err}
use awex.Transfer.Chunks.{TransferChunk, build_transfer_chunks, negative_total}
use awex.Transfer.Chunks.Tiling.{Tiles, FitsChunk, build_transfer_chunks-Tiles}

ten_by_four :
    build_transfer_chunks (pos 10) (pos 4)
    ≡ ok (
        (record { byte_offset = 0; nbytes = 4 })
        ∷ (record { byte_offset = 4; nbytes = 4 })
        ∷ (record { byte_offset = 8; nbytes = 2 })
        ∷ [])
unfolding build_transfer_chunks
ten_by_four = refl

negative_total_raises : build_transfer_chunks (negsuc 0) (pos 4) ≡ err negative_total
unfolding build_transfer_chunks
negative_total_raises = refl

build_transfer_chunks-Tiles_example :
    (cs : List TransferChunk) × (build_transfer_chunks (pos 10) (pos 4) ≡ ok cs)
    × Tiles 0 10 cs
    × All (FitsChunk (pos 4)) cs
build_transfer_chunks-Tiles_example = build_transfer_chunks-Tiles 10 (pos 4)
