-- ===== src/Tests/Chunked.antt =====
-- The rolling hash and the chunks, at concrete bytes.
use section.Base.{◌-◌, ◌≡◌, refl, [], ◌∷◌, ◌++◌, arith, String, take, drop}
use section.Sync.Delta.{
  Bytes, from_window, roll, build_chunk_signatures, build_remote_chunk_signatures,
}
use section.Sync.Delta.Rolling.{roll-from_window}
use section.Sync.Delta.Chunks.{build_remote_chunk_signatures-local}
use section.Sync.Delta.Tiling.{Tiles, build_chunk_signatures-Tiles}

roll-from_window_example :
    roll (from_window (97 ∷ 98 ∷ 99 ∷ [])) 97 100 ≡ from_window ((98 ∷ 99 ∷ []) ++ 100 ∷ [])
roll-from_window_example = roll-from_window 97 100 (98 ∷ 99 ∷ []) (omega arith)

abbrev five : Bytes
five = 1 ∷ 2 ∷ 3 ∷ 4 ∷ 5 ∷ []

abbrev one_hash : Bytes → String
one_hash bytes = "h"

build_remote_chunk_signatures-local_example :
    build_remote_chunk_signatures one_hash (λ o e. take (e - o) (drop o five)) 5 2
    ≡ build_chunk_signatures one_hash five 2
build_remote_chunk_signatures-local_example =
    build_remote_chunk_signatures-local one_hash five (λ o e. take (e - o) (drop o five))
      (λ o e. refl) 2

build_chunk_signatures-Tiles_example :
    Tiles one_hash five 2 0 (build_chunk_signatures one_hash five 2)
build_chunk_signatures-Tiles_example = build_chunk_signatures-Tiles one_hash five 2 (omega arith)
