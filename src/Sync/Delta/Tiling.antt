-- ===== src/Sync/Delta/Tiling.antt =====
-- The signatures of a file describe all of it, chunk by chunk.
use section.Base.{
  ℕ, zero, suc, ◌+◌, ◌-◌, ◌*◌, ◌<◌, ◌≤◌, ◌≡◌, refl, sym, ap, ◌∙◌, List, [], ◌∷◌, arith, length,
  take, drop, String, min, nat_beq, length-drop, length-take, false,
}
use section.Sync.Delta.{
  Bytes, ChunkSignature, chunks, signatures, signature, build_chunk_signatures,
}
use section.Sync.Delta.Chunks.{drop-drop, take-min}

-- From the offset `o` on, each signature is that of a range of the file that begins where the one
-- before ends, and the last range ends with the file.
abbrev pub Tiles : (Bytes → String) → Bytes → ℕ → ℕ → List ChunkSignature → Type 0
Tiles hash_bytes bytes size o [] = o ≡ length bytes
Tiles hash_bytes bytes size o (s ∷ rest) =
    (s ≡ signature hash_bytes o (take s.len (drop o bytes)))
    × (0 < s.len)
    × (s.len ≤ size)
    × Tiles hash_bytes bytes size (o + s.len) rest

module _ (hash_bytes : Bytes → String) (bytes : Bytes) (size : ℕ) (p : 0 < size) where
  chunk_there :
      (index : ℕ) (rest : Bytes)
      → drop (index * size) bytes ≡ rest
      → take (length (take size rest)) (drop (index * size) bytes) ≡ take size rest
  chunk_there index rest cut =
      ap (take (length (take size rest))) cut
      ∙ take-min size (length (take size rest)) rest (length-take size rest)

  signatures-Tiles :
      (fuel index o : ℕ) (rest : Bytes)
      → o ≡ min (index * size) (length bytes)
      → drop (index * size) bytes ≡ rest
      → length rest ≤ fuel
      → Tiles hash_bytes bytes size o (signatures hash_bytes size index (chunks fuel size rest))
  unfolding signatures chunks signature
  signatures-Tiles zero index o rest at cut h =
      omega (arith, at, h, length-drop (index * size) bytes, ap length cut)
  signatures-Tiles (suc k) index o [] at cut h =
      omega (arith, at, length-drop (index * size) bytes, ap length cut)
  signatures-Tiles (suc k) index o (x ∷ rest) at cut h =
      let left : length bytes - index * size ≡ suc (length rest) =
        omega (arith, length-drop (index * size) bytes, ap length cut) in
      let here : o ≡ index * size = omega (arith, at, left) in
      let step : suc index * size ≡ index * size + size = omega arith in
      let taken = length-take size (x ∷ rest) in
      let next =
        signatures-Tiles k (suc index) (o + length (take size (x ∷ rest))) (drop size (x ∷ rest))
          (omega (arith, here, step, taken, left))
          (sym (drop-drop (index * size) size (suc index * size) bytes step) ∙ ap (drop size) cut)
          (omega (arith, length-drop size (x ∷ rest), h, p)) in
      (
        rw (here, chunk_there index (x ∷ rest) cut) refl,
        omega (arith, taken, p),
        omega (arith, taken),
        next,
      )

-- The signatures of a file, with chunks of a byte at least, describe all of it in order: each is made
-- of the bytes at its offset, is of a byte at least and of no more than the chunk size, begins where
-- the one before ends, and the last ends with the file.
pub build_chunk_signatures-Tiles :
    (hash_bytes : Bytes → String) (bytes : Bytes) (chunk_size : ℕ)
    → 0 < chunk_size
    → Tiles hash_bytes bytes chunk_size 0 (build_chunk_signatures hash_bytes bytes chunk_size)
unfolding build_chunk_signatures
build_chunk_signatures-Tiles hash_bytes bytes chunk_size p =
    let some_size : nat_beq chunk_size 0 ≡ false = ground (arith, p) in
    let first : 0 * chunk_size ≡ 0 = omega arith in
    rw some_size (
      signatures-Tiles hash_bytes bytes chunk_size p (length bytes) 0 0 bytes (omega arith)
        (ap (λ (k : ℕ). drop k bytes) first) (omega arith))
