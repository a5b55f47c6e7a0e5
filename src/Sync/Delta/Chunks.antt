-- ===== src/Sync/Delta/Chunks.antt =====
-- The signatures of the chunks of a file in memory and of a file read by ranges.
use section.Base.{
  ℕ, zero, suc, ◌+◌, ◌-◌, ◌*◌, ◌<◌, ◌≤◌, ◌≡◌, refl, sym, ap, ◌∙◌, List, [], ◌∷◌, arith, length,
  take, drop, String, min, ltb, nat_beq, length-drop, true, false,
}
use section.Sync.Delta.{
  Bytes, ChunkSignature, chunks, signatures, signature, build_chunk_signatures, read_loop,
  build_remote_chunk_signatures,
}

drop-nil : (n : ℕ) → drop {A = ℕ} n [] ≡ []
drop-nil zero = refl
drop-nil (suc n) = refl

take-nil : (n : ℕ) → take {A = ℕ} n [] ≡ []
take-nil zero = refl
take-nil (suc n) = refl

pub drop-drop : (n m k : ℕ) (b : Bytes) → k ≡ n + m → drop m (drop n b) ≡ drop k b
drop-drop zero m k b e = ap (λ (k : ℕ). drop k b) (omega (arith, e))
drop-drop (suc n) m zero b e = absurd (omega (arith, e))
drop-drop (suc n) m (suc k) [] e = drop-nil m
drop-drop (suc n) m (suc k) (x ∷ b) e = drop-drop n m k b (omega (arith, e))

-- Taking no more than there is.
pub take-min : (n k : ℕ) (b : Bytes) → k ≡ min n (length b) → take k b ≡ take n b
take-min n k [] e = take-nil k ∙ sym (take-nil n)
take-min zero zero (x ∷ b) e = refl
take-min zero (suc k) (x ∷ b) e = absurd (omega (arith, e))
take-min (suc n) zero (x ∷ b) e = absurd (omega (arith, e))
take-min (suc n) (suc k) (x ∷ b) e = ap (λ (t : Bytes). x ∷ t) (take-min n k b (omega (arith, e)))

module _ (hash_bytes : Bytes → String) (bytes : Bytes) (read : ℕ → ℕ → Bytes) where
  abbrev loop : ℕ → ℕ → ℕ → List ChunkSignature
  loop size fuel o = read_loop hash_bytes read (length bytes) size fuel o

  loop_done : (size fuel o : ℕ) → length bytes ≤ o → loop size fuel o ≡ []
  unfolding read_loop
  loop_done size zero o h = refl
  loop_done size (suc fuel) o h = let e : ltb o (length bytes) ≡ false = ground arith in rw e refl

  module _ (reads : (o e : ℕ) → read o e ≡ take (e - o) (drop o bytes)) where
    loop_turn :
        (size fuel o : ℕ)
        → o < length bytes
        → loop size (suc fuel) o
          ≡ signature hash_bytes o (take size (drop o bytes))
            ∷ loop size fuel (min (o + size) (length bytes))
    unfolding read_loop
    loop_turn size fuel o h =
        let e : ltb o (length bytes) ≡ true = ground arith in
        let same =
          take-min size (min (o + size) (length bytes) - o) (drop o bytes)
            (omega (arith, length-drop o bytes)) in
        rw (e, reads o (min (o + size) (length bytes)), same) refl

    loop_lem :
        (size fuel chunk_fuel index o : ℕ) (rest : Bytes)
        → 0 < size
        → o ≡ min (index * size) (length bytes)
        → drop (index * size) bytes ≡ rest
        → length bytes ≤ fuel + o
        → length rest ≤ chunk_fuel
        → loop size fuel o ≡ signatures hash_bytes size index (chunks chunk_fuel size rest)
    unfolding signatures chunks
    loop_lem size fuel zero index o rest p at cut h h' =
        loop_done size fuel o
          (omega (arith, at, h', length-drop (index * size) bytes, ap length cut))
    loop_lem size fuel (suc k) index o [] p at cut h h' =
        loop_done size fuel o (omega (arith, at, length-drop (index * size) bytes, ap length cut))
    loop_lem size zero (suc k) index o (x ∷ rest) p at cut h h' =
        absurd (omega (arith, at, h, length-drop (index * size) bytes, ap length cut))
    loop_lem size (suc fuel) (suc k) index o (x ∷ rest) p at cut h h' =
        let left : length bytes - index * size ≡ suc (length rest) =
          omega (arith, length-drop (index * size) bytes, ap length cut) in
        let here : o ≡ index * size = omega (arith, at, left) in
        let step : suc index * size ≡ index * size + size = omega arith in
        let next =
          loop_lem size fuel k (suc index) (min (o + size) (length bytes)) (drop size (x ∷ rest)) p
            (omega (arith, here, step))
            (sym (drop-drop (index * size) size (suc index * size) bytes step) ∙ ap (drop size) cut)
            (omega (arith, h, p, left, here)) (omega (arith, length-drop size (x ∷ rest), h', p)) in
        loop_turn size fuel o (omega (arith, here, left)) ∙ cc (next, here, cut)

-- The signatures of a file that is read by ranges are those of its bytes in memory, where a range
-- that is read holds the bytes of the file at it.
pub build_remote_chunk_signatures-local :
    (hash_bytes : Bytes → String) (bytes : Bytes) (read : ℕ → ℕ → Bytes)
    → ((o e : ℕ) → read o e ≡ take (e - o) (drop o bytes))
    → (chunk_size : ℕ)
    → build_remote_chunk_signatures hash_bytes read (length bytes) chunk_size
      ≡ build_chunk_signatures hash_bytes bytes chunk_size
unfolding build_remote_chunk_signatures build_chunk_signatures
build_remote_chunk_signatures-local hash_bytes bytes read reads zero = refl
build_remote_chunk_signatures-local hash_bytes bytes read reads (suc n) =
    let none_left : nat_beq (suc n) 0 ≡ false = ground arith in
    let first : 0 * suc n ≡ 0 = omega arith in
    rw none_left (
      loop_lem hash_bytes bytes read reads (suc n) (length bytes) (length bytes) 0 0 bytes
        (omega arith) (omega arith) (ap (λ (k : ℕ). drop k bytes) first) (omega arith)
        (omega arith))
