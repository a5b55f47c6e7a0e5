-- ===== src/Sync/Delta.antt =====
-- crates/sectiond/src/sync/delta.rs: the rolling hash and the signatures of the chunks of a file.
-- Arithmetic on `u32` wraps at `modulus`.
pub mod Rolling
pub mod Chunks
pub mod Tiling
use section.Base.{
  ℕ, zero, suc, ◌+◌, ◌-◌, ◌*◌, ◌%◌, ◌^◌, min, Bool, Option, none, some, List, [], ◌∷◌, String,
  if◌then◌else◌, ltb, nat_beq, length, take, drop,
}

abbrev pub Bytes : Type 0
Bytes = List ℕ

-- 2 ^ 32
abbrev pub modulus : ℕ
modulus = 4294967296

abbrev pub wrapping_add : ℕ → ℕ → ℕ
wrapping_add a b = (a + b) % modulus

abbrev pub wrapping_sub : ℕ → ℕ → ℕ
wrapping_sub a b = (a + (modulus - b % modulus)) % modulus

abbrev pub wrapping_mul : ℕ → ℕ → ℕ
wrapping_mul a b = (a * b) % modulus

pub record RollingHash : Type 0 where
  pub a : ℕ
  pub b : ℕ
  pub window_len : ℕ

-- The loop over the window, from `idx` on.
unfoldable pub scan : ℕ → ℕ → ℕ × ℕ → Bytes → ℕ × ℕ
scan len idx (a, b) [] = (a, b)
scan len idx (a, b) (value ∷ window) =
    scan len (suc idx)
      (wrapping_add a value, wrapping_add b (wrapping_mul ((len - idx) % modulus) value)) window

unfoldable pub from_window : Bytes → RollingHash
unfolding scan
from_window window =
    let (a, b) = scan (length window) 0 (0, 0) window in
    record { a = a; b = b; window_len = length window }

-- `(self.b << 16) | (self.a & 0xffff)`: the two parts have no bit in common.
unfoldable pub value : RollingHash → ℕ
value h = (h.b * 65536) % modulus + h.a % 65536

unfoldable pub roll : RollingHash → ℕ → ℕ → RollingHash
roll h outgoing incoming =
    let a = wrapping_add (wrapping_sub h.a outgoing) incoming in
    record {
      a = a;
      b = wrapping_add (wrapping_sub h.b (wrapping_mul (h.window_len % modulus) outgoing)) a;
      window_len = h.window_len;
    }

pub record ChunkSignature : Type 0 where
  pub offset : ℕ
  pub len : ℕ
  pub weak : ℕ
  pub strong : String

-- `chunks` of slices, of the standard library; the fuel is the number of bytes.
unfoldable pub chunks : ℕ → ℕ → Bytes → List Bytes
chunks zero chunk_size bytes = []
chunks (suc fuel) chunk_size [] = []
chunks (suc fuel) chunk_size (x ∷ bytes) =
    take chunk_size (x ∷ bytes) ∷ chunks fuel chunk_size (drop chunk_size (x ∷ bytes))

module _ (hash_bytes : Bytes → String) where
  unfoldable pub signature : ℕ → Bytes → ChunkSignature
  signature offset chunk = record {
    offset = offset;
    len = length chunk;
    weak = value (from_window chunk);
    strong = hash_bytes chunk;
  }

  -- `enumerate` and `map`, from `index` on.
  unfoldable pub signatures : ℕ → ℕ → List Bytes → List ChunkSignature
  unfolding signature
  signatures chunk_size index [] = []
  signatures chunk_size index (chunk ∷ rest) =
      signature (index * chunk_size) chunk ∷ signatures chunk_size (suc index) rest

  unfoldable pub build_chunk_signatures : Bytes → ℕ → List ChunkSignature
  unfolding chunks signatures
  build_chunk_signatures bytes chunk_size =
      if nat_beq chunk_size 0
      then []
      else signatures chunk_size 0 (chunks (length bytes) chunk_size bytes)

  -- The loop of `read_remote_signatures`; `read` is the reader of the storage library.
  unfoldable pub read_loop : (ℕ → ℕ → Bytes) → ℕ → ℕ → ℕ → ℕ → List ChunkSignature
  unfolding signature
  read_loop read total chunk_size zero offset = []
  read_loop read total chunk_size (suc fuel) offset =
      let end = min (offset + chunk_size) total in
      let rest = read_loop read total chunk_size fuel end in
      if ltb offset total then signature offset (read offset end) ∷ rest else []

  -- `build_remote_chunk_signatures` of a file that can be read; each turn reads a byte at least, so
  -- its length is fuel enough.
  unfoldable pub build_remote_chunk_signatures : (ℕ → ℕ → Bytes) → ℕ → ℕ → List ChunkSignature
  unfolding read_loop
  build_remote_chunk_signatures read total chunk_size =
      if nat_beq chunk_size 0 then [] else read_loop read total chunk_size total 0
