-- ===== src/Sync/Delta/Rolling.antt =====
-- `RollingHash`: rolling by one byte is hashing the next window.
use section.Base.{
  ℕ, zero, suc, ◌+◌, ◌-◌, ◌*◌, ◌%◌, ◌<◌, ◌≡◌, refl, sym, ap, ◌∙◌, [], ◌∷◌, ◌++◌, arith, length,
}
use section.Sync.Delta.{
  Bytes, modulus, wrapping_add, wrapping_sub, wrapping_mul, RollingHash, scan, from_window, roll,
}

-- The plain sums that the hash holds modulo 2 ^ 32.
abbrev total : Bytes → ℕ
total [] = 0
total (x ∷ w) = x + total w

abbrev weighted : Bytes → ℕ
weighted [] = 0
weighted (x ∷ w) = suc (length w) * x + weighted w

add_mod : (a b : ℕ) → (a % modulus + b) % modulus ≡ (a + b) % modulus
add_mod a b = omega arith

mul_suc : (a v : ℕ) → a * suc v ≡ a * v + a
mul_suc a v = omega arith

mul_mod : (a v : ℕ) → ((a % modulus) * v) % modulus ≡ (a * v) % modulus
mul_mod a zero = omega arith
mul_mod a (suc v) = omega (arith, mul_mod a v, mul_suc (a % modulus) v, mul_suc a v)

abbrev pair : ℕ → ℕ → ℕ × ℕ
pair a b = (a, b)

pairs : {a b c d : ℕ} → a ≡ c → b ≡ d → pair a b ≡ pair c d
pairs h g = rw (h, g) refl

scan_lem :
    (len idx a b : ℕ) (w : Bytes)
    → len ≡ idx + length w
    → scan len idx (a % modulus, b % modulus) w
      ≡ pair ((a + total w) % modulus) ((b + weighted w) % modulus)
unfolding scan
scan_lem len idx a b [] h = pairs (omega arith) (omega arith)
scan_lem len idx a b (x ∷ w) h =
    let left : len - idx ≡ suc (length w) = omega (arith, h) in
    let term = suc (length w) * x in
    let p : wrapping_add (a % modulus) x ≡ (a + x) % modulus = omega arith in
    let q : wrapping_add (b % modulus) (wrapping_mul ((len - idx) % modulus) x)
        ≡ (b + term) % modulus =
      rw left (omega (arith, mul_mod (suc (length w)) x)) in
    ap (λ (s : ℕ × ℕ). scan len (suc idx) s w) (pairs p q)
    ∙ scan_lem len (suc idx) (a + x) (b + term) w (omega (arith, h))
    ∙ pairs (omega arith) (omega arith)

abbrev hash : ℕ → ℕ → ℕ → RollingHash
hash a b n = record { a = a; b = b; window_len = n }

hashes : {a b c d n k : ℕ} → a ≡ c → b ≡ d → n ≡ k → hash a b n ≡ hash c d k
hashes h g f = rw (h, g, f) refl

-- The hash of a window, by the plain sums.
pub from_window_lem :
    (w : Bytes) → from_window w ≡ hash (total w % modulus) (weighted w % modulus) (length w)
unfolding from_window
from_window_lem w =
    ap (λ (s : ℕ × ℕ). hash s.0 s.1 (length w)) (scan_lem (length w) 0 0 0 w (omega arith))
    ∙ hashes (omega arith) (omega arith) refl

append_total : (w : Bytes) (y : ℕ) → total (w ++ y ∷ []) ≡ total w + y
append_total [] y = omega arith
append_total (x ∷ w) y = omega (arith, append_total w y)

append_length : (w : Bytes) (y : ℕ) → length (w ++ y ∷ []) ≡ suc (length w)
append_length [] y = refl
append_length (x ∷ w) y = omega (arith, append_length w y)

suc_mul : (a v : ℕ) → suc a * v ≡ a * v + v
suc_mul a v = omega arith

append_weighted : (w : Bytes) (y : ℕ) → weighted (w ++ y ∷ []) ≡ weighted w + total w + y
append_weighted [] y = omega arith
append_weighted (x ∷ w) y =
    rw (append_length w y) (omega (arith, append_weighted w y, suc_mul (suc (length w)) x))

-- Rolling the hash of a window of bytes by one byte gives the hash of the window without its first
-- byte and with the new one at its end.
pub roll-from_window :
    (x y : ℕ) (w : Bytes) → x < 256 → roll (from_window (x ∷ w)) x y ≡ from_window (w ++ y ∷ [])
unfolding roll
roll-from_window x y w h =
    let n = suc (length w) in
    let m = mul_mod n x in
    let a' : wrapping_add (wrapping_sub ((x + total w) % modulus) x) y ≡ (total w + y) % modulus =
      omega (arith, h) in
    let b' : wrapping_add
          (wrapping_sub ((n * x + weighted w) % modulus) (wrapping_mul (n % modulus) x))
          ((total w + y) % modulus)
        ≡ (weighted w + total w + y) % modulus =
      omega (arith, m) in
    ap (λ (r : RollingHash). roll r x y) (from_window_lem (x ∷ w))
    ∙ hashes a'
        (ap
            (λ (t : ℕ).
              wrapping_add
                (wrapping_sub ((n * x + weighted w) % modulus) (wrapping_mul (n % modulus) x)) t)
            a'
          ∙ b')
        refl
    ∙ sym (
        from_window_lem (w ++ y ∷ [])
        ∙ hashes (ap (λ (t : ℕ). t % modulus) (append_total w y))
            (ap (λ (t : ℕ). t % modulus) (append_weighted w y)) (append_length w y))
