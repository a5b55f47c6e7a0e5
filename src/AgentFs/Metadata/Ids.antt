-- ===== src/AgentFs/Metadata/Ids.antt =====
-- The identifiers of events: `new_event_id` of crates/sectiond/src/agentfs.rs builds what
-- `validate_event_id` accepts, as long as the time has thirteen digits.
use section.Base.{
  ℕ, zero, suc, ◌+◌, ◌*◌, ◌/◌, ◌%◌, ◌≡◌, refl, ◌∙◌, Bool, true, ◌&&◌, some, [], ◌∷◌, ◌++◌, arith,
  length, length-append, all, if◌then◌else◌, ltb, nat_beq, is_ok, nat_eq,
}
use section.Base.Text.{Text, codes, split_once}
use section.AgentFs.Metadata.{validate_event_id, event_id_parts, is_digit, is_hex_of}

-- The decimal digits of a number, none for 0.
unfoldable pub plain_digits : ℕ → ℕ → Text
plain_digits zero n = []
plain_digits (suc fuel) n =
    let front = plain_digits fuel (n / 10) in
    if nat_beq n 0 then [] else front ++ (48 + n % 10) ∷ []

-- `format!("{n:0width$}")`
unfoldable pub zero_padded : ℕ → ℕ → Text
unfolding plain_digits
zero_padded zero n = plain_digits n n
zero_padded (suc width) n = zero_padded width (n / 10) ++ (48 + n % 10) ∷ []

-- The sixteen digits of the random bytes are an argument.
unfoldable pub new_event_id : ℕ → Text → Text
unfolding zero_padded
new_event_id created_at_ms random = codes "evt_" ++ zero_padded 13 created_at_ms ++ 95 ∷ random

ten_to : ℕ → ℕ
ten_to zero = 1
ten_to (suc n) = 10 * ten_to n

all-append : (p : ℕ → Bool) (s t : Text) → all p (s ++ t) ≡ (all p s && all p t)
all-append p [] t = refl
all-append p (x ∷ s) t = ground (arith, all-append p s t)

digit_digit : (n : ℕ) → is_digit (48 + n % 10) ≡ true
digit_digit n = ground arith

plain_digits-all : (fuel n : ℕ) → all is_digit (plain_digits fuel n) ≡ true
unfolding plain_digits
plain_digits-all zero n = refl
plain_digits-all (suc fuel) n = ground (
  arith,
  plain_digits-all fuel (n / 10),
  digit_digit n,
  all-append is_digit (plain_digits fuel (n / 10)) ((48 + n % 10) ∷ []),
)

zero_padded-all : (width n : ℕ) → all is_digit (zero_padded width n) ≡ true
unfolding zero_padded
zero_padded-all zero n = plain_digits-all n n
zero_padded-all (suc width) n = ground (
  arith,
  zero_padded-all width (n / 10),
  digit_digit n,
  all-append is_digit (zero_padded width (n / 10)) ((48 + n % 10) ∷ []),
)

plain_digits-some : (n : ℕ) → nat_beq (length (plain_digits n n)) 0 ≡ nat_beq n 0
unfolding plain_digits
plain_digits-some zero = refl
plain_digits-some (suc n) =
    ground (arith, length-append (plain_digits n (suc n / 10)) ((48 + suc n % 10) ∷ []))

-- A padded number is as long as the width exactly if it is below the power of ten.
zero_padded-length :
    (width n : ℕ) → nat_beq (length (zero_padded width n)) width ≡ ltb n (ten_to width)
unfolding zero_padded ten_to
zero_padded-length zero n = ground (arith, plain_digits-some n)
zero_padded-length (suc width) n = ground (
  arith,
  zero_padded-length width (n / 10),
  length-append (zero_padded width (n / 10)) ((48 + n % 10) ∷ []),
)

-- Behind digits, the first underscore is the one that follows them.
split_digits : (s t : Text) → all is_digit s ≡ true → split_once 95 (s ++ 95 ∷ t) ≡ some (s, t)
split_digits [] t h = refl
split_digits (x ∷ s) t h = ground (arith, split_digits s t)

behind_prefix :
    (rest : Text)
    → is_ok (validate_event_id (codes "evt_" ++ rest)) ≡ event_id_parts (split_once 95 rest)
unfolding validate_event_id
behind_prefix rest = ground arith

-- The identifier of a new event is accepted exactly if its time is before 10 ^ 13 milliseconds and
-- the random part is sixteen digits in lower case.
pub validate_event_id-new :
    (created_at_ms : ℕ) (random : Text)
    → is_ok (validate_event_id (new_event_id created_at_ms random))
      ≡ (ltb created_at_ms 10000000000000 && is_hex_of 16 random)
unfolding validate_event_id new_event_id ten_to
validate_event_id-new created_at_ms random =
    let digits = zero_padded 13 created_at_ms in
    let parts = split_digits digits random (zero_padded-all 13 created_at_ms) in
    let width : nat_beq (length digits) 13 ≡ ltb created_at_ms 10000000000000 =
      zero_padded-length 13 created_at_ms in
    let all_digits = zero_padded-all 13 created_at_ms in
    behind_prefix (digits ++ 95 ∷ random) ∙ ground (arith, parts, width, all_digits)
