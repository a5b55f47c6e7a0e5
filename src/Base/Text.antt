-- ===== src/Base/Text.antt =====
-- `str` as the list of its code points, with the methods of `str` that the program calls.
pub mod Segments
pub mod Search
use Prim.Native.Nat.{ℕ, zero, suc, ◌+◌}
use Prim.Native.Char.{code}
use Prim.Native.String.{String}
use mathlib.Core.Bool.{Bool, true, false, ◌&&◌, ◌||◌}
use mathlib.Core.Option
use mathlib.Core.Option.{Option, none, some}
use mathlib.Core.List.{List, [], ◌∷◌, ◌++◌}
use section.Base.Tests.{if◌then◌else◌, is_some, leb}
use section.Base.Eq.{◌==◌, nat_eq}
use section.Base.Lists.{is_empty, length, drop}

abbrev pub Text : Type 0
Text = List ℕ

-- The code points of a literal.
abbrev pub codes : String → Text
codes String.[] = []
codes (String.◌∷◌ c s) = code c ∷ codes s

-- The characters `/` and `*`.
abbrev pub slash : ℕ
slash = 47

abbrev pub star : ℕ
star = 42

abbrev pub contains_char : Text → ℕ → Bool
contains_char [] c = false
contains_char (x ∷ s) c = x == c || contains_char s c

abbrev pub strip_prefix : Text → Text → Option Text
strip_prefix s [] = some s
strip_prefix [] (p ∷ ps) = none
strip_prefix (c ∷ s) (p ∷ ps) = let rest = strip_prefix s ps in if c == p then rest else none

abbrev pub starts_with : Text → Text → Bool
starts_with s p = is_some (strip_prefix s p)

abbrev pub ends_with_char : Text → ℕ → Bool
ends_with_char [] c = false
ends_with_char (x ∷ []) c = x == c
ends_with_char (x ∷ y ∷ s) c = ends_with_char (y ∷ s) c

-- `s.find(pat)`: the first position at which the pattern stands.
abbrev pub find_text : Text → Text → Option ℕ
find_text [] p = if is_empty p then some 0 else none
find_text (c ∷ s) p =
    let rest = Option.map (λ (i : ℕ). suc i) (find_text s p) in
    if starts_with (c ∷ s) p then some 0 else rest

-- `trim_start_matches`, `trim_end_matches` and `trim_matches` with one character.
abbrev pub trim_start : ℕ → Text → Text
trim_start c [] = []
trim_start c (x ∷ s) = let rest = trim_start c s in if x == c then rest else x ∷ s

abbrev pub trim_end : ℕ → Text → Text
trim_end c [] = []
trim_end c (x ∷ s) = let rest = trim_end c s in if x == c && is_empty rest then [] else x ∷ rest

abbrev pub trim_matches : ℕ → Text → Text
trim_matches c s = trim_end c (trim_start c s)

-- `char::is_whitespace`: the property White_Space of Unicode.
abbrev pub is_whitespace : ℕ → Bool
is_whitespace c =
    (leb 9 c && leb c 13)
    || c == 32
    || c == 133
    || c == 160
    || c == 5760
    || (leb 8192 c && leb c 8202)
    || c == 8232
    || c == 8233
    || c == 8239
    || c == 8287
    || c == 12288

abbrev pub trim_front : Text → Text
trim_front [] = []
trim_front (x ∷ s) = let rest = trim_front s in if is_whitespace x then rest else x ∷ s

abbrev pub trim_back : Text → Text
trim_back [] = []
trim_back (x ∷ s) =
    let rest = trim_back s in if is_whitespace x && is_empty rest then [] else x ∷ rest

-- `s.trim()`
abbrev pub trim : Text → Text
trim s = trim_back (trim_front s)

-- `split_once(c)`: the text before and after the first `c`.
abbrev pub split_once : ℕ → Text → Option (Text × Text)
split_once c [] = none
split_once c (x ∷ s) =
    let rest = Option.map (λ (p : Text × Text). let (a, b) = p in (x ∷ a, b)) (split_once c s) in
    if x == c then some ([], s) else rest

-- `s.rfind(c).map(|idx| &s[..idx])`: the text before the last `c`.
abbrev pub before_last : ℕ → Text → Option Text
before_last c [] = none
before_last c (x ∷ s) = elim (before_last c s) [
  | some a ↦ some (x ∷ a)
  | none ↦ if x == c then some [] else none
]

-- Puts a character in front of the first piece.
abbrev pub onto_first : ℕ → List Text → List Text
onto_first x [] = (x ∷ []) ∷ []
onto_first x (p ∷ ps) = (x ∷ p) ∷ ps

-- `s.split(c)`: always at least one piece.
abbrev pub split : ℕ → Text → List Text
split c [] = [] ∷ []
split c (x ∷ s) = let rest = split c s in if x == c then [] ∷ rest else onto_first x rest

-- The pieces with the separator between them.
abbrev pub join : ℕ → List Text → Text
join c [] = []
join c (p ∷ []) = p
join c (p ∷ q ∷ ps) = p ++ (c ∷ join c (q ∷ ps))
