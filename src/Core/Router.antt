-- ===== src/Core/Router.antt =====
-- `Router` of crates/section-core/src/router.rs: a path names a source and a path in it. `O` is the
-- operator of the storage library.
use section.Base.Text.{trim_start, trim_end, Text, slash, split_once, trim_matches}
use section.Base.{
  subst, ◌≡◌, ◌⊎◌, inl, inr, refl, false, Option, none, some, [], ◌∷◌, ◌++◌, arith, if◌then◌else◌,
  is_empty, ◌==◌, list_eq, nat_eq, Result, ok, err, ◌>>=◌, Bool-cases, Option-cases,
}
use section.Base.HashMap.{get-insert, HashMap, keys}
use mathlib.Core.Option
use section.Base.Text.Segments.{Lacks}
use section.Base.HashMap

pub record ParsedPath : Type 0 where
  pub source : Text
  pub sub_path : Text

pub data RouterError : Type 0 where
  source_not_found invalid_path : Text → RouterError

-- What the `match` on the split makes of the trimmed path.
abbrev parsed_of : Text → Option (Text × Text) → ParsedPath
parsed_of path none = record { source = path; sub_path = [] }
parsed_of path (some (s, p)) = record { source = s; sub_path = p }

unfoldable pub parse_path : Text → Option ParsedPath
parse_path path =
    let path = trim_matches slash path in
    if is_empty path then none else some (parsed_of path (split_once slash path))

pub record Router (O : Type 0) : Type 0 where
  pub operators : HashMap Text O

module _ {O : Type 0} where
  unfoldable pub get_operator : Router O → Text → Result RouterError O
  get_operator r source = elim (HashMap.get r.operators source) [
    | some op ↦ ok op
    | none ↦ err (source_not_found source)
  ]

  unfoldable pub resolve : Router O → Text → Result RouterError (O × Text)
  unfolding parse_path get_operator
  resolve r path = elim (parse_path path) [
    | none ↦ err (invalid_path path)
    | some parsed ↦ do op ← get_operator r parsed.source; ok (op, parsed.sub_path)
  ]

  unfoldable pub add_operator : Router O → Text → O → Router O
  add_operator r source op = record { operators = HashMap.insert r.operators source op }

split_once-none : (s : Text) → split_once slash s ≡ none → Lacks slash s
split_once-none [] h = refl
split_once-none (x ∷ s) h = ground (arith, split_once-none s)

split_once-some :
    (s : Text) (a b : Text)
    → split_once slash s ≡ some (a, b)
    → (Lacks slash a) × (s ≡ a ++ slash ∷ b)
split_once-some [] a b h = absurd cc
split_once-some (x ∷ s) a b h = elim (Option-cases (split_once slash s)) [
  | inl none_found ↦ ground arith
  | inr ((a', b'), found) ↦ ground (arith, split_once-some s a' b' found)
]

-- The text does not begin with a slash.
abbrev NoSlashFirst : Text → Type 0
NoSlashFirst [] = Unit
NoSlashFirst (x ∷ s) = (x == slash) ≡ false

trim_start-first : (s : Text) → NoSlashFirst (trim_start slash s)
trim_start-first [] = tt
trim_start-first (x ∷ s) = elim (Bool-cases (x == slash)) [
  | inl e ↦ rw e (trim_start-first s)
  | inr e ↦ rw e e
]

trim_end-first : (s : Text) → NoSlashFirst s → NoSlashFirst (trim_end slash s)
trim_end-first [] h = tt
trim_end-first (x ∷ s) h = rw h h

source_nonempty :
    (s : Text)
    → NoSlashFirst s
    → is_empty s ≡ false
    → is_empty (parsed_of s (split_once slash s)).source ≡ false
source_nonempty [] h n = n
source_nonempty (x ∷ s) h n =
    elim (split_once slash s)
      as (λ r.
        is_empty
          (parsed_of (x ∷ s) (
            if x == slash
            then some ([], s)
            else Option.map (λ (p : Text × Text). let (a, b) = p in (x ∷ a, b)) r)).source
        ≡ false) [ none ↦ rw h refl | some p ↦ rw h refl ]

parsed_parts :
    (s : Text) (found : Option (Text × Text))
    → split_once slash s ≡ found
    → let q = parsed_of s found in
      Lacks slash q.source
      × (((q.sub_path ≡ []) × (s ≡ q.source)) ⊎ (s ≡ q.source ++ slash ∷ q.sub_path))
parsed_parts s none e = (split_once-none s e, inl (refl, refl))
parsed_parts s (some (a, b)) e = let (h, w) = split_once-some s a b e in (h, inr w)

-- A path, the slashes at both ends taken off, is the source alone, with nothing behind it, or the
-- source, a slash and the path in the source. The source is not empty and holds no slash.
pub parse_path-parts :
    (path : Text) (q : ParsedPath)
    → parse_path path ≡ some q
    → (is_empty q.source ≡ false)
      × Lacks slash q.source
      × (((q.sub_path ≡ []) × (trim_matches slash path ≡ q.source))
          ⊎ (trim_matches slash path ≡ q.source ++ slash ∷ q.sub_path))
unfolding parse_path
parse_path-parts path q h =
    let s = trim_matches slash path in
    let n : is_empty s ≡ false = ground arith in
    let e : parsed_of s (split_once slash s) ≡ q = ground arith in
    subst
      (λ q.
        (is_empty q.source ≡ false)
        × Lacks slash q.source
        × (((q.sub_path ≡ []) × (s ≡ q.source)) ⊎ (s ≡ q.source ++ slash ∷ q.sub_path)))
      e
      (let (lacks, parts) = parsed_parts s (split_once slash s) refl in
        (
          source_nonempty s (trim_end-first (trim_start slash path) (trim_start-first path)) n,
          lacks,
          parts,
        ))

-- An operator that was added is what the paths of its source resolve to, with the path in the
-- source. All other paths resolve as before.
pub resolve-add_operator :
    {O : Type 0} (r : Router O) (source path : Text) (op : O) (q : ParsedPath)
    → parse_path path ≡ some q
    → resolve (add_operator r source op) path
      ≡ (if source == q.source then ok (op, q.sub_path) else resolve r path)
unfolding resolve add_operator get_operator
resolve-add_operator r source path op q h =
    ground (arith, h, get-insert r.operators source op q.source)
