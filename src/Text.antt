-- ===== src/Text.antt =====
-- Go's strings as lists of bytes, with what the program uses of the package `strings`.
pub mod Decimal
pub mod Splitting
pub mod Order
use Prim.Native.Char.{code}
use Prim.Native.String.{String}
use autotun.Base.{
  ℕ, ◌+◌, Bool, true, false, ◌&&◌, ◌||◌, List, [], ◌∷◌, ◌++◌, Option, none, some, ◌==◌, nat_eq,
  if◌then◌else◌, leb, ltb, reverse, map,
}

abbrev pub Text : Type 0
Text = List ℕ

-- The bytes of an ASCII literal.
abbrev pub codes : String → Text
codes String.[] = []
codes (String.◌∷◌ c s) = code c ∷ codes s

abbrev pub is_empty : Text → Bool
is_empty [] = true
is_empty (c ∷ s) = false

-- `strings.HasPrefix`, and the rest of the text after the prefix.
unfoldable pub strip_prefix : Text → Text → Option Text
strip_prefix [] s = some s
strip_prefix (p ∷ ps) [] = none
strip_prefix (p ∷ ps) (c ∷ s) = if p == c then strip_prefix ps s else none

unfoldable pub has_prefix : Text → Text → Bool
has_prefix [] s = true
has_prefix (p ∷ ps) [] = false
has_prefix (p ∷ ps) (c ∷ s) = p == c && has_prefix ps s

-- `strings.TrimPrefix`.
unfoldable pub trim_prefix : Text → Text → Text
unfolding strip_prefix
trim_prefix p s = elim (strip_prefix p s) [ none ↦ s | some rest ↦ rest ]

-- `strings.HasSuffix` and `strings.TrimSuffix`.
unfoldable pub has_suffix : Text → Text → Bool
unfolding has_prefix
has_suffix p s = has_prefix (reverse p) (reverse s)

unfoldable pub trim_suffix : Text → Text → Text
unfolding trim_prefix
trim_suffix p s = reverse (trim_prefix (reverse p) (reverse s))

-- `strings.Contains`.
unfoldable pub contains : Text → Text → Bool
unfolding has_prefix
contains [] p = is_empty p
contains (c ∷ s) p = has_prefix p (c ∷ s) || contains s p

-- Drops the leading bytes that pass a test.
unfoldable pub drop_while : (ℕ → Bool) → Text → Text
drop_while f [] = []
drop_while f (c ∷ s) = if f c then drop_while f s else c ∷ s

unfoldable pub trim_by : (ℕ → Bool) → Text → Text
unfolding drop_while
trim_by f s = reverse (drop_while f (reverse (drop_while f s)))

-- The bytes that `strings.TrimSpace` and `strings.Fields` count as white space.
abbrev pub is_space : ℕ → Bool
is_space c = c == 32 || (leb 9 c && leb c 13)

unfoldable pub trim_space : Text → Text
unfolding trim_by
trim_space = trim_by is_space

-- `strings.Trim(s, "[]")`.
abbrev pub is_bracket : ℕ → Bool
is_bracket c = c == b'[' || c == b']'

unfoldable pub trim_brackets : Text → Text
unfolding trim_by
trim_brackets = trim_by is_bracket

-- `strings.Cut` at a byte: what stands before and after its first occurrence.
unfoldable pub cut : ℕ → Text → Option (Text × Text)
cut sep [] = none
cut sep (c ∷ s) =
    let rest = cut sep s in
    if c == sep then some ([], s) else elim rest [ none ↦ none | some (a, b) ↦ some (c ∷ a, b) ]

-- The same at the last occurrence, as `strings.LastIndex` splits.
unfoldable pub cut_last : ℕ → Text → Option (Text × Text)
cut_last sep [] = none
cut_last sep (c ∷ s) = elim (cut_last sep s) [
  | some (a, b) ↦ some (c ∷ a, b)
  | none ↦ if c == sep then some ([], s) else none
]

-- Puts a byte in front of the first field.
abbrev pub onto_first : ℕ → List Text → List Text
onto_first c [] = (c ∷ []) ∷ []
onto_first c (f ∷ fs) = (c ∷ f) ∷ fs

-- `strings.Split` at a byte.
unfoldable pub split : ℕ → Text → List Text
split sep [] = [] ∷ []
split sep (c ∷ s) = let rest = split sep s in if c == sep then [] ∷ rest else onto_first c rest

-- `strings.FieldsFunc`: the runs of bytes that do not separate.
unfoldable pub split_by : (ℕ → Bool) → Text → List Text
split_by f [] = [] ∷ []
split_by f (c ∷ s) = let rest = split_by f s in if f c then [] ∷ rest else onto_first c rest

abbrev pub drop_empty : List Text → List Text
drop_empty [] = []
drop_empty ([] ∷ fs) = drop_empty fs
drop_empty ((c ∷ f) ∷ fs) = (c ∷ f) ∷ drop_empty fs

unfoldable pub fields_func : (ℕ → Bool) → Text → List Text
unfolding split_by
fields_func f s = drop_empty (split_by f s)

unfoldable pub fields : Text → List Text
unfolding fields_func
fields = fields_func is_space

-- `strings.Join`.
unfoldable pub join : Text → List Text → Text
join sep [] = []
join sep (f ∷ []) = f
join sep (f ∷ g ∷ fs) = f ++ (sep ++ join sep (g ∷ fs))

-- `strings.ToLower`, on ASCII.
abbrev pub lower_byte : ℕ → ℕ
lower_byte c = if leb b'A' c && leb c b'Z' then c + 32 else c

unfoldable pub to_lower : Text → Text
to_lower = map lower_byte

-- `strings.Compare(a, b) < 0`: the byte order of texts.
unfoldable pub text_lt : Text → Text → Bool
text_lt _ [] = false
text_lt [] (d ∷ t) = true
text_lt (c ∷ s) (d ∷ t) = if c == d then text_lt s t else ltb c d
