-- ===== src/Tunnel/PortSet.antt =====
-- internal/tunnel/portset.go: sets of ports as lists of ranges. A port is a number from 1 to 65535
-- once `parsePort` has let it through.
pub mod Contains
pub mod Print
use autotun.Base.{
  ℕ, suc, ◌+◌, ◌≡◌, refl, Bool, true, false, ◌&&◌, ◌||◌, List, [], ◌∷◌, ◌++◌, Option, none, some,
  arith, ◌==◌, nat_eq, leb, ltb, ltb_ℤ, if◌then◌else◌, ℤ, pos, negsuc,
}
use autotun.Text.{Text, codes, cut, trim_space, fields_func, join}
use autotun.Text.Decimal.{itoa, atoi}

pub record PortRange : Type 0 where
  pub lo : ℕ
  pub hi : ℕ

abbrev pub PortSet : Type 0
PortSet = List PortRange

-- The errors of the parser, with what their texts quote.
pub data SpecError : Type 0 where
  invalid_port : Text → SpecError
  out_of_range : ℤ → SpecError
  inverted : Text → ℕ → ℕ → SpecError

pub data Result {ℓ} (A : Type ℓ) : Type ℓ where
  ok : A → Result A
  err : SpecError → Result A

infixl 5 ◌>>=◌
abbrev pub ◌>>=◌ {ℓ κ} : {A : Type ℓ} {B : Type κ} → Result A → (A → Result B) → Result B
ok a >>= f = f a
err e >>= f = err e

-- `p < 1 || p > 65535` after a successful `Atoi`.
unfoldable pub check_port : Text → Option ℤ → Result ℕ
check_port s none = err (invalid_port s)
check_port s (some (negsuc n)) = err (out_of_range (negsuc n))
check_port s (some (pos n)) = if ltb n 1 || ltb 65535 n then err (out_of_range (pos n)) else ok n

unfoldable pub parse_port : Text → Result ℕ
parse_port s = check_port (trim_space s) (atoi (trim_space s))

abbrev pub check_order : Text → ℕ → ℕ → Result PortRange
check_order f lo hi = if ltb hi lo then err (inverted f lo hi) else ok (record { lo = lo; hi = hi })

-- `parseRange`: with a dash two ports in order, else one port.
unfoldable pub parse_range : Text → Result PortRange
parse_range f = elim (cut b'-' f) [
  | some (lo, hi) ↦ do l ← parse_port lo; h ← parse_port hi; check_order f l h
  | none ↦ do p ← parse_port f; ok (record { lo = p; hi = p })
]

abbrev pub is_separator : ℕ → Bool
is_separator c = c == b',' || c == 32 || c == 9

-- The loop over the fields; the first error ends it.
unfoldable pub parse_ranges : List Text → Result PortSet
parse_ranges [] = ok []
parse_ranges (f ∷ fs) = do r ← parse_range f; rs ← parse_ranges fs; ok (r ∷ rs)

-- `sort.Slice` by the lower end, as a stable insertion sort.
unfoldable pub insert_range : PortRange → PortSet → PortSet
insert_range r [] = r ∷ []
insert_range r (s ∷ ss) = if ltb s.lo r.lo then s ∷ insert_range r ss else r ∷ s ∷ ss

unfoldable pub sort_ranges : PortSet → PortSet
sort_ranges [] = []
sort_ranges (r ∷ rs) = insert_range r (sort_ranges rs)

-- `ParsePortSet`.
unfoldable pub parse_port_set : Text → Result PortSet
parse_port_set spec = do rs ← parse_ranges (fields_func is_separator spec); ok (sort_ranges rs)

abbrev pub is_empty_set : PortSet → Bool
is_empty_set [] = true
is_empty_set (r ∷ rs) = false

-- `PortSet.Contains`.
unfoldable pub contains : PortSet → ℕ → Bool
contains [] p = false
contains (r ∷ rs) p = (leb r.lo p && leb p r.hi) || contains rs p

-- `PortSet.String`.
unfoldable pub range_text : PortRange → Text
range_text r = if r.lo == r.hi then itoa r.lo else itoa r.lo ++ (b'-' ∷ itoa r.hi)

abbrev pub range_texts : PortSet → List Text
range_texts [] = []
range_texts (r ∷ rs) = range_text r ∷ range_texts rs

unfoldable pub port_set_text : PortSet → Text
unfolding join range_text itoa
port_set_text ps = join (codes ",") (range_texts ps)
