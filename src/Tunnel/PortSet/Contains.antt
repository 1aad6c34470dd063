-- ===== src/Tunnel/PortSet/Contains.antt =====
-- The result of `ParsePortSet` and its `Contains` (internal/tunnel/portset.go).
use autotun.Base.{
  ℕ, ◌≤◌, ◌≡◌, refl, subst, ◌∙◌, inl, inr, Bool, false, ◌&&◌, ◌||◌, List, [], ◌∷◌, Option, none,
  some, Option-cases, arith, ltb, leb, All, Bool-cases, ℤ, pos, negsuc,
}
use autotun.Text.{Text, cut, trim_space, fields_func}
use autotun.Text.Decimal.{atoi}
use autotun.Tunnel.PortSet.{
  PortRange, PortSet, Result, ok, err, ◌>>=◌, check_port, parse_port, parse_range, parse_ranges,
  insert_range, sort_ranges, parse_port_set, contains, is_separator,
}

abbrev pub IsRange : PortRange → Type 0
IsRange r = (1 ≤ r.lo) × (r.lo ≤ r.hi) × (r.hi ≤ 65535)

-- The lower ends do not fall.
abbrev pub FromBelow : ℕ → PortSet → Type 0
FromBelow n [] = Unit {0}
FromBelow n (r ∷ rs) = (n ≤ r.lo) × FromBelow r.lo rs

abbrev pub IsSorted : PortSet → Type 0
IsSorted = FromBelow 0

insert_range-FromBelow :
    (n : ℕ) (r : PortRange) (rs : PortSet)
    → n ≤ r.lo
    → FromBelow n rs
    → FromBelow n (insert_range r rs)
unfolding insert_range
insert_range-FromBelow n r [] h s = (h, tt)
insert_range-FromBelow n r (q ∷ rs) h s = ground (arith, insert_range-FromBelow q.lo r rs)

sort_ranges-IsSorted : (rs : PortSet) → IsSorted (sort_ranges rs)
unfolding sort_ranges
sort_ranges-IsSorted [] = tt
sort_ranges-IsSorted (r ∷ rs) =
    insert_range-FromBelow 0 r (sort_ranges rs) (omega arith) (sort_ranges-IsSorted rs)

insert_range-All :
    (P : PortRange → Type 0) (r : PortRange) (rs : PortSet)
    → P r
    → All P rs
    → All P (insert_range r rs)
unfolding insert_range
insert_range-All P r [] h a = (h, tt)
insert_range-All P r (q ∷ rs) h a = elim (Bool-cases (ltb q.lo r.lo)) [
  | inl e ↦ rw e (a.0, insert_range-All P r rs h a.1)
  | inr e ↦ rw e (h, a)
]

sort_ranges-All : (P : PortRange → Type 0) (rs : PortSet) → All P rs → All P (sort_ranges rs)
unfolding sort_ranges
sort_ranges-All P [] a = tt
sort_ranges-All P (r ∷ rs) a = insert_range-All P r _ a.0 (sort_ranges-All P rs a.1)

contains-insert_range :
    (r : PortRange) (rs : PortSet) (p : ℕ) → contains (insert_range r rs) p ≡ contains (r ∷ rs) p
unfolding insert_range contains
contains-insert_range r [] p = refl
contains-insert_range r (q ∷ rs) p = ground (arith, contains-insert_range r rs p)

contains-sort_ranges : (rs : PortSet) (p : ℕ) → contains (sort_ranges rs) p ≡ contains rs p
unfolding sort_ranges contains
contains-sort_ranges [] p = refl
contains-sort_ranges (r ∷ rs) p =
    contains-insert_range r (sort_ranges rs) p ∙ ground (arith, contains-sort_ranges rs p)

-- A statement of the value, where there is one.
abbrev Ensures {ℓ} : {A : Type ℓ} → (A → Type 0) → Result A → Type 0
Ensures P (ok a) = P a
Ensures P (err e) = Unit

abbrev IsPort : ℕ → Type 0
IsPort n = (1 ≤ n) × (n ≤ 65535)

check_port-IsPort : (s : Text) (v : Option ℤ) → Ensures IsPort (check_port s v)
unfolding check_port
check_port-IsPort s none = tt
check_port-IsPort s (some (negsuc n)) = tt
check_port-IsPort s (some (pos n)) = ground arith

parse_port-IsPort : (s : Text) → Ensures IsPort (parse_port s)
unfolding parse_port
parse_port-IsPort s = check_port-IsPort (trim_space s) (atoi (trim_space s))

parse_range-IsRange : (f : Text) → Ensures IsRange (parse_range f)
unfolding parse_range
parse_range-IsRange f = elim (Option-cases (cut b'-' f)) [
  | inl e ↦ rw (e, parse_range) (ground (arith, parse_port-IsPort f))
  | inr ((lo, hi), e) ↦
      rw (e, parse_range) (ground (arith, parse_port-IsPort lo, parse_port-IsPort hi))
]

parse_ranges-IsRange : (fs : List Text) → Ensures (All IsRange) (parse_ranges fs)
unfolding parse_ranges
parse_ranges-IsRange [] = tt
parse_ranges-IsRange (f ∷ fs) = ground (arith, parse_range-IsRange f, parse_ranges-IsRange fs)

finish-Ensures :
    (r : Result PortSet)
    → Ensures (All IsRange) r
    → Ensures (λ ps. IsSorted ps × All IsRange ps) (r >>= λ rs. ok (sort_ranges rs))
finish-Ensures (ok rs) a = (sort_ranges-IsSorted rs, sort_ranges-All IsRange rs a)
finish-Ensures (err e) a = tt

-- A set that parses is in order of its lower ends, and each of its ranges is one of ports, from 1
-- to 65535, that is not upside down.
pub parse_port_set-IsSorted :
    (spec : Text) (ps : PortSet) → parse_port_set spec ≡ ok ps → IsSorted ps × All IsRange ps
unfolding parse_port_set
parse_port_set-IsSorted spec ps h =
    subst (Ensures (λ qs. IsSorted qs × All IsRange qs)) h
      (finish-Ensures _ (parse_ranges-IsRange (fields_func is_separator spec)))

-- One of the fields is read as a range that the port lies in.
abbrev pub in_field : ℕ → Result PortRange → Bool
in_field p (ok r) = leb r.lo p && leb p r.hi
in_field p (err e) = false

abbrev pub in_fields : ℕ → List Text → Bool
in_fields p [] = false
in_fields p (f ∷ fs) = in_field p (parse_range f) || in_fields p fs

parse_ranges-in_fields :
    (fs : List Text) (p : ℕ) → Ensures (λ rs. contains rs p ≡ in_fields p fs) (parse_ranges fs)
unfolding parse_ranges contains
parse_ranges-in_fields [] p = refl
parse_ranges-in_fields (f ∷ fs) p = ground (arith, parse_ranges-in_fields fs p)

finish-contains :
    (r : Result PortSet) (p : ℕ) (b : Bool)
    → Ensures (λ rs. contains rs p ≡ b) r
    → Ensures (λ rs. contains rs p ≡ b) (r >>= λ rs. ok (sort_ranges rs))
finish-contains (ok rs) p b a = contains-sort_ranges rs p ∙ a
finish-contains (err e) p b a = tt

-- A set that parses holds exactly the ports that lie in the range of one of the specification's
-- fields: the sorting neither adds a port nor loses one.
pub contains-parse_port_set :
    (spec : Text) (ps : PortSet) (p : ℕ)
    → parse_port_set spec ≡ ok ps
    → contains ps p ≡ in_fields p (fields_func is_separator spec)
unfolding parse_port_set
contains-parse_port_set spec ps p h =
    subst (Ensures (λ rs. contains rs p ≡ in_fields p (fields_func is_separator spec))) h
      (finish-contains _ p _ (parse_ranges-in_fields (fields_func is_separator spec) p))
