-- ===== src/Tunnel/PortSet/Print.antt =====
-- `PortSet.String` against `ParsePortSet` (internal/tunnel/portset.go).
use autotun.Base.{
  ℕ, ◌≤◌, ◌≡◌, refl, ◌∙◌, inl, inr, Bool, true, false, [], ◌∷◌, none, some, arith, ◌==◌, nat_eq,
  All, All-map, Bool-cases,
}
use autotun.Text.{Text, cut, is_space, trim_space}
use autotun.Text.Decimal.{itoa, atoi-itoa, itoa-IsDigits, itoa-ne-nil, is_digit, IsDigits}
use autotun.Text.Splitting.{
  Without, IsWord, cut-Without, cut-append, trim_by-Without, fields_func-join, IsWord-append,
  IsWord-of,
}
use autotun.Tunnel.PortSet.{
  PortRange, PortSet, ok, check_port, parse_port, parse_range, parse_ranges, insert_range,
  sort_ranges, parse_port_set, range_text, range_texts, port_set_text, is_separator,
}
use autotun.Tunnel.PortSet.Contains.{IsRange, FromBelow, IsSorted}

digits-Without :
    (f : ℕ → Bool) (s : Text)
    → ((c : ℕ) → is_digit c ≡ true → f c ≡ false)
    → IsDigits s
    → Without f s
digits-Without f s h d = All-map _ _ s h d

parse_port-itoa : (n : ℕ) → 1 ≤ n → n ≤ 65535 → parse_port (itoa n) ≡ ok n
unfolding parse_port check_port trim_space
parse_port-itoa n l h =
    rw
      (
        trim_by-Without is_space (itoa n)
            (digits-Without is_space (itoa n) (λ c d. ground arith) (itoa-IsDigits n)),
        atoi-itoa n (omega arith),
      )
      (ground arith)

itoa-no_dash : (n : ℕ) → Without (λ c. c == b'-') (itoa n)
itoa-no_dash n = digits-Without _ (itoa n) (λ c d. ground arith) (itoa-IsDigits n)

parse_range_one :
    (f : Text) {p : ℕ}
    → cut b'-' f ≡ none
    → parse_port f ≡ ok p
    → parse_range f ≡ ok (record { lo = p; hi = p })
unfolding parse_range
parse_range_one f e h = rw (e, parse_range, h) refl

parse_range_two :
    (f : Text) {a b : Text} {lo hi : ℕ}
    → cut b'-' f ≡ some (a, b)
    → parse_port a ≡ ok lo
    → parse_port b ≡ ok hi
    → lo ≤ hi
    → parse_range f ≡ ok (record { lo = lo; hi = hi })
unfolding parse_range
parse_range_two f e h k l = rw (e, parse_range, h, k) (ground arith)

parse_range-range_text : (r : PortRange) → IsRange r → parse_range (range_text r) ≡ ok r
unfolding range_text
parse_range-range_text r v = elim (Bool-cases (r.lo == r.hi)) [
  | inl e ↦ rw e (
      parse_range_one (itoa r.lo) (cut-Without b'-' (itoa r.lo) (itoa-no_dash r.lo))
        (parse_port-itoa r.lo v.0 (omega arith))
      ∙ ground arith)
  | inr e ↦ rw e (
      parse_range_two _ (cut-append b'-' (itoa r.lo) (itoa r.hi) (itoa-no_dash r.lo))
        (parse_port-itoa r.lo v.0 (omega arith)) (parse_port-itoa r.hi (omega arith) v.2) v.1)
]

parse_ranges-range_texts : (ps : PortSet) → All IsRange ps → parse_ranges (range_texts ps) ≡ ok ps
unfolding parse_ranges
parse_ranges-range_texts [] v = refl
parse_ranges-range_texts (r ∷ rs) v =
    rw (parse_range-range_text r v.0, parse_ranges-range_texts rs v.1)

itoa-Without : (n : ℕ) → Without is_separator (itoa n)
itoa-Without n = digits-Without _ (itoa n) (λ c d. ground arith) (itoa-IsDigits n)

itoa-IsWord : (n : ℕ) → IsWord is_separator (itoa n)
itoa-IsWord n = IsWord-of is_separator (itoa n) (itoa-ne-nil n) (itoa-Without n)

range_text-IsWord : (r : PortRange) → IsWord is_separator (range_text r)
unfolding range_text
range_text-IsWord r = elim (Bool-cases (r.lo == r.hi)) [
  | inl e ↦ rw e (itoa-IsWord r.lo)
  | inr e ↦
      rw e (IsWord-append is_separator (itoa r.lo) _ (itoa-IsWord r.lo) (refl, itoa-Without r.hi))
]

range_texts-IsWord : (ps : PortSet) → All (IsWord is_separator) (range_texts ps)
range_texts-IsWord [] = tt
range_texts-IsWord (r ∷ rs) = (range_text-IsWord r, range_texts-IsWord rs)

sort_ranges_sorted : (n : ℕ) (ps : PortSet) → FromBelow n ps → sort_ranges ps ≡ ps
unfolding sort_ranges
sort_ranges_sorted n [] s = refl
sort_ranges_sorted n (r ∷ rs) s = rw (sort_ranges_sorted r.lo rs s.1) (front r rs s.1)
  where
    front : (q : PortRange) (qs : PortSet) → FromBelow q.lo qs → insert_range q qs ≡ q ∷ qs
    front q [] b = unfold insert_range in refl
    front q (t ∷ ts) b = unfold insert_range in ground arith

-- Parsing what `String` renders gives the set back, for every set as the parser makes them: in
-- order of the lower ends, and of ranges of ports.
pub parse_port_set-port_set_text :
    (ps : PortSet) → IsSorted ps → All IsRange ps → parse_port_set (port_set_text ps) ≡ ok ps
unfolding parse_port_set port_set_text
parse_port_set-port_set_text ps s v = rw (
  fields_func-join is_separator b',' (range_texts ps) refl (range_texts-IsWord ps),
  parse_ranges-range_texts ps v,
  sort_ranges_sorted 0 ps s,
)
