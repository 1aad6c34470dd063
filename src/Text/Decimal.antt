-- ===== src/Text/Decimal.antt =====
-- `strconv.Itoa` and `strconv.Atoi` on texts of bytes.
use autotun.Base.{
  ℕ, zero, suc, ◌+◌, ◌-◌, ◌*◌, ◌/◌, ◌%◌, ◌^◌, ◌<◌, ◌≡◌, ◌≢◌, refl, ◌∙◌, ap, inl, inr, Bool, true,
  false, ◌&&◌, List, [], ◌∷◌, ◌++◌, Option, none, some, arith, eqb, ltb, leb, if◌then◌else◌, All,
  All-append, Bool-cases, ℤ, pos, negsuc,
}

abbrev pub is_digit : ℕ → Bool
is_digit c = leb b'0' c && leb c b'9'

-- The digits of a number below the fuel.
unfoldable pub itoa_from : ℕ → ℕ → List ℕ
itoa_from zero n = []
itoa_from (suc f) n =
    let more = itoa_from f (n / 10) ++ (b'0' + n % 10) ∷ [] in
    if ltb n 10 then (b'0' + n) ∷ [] else more

-- `strconv.Itoa` of a number that is not negative.
unfoldable pub itoa : ℕ → List ℕ
unfolding itoa_from
itoa n = itoa_from (suc n) n

-- The value of a run of digits after `acc`.
unfoldable pub digits_value : ℕ → List ℕ → Option ℕ
digits_value acc [] = some acc
digits_value acc (c ∷ s) = if is_digit c then digits_value (acc * 10 + (c - b'0')) s else none

unfoldable pub parse_digits : List ℕ → Option ℕ
unfolding digits_value
parse_digits [] = none
parse_digits (c ∷ s) = digits_value 0 (c ∷ s)

abbrev int_limit : ℕ
int_limit = 2 ^ 63

-- A value in the range of `int`, with its sign.
abbrev in_range : Bool → Option ℕ → Option ℤ
in_range negative none = none
in_range false (some n) = if ltb n int_limit then some (pos n) else none
in_range true (some zero) = some (pos 0)
in_range true (some (suc n)) = if ltb n int_limit then some (negsuc n) else none

-- `strconv.Atoi`: an optional sign, then digits; `none` is its error.
unfoldable pub atoi : List ℕ → Option ℤ
unfolding parse_digits
atoi [] = none
atoi (c ∷ s) =
    if eqb c b'-'
    then in_range true (parse_digits s)
    else if eqb c b'+'
    then in_range false (parse_digits s)
    else in_range false (parse_digits (c ∷ s))

-- The value that `strconv.Atoi` returns with or without an error: 0 for what is no number, and the
-- nearest `int` for one that is out of range.
abbrev clamp : Bool → Option ℕ → ℤ
clamp negative none = pos 0
clamp false (some n) = if ltb n int_limit then pos n else pos (int_limit - 1)
clamp true (some zero) = pos 0
clamp true (some (suc n)) = if ltb n int_limit then negsuc n else negsuc (int_limit - 1)

unfoldable pub atoi_value : List ℕ → ℤ
unfolding parse_digits
atoi_value [] = pos 0
atoi_value (c ∷ s) =
    if eqb c b'-'
    then clamp true (parse_digits s)
    else if eqb c b'+'
    then clamp false (parse_digits s)
    else clamp false (parse_digits (c ∷ s))

abbrev pub IsDigits : List ℕ → Type 0
IsDigits = All λ c. is_digit c ≡ true

itoa_from-IsDigits : (f n : ℕ) → IsDigits (itoa_from f n)
unfolding itoa_from
itoa_from-IsDigits zero n = tt
itoa_from-IsDigits (suc f) n = elim (Bool-cases (ltb n 10)) [
  | inl small ↦ rw small (ground arith, tt)
  | inr large ↦
      rw large
        (All-append _ (itoa_from f (n / 10)) _ (itoa_from-IsDigits f (n / 10)) (ground arith, tt))
]

pub itoa-IsDigits : (n : ℕ) → IsDigits (itoa n)
unfolding itoa
itoa-IsDigits n = itoa_from-IsDigits (suc n) n

digits_value-append :
    (acc : ℕ) (xs : List ℕ) (c : ℕ) {n : ℕ}
    → digits_value acc xs ≡ some n
    → is_digit c ≡ true
    → digits_value acc (xs ++ c ∷ []) ≡ some (n * 10 + (c - b'0'))
unfolding digits_value
digits_value-append acc [] c h d = ground arith
digits_value-append acc (x ∷ xs) c h d = elim (Bool-cases (is_digit x)) [
  | inl e ↦ rw e (digits_value-append (acc * 10 + (x - b'0')) xs c (rw e at h) d)
  | inr e ↦ cc (rw e at h)
]

digits_value-itoa_from : (f n : ℕ) → n < f → digits_value 0 (itoa_from f n) ≡ some n
unfolding itoa_from
digits_value-itoa_from zero n h = elim h [ ]
digits_value-itoa_from (suc f) n h = elim (Bool-cases (ltb n 10)) [
  | inl small ↦ rw small (unfold digits_value in ground arith)
  | inr large ↦ rw large (
      digits_value-append 0 (itoa_from f (n / 10)) (b'0' + n % 10)
        (digits_value-itoa_from f (n / 10) (ground arith)) (ground arith)
      ∙ ap some (omega arith))
]

digits_value-itoa : (n : ℕ) → digits_value 0 (itoa n) ≡ some n
unfolding itoa
digits_value-itoa n = digits_value-itoa_from (suc n) n (omega arith)

atoi_digits :
    (s : List ℕ) {n : ℕ}
    → IsDigits s
    → digits_value 0 s ≡ some n
    → n < 2 ^ 63
    → 0 < n
    → atoi s ≡ some (pos n)
unfolding atoi digits_value
atoi_digits [] d h b z = ground arith
atoi_digits (c ∷ s) d h b z = ground arith

-- `Atoi` reads back every number of an `int` that `Itoa` writes.
pub atoi-itoa : (n : ℕ) → n < 2 ^ 63 → atoi (itoa n) ≡ some (pos n)
atoi-itoa zero b = unfold atoi itoa in refl
atoi-itoa (suc n) b =
    atoi_digits (itoa (suc n)) (itoa-IsDigits (suc n)) (digits_value-itoa (suc n)) b (omega arith)

append-ne-nil : (xs : List ℕ) (c : ℕ) → xs ++ c ∷ [] ≢ []
append-ne-nil [] c h = cc
append-ne-nil (x ∷ xs) c h = cc

-- A number is never printed as the empty text.
pub itoa-ne-nil : (n : ℕ) → itoa n ≢ []
unfolding itoa itoa_from
itoa-ne-nil n h = elim (Bool-cases (ltb n 10)) [
  | inl e ↦ cc (rw e at h)
  | inr e ↦ append-ne-nil (itoa_from n (n / 10)) _ (rw e at h)
]
