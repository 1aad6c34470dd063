-- ===== src/Probe/Ip.antt =====
-- What the prober and the policy use of the package `net`: `ParseIP` with the tests `IsLoopback`
-- and `IsUnspecified`, and `JoinHostPort`. An address is its list of 4 or 16 bytes.
use autotun.Base.{
  ℕ, zero, suc, ◌+◌, ◌-◌, ◌*◌, ◌/◌, ◌%◌, Bool, false, not, ◌&&◌, ◌||◌, List, [], ◌∷◌, ◌++◌, Option,
  none, some, leb, ltb, ◌==◌, nat_eq, list_eq, list_beq, if◌then◌else◌, length, take, drop,
}
use autotun.Text.{Text, split, contains}
use autotun.Text.Decimal.{is_digit, parse_digits}

-- One field of a dotted address: no leading zero, at most 255.
unfoldable pub parse_octet : Text → Option ℕ
unfolding parse_digits
parse_octet [] = none
parse_octet (c ∷ d ∷ s) = if c == b'0' then none else elim (parse_digits (c ∷ d ∷ s)) [
  | none ↦ none
  | some n ↦ if leb n 255 then some n else none
]
parse_octet s = parse_digits s

unfoldable pub octets : List Text → Option (List ℕ)
octets [] = some []
octets (f ∷ fs) = elim (parse_octet f) [
  | none ↦ none
  | some n ↦ elim (octets fs) [ none ↦ none | some ns ↦ some (n ∷ ns) ]
]

unfoldable pub parse_v4 : Text → Option (List ℕ)
unfolding octets parse_octet split
parse_v4 s = let fs = split b'.' s in if length fs == 4 then octets fs else none

unfoldable pub hex_value : ℕ → Option ℕ
hex_value c =
    if is_digit c
    then some (c - b'0')
    else if leb b'a' c && leb c b'f'
    then some (c - b'a' + 10)
    else if leb b'A' c && leb c b'F'
    then some (c - b'A' + 10)
    else none

-- The leading hexadecimal digits: how many, their value, and the rest of the text.
unfoldable pub hex_run : Text → ℕ → ℕ → ℕ × ℕ × Text
unfolding hex_value
hex_run [] off acc = (off, acc, [])
hex_run (c ∷ s) off acc = elim (hex_value c) [
  | none ↦ (off, acc, c ∷ s)
  | some d ↦ hex_run s (off + 1) (acc * 16 + d)
]

unfoldable pub zeros : ℕ → List ℕ
zeros zero = []
zeros (suc n) = 0 ∷ zeros n

-- The end of the loop: the bytes read, with zeros put in at the place of the `::`.
unfoldable pub expand : List ℕ → Option ℕ → Option (List ℕ)
unfolding zeros
expand bytes none = if length bytes == 16 then some bytes else none
expand bytes (some at) =
    if ltb (length bytes) 16
    then some (take at bytes ++ (zeros (16 - length bytes) ++ drop at bytes))
    else none

-- What follows a group: the end, a colon, or a `::`.
pub data After : Type 0 where
  bad : After
  end : Option ℕ → After
  more : Option ℕ → Text → After

unfoldable pub after_group : Text → ℕ → Option ℕ → After
after_group [] at gap = end gap
after_group (c ∷ []) at gap = bad
after_group (c ∷ d ∷ s) at gap =
    if not (c == b':') then bad else if not (d == b':') then more gap (d ∷ s) else elim gap [
      | some g ↦ bad
      | none ↦ elim s [ [] ↦ end (some at) | x ∷ xs ↦ more (some at) (x ∷ xs) ]
    ]

-- The groups of an IPv6 address, as long as fewer than 16 bytes are read; `gap` is the place of
-- the `::`. The fuel counts groups: eight fill the address.
unfoldable pub groups : ℕ → Text → List ℕ → Option ℕ → Option (List ℕ)
unfolding hex_run after_group expand parse_v4
groups zero s bytes gap = none
groups (suc f) s bytes gap =
    let (off, acc, rest) = hex_run s 0 0 in
    if off == 0 || ltb 4 off then none else elim rest [
      | [] ↦ expand (bytes ++ acc / 256 ∷ acc % 256 ∷ []) gap
      | c ∷ r ↦
          if c == b'.'
          then if ltb 12 (length bytes) then none else elim gap [
            | none ↦
                if not (length bytes == 12)
                then none
                else elim (parse_v4 s) [ none ↦ none | some v4 ↦ expand (bytes ++ v4) none ]
            | some g ↦ elim (parse_v4 s) [ none ↦ none | some v4 ↦ expand (bytes ++ v4) (some g) ]
          ]
          else elim (after_group (c ∷ r) (length bytes + 2) gap) [
            | bad ↦ none
            | end gap' ↦ expand (bytes ++ acc / 256 ∷ acc % 256 ∷ []) gap'
            | more gap' t ↦ groups f t (bytes ++ acc / 256 ∷ acc % 256 ∷ []) gap'
          ]
    ]

unfoldable pub parse_v6 : Text → Option (List ℕ)
unfolding groups zeros
parse_v6 (a ∷ b ∷ []) =
    if a == b':' && b == b':' then some (zeros 16) else groups 8 (a ∷ b ∷ []) [] none
parse_v6 (a ∷ b ∷ s) =
    if a == b':' && b == b':' then groups 8 s [] (some 0) else groups 8 (a ∷ b ∷ s) [] none
parse_v6 s = groups 8 s [] none

-- `net.ParseIP`: the first dot or colon says which form it is.
unfoldable pub parse_ip_as : Text → Text → Option (List ℕ)
unfolding parse_v4 parse_v6
parse_ip_as whole [] = none
parse_ip_as whole (c ∷ s) =
    if c == b'.'
    then parse_v4 whole
    else if c == b':'
    then parse_v6 whole
    else if c == b'%'
    then none
    else parse_ip_as whole s

unfoldable pub parse_ip : Text → Option (List ℕ)
unfolding parse_ip_as
parse_ip s = parse_ip_as s s

abbrev pub v4_in_v6 : List ℕ
v4_in_v6 = 0 ∷ 0 ∷ 0 ∷ 0 ∷ 0 ∷ 0 ∷ 0 ∷ 0 ∷ 0 ∷ 0 ∷ 255 ∷ 255 ∷ []

-- `IP.To4`: a dotted address, also one inside an IPv6 address.
unfoldable pub to_v4 : List ℕ → Option (List ℕ)
unfolding list_beq
to_v4 ip =
    if length ip == 4 then some ip else if take 12 ip == v4_in_v6 then some (drop 12 ip) else none

abbrev pub first_is : ℕ → List ℕ → Bool
first_is n [] = false
first_is n (b ∷ bs) = b == n

unfoldable pub ip_is_loopback : List ℕ → Bool
unfolding to_v4 zeros list_beq
ip_is_loopback ip = elim (to_v4 ip) [ some v4 ↦ first_is 127 v4 | none ↦ ip == zeros 15 ++ 1 ∷ [] ]

unfoldable pub ip_is_unspecified : List ℕ → Bool
unfolding to_v4 zeros list_beq
ip_is_unspecified ip = elim (to_v4 ip) [ some v4 ↦ v4 == zeros 4 | none ↦ ip == zeros 16 ]

-- `net.JoinHostPort`.
unfoldable pub join_host_port : Text → Text → Text
unfolding contains
join_host_port host port =
    if contains host (b':' ∷ []) || contains host (b'%' ∷ [])
    then b'[' ∷ (host ++ (b']' ∷ b':' ∷ port))
    else host ++ (b':' ∷ port)
