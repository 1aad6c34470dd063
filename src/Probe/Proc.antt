-- ===== src/Probe/Proc.antt =====
-- internal/probe/parse.go: the parser of /proc/net/tcp with the index of sockets, and of the package
-- net the text of an address. The two regular expressions are written out.
use autotun.Base.{
  ℕ, zero, suc, ◌+◌, ◌-◌, ◌*◌, ◌/◌, ◌%◌, Bool, false, not, ◌&&◌, ◌||◌, List, [], ◌∷◌, ◌++◌, Option,
  none, some, ◌==◌, nat_eq, int_eq, list_eq, list_beq, if◌then◌else◌, ltb, leb, length, take, drop,
  ℤ, pos, map,
}
use autotun.Assoc.{lookup, insert}
use autotun.Text.{
  Text, codes, is_empty, cut, strip_prefix, has_suffix, fields, join, to_lower, trim_space,
}
use autotun.Text.Decimal.{itoa, atoi_value}
use autotun.Probe.Ip.{hex_value, to_v4}
use autotun.Probe.Merge.{Listener}
use autotun.Probe.Parse.{proto_for, trim_return, lines_of, field, digit_run}

-- `net.IP.String`: dotted, or groups with the first longest run of zero groups left out.
abbrev hex_char : ℕ → ℕ
hex_char d = if ltb d 10 then b'0' + d else b'a' + (d - 10)

unfoldable pub hex_text : ℕ → ℕ → Text
hex_text zero n = []
hex_text (suc f) n =
    let more = hex_text f (n / 16) ++ hex_char (n % 16) ∷ [] in
    if ltb n 16 then hex_char n ∷ [] else more

unfoldable pub groups : List ℕ → List ℕ
groups (a ∷ b ∷ bs) = (a * 256 + b) ∷ groups bs
groups _ = []

abbrev zero_run : List ℕ → ℕ
zero_run [] = 0
zero_run (g ∷ gs) = let rest = zero_run gs in if g == 0 then suc rest else 0

-- Where the longest run begins, counted from `i`, and how long it is.
unfoldable pub longest_run : ℕ → List ℕ → ℕ × ℕ
longest_run i [] = (i, 0)
longest_run i (g ∷ gs) =
    let rest = longest_run (suc i) gs in
    let here = zero_run (g ∷ gs) in if leb rest.1 here then (i, here) else rest

abbrev colons : List ℕ → Text
colons gs = join (codes ":") (map (hex_text 4) gs)

unfoldable pub v6_text : List ℕ → Text
unfolding hex_text longest_run join
v6_text gs =
    let r = longest_run 0 gs in
    if ltb r.1 2
    then colons gs
    else colons (take r.0 gs) ++ (codes "::" ++ colons (drop (r.0 + r.1) gs))

unfoldable pub ip_text : List ℕ → Text
unfolding v6_text groups itoa join
ip_text bytes =
    if length bytes == 4 then join (codes ".") (map itoa bytes) else v6_text (groups bytes)

-- `hex.DecodeString`, and `strconv.ParseUint` in base 16.
abbrev hex_pair : Option ℕ → Option ℕ → Option (List ℕ) → Option (List ℕ)
hex_pair (some a) (some b) (some bs) = some ((a * 16 + b) ∷ bs)
hex_pair _ _ _ = none

unfoldable pub decode_hex : Text → Option (List ℕ)
unfolding hex_value
decode_hex [] = some []
decode_hex (c ∷ []) = none
decode_hex (c ∷ d ∷ s) = hex_pair (hex_value c) (hex_value d) (decode_hex s)

unfoldable pub hex_number : ℕ → Text → Option ℕ
unfolding hex_value
hex_number acc [] = some acc
hex_number acc (c ∷ s) = elim (hex_value c) [ none ↦ none | some d ↦ hex_number (acc * 16 + d) s ]

abbrev small_port : Option ℕ → Option ℕ
small_port none = none
small_port (some n) = if ltb 65535 n then none else some n

unfoldable pub hex_port : Text → Option ℕ
unfolding hex_number
hex_port s = if is_empty s then none else small_port (hex_number 0 s)

-- The bytes of each word in the opposite order.
unfoldable pub swap_words : List ℕ → List ℕ
swap_words (a ∷ b ∷ c ∷ d ∷ bs) = d ∷ c ∷ b ∷ a ∷ swap_words bs
swap_words bs = bs

abbrev shortest_form : List ℕ → Option (List ℕ) → List ℕ
shortest_form ip none = ip
shortest_form ip (some v4) = v4

abbrev address_of : Option ℕ → Option (List ℕ) → Option (Text × ℕ)
address_of (some p) (some raw) =
    if length raw == 4 || length raw == 16
    then (let ip = swap_words raw in some (ip_text (shortest_form ip (to_v4 ip)), p))
    else none
address_of _ _ = none

-- `parseProcAddr`.
unfoldable pub parse_proc_addr : Text → Option (Text × ℕ)
unfolding cut swap_words ip_text to_v4 hex_port decode_hex
parse_proc_addr s = elim (cut b':' s) [
  | none ↦ none
  | some (addr, port) ↦ address_of (hex_port port) (decode_hex addr)
]

-- A match of `^/proc/(\d+)/fd/?:$`: the digits.
abbrev digits_before : List Text → Text → Option Text
digits_before ends s =
    let d = digit_run s in
    let rest = drop (length d) s in
    if is_empty d then none else if one_of rest ends then some d else none
  where
    one_of : Text → List Text → Bool
    one_of t [] = false
    one_of t (e ∷ es) = e == t || one_of t es

unfoldable pub fd_header : Text → Option Text
unfolding strip_prefix list_beq
fd_header line = elim (strip_prefix (codes "/proc/") line) [
  | none ↦ none
  | some s ↦ digits_before (codes "/fd:" ∷ codes "/fd/:" ∷ []) s
]

-- The leftmost match of `socket:\[(\d+)\]`.
abbrev closed_by : Text → Text → Option Text
closed_by d [] = none
closed_by d (c ∷ s) = if c == b']' && not (is_empty d) then some d else none

unfoldable pub socket_at : Text → Option Text
unfolding strip_prefix
socket_at line = elim (strip_prefix (codes "socket:[") line) [
  | none ↦ none
  | some s ↦ let d = digit_run s in closed_by d (drop (length d) s)
]

unfoldable pub socket_link : Text → Option Text
unfolding socket_at
socket_link [] = none
socket_link (c ∷ s) =
    let rest = socket_link s in elim (socket_at (c ∷ s)) [ none ↦ rest | some d ↦ some d ]

-- `parseSockMap`: an inode keeps the first process that has it.
abbrev keep_first : Option Text → ℤ → List (Text × ℤ) → List (Text × ℤ)
keep_first none pid res = res
keep_first (some inode) pid res = elim (lookup inode res) [
  | none ↦ insert inode pid res
  | some old ↦ res
]

unfoldable pub sock_lines : List Text → ℤ → List (Text × ℤ) → List (Text × ℤ)
unfolding trim_return trim_space fd_header socket_link lookup insert atoi_value list_beq
sock_lines [] pid res = res
sock_lines (l ∷ ls) pid res =
    let line = trim_return l in
    elim (fd_header (trim_space line)) [
      | some d ↦ sock_lines ls (atoi_value d) res
      | none ↦
          sock_lines ls pid (if pid == pos 0 then res else keep_first (socket_link line) pid res)
    ]

unfoldable pub parse_sock_map : Text → List (Text × ℤ)
unfolding sock_lines
parse_sock_map out = sock_lines (lines_of out) (pos 0) []

abbrev pid_or_zero : Option ℤ → ℤ
pid_or_zero none = pos 0
pid_or_zero (some pid) = pid

abbrev proc_found : List (Text × ℤ) → Text → Option (Text × ℕ) → Option Listener
proc_found inodes inode none = none
proc_found inodes inode (some (host, port)) = some (record {
  proto = proto_for host;
  addr = host;
  port = pos port;
  pid = pid_or_zero (lookup inode inodes);
  proc = [];
})

-- One line of `ParseProc`.
unfoldable pub proc_listener : List (Text × ℤ) → Text → Option Listener
unfolding fields trim_return has_suffix to_lower parse_proc_addr proto_for lookup list_beq
proc_listener inodes line =
    let f = fields (trim_return line) in
    if ltb (length f) 10 || not (has_suffix (codes ":") (field 0 f))
    then none
    else if not (to_lower (field 3 f) == codes "0a")
    then none
    else proc_found inodes (field 9 f) (parse_proc_addr (field 1 f))

abbrev pub proc_lines : List (Text × ℤ) → List Text → List Listener
proc_lines inodes [] = []
proc_lines inodes (l ∷ ls) =
    let rest = proc_lines inodes ls in
    elim (proc_listener inodes l) [ none ↦ rest | some x ↦ x ∷ rest ]

-- `ParseProc`.
unfoldable pub parse_proc : Text → Text → List Listener
unfolding parse_sock_map proc_listener
parse_proc net_tcp sock_map = proc_lines (parse_sock_map sock_map) (lines_of net_tcp)
