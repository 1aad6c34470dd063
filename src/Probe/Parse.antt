-- ===== src/Probe/Parse.antt =====
-- internal/probe/parse.go: the parsers of what ss, netstat and lsof print. The regular expression of
-- the process column of ss is written out. Letters are compared as those of ASCII.
pub mod Address
use autotun.Base.{
  ℕ, zero, suc, Bool, true, false, not, ◌&&◌, ◌||◌, List, [], ◌∷◌, ◌++◌, Option, none, some, ◌==◌,
  nat_eq, int_eq, list_eq, list_beq, if◌then◌else◌, ltb, length, reverse, ℤ, pos, negsuc,
}
use autotun.Text.{
  Text, codes, is_empty, cut, cut_last, trim_brackets, trim_space, trim_suffix, trim_prefix,
  strip_prefix, has_prefix, drop_while, contains, split, fields, to_lower,
}
use autotun.Text.Decimal.{atoi, atoi_value, is_digit}
use autotun.Probe.Ip.{parse_ip, to_v4}
use autotun.Probe.Merge.{Listener}

-- `err != nil || p < 0 || p > 65535` after `Atoi`.
unfoldable pub port_in_range : Option ℤ → Option ℕ
port_in_range none = none
port_in_range (some (negsuc n)) = none
port_in_range (some (pos n)) = if ltb 65535 n then none else some n

-- The host without its brackets and without a zone.
unfoldable pub drop_zone : Text → Text
unfolding cut
drop_zone s = elim (cut b'%' s) [ none ↦ s | some (a, zone) ↦ a ]

unfoldable pub clean_host : Text → Text
unfolding trim_brackets drop_zone
clean_host s = let h = drop_zone (trim_brackets s) in if is_empty h then codes "0.0.0.0" else h

-- `splitHostPort`.
unfoldable pub split_host_port : Text → Option (Text × ℕ)
unfolding cut_last atoi port_in_range clean_host
split_host_port s = elim (cut_last b':' s) [
  | none ↦ none
  | some (h, p) ↦ elim (port_in_range (atoi p)) [ none ↦ none | some n ↦ some (clean_host h, n) ]
]

abbrev pub no_v4 : Option (List ℕ) → Bool
no_v4 none = true
no_v4 (some ip) = false

abbrev pub is_v6 : Option (List ℕ) → Bool
is_v6 none = false
is_v6 (some ip) = no_v4 (to_v4 ip)

-- `protoFor`.
unfoldable pub proto_for : Text → Text
unfolding parse_ip contains list_beq
proto_for host =
    if host == codes "*"
    then codes "tcp"
    else if is_v6 (parse_ip host)
    then codes "tcp6"
    else if contains host (codes ":")
    then codes "tcp6"
    else codes "tcp"

-- `strings.TrimRight(line, "\r")`, and the lines of an output.
abbrev pub is_return : ℕ → Bool
is_return c = c == 13

unfoldable pub trim_return : Text → Text
unfolding drop_while
trim_return s = reverse (drop_while is_return (reverse s))

abbrev pub lines_of : Text → List Text
lines_of out = split 10 out

-- A field by its number; the parsers look at the number of the fields first.
abbrev pub field : ℕ → List Text → Text
field n [] = []
field zero (f ∷ fs) = f
field (suc n) (f ∷ fs) = field n fs

-- `strings.EqualFold(f, "LISTEN")`.
unfoldable pub is_listen : Text → Bool
unfolding to_lower list_beq
is_listen f = to_lower f == codes "listen"

-- A match of `\("([^"]*)",(?:pid=)?(\d+)` at the start of a text: the name and the digits.
abbrev pub digit_run : Text → Text
digit_run [] = []
digit_run (c ∷ s) = let rest = digit_run s in if is_digit c then c ∷ rest else []

abbrev pub nonempty_run : Text → Text → Option (Text × Text)
nonempty_run name d = if is_empty d then none else some (name, d)

unfoldable pub users_at : Text → Option (Text × Text)
unfolding strip_prefix cut trim_prefix
users_at s = elim (strip_prefix (b'(' ∷ 34 ∷ []) s) [
  | none ↦ none
  | some t ↦ elim (cut 34 t) [
    | none ↦ none
    | some (name, u) ↦ elim (strip_prefix (codes ",") u) [
      | none ↦ none
      | some v ↦ nonempty_run name (digit_run (trim_prefix (codes "pid=") v))
    ]
  ]
]

-- The leftmost match.
unfoldable pub find_users : Text → Option (Text × Text)
unfolding users_at
find_users [] = none
find_users (c ∷ s) =
    let rest = find_users s in elim (users_at (c ∷ s)) [ none ↦ rest | some m ↦ some m ]

-- `parseSSUsers`.
unfoldable pub parse_ss_users : Text → Option (Text × ℤ)
unfolding find_users atoi
parse_ss_users line = elim (find_users line) [
  | none ↦ none
  | some (name, digits) ↦ elim (atoi digits) [ none ↦ none | some pid ↦ some (name, pid) ]
]

abbrev pub with_process : Option (Text × ℤ) → Listener → Listener
with_process none l = l
with_process (some (name, pid)) l = record l { pid = pid; proc = name }

abbrev pub listener_at : Text → Text → ℕ → Listener
listener_at proto host p = record {
  proto = proto;
  addr = host;
  port = pos p;
  pid = pos 0;
  proc = [];
}

-- A Netid column is skipped.
abbrev pub drop_netid : List Text → List Text
drop_netid [] = []
drop_netid (f ∷ fs) =
    if f == codes "tcp" || f == codes "tcp6" || f == codes "udp" then fs else f ∷ fs

-- The listener of a line of ss that starts a row.
unfoldable pub ss_listener : Text → Option Listener
unfolding fields is_listen split_host_port proto_for parse_ss_users list_beq
ss_listener line =
    let f = fields line in
    let g = drop_netid f in
    if ltb (length f) 4 || (not (is_listen (field 0 g)) || ltb (length g) 4)
    then none
    else elim (split_host_port (field 3 g)) [
      | none ↦ none
      | some (host, p) ↦
          some (with_process (parse_ss_users line) (listener_at (proto_for host) host p))
    ]

-- A process column that ss wrapped onto a line of its own belongs to the row before.
abbrev pub amend : Option (Text × ℤ) → Listener → Listener
amend u l = if l.pid == pos 0 then with_process u l else l

abbrev pub is_indented : Text → Bool
is_indented [] = false
is_indented (c ∷ s) = c == 32 || c == 9

abbrev pub push : Option Listener → List Listener → List Listener
push none res = res
push (some l) res = l ∷ res

-- One line of `ParseSS`; `res` has its last listener in front.
unfoldable pub ss_line : Text → List Listener → List Listener
unfolding trim_space ss_listener parse_ss_users
ss_line line [] = if is_empty (trim_space line) then [] else push (ss_listener line) []
ss_line line (l ∷ res) =
    if is_empty (trim_space line)
    then l ∷ res
    else if is_indented line
    then amend (parse_ss_users line) l ∷ res
    else push (ss_listener line) (l ∷ res)

abbrev pub ss_lines : List Text → List Listener → List Listener
ss_lines [] res = reverse res
ss_lines (line ∷ rest) res = ss_lines rest (ss_line (trim_return line) res)

-- `ParseSS`.
unfoldable pub parse_ss : Text → List Listener
unfolding ss_line trim_return split
parse_ss out = ss_lines (lines_of out) []
