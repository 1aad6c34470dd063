-- ===== src/Sshx/Destination.antt =====
-- internal/sshx/destination.go: a destination as the user types it.
pub mod Typed
pub mod Url
use autotun.Base.{
  ℕ, suc, Bool, true, false, not, ◌&&◌, ◌||◌, List, [], ◌∷◌, ◌++◌, Option, none, some, ◌==◌, nat_eq,
  if◌then◌else◌, ltb, ℤ, pos, negsuc,
}
use autotun.Text.{Text, codes, is_empty, cut, has_prefix, trim_prefix, trim_space}
use autotun.Text.Decimal.{atoi, itoa}

-- The port is 0 where none is typed.
pub record Target : Type 0 where
  pub user : Text
  pub host : Text
  pub port : ℕ

-- The errors of `ParseTarget`, with what their texts quote beside the destination.
pub data TargetError : Type 0 where
  no_destination no_user no_host unterminated : TargetError
  unexpected : Text → TargetError
  invalid_port : Text → TargetError

pub data Parsed : Type 0 where
  target : Target → Parsed
  invalid : TargetError → Parsed

-- `parsePortStr`.
unfoldable pub typed_port : Option ℤ → Option ℕ
typed_port none = none
typed_port (some (negsuc n)) = none
typed_port (some (pos n)) = if ltb n 1 || ltb 65535 n then none else some n

unfoldable pub with_port : Text → Text → Text → Parsed
unfolding typed_port atoi
with_port user host s = elim (typed_port (atoi s)) [
  | none ↦ invalid (invalid_port s)
  | some p ↦ target (record { user = user; host = host; port = p })
]

-- What stands behind the bracket of an address.
unfoldable pub after_bracket : Text → Text → Text → Parsed
after_bracket user host [] = target (record { user = user; host = host; port = 0 })
after_bracket user host (c ∷ rest) =
    if c == b':' then with_port user host rest else invalid (unexpected (c ∷ rest))

-- `strings.Count` of a byte.
abbrev pub count_byte : ℕ → Text → ℕ
count_byte b [] = 0
count_byte b (c ∷ s) = let rest = count_byte b s in if c == b then suc rest else rest

-- A single colon separates a port; more of them belong to an address.
unfoldable pub plain_host : Text → Text → Parsed
unfolding cut with_port
plain_host user s =
    if count_byte b':' s == 1
    then elim (cut b':' s) [ none ↦ with_port user s [] | some (h, p) ↦ with_port user h p ]
    else target (record { user = user; host = s; port = 0 })

unfoldable pub host_part : Text → Text → Parsed
unfolding cut after_bracket plain_host
host_part user [] = invalid no_host
host_part user (c ∷ s) =
    if c == b'['
    then elim (cut b']' s) [
      | none ↦ invalid unterminated
      | some (h, rest) ↦ after_bracket user h rest
    ]
    else plain_host user (c ∷ s)

unfoldable pub user_part : Text → Parsed
unfolding cut host_part
user_part s = elim (cut b'@' s) [
  | none ↦ host_part [] s
  | some (u, rest) ↦ if is_empty u then invalid no_user else host_part u rest
]

-- `ParseTarget`.
unfoldable pub parse_target : Text → Parsed
unfolding trim_space trim_prefix user_part
parse_target raw =
    if is_empty (trim_space raw)
    then invalid no_destination
    else user_part (trim_prefix (codes "ssh://") (trim_space raw))
