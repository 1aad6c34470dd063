-- ===== src/Sshx/Resolve.antt =====
-- internal/sshx/destination.go: `Resolve`. The lookup of the ssh configuration, the expansion of a
-- path and the name of the current user are arguments.
pub mod Precedence
use autotun.Base.{
  ℕ, Bool, true, false, not, ◌&&◌, ◌||◌, List, [], ◌∷◌, ◌++◌, Option, none, some, ◌==◌, nat_eq,
  int_eq, list_eq, list_beq, if◌then◌else◌, map, ℤ, pos,
}
use autotun.Text.{Text, codes, is_empty, to_lower, contains, has_prefix}
use autotun.Text.Decimal.{atoi, itoa}
use autotun.Sshx.Destination.{Target, Parsed, target, invalid, TargetError, parse_target}

pub record Destination : Type 0 where
  pub alias : Text
  pub user : Text
  pub host : Text
  pub port : ℤ
  pub identity_files : List Text
  pub proxy_jump : Text
  pub strict_host_key : Text
  pub identities_only : Bool

pub record Overrides : Type 0 where
  pub user : Text
  pub port : ℤ
  pub identity_files : List Text
  pub proxy_jump : Text

-- `Destination.Label`.
unfoldable pub destination_label : Destination → Text
unfolding list_beq
destination_label d = if not (is_empty d.alias) && not (d.alias == d.host) then d.alias else d.host

-- `configGetter`: the value of a key for an alias; `none` is an error.
abbrev pub Config : Type 0
Config = Text → Text → Option Text

-- A value that the code takes: no error, and not empty.
abbrev pub set_value : Option Text → Option Text
set_value none = none
set_value (some v) = if is_empty v then none else some v

-- `strings.ReplaceAll(v, "%h", alias)`.
unfoldable pub expand_alias : Text → Text → Text
expand_alias alias [] = []
expand_alias alias (c ∷ []) = c ∷ []
expand_alias alias (c ∷ d ∷ s) =
    let kept = expand_alias alias (d ∷ s) in
    let rest = expand_alias alias s in if c == b'%' && d == b'h' then alias ++ rest else c ∷ kept

abbrev pub or_text : Text → Option Text → Text
or_text t none = t
or_text t (some v) = v

abbrev pub or_port : ℤ → Option ℤ → ℤ
or_port p none = p
or_port p (some q) = q

abbrev pub parsed_port : Option Text → Option ℤ
parsed_port none = none
parsed_port (some v) = atoi v

abbrev pub is_word : Text → Option Text → Bool
is_word w none = false
is_word w (some v) = to_lower v == w

abbrev pub jump : Text → Option Text → Text
jump old none = old
jump old (some v) = if to_lower v == codes "none" then old else v

abbrev pub key_file : (Text → Text) → Option Text → List Text
key_file expand none = []
key_file expand (some v) = expand v ∷ []

-- What the ssh configuration adds.
unfoldable pub with_config : (Text → Text) → Option Config → Destination → Destination
unfolding expand_alias atoi to_lower list_beq
with_config expand none d = d
with_config expand (some get) d = record d {
  host = elim (set_value (get d.alias (codes "HostName"))) [
    | none ↦ d.host
    | some v ↦ expand_alias d.alias v
  ];
  user =
      if is_empty d.user then or_text d.user (set_value (get d.alias (codes "User"))) else d.user;
  port =
      if d.port == pos 0
      then or_port d.port (parsed_port (set_value (get d.alias (codes "Port"))))
      else d.port;
  identity_files =
      d.identity_files ++ key_file expand (set_value (get d.alias (codes "IdentityFile")));
  proxy_jump = jump d.proxy_jump (set_value (get d.alias (codes "ProxyJump")));
  strict_host_key = elim (get d.alias (codes "StrictHostKeyChecking")) [
    | none ↦ d.strict_host_key
    | some v ↦ to_lower v
  ];
  identities_only =
      d.identities_only || is_word (codes "yes") (get d.alias (codes "IdentitiesOnly"));
}

abbrev pub no_files : List Text → Bool
no_files [] = true
no_files (f ∷ fs) = false

-- What the command line overrules.
unfoldable pub with_overrides : (Text → Text) → Overrides → Destination → Destination
with_overrides expand ov d = record d {
  user = if is_empty ov.user then d.user else ov.user;
  port = if ov.port == pos 0 then d.port else ov.port;
  proxy_jump = if is_empty ov.proxy_jump then d.proxy_jump else ov.proxy_jump;
  identity_files =
      if no_files ov.identity_files then d.identity_files else map expand ov.identity_files;
  identities_only = if no_files ov.identity_files then d.identities_only else true;
}

-- The defaults of the end.
unfoldable pub with_defaults : Text → Destination → Destination
with_defaults current d = record d {
  port = if d.port == pos 0 then pos 22 else d.port;
  user = if is_empty d.user then current else d.user;
}

abbrev pub typed_destination : Target → Destination
typed_destination t = record {
  alias = t.host;
  user = t.user;
  host = t.host;
  port = pos t.port;
  identity_files = [];
  proxy_jump = [];
  strict_host_key = [];
  identities_only = false;
}

pub data Resolved : Type 0 where
  resolved : Destination → Resolved
  bad_target : TargetError → Resolved
  nameless : Resolved

abbrev pub with_user : Destination → Resolved
with_user d = if is_empty d.user then nameless else resolved d

unfoldable pub resolve_target : (Text → Text) → Text → Option Config → Overrides → Target → Resolved
unfolding with_config with_overrides with_defaults
resolve_target expand current cfg ov t = with_user (
    with_defaults current (with_overrides expand ov (with_config expand cfg (typed_destination t))))

-- `Resolve`.
unfoldable pub resolve : (Text → Text) → Text → Text → Option Config → Overrides → Resolved
unfolding parse_target resolve_target
resolve expand current raw cfg ov = elim (parse_target raw) [
  | invalid e ↦ bad_target e
  | target t ↦ resolve_target expand current cfg ov t
]
