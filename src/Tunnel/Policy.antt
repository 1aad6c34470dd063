-- ===== src/Tunnel/Policy.antt =====
-- internal/tunnel/policy.go: which services are forwarded.
pub mod Verdict
use autotun.Base.{
  ℕ, ◌≡◌, refl, Bool, true, false, not, ◌&&◌, ◌||◌, [], Option, none, some, ◌==◌, nat_eq, list_eq,
  list_beq, ltb_ℤ, if◌then◌else◌, ℤ, pos,
}
use autotun.Text.{Text, codes}
use autotun.Probe.Service.{Service, loopback_only}
use autotun.Tunnel.PortSet.{PortSet, contains, is_empty_set}

pub data RemoteBind : Type 0 where
  bind_any bind_loopback : RemoteBind

-- `ParseRemoteBind`; `none` is its error.
unfoldable pub parse_remote_bind : Text → Option RemoteBind
unfolding list_beq
parse_remote_bind s =
    if s == codes "any"
    then some bind_any
    else if s == codes "loopback"
    then some bind_loopback
    else none

abbrev pub is_bind_loopback : RemoteBind → Bool
is_bind_loopback bind_any = false
is_bind_loopback bind_loopback = true

pub record Policy : Type 0 where
  pub min_port : ℤ
  pub max_port : ℤ
  pub include : PortSet
  pub exclude : PortSet
  pub remote_bind : RemoteBind
  pub existing : Bool
  pub paused : Bool

unfoldable pub default_policy : Policy
default_policy = record {
  min_port = pos 1024;
  max_port = pos 65535;
  include = [];
  exclude = [];
  remote_bind = bind_any;
  existing = false;
  paused = false;
}

pub data Skip : Type 0 where
  skip_none preexisting below_min above_max excluded not_include not_loop paused off : Skip

abbrev pub skip_text : Skip → Text
skip_text skip_none = []
skip_text preexisting = codes "pre-existing"
skip_text below_min = codes "below --min-port"
skip_text above_max = codes "above --max-port"
skip_text excluded = codes "excluded"
skip_text not_include = codes "not in --include"
skip_text not_loop = codes "not loopback-only"
skip_text paused = codes "paused"
skip_text off = codes "off"

abbrev pub is_skip_none : Skip → Bool
is_skip_none skip_none = true
is_skip_none _ = false

abbrev pub is_preexisting : Skip → Bool
is_preexisting preexisting = true
is_preexisting _ = false

-- `Skip.Filtered`: ruled out by a flag, so not listed at all.
unfoldable pub filtered : Skip → Bool
filtered below_min = true
filtered above_max = true
filtered excluded = true
filtered not_include = true
filtered not_loop = true
filtered _ = false

-- The tests that an `--include` entry overrides.
unfoldable pub eval_window : Policy → Service → Bool → Option Skip
eval_window p svc pre =
    if not (is_empty_set p.include)
    then some not_include
    else if ltb_ℤ (pos svc.port) p.min_port
    then some below_min
    else if ltb_ℤ p.max_port (pos svc.port)
    then some above_max
    else if is_bind_loopback p.remote_bind && not (loopback_only svc)
    then some not_loop
    else if pre && not p.existing
    then some preexisting
    else none

abbrev pub eval_paused : Policy → Skip
eval_paused p = if p.paused then paused else skip_none

-- `Policy.Eval`.
unfoldable pub eval : Policy → Service → Bool → Skip
unfolding eval_window
eval p svc pre =
    if contains p.exclude svc.port
    then excluded
    else if contains p.include svc.port
    then eval_paused p
    else elim (eval_window p svc pre) [ some s ↦ s | none ↦ eval_paused p ]
