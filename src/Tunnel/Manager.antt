-- ===== src/Tunnel/Manager.antt =====
-- internal/tunnel/manager.go: the manager's state and the snapshot of a row. Times are arguments of
-- the calls, and a dialer is the number of the connection that it stands for. Each method holds the
-- manager's lock, so it is one step here.
pub mod Apply
pub mod Sync
pub mod Control
pub mod Balance
pub mod Frame
pub mod Invariant
pub mod Preserve
pub mod Edits
pub mod Switches
pub mod Settled
pub mod Converge
pub mod Outcome
pub mod Choice
pub mod Steps
pub mod History
pub mod Memory
pub mod Session
pub mod Rows
pub mod Absent
pub mod Link
mod Tests
pub mod Pause
use autotun.Base.{
  ℕ, suc, ◌+◌, Bool, true, false, not, ◌&&◌, ◌||◌, List, [], ◌∷◌, ◌++◌, Option, none, some, ◌==◌,
  nat_eq, int_eq, list_eq, list_beq, if◌then◌else◌, ℤ, pos,
}
use autotun.Text.{Text, codes, is_empty}
use autotun.Text.Decimal.{itoa}
use autotun.Probe.Ip.{join_host_port}
use autotun.Probe.Service.{Service, command, bind_summary}
use autotun.Config.Mode.{Mode, auto, on, off, mode_is_auto}
use autotun.Config.Store.{Store}
use autotun.Tunnel.Scheme.{Scheme, unknown, scheme_beq, url_scheme}
use autotun.Tunnel.Policy.{Policy, Skip, skip_none, eval, is_skip_none, filtered}
use autotun.Tunnel.Policy.{off as skip_off}
use autotun.Tunnel.Alloc.{Allocator, Os}
use autotun.Tunnel.Forward.{Forwarder}

pub data Status : Type 0 where
  active skipped error offline : Status

abbrev pub status_is_active : Status → Bool
status_is_active active = true
status_is_active _ = false

-- `State`: one row for the display.
pub record State : Type 0 where
  pub remote_port : ℕ
  pub local_port : ℕ
  pub local_addr : Text
  pub remapped : Bool
  pub pid : ℤ
  pub proc : Text
  pub cmd : Text
  pub binds : Text
  pub status : Status
  pub skip : Skip
  pub err : Text
  pub scheme : Scheme
  pub scheme_pinned : Bool
  pub label : Text
  pub mode : Mode
  pub preexisting : Bool
  pub pinned_local : ℤ
  pub first_seen : ℕ
  pub created : ℕ
  pub last_byte : ℕ
  pub bytes_in : ℕ
  pub bytes_out : ℕ
  pub active_conns : ℕ
  pub total_conns : ℕ

-- `State.Endpoint`.
unfoldable pub endpoint : State → Text
unfolding list_beq
endpoint s =
    let host =
      if is_empty s.local_addr || s.local_addr == codes "0.0.0.0" || s.local_addr == codes "::"
      then codes "localhost"
      else s.local_addr in
    if status_is_active s.status then join_host_port host (itoa s.local_port) else []

-- `State.URL`.
unfoldable pub url : State → Text
url s =
    if not (status_is_active s.status) || scheme_beq s.scheme unknown
    then []
    else url_scheme s.scheme ++ (codes "://" ++ endpoint s)

pub data EventKind : Type 0 where
  opened closed failed skipped : EventKind

pub record Event : Type 0 where
  pub kind : EventKind
  pub at : ℕ
  pub state : State
  pub msg : Text

-- The bytes of → and ≠.
abbrev pub arrow : Bool → Text
arrow false = 0xE2 ∷ 0x86 ∷ 0x92 ∷ []
arrow true = 0xE2 ∷ 0x89 ∷ 0xA0 ∷ []

abbrev pub parens : Text → Text
parens s = codes "  (" ++ (s ++ codes ")")

abbrev pub local_text : State → Text
local_text s = s.local_addr ++ (b':' ∷ itoa s.local_port)

-- `Event.String`.
unfoldable pub event_text : EventKind → State → Text → Text
event_text opened s msg =
    codes "opened  "
    ++ (local_text s
        ++ (32 ∷ arrow s.remapped ++ (codes " remote " ++ (itoa s.remote_port ++ parens s.cmd))))
event_text closed s msg =
    codes "closed  "
    ++ (local_text s ++ (codes "    remote " ++ (itoa s.remote_port ++ parens msg)))
event_text failed s msg = codes "failed  remote " ++ (itoa s.remote_port ++ parens msg)
event_text skipped s msg = codes "skipped remote " ++ (itoa s.remote_port ++ parens msg)

-- `entry`: the manager's record of one remote port.
pub record Entry : Type 0 where
  pub svc : Service
  pub fwd : Option Forwarder
  pub skip : Skip
  pub err : Text
  pub mode : Mode
  pub pinned_local : ℤ
  pub label : Text
  pub preexisting : Bool
  pub paused_keep : Bool
  pub first_seen : ℕ
  pub missing : ℕ
  pub scheme : Scheme
  pub pinned : Bool

pub record Manager : Type 0 where
  pub alloc : Allocator
  pub os : Os
  pub grace : ℕ
  pub dialer : Option ℕ
  pub policy : Policy
  pub entries : List (ℕ × Entry)
  pub baseline : List ℕ
  pub have_base : Bool
  pub host : Text
  pub settings : Option Store

-- `New`; `grace` is zero or less where the option leaves the default.
unfoldable pub new : Allocator → Os → Option ℕ → Policy → ℕ → Text → Option Store → Manager
new alloc os dialer policy grace host settings = record {
  alloc = alloc;
  os = os;
  grace = if grace == 0 then 2 else grace;
  dialer = dialer;
  policy = if policy.max_port == pos 0 then record policy { max_port = pos 65535 } else policy;
  entries = [];
  baseline = [];
  have_base = false;
  host = host;
  settings = settings;
}

pub record Want : Type 0 where
  pub forward : Bool
  pub skip : Skip

abbrev pub want_auto : Policy → Entry → Want
want_auto p e =
    if p.paused && e.paused_keep
    then record { forward = true; skip = skip_none }
    else let s = eval p e.svc e.preexisting in record { forward = is_skip_none s; skip = s }

abbrev pub want_by : Mode → Policy → Entry → Want
want_by on p e = record { forward = true; skip = skip_none }
want_by off p e = record { forward = false; skip = skip_off }
want_by auto p e = want_auto p e

-- `wantLocked`.
unfoldable pub want : Policy → Entry → Want
want p e = want_by e.mode p e

-- `stateLocked`: what an entry shows with no forwarder.
unfoldable pub idle_status : Manager → Entry → Status
idle_status m e = if not (is_empty e.err) then error else elim m.dialer [
  | none ↦ if (want m.policy e).forward then offline else skipped
  | some d ↦ skipped
]

abbrev pub base_state : Manager → Entry → State
base_state m e = record {
  remote_port = e.svc.port;
  local_port = 0;
  local_addr = m.alloc.bind;
  remapped = false;
  pid = e.svc.pid;
  proc = e.svc.proc;
  cmd = command e.svc;
  binds = bind_summary e.svc;
  status = idle_status m e;
  skip = e.skip;
  err = e.err;
  scheme = e.scheme;
  scheme_pinned = e.pinned;
  label = e.label;
  mode = e.mode;
  preexisting = e.preexisting;
  pinned_local = e.pinned_local;
  first_seen = e.first_seen;
  created = 0;
  last_byte = 0;
  bytes_in = 0;
  bytes_out = 0;
  active_conns = 0;
  total_conns = 0;
}

abbrev pub with_forwarder : State → Forwarder → State
with_forwarder s f = record s {
  status = active;
  local_port = f.local;
  remapped = f.remapped;
  created = f.created;
  bytes_in = f.bytes_in;
  bytes_out = f.bytes_out;
  active_conns = f.active;
  total_conns = f.total;
  last_byte = f.last;
  err = if is_empty f.last_err then s.err else f.last_err;
}

unfoldable pub state_of : Manager → Entry → State
state_of m e = elim e.fwd [ none ↦ base_state m e | some f ↦ with_forwarder (base_state m e) f ]

abbrev pub is_open : Option Forwarder → Bool
is_open none = false
is_open (some f) = true

-- `hiddenLocked`.
unfoldable pub hidden : Entry → Bool
hidden e = not (is_open e.fwd) && mode_is_auto e.mode && filtered e.skip
