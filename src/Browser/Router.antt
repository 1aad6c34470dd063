-- ===== src/Browser/Router.antt =====
-- internal/app/browser.go: the address that a URL of the remote host has here. What `url.Parse` makes
-- of the text is an argument. The time that the router waits for a tunnel is a list: for each poll,
-- the calls of the manager that come in before it. The address that `free` tries is the one that the
-- tunnels are bound to, as in the application.
pub mod Reach
use autotun.Base.{
  ℕ, suc, ◌+◌, Bool, true, false, not, ◌&&◌, ◌||◌, List, [], ◌∷◌, ◌++◌, Option, none, some, ◌==◌,
  nat_eq, list_eq, list_beq, if◌then◌else◌, ltb, ℤ, pos, negsuc,
}
use autotun.Text.{Text, codes, is_empty, has_prefix, has_suffix, trim_prefix, trim_suffix, cut_last}
use autotun.Text.Decimal.{is_digit, itoa, atoi}
use autotun.Probe.Ip.{join_host_port}
use autotun.Tunnel.Alloc.{Listened, bound, refused, listen, release}
use autotun.Tunnel.Manager.{Manager, State, status_is_active}
use autotun.Tunnel.Manager.Control.{forward_now, forward_now_error, move_local, local_port_error}
use autotun.Tunnel.Manager.Rows.{states}
use autotun.Tunnel.Manager.Steps.{Call, run}
use autotun.Ui.Model.{ToastMsg}

-- A URL with its authority apart from what follows it.
pub record Url : Type 0 where
  pub scheme : Text
  pub host : Text
  pub rest : Text

-- `URL.String`.
abbrev pub render : Url → Text
render u = u.scheme ++ (codes "://" ++ (u.host ++ u.rest))

abbrev pub all_digits : Text → Bool
all_digits [] = true
all_digits (c ∷ s) = is_digit c && all_digits s

-- `URL.Hostname` and `URL.Port`.
unfoldable pub host_and_port : Text → Text × Text
host_and_port h = elim (cut_last b':' h) [
  | none ↦ (h, [])
  | some (a, p) ↦ if all_digits p then (a, p) else (h, [])
]

unfoldable pub hostname : Url → Text
hostname u =
    let h = (host_and_port u.host).0 in
    if has_prefix (codes "[") h && has_suffix (codes "]") h
    then trim_suffix (trim_prefix h (codes "[")) (codes "]")
    else h

-- The hosts that mean the remote host itself.
unfoldable pub names_remote : Text → Bool
unfolding list_beq
names_remote h =
    h == codes "localhost"
    || h == codes "127.0.0.1"
    || h == codes "::1"
    || h == codes "0.0.0.0"
    || h == codes "::"

pub data RouteError : Type 0 where
  unparsable : RouteError
  bad_scheme bad_port : Text → RouteError
  not_forwarded : ℕ → RouteError

pub data Located : Type 0 where
  at_port : ℕ → Located
  no_port : RouteError → Located

abbrev pub port_number : Text → Option ℤ → Located
port_number p none = no_port (bad_port p)
port_number p (some (negsuc n)) = no_port (bad_port p)
port_number p (some (pos n)) = if ltb n 1 || ltb 65535 n then no_port (bad_port p) else at_port n

-- `portOf`.
unfoldable pub port_of : Url → Located
unfolding list_beq
port_of u =
    let p = (host_and_port u.host).1 in
    if not (is_empty p)
    then port_number p (atoi p)
    else at_port (if u.scheme == codes "https" then 443 else 80)

-- `urlRouter.lookup`.
unfoldable pub active_row : ℕ → List State → Option State
active_row p [] = none
active_row p (r ∷ rs) =
    if (r.remote_port == p) && status_is_active r.status then some r else active_row p rs

abbrev pub tunnel_of : ℕ → Manager → Option State
tunnel_of p m = active_row p (states m)

-- The manager after the search for a tunnel, and the row that it found.
pub record Found : Type 0 where
  pub mgr : Manager
  pub row : Option State

-- `urlRouter.await` once `ForwardNow` was asked: a look, and the polls until the context ends.
unfoldable pub poll : ℕ → List (List (ℕ × Call)) → Manager → Found
poll p [] m = record { mgr = m; row = tunnel_of p m }
poll p (cs ∷ rest) m = elim (tunnel_of p m) [
  | some st ↦ record { mgr = m; row = some st }
  | none ↦ poll p rest (run m cs)
]

abbrev pub poll_later : ℕ → List (List (ℕ × Call)) → Manager → Found
poll_later p [] m = record { mgr = m; row = none }
poll_later p (cs ∷ rest) m = poll p rest (run m cs)

-- `urlRouter.await`.
unfoldable pub await : ℕ → List (List (ℕ × Call)) → ℕ → Manager → Found
await p polls now m = elim (tunnel_of p m) [
  | some st ↦ record { mgr = m; row = some st }
  | none ↦
      let m' = (forward_now m p now).mgr in
      elim (forward_now_error m p now) [ none ↦ poll p polls m' | some e ↦ poll_later p polls m' ]
]

-- `urlRouter.free`: the answer, and the manager, whose system has answered.
pub record Probed : Type 0 where
  pub free : Bool
  pub mgr : Manager

abbrev pub probed : Manager → Listened → Probed
probed m (bound q os) = record { free = true; mgr = record m { os = release os q } }
probed m (refused t os) = record { free = false; mgr = record m { os = os } }

unfoldable pub probe_port : Manager → ℕ → Probed
probe_port m p = probed m (listen m.os p)

abbrev pub row_or : Option State → State → State
row_or none st = st
row_or (some moved) st = moved

pub record Reclaimed : Type 0 where
  pub mgr : Manager
  pub row : State

-- `TryLocalPort`, and the row that is gone on with.
unfoldable pub take_back : ℕ → ℕ → Manager → State → Reclaimed
take_back p now m st =
    let m' = (move_local m p (pos p) now).mgr in
    elim (local_port_error m p (pos p) now) [
      | none ↦ record { mgr = m'; row = row_or (tunnel_of p m') st }
      | some e ↦ record { mgr = m'; row = st }
    ]

-- The port that the remote has is taken back if it is free.
unfoldable pub reclaim : ℕ → ℕ → Manager → State → Reclaimed
reclaim p now m st =
    if st.local_port == p
    then record { mgr = m; row = st }
    else let f = probe_port m p in
      if f.free then take_back p now f.mgr st else record { mgr = f.mgr; row = st }

-- What `localize` returns, with the notices that it shows.
pub data Localized : Type 0 where
  local_url : Text → Localized
  refusal : RouteError → Localized

pub record Routed : Type 0 where
  pub mgr : Manager
  pub notes : List ToastMsg
  pub answer : Localized

abbrev pub refuse : Manager → RouteError → Routed
refuse m e = record { mgr = m; notes = []; answer = refusal e }

abbrev pub mismatch : ℕ → ℕ → ToastMsg
mismatch p q = record {
  text =
      codes "remote "
      ++ (itoa p ++ (codes " is local " ++ (itoa q ++ codes "; a login callback may not match")));
  bad = true;
}

abbrev pub at_local : Url → ℕ → ℕ → Found → Routed
at_local u p now f = elim f.row [
  | none ↦ refuse f.mgr (not_forwarded p)
  | some st ↦
      let r = reclaim p now f.mgr st in
      record {
        mgr = r.mgr;
        notes = if (r.row).local_port == p then [] else mismatch p (r.row).local_port ∷ [];
        answer = local_url (
            render
              (record u { host = join_host_port (codes "localhost") (itoa (r.row).local_port) }));
      }
]

abbrev pub at_located : Url → List (List (ℕ × Call)) → ℕ → Manager → Located → Routed
at_located u polls now m (no_port e) = refuse m e
at_located u polls now m (at_port p) = at_local u p now (await p polls now m)

-- `urlRouter.localize`.
unfoldable pub localize : Option Url → List (List (ℕ × Call)) → ℕ → Manager → Routed
unfolding list_beq
localize none polls now m = refuse m unparsable
localize (some u) polls now m =
    if not (u.scheme == codes "http" || u.scheme == codes "https")
    then refuse m (bad_scheme u.scheme)
    else if not (names_remote (hostname u))
    then record { mgr = m; notes = []; answer = local_url (render u) }
    else at_located u polls now m (port_of u)
