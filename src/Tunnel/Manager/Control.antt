-- ===== src/Tunnel/Manager/Control.antt =====
-- internal/tunnel/manager.go: the methods that the user's keys, the browser bridge and the
-- connection call.
use autotun.Base.{
  ℕ, Bool, true, false, not, ◌&&◌, List, [], ◌∷◌, ◌++◌, Option, none, some, nat_eq, if◌then◌else◌,
  ltb, map, ℤ, pos, negsuc,
}
use autotun.Assoc.{lookup, insert}
use autotun.Text.{Text, codes, is_empty, fields, join}
use autotun.Config.Mode.{on, mode_next, mode_is_auto, mode_is_off, mode_text}
use autotun.Config.Store.{Store, Port, set_port}
use autotun.Tunnel.Scheme.{Scheme, unknown, scheme_beq, scheme_next, scheme_text}
use autotun.Tunnel.Policy.{Policy}
use autotun.Tunnel.Alloc.{forget}
use autotun.Tunnel.Manager.{Manager, Entry, is_open}
use autotun.Tunnel.Manager.Apply.{Applied, apply, close_if_open}
use autotun.Tunnel.Manager.Sync.{Effect, quiet, put, after}

pub data OpError : Type 0 where
  not_listed : ℕ → OpError
  switched_off : ℕ → OpError
  out_of_range : ℤ → OpError
  failure : Text → OpError

-- A change of one entry that leaves the rest of the manager alone; a port that is not listed is
-- left alone.
unfoldable pub edit : Manager → ℕ → (Entry → Entry) → Manager
edit m k f = elim (lookup k m.entries) [
  | none ↦ m
  | some e ↦ record m { entries = insert k (f e) m.entries }
]

-- `applyLocked` on the entry of a key, after a change of that entry.
unfoldable pub reapply : (Entry → Entry) → ℕ → ℕ → Manager → Effect
reapply f now k m = elim (lookup k m.entries) [
  | none ↦ quiet m
  | some e ↦ put k (apply m (f e) now)
]

-- `observeScheme`: a scheme that the user pinned is never overwritten.
unfoldable pub observe_scheme : Manager → ℕ → Scheme → Manager
observe_scheme m k s =
    if scheme_beq s unknown
    then m
    else edit m k λ e. if e.pinned then e else record e { scheme = s }

-- `persist`: what the settings hold of an entry.
unfoldable pub saved_port : Entry → Port
saved_port e = record {
  label = e.label;
  scheme = if e.pinned then scheme_text e.scheme else [];
  mode = mode_text e.mode;
  local = e.pinned_local;
}

abbrev pub save_entry : Store → Text → ℕ → Option Entry → Store
save_entry st host k none = st
save_entry st host k (some e) = set_port st host k (saved_port e)

unfoldable pub persist : Manager → ℕ → Manager
persist m k = elim m.settings [
  | none ↦ m
  | some st ↦ record m { settings = some (save_entry st m.host k (lookup k m.entries)) }
]

abbrev pub pin_scheme : Scheme → Entry → Entry
pin_scheme s e = record e { scheme = s; pinned = not (scheme_beq s unknown) }

-- `CycleScheme`, up to its call of `persist`.
abbrev pub next_scheme : Entry → Entry
next_scheme e = pin_scheme (scheme_next e.scheme) e

unfoldable pub cycle_scheme : Manager → ℕ → Manager
cycle_scheme m k = persist (edit m k next_scheme) k

-- `SetScheme`.
unfoldable pub set_scheme : Manager → ℕ → Scheme → Manager
set_scheme m k s = persist (edit m k (pin_scheme s)) k

-- `SetLabel`; `none` is success.
unfoldable pub normal_label : Text → Text
normal_label label = join (codes " ") (fields label)

unfoldable pub set_label : Manager → ℕ → Text → Manager
set_label m k label = persist (edit m k λ e. record e { label = normal_label label }) k

-- What `CycleMode` does to the entry.
unfoldable pub step_mode : Entry → Entry
step_mode e =
    let next = mode_next e.mode in
    record e {
      mode = next;
      paused_keep = if mode_is_auto next then e.paused_keep else false;
      err = if mode_is_off next then e.err else [];
    }

abbrev pub persist_after : ℕ → Effect → Effect
persist_after k x = record { mgr = persist x.mgr k; events = x.events }

-- `CycleMode`.
unfoldable pub cycle_mode : Manager → ℕ → ℕ → Effect
cycle_mode m k now = persist_after k (reapply step_mode now k m)

-- What `ForwardNow` does to the entry.
abbrev pub force_on : Entry → Entry
force_on e = record e { mode = on; paused_keep = false; err = [] }

-- `ForwardNow`, without its error: nothing is done for a port that is switched off.
unfoldable pub forward_now : Manager → ℕ → ℕ → Effect
forward_now m k now = elim (lookup k m.entries) [
  | none ↦ quiet m
  | some e ↦ if mode_is_off e.mode then quiet m else put k (apply m (force_on e) now)
]

-- The error of `ForwardNow` and `setLocalPort` after the attempt.
abbrev pub entry_failure : Option Entry → Option OpError
entry_failure none = none
entry_failure (some e) = if is_empty e.err then none else some (failure e.err)

unfoldable pub forward_now_error : Manager → ℕ → ℕ → Option OpError
forward_now_error m k now = elim (lookup k m.entries) [
  | none ↦ some (not_listed k)
  | some e ↦
      if mode_is_off e.mode
      then some (switched_off k)
      else entry_failure (lookup k (forward_now m k now).mgr.entries)
]

-- `setLocalPort` on an entry: the assignment is forgotten, the tunnel closed and opened anew.
unfoldable pub relocate : Manager → Entry → ℕ → ℤ → ℕ → Applied
relocate m e k local now =
    let m' = record m { alloc = forget m.alloc k } in
    let c = close_if_open m' (record e { pinned_local = local }) e.fwd (codes "relocating") now in
    let a = apply c.mgr (record (c.entry) { err = [] }) now in
    record { mgr = a.mgr; entry = a.entry; events = c.events ++ a.events }

abbrev pub bad_local : ℤ → Bool
bad_local (negsuc n) = true
bad_local (pos n) = ltb 65535 n

unfoldable pub move_local : Manager → ℕ → ℤ → ℕ → Effect
move_local m k local now =
    if bad_local local
    then quiet m
    else elim (lookup k m.entries) [ none ↦ quiet m | some e ↦ put k (relocate m e k local now) ]

-- `SetLocalPort` remembers the choice; `TryLocalPort` is for this session.
unfoldable pub set_local_port : Manager → ℕ → ℤ → ℕ → Effect
set_local_port m k local now =
    if bad_local local then quiet m else persist_after k (move_local m k local now)

abbrev pub try_local_port : Manager → ℕ → ℤ → ℕ → Effect
try_local_port m k local now = move_local m k local now

unfoldable pub local_port_error : Manager → ℕ → ℤ → ℕ → Option OpError
local_port_error m k local now =
    if bad_local local then some (out_of_range local) else elim (lookup k m.entries) [
      | none ↦ some (not_listed k)
      | some e ↦ entry_failure (lookup k (move_local m k local now).mgr.entries)
    ]

-- `sortedEntriesLocked`, as the keys in order of the services' ports.
unfoldable pub insert_by_port : ℕ × Entry → List (ℕ × Entry) → List (ℕ × Entry)
insert_by_port p [] = p ∷ []
insert_by_port (k, e) ((j, f) ∷ es) =
    if ltb f.svc.port e.svc.port then (j, f) ∷ insert_by_port (k, e) es else (k, e) ∷ (j, f) ∷ es

unfoldable pub sort_by_port : List (ℕ × Entry) → List (ℕ × Entry)
sort_by_port [] = []
sort_by_port (p ∷ es) = insert_by_port p (sort_by_port es)

abbrev pub keys_of : List (ℕ × Entry) → List ℕ
keys_of [] = []
keys_of ((k, e) ∷ es) = k ∷ keys_of es

-- A step for each of the keys, in order.
unfoldable pub for_keys : (ℕ → Manager → Effect) → List ℕ → Manager → Effect
for_keys f [] m = quiet m
for_keys f (k ∷ ks) m = after (f k m) (for_keys f ks)

abbrev pub sorted_keys : Manager → List ℕ
sorted_keys m = keys_of (sort_by_port m.entries)

abbrev pub same_entry : Entry → Entry
same_entry e = e

abbrev pub on_entry : (Entry → Entry) → ℕ × Entry → ℕ × Entry
on_entry f (k, e) = (k, f e)

-- How `SetPolicy` marks the entries when a pause begins or ends.
unfoldable pub mark_paused : Bool → Bool → Entry → Entry
mark_paused false true e = record e { paused_keep = mode_is_auto e.mode && is_open e.fwd }
mark_paused true false e = record e { paused_keep = false }
mark_paused _ _ e = e

-- `SetPolicy`.
unfoldable pub set_policy : Manager → Policy → ℕ → Effect
set_policy m p now =
    let mark = mark_paused m.policy.paused p.paused in
    let m' = record m { policy = p; entries = map (on_entry mark) m.entries } in
    for_keys (reapply same_entry now) (sorted_keys m') m'

abbrev pub reset_missing : Applied → Applied
reset_missing a = record a { entry = record (a.entry) { missing = 0 } }

-- `SetDialer(nil)` on one entry.
unfoldable pub disconnect : ℕ → ℕ → Manager → Effect
disconnect now k m = elim (lookup k m.entries) [
  | none ↦ quiet m
  | some e ↦ put k (reset_missing (close_if_open m e e.fwd (codes "disconnected") now))
]

-- `SetDialer`.
unfoldable pub set_dialer : Manager → Option ℕ → ℕ → Effect
set_dialer m none now =
    let m' = record m { dialer = none } in for_keys (disconnect now) (sorted_keys m') m'
set_dialer m (some d) now =
    let m' = record m { dialer = some d } in for_keys (reapply same_entry now) (sorted_keys m') m'
