-- ===== src/Tunnel/Manager/Apply.antt =====
-- internal/tunnel/manager.go: opening and closing the tunnel of one entry.
use autotun.Base.{ℕ, List, [], ◌∷◌, Option, none, some, ◌==◌, nat_eq, list_eq, if◌then◌else◌}
use autotun.Text.{Text}
use autotun.Probe.Service.{dial_addr}
use autotun.Tunnel.Policy.{skip_none, skip_text}
use autotun.Tunnel.Alloc.{Allocated, Outcome, allocate, release, error_text}
use autotun.Tunnel.Forward.{Forwarder, new_forwarder}
use autotun.Tunnel.Manager.{Manager, Entry, Event, opened, closed, failed, want, state_of, Status}

-- The manager, the entry and the events after a change of one entry.
pub record Applied : Type 0 where
  pub mgr : Manager
  pub entry : Entry
  pub events : List Event

abbrev pub unchanged : Manager → Entry → Applied
unchanged m e = record { mgr = m; entry = e; events = [] }

-- The event that `closeLocked` makes: the row as it is without its forwarder.
unfoldable pub closed_event : Manager → Entry → Forwarder → Text → ℕ → Event
closed_event m e f reason now = record {
  kind = closed;
  at = now;
  state = record (state_of m e) { local_port = f.local; status = Status.skipped };
  msg = reason;
}

-- `closeLocked`: the local port is free at once.
unfoldable pub close : Manager → Entry → Forwarder → Text → ℕ → Applied
close m e f reason now =
    let e' = record e { fwd = none } in
    record {
      mgr = record m { os = release m.os f.local };
      entry = e';
      events = closed_event m e' f reason now ∷ [];
    }

-- `closeLocked` where there is a forwarder.
unfoldable pub close_if_open : Manager → Entry → Option Forwarder → Text → ℕ → Applied
close_if_open m e none reason now = unchanged m e
close_if_open m e (some f) reason now = close m e f reason now

-- What `applyLocked` makes of the allocator's answer. An error that is reported already is not
-- reported again.
unfoldable pub take_outcome : Manager → Entry → ℕ → ℕ → Outcome → Applied
take_outcome m e dialer now (Outcome.failed x) =
    let e' = record e { err = error_text x } in
    if e.err == error_text x then unchanged m e else record {
      mgr = m;
      entry = e';
      events = record { kind = failed; at = now; state = state_of m e'; msg = error_text x } ∷ [];
    }
take_outcome m e dialer now (Outcome.opened q remapped) =
    let e' = record e {
      err = [];
      fwd = some (new_forwarder q dialer (dial_addr e.svc) remapped now);
    } in
    record {
      mgr = m;
      entry = e';
      events = record { kind = opened; at = now; state = state_of m e'; msg = [] } ∷ [];
    }

abbrev pub with_allocated : Manager → Allocated → Manager
with_allocated m r = record m { alloc = r.alloc; os = r.os }

-- An entry that should be forwarded: nothing to do if it is, or if the link is down.
unfoldable pub open_entry : Manager → Entry → Option Forwarder → Option ℕ → ℕ → Applied
open_entry m e (some f) dialer now = unchanged m e
open_entry m e none none now = unchanged m e
open_entry m e none (some d) now =
    let r = allocate m.alloc m.os e.svc.port e.pinned_local in
    take_outcome (with_allocated m r) e d now r.outcome

-- `applyLocked`.
unfoldable pub apply : Manager → Entry → ℕ → Applied
apply m e now =
    let w = want m.policy e in
    if w.forward
    then open_entry m (record e { skip = skip_none }) e.fwd m.dialer now
    else close_if_open m (record e { skip = w.skip }) e.fwd (skip_text w.skip) now
