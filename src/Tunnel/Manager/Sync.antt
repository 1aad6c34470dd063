-- ===== src/Tunnel/Manager/Sync.antt =====
-- internal/tunnel/manager.go: `Sync`. Maps are visited in the order of their lists, which is any
-- order, as in Go.
use autotun.Base.{
  ℕ, suc, Bool, true, false, not, ◌||◌, List, [], ◌∷◌, ◌++◌, Option, none, some, ◌==◌, nat_eq,
  if◌then◌else◌, ltb, pos,
}
use autotun.Assoc.{lookup, insert, delete}
use autotun.Text.{codes, is_empty}
use autotun.Probe.Service.{Service, Snapshot}
use autotun.Config.Mode.{auto, parse_mode}
use autotun.Config.Store.{Port, port}
use autotun.Tunnel.Scheme.{unknown, parse_scheme, scheme_beq}
use autotun.Tunnel.Policy.{skip_none}
use autotun.Tunnel.Manager.{Manager, Entry, Event}
use autotun.Tunnel.Manager.Apply.{Applied, apply, close_if_open}

-- The manager after a method, with the events that it emits, in order.
pub record Effect : Type 0 where
  pub mgr : Manager
  pub events : List Event

abbrev pub quiet : Manager → Effect
quiet m = record { mgr = m; events = [] }

-- The entry goes back under its key.
abbrev pub put : ℕ → Applied → Effect
put k a = record {
  mgr = record (a.mgr) { entries = insert k a.entry (a.mgr).entries };
  events = a.events;
}

-- Events of a first step in front of those of the next.
abbrev pub after : Effect → (Manager → Effect) → Effect
after x f = let y = f x.mgr in record { mgr = y.mgr; events = x.events ++ y.events }

abbrev pub snapshot_ports : Snapshot → List ℕ
snapshot_ports [] = []
snapshot_ports ((p, s) ∷ snap) = p ∷ snapshot_ports snap

abbrev pub member : ℕ → List ℕ → Bool
member p [] = false
member p (q ∷ qs) = q == p || member p qs

-- The first call establishes the baseline.
unfoldable pub take_baseline : Manager → Snapshot → Manager
take_baseline m snap =
    if m.have_base then m else record m { baseline = snapshot_ports snap; have_base = true }

abbrev pub fresh_entry : Manager → ℕ → Service → ℕ → Entry
fresh_entry m k svc now = record {
  svc = svc;
  fwd = none;
  skip = skip_none;
  err = [];
  mode = auto;
  pinned_local = pos 0;
  label = [];
  preexisting = member k m.baseline;
  paused_keep = false;
  first_seen = now;
  missing = 0;
  scheme = unknown;
  pinned = false;
}

-- What the user decided about the port last time.
abbrev pub restore : Port → Entry → Entry
restore saved e = record e {
  scheme = parse_scheme saved.scheme;
  pinned = not (scheme_beq (parse_scheme saved.scheme) unknown);
  mode = parse_mode saved.mode;
  pinned_local = saved.local;
  label = saved.label;
}

unfoldable pub new_entry : Manager → ℕ → Service → ℕ → Entry
new_entry m k svc now = elim m.settings [
  | none ↦ fresh_entry m k svc now
  | some st ↦ restore (port st m.host k) (fresh_entry m k svc now)
]

abbrev pub entry_or_new : Manager → ℕ → Service → ℕ → Option Entry → Entry
entry_or_new m k svc now none = new_entry m k svc now
entry_or_new m k svc now (some e) = e

-- An already resolved command line is kept if this scan lost it.
unfoldable pub refresh : Entry → Service → Entry
refresh e svc = record e {
  missing = 0;
  svc = if is_empty svc.cmd then record svc { cmd = e.svc.cmd } else svc;
}

-- The body of the loop over the snapshot.
unfoldable pub see : ℕ → Service → ℕ → Manager → Effect
see k svc now m = put k (apply m (refresh (entry_or_new m k svc now (lookup k m.entries)) svc) now)

unfoldable pub see_all : Snapshot → ℕ → Manager → Effect
see_all [] now m = quiet m
see_all ((k, svc) ∷ snap) now m = after (see k svc now m) (see_all snap now)

-- An entry that went away: its tunnel is closed, and it is deleted.
abbrev pub drop_entry : ℕ → Applied → Effect
drop_entry k a = record {
  mgr = record (a.mgr) { entries = delete k (a.mgr).entries };
  events = a.events;
}

-- An entry that the scan did not show: tolerated below the grace, then torn down.
unfoldable pub miss : ℕ → Entry → ℕ → Manager → Effect
miss k e now m =
    let e' = record e { missing = suc e.missing } in
    if ltb (suc e.missing) m.grace
    then quiet (record m { entries = insert k e' m.entries })
    else drop_entry k (close_if_open m e' e.fwd (codes "remote service went away") now)

unfoldable pub seen : ℕ → Snapshot → Bool
seen k snap = elim (lookup k snap) [ none ↦ false | some s ↦ true ]

-- The loop over the entries.
unfoldable pub sweep : List (ℕ × Entry) → Snapshot → ℕ → Manager → Effect
sweep [] snap now m = quiet m
sweep ((k, e) ∷ es) snap now m =
    after (if seen k snap then quiet m else miss k e now m) (sweep es snap now)

-- `Sync`.
unfoldable pub sync : Manager → Snapshot → ℕ → Effect
sync m snap now = after (see_all snap now (take_baseline m snap)) λ n. sweep n.entries snap now n
