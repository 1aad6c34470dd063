-- ===== src/Tunnel/Manager/Tests.antt =====
-- The manager (internal/tunnel/manager.go) along histories that can be followed in the source.
use autotun.Base.{
  ◌∙◌, ap, length, ◌+◌, ℕ, ◌≡◌, refl, Bool, true, false, List, [], ◌∷◌, none, some, pos, nat_eq,
  list_eq, arith, count, ◌≤◌, All,
}
use autotun.Assoc.{lookup, insert}
use autotun.Text.{codes}
use autotun.Probe.Service.{Service, Snapshot, KeyedSnapshot, dial_addr}
use autotun.Config.Mode.{auto}
use autotun.Config.Store.{Store, port, host_at}
use autotun.Config.Ports.{IsWell}
use autotun.Tunnel.Scheme.{unknown}
use autotun.Tunnel.Policy.{Policy, default_policy, skip_none, eval, eval_window}
use autotun.Tunnel.PortSet.{contains}
use autotun.Tunnel.Manager.Apply.{apply, open_entry, take_outcome}
use autotun.Tunnel.Alloc.{
  Allocator, Os, grants, refuses, allocate, try_sticky, take_sticky, take_mirror, take_ephemeral,
  listen, answered, settle, remember,
}
use autotun.Tunnel.Forward.{Forwarder, new_forwarder}
use autotun.Tunnel.Manager.{Manager, Entry, new, want}
use autotun.Tunnel.Manager.Sync.{sync, new_entry, sweep, see_all, see, refresh, take_baseline, seen}
use autotun.Tunnel.Manager.Control.{persist, forward_now, set_label, set_policy}
use autotun.Tunnel.Manager.Balance.{holders}
use autotun.Tunnel.Manager.Invariant.{Inv}
use autotun.Tunnel.Manager.Preserve.{sync-Inv}
use autotun.Tunnel.Manager.Absent.{left}
use autotun.Tunnel.Manager.Absent.Scans.{scans, Misses, scans-left}
use autotun.Tunnel.Manager.Steps.{Call, syncs, step, run, IsCall}
use autotun.Tunnel.Manager.History.{new-Inv, run-Inv, run-Placed, run-owned, Placed}
use autotun.Tunnel.Manager.Memory.{new_entry-remembers}
use autotun.Tunnel.Manager.Session.{set_label-forward_now}
use autotun.Tunnel.Manager.Pause.{set_policy_pause_keeps}
use autotun.Tunnel.Manager.Rows.{
  states, counts, open_entries, close_all, close_all-count, counts-states,
}

abbrev service_on : ℕ → Service
service_on p = record {
  port = p;
  binds = record { proto = codes "tcp"; addr = codes "127.0.0.1" } ∷ [];
  pid = pos 12;
  proc = codes "node";
  cmd = codes "node server";
}

abbrev two_services : Snapshot
two_services = (4000, service_on 4000) ∷ (3000, service_on 3000) ∷ []

two_services-Keyed : KeyedSnapshot two_services
two_services-Keyed = ((refl, omega arith), ((refl, omega arith), tt))

-- The local port 4000 is taken by another process, and the system gives 45000 instead.
abbrev system : Os
system = record { ours = []; answers = refuses (codes "in use") ∷ grants 45000 ∷ grants 0 ∷ [] }

abbrev local_allocator : Allocator
local_allocator = record { bind = codes "127.0.0.1"; same_port = false; sticky = [] }

abbrev saved : Store
saved = record { path = codes "hosts.yml"; hosts = []; dirty = false }

saved-IsWell : IsWell saved
unfolding host_at lookup
saved-IsWell = record { hosts_map = tt; ports_map = λ name. tt }

abbrev window : Policy
window = default_policy

abbrev calls : List (ℕ × Call)
calls = (1, syncs []) ∷ (2, syncs two_services) ∷ []

calls-IsCall : All IsCall calls
calls-IsCall = (tt, (two_services-Keyed, tt))

abbrev start : Manager
start = new local_allocator system (some 1) window 2 (codes "box") none

abbrev running : Manager
running = run start calls

abbrev tunnel_to : ℕ → ℕ → Bool → Forwarder
tunnel_to p local remapped = new_forwarder local 1 (dial_addr (service_on p)) remapped 2

abbrev entry_on : ℕ → Forwarder → Entry
entry_on p f = record {
  svc = service_on p;
  fwd = some f;
  skip = skip_none;
  err = [];
  mode = auto;
  pinned_local = pos 0;
  label = [];
  preexisting = false;
  paused_keep = false;
  first_seen = 2;
  missing = 0;
  scheme = unknown;
  pinned = false;
}

abbrev on_3000 : Entry
on_3000 = entry_on 3000 (tunnel_to 3000 3000 false)

abbrev on_4000 : Entry
on_4000 = entry_on 4000 (tunnel_to 4000 45000 true)

found_3000 : lookup 3000 running.entries ≡ some on_3000
unfolding run step sync sweep see_all see insert lookup apply want refresh take_baseline new
    new_entry default_policy eval eval_window contains open_entry allocate try_sticky take_sticky
    take_mirror take_ephemeral listen answered settle remember take_outcome seen
found_3000 = refl

found_4000 : lookup 4000 running.entries ≡ some on_4000
unfolding run step sync sweep see_all see insert lookup apply want refresh take_baseline new
    new_entry default_policy eval eval_window contains open_entry allocate try_sticky take_sticky
    take_mirror take_ephemeral listen answered settle remember take_outcome seen
found_4000 = refl

running_unpaused : running.policy.paused ≡ false
unfolding run step sync sweep see_all see insert lookup apply want refresh take_baseline new
    new_entry default_policy eval eval_window contains open_entry allocate try_sticky take_sticky
    take_mirror take_ephemeral listen answered settle remember take_outcome seen
running_unpaused = refl

running-Inv : Inv running
running-Inv =
    run-Inv start calls calls-IsCall
      (new-Inv local_allocator system (some 1) window 2 (codes "box") none refl)

run-Placed_example : Placed running.policy running.dialer on_4000
run-Placed_example =
    run-Placed local_allocator system (some 1) window 2 (codes "box") none calls 4000 on_4000 refl
      calls-IsCall found_4000

run-owned_example :
    (count 45000 running.os.ours ≡ holders 45000 running.entries)
    × (count 45000 running.os.ours ≤ 1)
run-owned_example =
    run-owned local_allocator system (some 1) window 2 (codes "box") none calls 45000 refl
      calls-IsCall

sync-Inv_example : Inv (sync running two_services 3).mgr
sync-Inv_example = sync-Inv running two_services 3 two_services-Keyed running-Inv

close_all-count_example :
    (count 45000 (close_all running).os.ours ≡ 0) × (holders 45000 (close_all running).entries ≡ 0)
close_all-count_example = close_all-count running 45000 running-Inv

set_policy_pause_keeps_example :
    (d : Entry) × (lookup 3000 (set_policy running (record window { paused = true }) 5).mgr.entries
      ≡ some d)
    × (d.fwd ≡ some (tunnel_to 3000 3000 false))
set_policy_pause_keeps_example =
    set_policy_pause_keeps running (record window { paused = true }) 5 3000 on_3000
      (tunnel_to 3000 3000 false) running_unpaused refl found_3000 refl refl

-- A manager that writes to settings.
abbrev listed : Manager
listed = record running { settings = some saved }

new_entry-remembers_example :
    let n = new_entry (persist listed 3000) 3000 (service_on 3000) 9 in
    (n.mode ≡ auto)
    × (n.label ≡ [])
    × (n.pinned_local ≡ pos 0)
    × (n.scheme ≡ unknown)
    × (n.pinned ≡ false)
new_entry-remembers_example =
    new_entry-remembers listed 3000 (service_on 3000) 9 saved on_3000 refl saved-IsWell found_3000
      (λ h. absurd (cc h))

set_label-forward_now_example :
    ((forward_now listed 3000 5).mgr.settings ≡ some saved)
    × ((st : Store) × ((set_label (forward_now listed 3000 5).mgr 3000 (codes "web")).settings
          ≡ some st)
        × ((port st listed.host 3000).mode ≡ codes "on"))
set_label-forward_now_example =
    set_label-forward_now listed 3000 5 (codes "web") saved on_3000 refl saved-IsWell found_3000
      refl

counts-states_example :
    ((counts running).actives ≡ open_entries running.entries)
    × ((counts running).actives + (counts running).skips + (counts running).fails
        ≡ length (states running))
counts-states_example = counts-states running

-- Two scans that show neither port, as many as the grace.
abbrev empty_scan : ℕ → ℕ × Snapshot
empty_scan now = (now, [])

empty_scan-Misses : (k now : ℕ) → Misses k (empty_scan now)
unfolding seen lookup
empty_scan-Misses k now = (tt, refl)

running_grace : running.grace ≡ 2
unfolding run step sync sweep see_all see insert lookup apply want refresh take_baseline new
    new_entry default_policy eval eval_window contains open_entry allocate try_sticky take_sticky
    take_mirror take_ephemeral listen answered settle remember take_outcome seen
running_grace = refl

scans-left_example :
    lookup 3000 (run running (scans (empty_scan 3 ∷ empty_scan 4 ∷ []))).entries ≡ none
scans-left_example =
    scans-left 3000 on_3000 3 [] (empty_scan 4 ∷ []) running running-Inv
      (empty_scan-Misses 3000 3, (empty_scan-Misses 3000 4, tt)) found_3000
    ∙ ap (λ g. left g 2 on_3000) running_grace
