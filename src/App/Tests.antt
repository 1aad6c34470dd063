-- ===== src/App/Tests.antt =====
-- Runs of the supervisor (internal/app/app.go).
use autotun.Base.{ℕ, ◌≡◌, refl, true, false, List, [], ◌∷◌, none, some, nat_eq, count, pos, arith}
use autotun.Assoc.{lookup}
use autotun.Text.{codes}
use autotun.Probe.Service.{Service, Snapshot, KeyedSnapshot}
use autotun.Tunnel.Policy.{default_policy}
use autotun.Tunnel.Alloc.{Os, Allocator, refuses, grants}
use autotun.Tunnel.Manager.{Manager, Entry, new}
use autotun.Tunnel.Manager.Steps.{syncs, mode}
use autotun.App.Supervisor.{
  Pass, refused, linked, eof, supervise, passes, pass, session, take_answer, wait, backoff_start,
  backoff_max, next_backoff,
}
use autotun.App.Supervisor.Backoff.{Refused, Searching, passes-Refused}
use autotun.App.Supervisor.Offline.{IsPass, passes_offline}

abbrev web_server : Service
web_server = record {
  port = 3000;
  binds = record { proto = codes "tcp"; addr = codes "127.0.0.1" } ∷ [];
  pid = pos 12;
  proc = codes "node";
  cmd = codes "node server";
}

abbrev scan : Snapshot
scan = (3000, web_server) ∷ []

-- The link is up for two scans and a key of the user, and is lost; the user presses a key while the
-- supervisor waits.
abbrev lost : Pass
lost = record {
  canceled = false;
  gave_up = false;
  quit = false;
  answer = linked 2;
  answered = 1;
  mode = some (codes "ss");
  calls = (2, syncs []) ∷ (3, syncs scan) ∷ (4, mode 3000) ∷ [];
  ending = eof;
  ended = 5;
  idle = (6, mode 3000) ∷ [];
  woken = true;
}

abbrev unreachable : Pass
unreachable = record lost { answer = refused (codes "no route to host"); calls = []; idle = [] }

scan-Keyed : KeyedSnapshot scan
scan-Keyed = ((refl, omega arith), tt)

lost-IsPass : IsPass lost
lost-IsPass = (((tt, (scan-Keyed, (tt, tt))), (tt, (tt, (tt, tt)))), ((tt, tt), (tt, tt)))

unreachable-Refused : Refused unreachable
unreachable-Refused = record {
  canceled = refl;
  gave_up = refl;
  why = codes "no route to host";
  answer = refl;
  woken = refl;
}

abbrev system : Os
system = record { ours = []; answers = grants 3000 ∷ refuses (codes "in use") ∷ [] }

abbrev allocator : Allocator
allocator = record { bind = codes "127.0.0.1"; same_port = false; sticky = [] }

abbrev history : List Pass
history = unreachable ∷ lost ∷ []

abbrev fresh : Manager
fresh = new allocator system (some 1) default_policy 2 (codes "box") none

history_runs : (passes (supervise fresh (some 1)) (lost ∷ history)).returned ≡ false
unfolding passes pass session take_answer wait supervise
history_runs = refl

passes_offline_example :
    let n = (passes (supervise fresh (some 1)) (lost ∷ history)).mgr in
    ((k : ℕ) (e : Entry) → lookup k n.entries ≡ some e → e.fwd ≡ none)
    × ((i : ℕ) → count i n.os.ours ≡ 0)
passes_offline_example =
    passes_offline allocator system (some 1) default_policy 2 (codes "box") none lost history refl
      (lost-IsPass, (((tt, tt), (tt, tt)), (lost-IsPass, tt))) history_runs

passes-Refused_example :
    Searching 2 2 (passes (supervise fresh none) (unreachable ∷ unreachable ∷ []))
passes-Refused_example =
    passes-Refused fresh (unreachable ∷ unreachable ∷ [])
      (unreachable-Refused, (unreachable-Refused, tt))

-- Half a minute is the longest wait.
capped_backoff : next_backoff (next_backoff 16000000000) ≡ backoff_max
unfolding next_backoff
capped_backoff = refl

-- A link that came up makes the next wait a short one.
reset_backoff :
    (passes (supervise fresh none) (unreachable ∷ history)).backoff ≡ next_backoff backoff_start
unfolding passes pass session take_answer wait supervise
reset_backoff = refl
