-- ===== src/App/Supervisor.antt =====
-- internal/app/app.go: the supervisor, which keeps a connection and a monitor on it. A pass of its
-- loop is one step, with what the rest of the program and the world do during it as data: whether
-- the program is ending, what `sshx.Connect` answers, the calls that the monitor, the user and the
-- browser bridge make of the manager while the connection is up and while the supervisor waits, and
-- how the monitor ends. Times and durations are in nanoseconds. The browser bridge that is installed
-- on the connection and the closing of the client are calls of other packages.
pub mod Offline
pub mod Backoff
use autotun.Base.{
  ℕ, suc, ◌+◌, Bool, true, false, ◌||◌, List, [], ◌∷◌, ◌++◌, Option, none, some, if◌then◌else◌, ltb,
}
use autotun.Text.{Text, codes}
use autotun.Tunnel.Manager.{Manager}
use autotun.Tunnel.Manager.Control.{set_dialer}
use autotun.Tunnel.Manager.Steps.{Call, run}
use autotun.Ui.Model.{StatusMsg, ConnState, probing, connected, reconnecting, disconnected}

abbrev pub backoff_start : ℕ
backoff_start = 1000000000

abbrev pub backoff_max : ℕ
backoff_max = 30000000000

-- `nextBackoff`.
unfoldable pub next_backoff : ℕ → ℕ
next_backoff d = if ltb backoff_max (d + d) then backoff_max else d + d

-- What `sshx.Connect` answers; a client is the number of the connection.
pub data Connection : Type 0 where
  refused : Text → Connection
  linked : ℕ → Connection

-- How `Monitor.Run` returns: the end of the stream, or another error.
pub data Ending : Type 0 where
  eof : Ending
  failed : Text → Ending

pub record Pass : Type 0 where
  -- The context has ended: before the pass, while it connected, when the monitor returned.
  pub canceled : Bool
  pub gave_up : Bool
  pub quit : Bool
  -- What `sshx.Connect` answers, and when.
  pub answer : Connection
  pub answered : ℕ
  -- The mode that the monitor reports, and the manager's calls while it runs.
  pub mode : Option Text
  pub calls : List (ℕ × Call)
  pub ending : Ending
  pub ended : ℕ
  -- The manager's calls during the wait, and whether the timer or a retry ended it.
  pub idle : List (ℕ × Call)
  pub woken : Bool

-- The variables of `run`, with the statuses that it has reported and whether it has returned.
pub record Supervisor : Type 0 where
  pub mgr : Manager
  pub client : Option ℕ
  pub backoff : ℕ
  pub attempt : ℕ
  pub reports : List StatusMsg
  pub returned : Bool

-- `run` before its loop.
unfoldable pub supervise : Manager → Option ℕ → Supervisor
supervise m client = record {
  mgr = m;
  client = client;
  backoff = backoff_start;
  attempt = 0;
  reports = [];
  returned = false;
}

abbrev pub bare_status : ConnState → StatusMsg
bare_status st = record { state = st; mode = []; detail = []; attempt = 0; next_retry = 0 }

abbrev pub report : StatusMsg → Supervisor → Supervisor
report msg s = record s { reports = s.reports ++ (msg ∷ []) }

abbrev pub report_mode : Option Text → Supervisor → Supervisor
report_mode none s = s
report_mode (some mode) s = report (record (bare_status connected) { mode = mode }) s

abbrev pub ending_text : Ending → Text
ending_text eof = codes "connection closed"
ending_text (failed detail) = detail

-- `wait`, with the rest of the pass.
unfoldable pub wait : Pass → Supervisor → Supervisor
wait p s =
    let m = run s.mgr p.idle in
    if p.woken
    then record s { mgr = m; backoff = next_backoff s.backoff }
    else record s { mgr = m; returned = true }

-- The connection is up until the monitor returns.
unfoldable pub session : Pass → Supervisor → Supervisor
session p s =
    let up =
      report_mode p.mode
        (report (bare_status probing) (record s { attempt = 0; backoff = backoff_start })) in
    let down = record up {
      mgr = (set_dialer (run s.mgr p.calls) none p.ended).mgr;
      client = none;
    } in
    let msg = record (bare_status disconnected) {
      detail = ending_text p.ending;
      next_retry = p.ended + backoff_start;
    } in
    if p.quit then record down { returned = true } else wait p (report msg down)

-- An answer of `sshx.Connect`.
unfoldable pub take_answer : Pass → Connection → Supervisor → Supervisor
take_answer p (refused why) s =
    let msg = record (bare_status disconnected) {
      detail = why;
      attempt = s.attempt;
      next_retry = p.answered + s.backoff;
    } in
    if p.gave_up then record s { returned = true } else wait p (report msg s)
take_answer p (linked c) s =
    session p (record s { client = some c; mgr = (set_dialer s.mgr (some c) p.answered).mgr })

abbrev pub connect : Pass → Supervisor → Supervisor
connect p s =
    let msg = record (bare_status reconnecting) { attempt = suc s.attempt } in
    take_answer p p.answer (report msg (record s { attempt = suc s.attempt }))

abbrev pub with_client : Pass → Supervisor → Option ℕ → Supervisor
with_client p s none = connect p s
with_client p s (some c) = session p s

-- A pass of the loop of `run`.
unfoldable pub pass : Supervisor → Pass → Supervisor
pass s p =
    if s.returned || p.canceled then record s { returned = true } else with_client p s s.client

unfoldable pub passes : Supervisor → List Pass → Supervisor
passes s [] = s
passes s (p ∷ ps) = passes (pass s p) ps
