-- ===== src/Probe/Monitor.antt =====
-- internal/probe/monitor.go: the monitor, which reads what the prober on the remote host prints and
-- delivers a snapshot for each scan. The lookup of command lines runs beside the reading: it is a
-- turn of its own, with what the remote answers.
pub mod Frames
pub mod Feeding
use autotun.Base.{
  ℕ, zero, suc, Bool, true, false, not, ◌&&◌, ◌||◌, List, [], ◌∷◌, ◌++◌, Option, none, some, ◌==◌,
  nat_eq, int_eq, list_eq, list_beq, if◌then◌else◌, leb, length, ℤ, pos,
}
use autotun.Assoc.{lookup, insert}
use autotun.Text.{Text, codes, is_empty, cut, has_prefix, trim_prefix, trim_space, fields, join}
use autotun.Text.Decimal.{atoi}
use autotun.Probe.Service.{Service, Snapshot}
use autotun.Probe.Merge.{Listener, merge}
use autotun.Probe.Parse.{parse_ss, trim_return, lines_of, field}
use autotun.Probe.Tools.{parse_netstat, parse_lsof}
use autotun.Probe.Proc.{parse_proc}

-- `Mode` and `ParseMode`.
pub data ScanMode : Type 0 where
  ss lsof netstat proc : ScanMode

unfoldable pub parse_scan_mode : Text → Option ScanMode
unfolding list_beq
parse_scan_mode s =
    if codes "ss" == s
    then some ss
    else if codes "lsof" == s
    then some lsof
    else if codes "netstat" == s
    then some netstat
    else if codes "proc" == s
    then some proc
    else none

-- The markers.
abbrev pub mark_ready : Text
mark_ready = codes "@@AUTOTUN-READY"

abbrev pub mark_scan : Text
mark_scan = codes "@@AUTOTUN-SCAN"

abbrev pub mark_sock_map : Text
mark_sock_map = codes "@@AUTOTUN-SOCKMAP"

abbrev pub mark_end : Text
mark_end = codes "@@AUTOTUN-END"

abbrev pub mark_error : Text
mark_error = codes "@@AUTOTUN-ERROR"

-- `Info`; the version is always 1.
pub record Info : Type 0 where
  pub mode : ScanMode
  pub os : Text

-- `Monitor`: the command lines that are known, and the pids that were asked for.
pub record Monitor : Type 0 where
  pub cmdlines : List (ℤ × Text)
  pub unknown : List ℤ

-- Why the reading ends.
pub data Stop : Type 0 where
  remote_error : Text → Stop
  bad_mode : Text → Stop
  read_error : Text → Stop
  no_output canceled eof : Stop

-- The variables of `consume`, with what it has handed to `onReady` and `onScan` and the pids that it
-- has asked for, and the reason if it has returned.
pub record Reading : Type 0 where
  pub monitor : Monitor
  pub mode : Option ScanMode
  pub ready : Bool
  pub in_scan : Bool
  pub in_sock_map : Bool
  pub body : Text
  pub sock_map : Text
  pub infos : List Info
  pub scans : List Snapshot
  pub asked : List (List ℤ)
  pub stop : Option Stop

-- `NewMonitor` and the variables at the start of `consume`; the mode is empty there.
unfoldable pub start : Reading
start = record {
  monitor = record { cmdlines = []; unknown = [] };
  mode = none;
  ready = false;
  in_scan = false;
  in_sock_map = false;
  body = [];
  sock_map = [];
  infos = [];
  scans = [];
  asked = [];
  stop = none;
}

-- The part of `build` that fills in the command lines, on one service and on the snapshot. The pids
-- that are asked for come out in the order of the snapshot.
abbrev pub asked_for : ℤ → List ℤ → Bool
asked_for p [] = false
asked_for p (q ∷ qs) = q == p || asked_for p qs

abbrev pub filled : Service → Option Text → Service
filled s none = s
filled s (some cmd) = record s { cmd = cmd }

unfoldable pub fill : List (ℤ × Text) → Snapshot → Snapshot
unfolding lookup
fill cmdlines [] = []
fill cmdlines ((port, s) ∷ snap) =
    let rest = fill cmdlines snap in
    if s.pid == pos 0 then (port, s) ∷ rest else (port, filled s (lookup s.pid cmdlines)) ∷ rest

abbrev pub is_known : Option Text → Bool
is_known none = false
is_known (some cmd) = true

unfoldable pub needed : Monitor → Snapshot → List ℤ
unfolding lookup
needed m [] = []
needed m ((port, s) ∷ snap) =
    if s.pid == pos 0 || is_known (lookup s.pid m.cmdlines) || asked_for s.pid m.unknown
    then needed m snap
    else s.pid ∷ needed (record m { unknown = s.pid ∷ m.unknown }) snap

-- The parser of a mode.
unfoldable pub parse_body : Option ScanMode → Text → Text → List Listener
unfolding parse_ss parse_lsof parse_netstat parse_proc
parse_body none body sock_map = []
parse_body (some ss) body sock_map = parse_ss body
parse_body (some lsof) body sock_map = parse_lsof body
parse_body (some netstat) body sock_map = parse_netstat body
parse_body (some proc) body sock_map = parse_proc body sock_map

abbrev pub asking : List ℤ → List (List ℤ) → List (List ℤ)
asking [] asked = asked
asking (p ∷ ps) asked = asked ++ (p ∷ ps) ∷ []

-- The end of a scan: `build`, and the call of `onScan`.
unfoldable pub deliver : Reading → Reading
unfolding parse_body merge fill needed
deliver r =
    let snap = merge (parse_body r.mode r.body r.sock_map) in
    let need = needed r.monitor snap in
    record r {
      in_scan = false;
      in_sock_map = false;
      monitor = record (r.monitor) { unknown = need ++ (r.monitor).unknown };
      scans = r.scans ++ fill (r.monitor).cmdlines snap ∷ [];
      asked = asking need r.asked;
    }

-- A line with the marker of readiness.
abbrev pub reported_mode : List Text → Option ScanMode
reported_mode f = if leb 3 (length f) then parse_scan_mode (field 2 f) else some ss

abbrev pub reported_os : List Text → Text
reported_os f = if leb 4 (length f) then field 3 f else []

abbrev pub readied : List Text → Option ScanMode → Reading → Reading
readied f none r = record r { stop = some (bad_mode (field 2 f)) }
readied f (some mode) r = record r {
  mode = some mode;
  ready = true;
  infos = r.infos ++ record { mode = mode; os = reported_os f } ∷ [];
}

-- One line of `consume`.
unfoldable pub line_read : Text → Reading → Reading
unfolding has_prefix trim_prefix trim_space fields parse_scan_mode deliver list_beq
line_read line r =
    if has_prefix mark_error line
    then record r { stop = some (remote_error (trim_space (trim_prefix mark_error line))) }
    else if has_prefix mark_ready line
    then readied (fields line) (reported_mode (fields line)) r
    else if line == mark_scan
    then record r { in_scan = true; in_sock_map = false; body = []; sock_map = [] }
    else if line == mark_sock_map
    then record r { in_sock_map = true }
    else if line == mark_end
    then (if r.in_scan then deliver r else r)
    else if r.in_sock_map
    then record r { sock_map = r.sock_map ++ (line ++ 10 ∷ []) }
    else if r.in_scan
    then record r { body = r.body ++ (line ++ 10 ∷ []) }
    else r

-- `ParseCmdlines`.
abbrev pub cmdline_found : Option ℤ → Text → List (ℤ × Text) → List (ℤ × Text)
cmdline_found none cmd found = found
cmdline_found (some pid) cmd found = if is_empty cmd then found else insert pid cmd found

unfoldable pub parse_cmdlines : List Text → List (ℤ × Text) → List (ℤ × Text)
unfolding cut trim_return trim_space atoi fields join insert
parse_cmdlines [] found = found
parse_cmdlines (l ∷ ls) found = elim (cut 9 (trim_return l)) [
  | none ↦ parse_cmdlines ls found
  | some (pid, cmd) ↦
      parse_cmdlines ls
        (cmdline_found (atoi (trim_space pid)) (join (codes " ") (fields cmd)) found)
]

-- `resolve`, once the remote has answered; `none` is a failure.
abbrev pub without : List ℤ → List ℤ → List ℤ
without ps [] = []
without ps (q ∷ qs) = let rest = without ps qs in if asked_for q ps then rest else q ∷ rest

abbrev pub learn : List (ℤ × Text) → List (ℤ × Text) → List (ℤ × Text)
learn [] known = known
learn ((pid, cmd) ∷ found) known = learn found (insert pid cmd known)

unfoldable pub resolved : List ℤ → Option Text → Monitor → Monitor
unfolding parse_cmdlines insert
resolved pids none m = record m { unknown = without pids m.unknown }
resolved pids (some out) m = record m {
  cmdlines = learn (parse_cmdlines (lines_of out) []) m.cmdlines;
}

-- What happens while the monitor runs: a line is read, after which the session may have been
-- canceled; or an answer to a lookup of command lines comes in.
pub data Turn : Type 0 where
  line : Text → Bool → Turn
  answer : List ℤ → Option Text → Turn

abbrev pub is_stopped : Option Stop → Bool
is_stopped none = false
is_stopped (some why) = true

-- An end marker outside of a scan skips the test whether the session was canceled.
abbrev pub skips_test : Text → Reading → Bool
skips_test t r = t == mark_end && not r.in_scan

abbrev pub after_line : Bool → Reading → Reading
after_line stopping r =
    if stopping && not (is_stopped r.stop) then record r { stop = some canceled } else r

unfoldable pub turn : Turn → Reading → Reading
unfolding line_read resolved list_beq
turn (line t canceling) r =
    if is_stopped r.stop then r else after_line (canceling && not (skips_test t r)) (line_read t r)
turn (answer pids out) r = record r { monitor = resolved pids out r.monitor }

unfoldable pub turns : List Turn → Reading → Reading
unfolding turn
turns [] r = r
turns (t ∷ ts) r = turns ts (turn t r)

-- How `consume` returns when the stream has ended; the scanner may have failed.
abbrev pub stream_end : Option Text → Bool → Stop
stream_end (some e) ready = read_error e
stream_end none false = no_output
stream_end none true = eof

unfoldable pub reason : Option Text → Reading → Stop
reason failed r = elim r.stop [ some why ↦ why | none ↦ stream_end failed r.ready ]
