-- ===== src/Probe/Monitor/Feeding.antt =====
-- What the monitor (internal/probe/monitor.go) does on an error of the remote, and what the tunnel
-- manager (internal/tunnel/manager.go) makes of its scans.
use autotun.Base.{
  ℕ, suc, ◌≡◌, refl, ap, ◌∙◌, inl, inr, Bool, true, false, not, ◌&&◌, List, [], ◌∷◌, ◌++◌, Option,
  none, some, ◌==◌, nat_eq, int_eq, list_eq, if◌then◌else◌, ℤ, pos, All, All-append, Bool-cases,
}
use autotun.Assoc.{lookup}
use autotun.Text.{Text, has_prefix, trim_space, fields}
use autotun.Probe.Service.{Service, Snapshot, KeyedSnapshot}
use autotun.Probe.Merge.Result.{merge-KeyedSnapshot}
use autotun.Probe.Monitor.{
  mark_ready, mark_scan, mark_sock_map, mark_end, mark_error, ScanMode, Reading, start, Stop,
  remote_error, filled, fill, parse_body, deliver, reported_mode, readied, line_read, skips_test,
  Turn, line, answer, is_stopped, turn, turns, reason,
}
use autotun.Tunnel.Manager.{Manager}
use autotun.Tunnel.Manager.Invariant.{Inv}
use autotun.Tunnel.Manager.Steps.{Call, IsCall, syncs, run}
use autotun.Tunnel.Manager.History.{run-Inv}

-- Nothing is delivered after the reading has ended.
record Ended (r s : Reading) : Type 0 where
  scans : s.scans ≡ r.scans
  infos : s.infos ≡ r.infos
  stop : s.stop ≡ r.stop

turn-Ended : (t : Turn) (r : Reading) → is_stopped r.stop ≡ true → Ended r (turn t r)
unfolding turn
turn-Ended (line t c) r h = rw h (record { scans = refl; infos = refl; stop = refl })
turn-Ended (answer pids out) r h = record { scans = refl; infos = refl; stop = refl }

turns-Ended : (ts : List Turn) (r : Reading) → is_stopped r.stop ≡ true → Ended r (turns ts r)
unfolding turns
turns-Ended [] r h = record { scans = refl; infos = refl; stop = refl }
turns-Ended (t ∷ ts) r h =
    let a = turn-Ended t r h in
    let b = turns-Ended ts (turn t r) (ap is_stopped a.stop ∙ h) in
    record { scans = b.scans ∙ a.scans; infos = b.infos ∙ a.infos; stop = b.stop ∙ a.stop }

error_line :
    (msg : Text) (r : Reading)
    → line_read (mark_error ++ msg) r ≡ record r { stop = some (remote_error (trim_space msg)) }
unfolding line_read
error_line msg r = refl

reason_stop :
    (failed : Option Text) (r : Reading) (why : Stop) → r.stop ≡ some why → reason failed r ≡ why
unfolding reason
reason_stop failed r why e = rw e refl

error_turn :
    (msg : Text) (c : Bool) (r : Reading)
    → r.stop ≡ none
    → turn (line (mark_error ++ msg) c) r ≡ record r { stop = some (remote_error (trim_space msg)) }
unfolding turn line_read
error_turn msg c r e =
    let stopped = record r { stop = some (remote_error (trim_space msg)) } in
    elim (Bool-cases (c && not (skips_test (mark_error ++ msg) r))) [
      | inl q ↦ rw q (ap (λ b. if b then r else stopped) (ap is_stopped e))
      | inr q ↦ rw q (ap (λ b. if b then r else stopped) (ap is_stopped e))
    ]

-- An error that the prober reports ends the reading with the text of the error, and nothing that
-- follows it in the stream is delivered.
pub error_ends :
    (msg : Text) (c : Bool) (ts : List Turn) (failed : Option Text) (r : Reading)
    → r.stop ≡ none
    → let s = turns (line (mark_error ++ msg) c ∷ ts) r in
      (s.scans ≡ r.scans) × (s.infos ≡ r.infos) × (reason failed s ≡ remote_error (trim_space msg))
unfolding turns
error_ends msg c ts failed r e =
    let r' = record r { stop = some (remote_error (trim_space msg)) } in
    let q = ap (turns ts) (error_turn msg c r e) in
    let d = turns-Ended ts r' refl in
    (
      ap (λ x. x.scans) q ∙ d.scans,
      ap (λ x. x.infos) q ∙ d.infos,
      reason_stop failed (turns ts (turn (line (mark_error ++ msg) c) r))
          (remote_error (trim_space msg)) (ap (λ x. x.stop) q ∙ d.stop),
    )

-- The snapshots of the monitor are ones that the manager takes.
filled-port : (s : Service) (o : Option Text) → (filled s o).port ≡ s.port
filled-port s none = refl
filled-port s (some cmd) = refl

fill-KeyedSnapshot :
    (cmds : List (ℤ × Text)) (snap : Snapshot) → KeyedSnapshot snap → KeyedSnapshot (fill cmds snap)
unfolding fill
fill-KeyedSnapshot cmds [] h = tt
fill-KeyedSnapshot cmds ((p, s) ∷ snap) h = elim (Bool-cases (s.pid == pos 0)) [
  | inl e ↦ rw e (h.0, fill-KeyedSnapshot cmds snap h.1)
  | inr e ↦
      rw e ((filled-port s (lookup s.pid cmds) ∙ h.0.0, h.0.1), fill-KeyedSnapshot cmds snap h.1)
]

-- All that was delivered is keyed.
abbrev pub Keyed : Reading → Type 0
Keyed r = All KeyedSnapshot r.scans

if-Keyed : (b : Bool) (r s : Reading) → Keyed r → Keyed s → Keyed (if b then r else s)
if-Keyed true r s h k = h
if-Keyed false r s h k = k

readied-Keyed :
    (f : List Text) (o : Option ScanMode) (r : Reading) → Keyed r → Keyed (readied f o r)
readied-Keyed f none r h = h
readied-Keyed f (some mode) r h = h

deliver-Keyed : (r : Reading) → All KeyedSnapshot r.scans → All KeyedSnapshot (deliver r).scans
unfolding deliver
deliver-Keyed r h =
    All-append KeyedSnapshot r.scans _ h
      (fill-KeyedSnapshot _ _ (merge-KeyedSnapshot (parse_body r.mode r.body r.sock_map)), tt)

line_read-Keyed :
    (t : Text) (r : Reading) → All KeyedSnapshot r.scans → All KeyedSnapshot (line_read t r).scans
unfolding line_read
line_read-Keyed t r h = if-Keyed (has_prefix mark_error t) _ _ h (
    if-Keyed (has_prefix mark_ready t) _ _ (readied-Keyed (fields t) (reported_mode (fields t)) r h)
      (if-Keyed (t == mark_scan) _ _ h (
        if-Keyed (t == mark_sock_map) _ _ h (
          if-Keyed (t == mark_end) _ _ (if-Keyed r.in_scan _ _ (deliver-Keyed r h) h)
            (if-Keyed r.in_sock_map _ _ h (if-Keyed r.in_scan _ _ h h))))))

turn-Keyed : (t : Turn) (r : Reading) → Keyed r → Keyed (turn t r)
unfolding turn
turn-Keyed (line t c) r h =
    if-Keyed (is_stopped r.stop) _ _ h
      (if-Keyed _ _ _ (line_read-Keyed t r h) (line_read-Keyed t r h))
turn-Keyed (answer pids out) r h = h

turns-Keyed : (ts : List Turn) (r : Reading) → Keyed r → Keyed (turns ts r)
unfolding turns
turns-Keyed [] r h = h
turns-Keyed (t ∷ ts) r h = turns-Keyed ts (turn t r) (turn-Keyed t r h)

-- The scans as calls of the manager, each at a time of its own.
abbrev pub calls_at : (ℕ → ℕ) → ℕ → List Snapshot → List (ℕ × Call)
calls_at clock i [] = []
calls_at clock i (s ∷ ss) = (clock i, syncs s) ∷ calls_at clock (suc i) ss

calls_at-IsCall :
    (clock : ℕ → ℕ) (i : ℕ) (ss : List Snapshot)
    → All KeyedSnapshot ss
    → All IsCall (calls_at clock i ss)
calls_at-IsCall clock i [] h = tt
calls_at-IsCall clock i (s ∷ ss) h = (h.0, calls_at-IsCall clock (suc i) ss h.1)

-- Whatever the remote prints, and whenever the answers about command lines come in, a manager that
-- satisfies its invariant still satisfies it after it has taken every snapshot that the monitor
-- delivers.
pub run_scans-Inv :
    (ts : List Turn) (clock : ℕ → ℕ) (m : Manager)
    → Inv m
    → Inv (run m (calls_at clock 0 (turns ts start).scans))
run_scans-Inv ts clock m v =
    run-Inv m _
      (calls_at-IsCall clock 0 (turns ts start).scans (turns-Keyed ts start (unfold start in tt))) v
