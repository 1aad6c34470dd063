-- ===== src/Tunnel/Manager/Steps.antt =====
-- The calls that the poller, the user, the browser bridge and the connection make. Each holds the
-- lock of the manager (internal/tunnel/manager.go), so that a history is a list of them.
use autotun.Base.{ℕ, List, [], ◌∷◌, Option, nat_eq, ℤ}
use autotun.Text.{Text}
use autotun.Probe.Service.{KeyedSnapshot, Snapshot}
use autotun.Tunnel.Scheme.{Scheme}
use autotun.Tunnel.Policy.{Policy}
use autotun.Tunnel.Manager.{Manager}
use autotun.Tunnel.Manager.Sync.{Effect, quiet, sync}
use autotun.Tunnel.Manager.Control.{
  observe_scheme, cycle_scheme, set_scheme, set_label, cycle_mode, forward_now, set_local_port,
  move_local, set_policy, set_dialer,
}

pub data Call : Type 0 where
  syncs : Snapshot → Call
  policy : Policy → Call
  link : Option ℕ → Call
  mode : ℕ → Call
  forward : ℕ → Call
  local : ℕ → ℤ → Call
  session_local : ℕ → ℤ → Call
  scheme : ℕ → Scheme → Call
  next_scheme : ℕ → Call
  observed : ℕ → Scheme → Call
  label : ℕ → Text → Call

unfoldable pub step : Manager → ℕ × Call → Effect
step m (now, syncs snap) = sync m snap now
step m (now, policy p) = set_policy m p now
step m (now, link d) = set_dialer m d now
step m (now, mode k) = cycle_mode m k now
step m (now, forward k) = forward_now m k now
step m (now, local k z) = set_local_port m k z now
step m (now, session_local k z) = move_local m k z now
step m (now, scheme k s) = quiet (set_scheme m k s)
step m (now, next_scheme k) = quiet (cycle_scheme m k)
step m (now, observed k s) = quiet (observe_scheme m k s)
step m (now, label k t) = quiet (set_label m k t)

unfoldable pub run : Manager → List (ℕ × Call) → Manager
run m [] = m
run m (c ∷ cs) = run (step m c).mgr cs

-- A scan's ports are real ones, and those of its services.
abbrev pub IsCall : ℕ × Call → Type 0
IsCall (now, syncs snap) = KeyedSnapshot snap
IsCall (now, c) = Unit {0}
