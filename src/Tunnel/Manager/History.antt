-- ===== src/Tunnel/Manager/History.antt =====
-- Histories of calls on a manager (internal/tunnel/manager.go).
use autotun.Base.{
  ℕ, ◌≤◌, ◌≡◌, ◌≢◌, ◌⊎◌, refl, sym, ap, inl, inr, true, false, List, [], ◌∷◌, Option, none, some,
  arith, nat_eq, count, All, Bool-cases,
}
use autotun.Assoc.{lookup}
use autotun.Text.{Text, is_empty}
use autotun.Config.Store.{Store}
use autotun.Tunnel.Scheme.{Scheme, unknown, scheme_beq}
use autotun.Tunnel.Policy.{Policy}
use autotun.Tunnel.Alloc.{Allocator, Os}
use autotun.Tunnel.Manager.{Manager, Entry, new, want}
use autotun.Tunnel.Manager.Control.{observe_scheme, cycle_scheme, set_scheme, set_label}
use autotun.Tunnel.Manager.Balance.{holders}
use autotun.Tunnel.Manager.Invariant.{Inv}
use autotun.Tunnel.Manager.Preserve.{sync-Inv}
use autotun.Tunnel.Manager.Edits.{
  edit-Inv, persist-Inv, forward_now-Inv, cycle_mode-Inv, set_local_port-Inv, move_local-Inv,
}
use autotun.Tunnel.Manager.Switches.{set_policy-Inv, set_dialer-Inv}
use autotun.Tunnel.Manager.Settled.{Settled, want_same}
use autotun.Tunnel.Manager.Converge.{AllSettled}
use autotun.Tunnel.Manager.Outcome.{sync-AllSettled, set_policy-AllSettled, set_dialer-AllSettled}
use autotun.Tunnel.Manager.Choice.{
  persist-AllSettled, edit-AllSettled, cycle_mode-AllSettled, forward_now-AllSettled,
  set_local_port-AllSettled, move_local-AllSettled,
}
use autotun.Tunnel.Manager.Steps.{
  Call, syncs, policy, link, mode, forward, local, session_local, scheme, next_scheme, observed,
  label, step, run, IsCall,
}

observe_scheme-Inv : (m : Manager) (k : ℕ) (s : Scheme) → Inv m → Inv (observe_scheme m k s)
unfolding observe_scheme
observe_scheme-Inv m k s v = elim (Bool-cases (scheme_beq s unknown)) [
  | inl q ↦ simp q v
  | inr q ↦ simp q (edit-Inv m k _ (λ e. ground arith) (λ e. ground arith) v)
]

pub step-Inv : (m : Manager) (c : ℕ × Call) → IsCall c → Inv m → Inv (step m c).mgr
unfolding step cycle_scheme set_scheme set_label
step-Inv m (now, syncs snap) w v = sync-Inv m snap now w v
step-Inv m (now, policy p) w v = set_policy-Inv m p now v
step-Inv m (now, link d) w v = set_dialer-Inv m d now v
step-Inv m (now, mode k) w v = cycle_mode-Inv m k now v
step-Inv m (now, forward k) w v = forward_now-Inv m k now v
step-Inv m (now, local k z) w v = set_local_port-Inv m k z now v
step-Inv m (now, session_local k z) w v = move_local-Inv m k z now v
step-Inv m (now, scheme k s) w v = persist-Inv _ k (edit-Inv m k _ (λ e. refl) (λ e. refl) v)
step-Inv m (now, next_scheme k) w v = persist-Inv _ k (edit-Inv m k _ (λ e. refl) (λ e. refl) v)
step-Inv m (now, observed k s) w v = observe_scheme-Inv m k s v
step-Inv m (now, label k t) w v = persist-Inv _ k (edit-Inv m k _ (λ e. refl) (λ e. refl) v)

pub run-Inv : (m : Manager) (cs : List (ℕ × Call)) → All IsCall cs → Inv m → Inv (run m cs)
unfolding run
run-Inv m [] w v = v
run-Inv m (c ∷ cs) w v = run-Inv (step m c).mgr cs w.1 (step-Inv m c w.0 v)

-- A fresh manager of a process that listens on nothing.
pub new-Inv :
    (a : Allocator) (os : Os) (d : Option ℕ) (p : Policy) (g : ℕ) (h : Text) (st : Option Store)
    → os.ours ≡ []
    → Inv (new a os d p g h st)
unfolding new
new-Inv a os d p g h st o = record {
  is_map = tt;
  keyed = tt;
  owned = λ q. ap (count q) (sym o);
  once = λ q. omega (arith, ap (count q) o);
}

observe_scheme-AllSettled :
    (m : Manager) (k : ℕ) (s : Scheme) → AllSettled m → AllSettled (observe_scheme m k s)
unfolding observe_scheme
observe_scheme-AllSettled m k s u = elim (Bool-cases (scheme_beq s unknown)) [
  | inl q ↦ simp q u
  | inr q ↦ simp q (
      edit-AllSettled m k _
        (λ e. want_same m.policy e _ (ground arith) (ground arith) (ground arith) (ground arith))
        (λ e. ground arith) (λ e. ground arith) u)
]

step-AllSettled :
    (m : Manager) (c : ℕ × Call) → IsCall c → Inv m → AllSettled m → AllSettled (step m c).mgr
unfolding step cycle_scheme set_scheme set_label
step-AllSettled m (now, syncs snap) w v u = sync-AllSettled m snap now w v u
step-AllSettled m (now, policy p) w v u = set_policy-AllSettled m p now (λ j e l. (u j e l).offline)
step-AllSettled m (now, link d) w v u = set_dialer-AllSettled m d now
step-AllSettled m (now, mode k) w v u = cycle_mode-AllSettled m k now u
step-AllSettled m (now, forward k) w v u = forward_now-AllSettled m k now u
step-AllSettled m (now, local k z) w v u = set_local_port-AllSettled m k z now u
step-AllSettled m (now, session_local k z) w v u = move_local-AllSettled m k z now u
step-AllSettled m (now, scheme k s) w v u = persist-AllSettled _ k (
    edit-AllSettled m k _ (λ e. want_same m.policy e _ refl refl refl refl) (λ e. refl) (λ e. refl)
      u)
step-AllSettled m (now, next_scheme k) w v u = persist-AllSettled _ k (
    edit-AllSettled m k _ (λ e. want_same m.policy e _ refl refl refl refl) (λ e. refl) (λ e. refl)
      u)
step-AllSettled m (now, observed k s) w v u = observe_scheme-AllSettled m k s u
step-AllSettled m (now, label k t) w v u = persist-AllSettled _ k (
    edit-AllSettled m k _ (λ e. want_same m.policy e _ refl refl refl refl) (λ e. refl) (λ e. refl)
      u)

pub run-AllSettled :
    (m : Manager) (cs : List (ℕ × Call))
    → All IsCall cs
    → Inv m
    → AllSettled m
    → AllSettled (run m cs)
unfolding run
run-AllSettled m [] w v u = u
run-AllSettled m (c ∷ cs) w v u =
    run-AllSettled (step m c).mgr cs w.1 (step-Inv m c w.0 v) (step-AllSettled m c w.0 v u)

pub new-AllSettled :
    (a : Allocator) (os : Os) (d : Option ℕ) (p : Policy) (g : ℕ) (h : Text) (st : Option Store)
    → AllSettled (new a os d p g h st)
unfolding new lookup
new-AllSettled a os d p g h st j e l = cc

-- How a row of the table stands: it has a tunnel, is wanted and the link is up; or it has none, and
-- it is not wanted, or the link is down, or it shows an error.
abbrev pub Placed : Policy → Option ℕ → Entry → Type 0
Placed p d e =
    ((e.fwd ≢ none) × ((want p e).forward ≡ true) × (d ≢ none))
    ⊎ ((e.fwd ≡ none) × (((want p e).forward ≡ false) ⊎ (d ≡ none) ⊎ (is_empty e.err ≡ false)))

Settled-Placed : (p : Policy) (d : Option ℕ) (e : Entry) → Settled p d e → Placed p d e
Settled-Placed p d e s = ground (arith, s.unwanted, s.offline, s.wanted)

-- After any history of calls on a fresh manager of a process that listens on nothing, whose scans
-- are as the prober makes them, every entry of the table either has a tunnel, is wanted, and the
-- link is up, or it has none, and it is not wanted, or the link is down, or it shows an error.
pub run-Placed :
    (a : Allocator) (os : Os) (dl : Option ℕ) (p : Policy) (gr : ℕ) (h : Text) (st : Option Store)
    (cs : List (ℕ × Call)) (k : ℕ) (e : Entry)
    → os.ours ≡ []
    → All IsCall cs
    → lookup k (run (new a os dl p gr h st) cs).entries ≡ some e
    → Placed (run (new a os dl p gr h st) cs).policy (run (new a os dl p gr h st) cs).dialer e
run-Placed a os dl p gr h st cs k e o w l =
    Settled-Placed _ _ e
      (run-AllSettled _ cs w (new-Inv a os dl p gr h st o) (new-AllSettled a os dl p gr h st) k e l)

-- After any history of calls on a fresh manager of a process that listens on nothing, whose scans
-- are as the prober makes them, the process listens on a port exactly as often as tunnels of the
-- table are on it, and at most once: no listener outlives its tunnel.
pub run-owned :
    (a : Allocator) (os : Os) (dl : Option ℕ) (p : Policy) (gr : ℕ) (h : Text) (st : Option Store)
    (cs : List (ℕ × Call)) (q : ℕ)
    → os.ours ≡ []
    → All IsCall cs
    → let m = run (new a os dl p gr h st) cs in
      (count q m.os.ours ≡ holders q m.entries) × (count q m.os.ours ≤ 1)
run-owned a os dl p gr h st cs q o w =
    let v = run-Inv _ cs w (new-Inv a os dl p gr h st o) in (sym (v.owned q), v.once q)
