-- ===== src/Tunnel/Manager/Link.antt =====
-- Which methods of the manager (internal/tunnel/manager.go) change the link: `SetDialer` alone.
use autotun.Base.{
  ℕ, suc, ◌≡◌, refl, ◌∙◌, inl, inr, List, [], ◌∷◌, Option, none, some, arith, nat_eq, Bool-cases,
  Option-cases, All, ℤ,
}
use autotun.Assoc.{lookup}
use autotun.Text.{codes}
use autotun.Probe.Service.{Snapshot}
use autotun.Tunnel.Scheme.{unknown, scheme_beq}
use autotun.Tunnel.Alloc.{forget}
use autotun.Tunnel.Manager.{Manager, Entry}
use autotun.Tunnel.Manager.Apply.{close_if_open}
use autotun.Tunnel.Manager.Sync.{Effect, take_baseline, see, see_all, miss, seen, sweep, sync}
use autotun.Tunnel.Manager.Control.{
  edit, persist, reapply, for_keys, cycle_mode, step_mode, forward_now, relocate, move_local,
  set_local_port, bad_local, set_policy, same_entry, observe_scheme, cycle_scheme, set_scheme,
  set_label, force_on, set_dialer, disconnect,
}
use autotun.Tunnel.Manager.Frame.{apply-Framed, close_if_open-Framed}
use autotun.Tunnel.Manager.Steps.{
  Call, syncs, policy, link, mode, forward, local, session_local, scheme, next_scheme, observed,
  label, step, run,
}

edit_link : (m : Manager) (k : ℕ) (f : Entry → Entry) → (edit m k f).dialer ≡ m.dialer
unfolding edit
edit_link m k f = ground arith

persist_link : (m : Manager) (k : ℕ) → (persist m k).dialer ≡ m.dialer
unfolding persist
persist_link m k = ground arith

reapply_link :
    (f : Entry → Entry) (now k : ℕ) (m : Manager) → (reapply f now k m).mgr.dialer ≡ m.dialer
unfolding reapply
reapply_link f now k m = elim (Option-cases (lookup k m.entries)) [
  | inl q ↦ rw (q, reapply) refl
  | inr (e, q) ↦ rw (q, reapply) ((apply-Framed m (f e) now).dialer)
]

for_keys_link :
    (f : ℕ → Manager → Effect) (ks : List ℕ) (m : Manager)
    → ((k : ℕ) (n : Manager) → (f k n).mgr.dialer ≡ n.dialer)
    → (for_keys f ks m).mgr.dialer ≡ m.dialer
unfolding for_keys
for_keys_link f [] m h = refl
for_keys_link f (k ∷ ks) m h = for_keys_link f ks (f k m).mgr h ∙ h k m

disconnect_link : (now k : ℕ) (m : Manager) → (disconnect now k m).mgr.dialer ≡ m.dialer
unfolding disconnect
disconnect_link now k m = elim (Option-cases (lookup k m.entries)) [
  | inl q ↦ rw (q, disconnect) refl
  | inr (e, q) ↦
      rw (q, disconnect) (close_if_open-Framed m e e.fwd (codes "disconnected") now).dialer
]

pub set_dialer_link : (m : Manager) (d : Option ℕ) (now : ℕ) → (set_dialer m d now).mgr.dialer ≡ d
unfolding set_dialer
set_dialer_link m none now = for_keys_link (disconnect now) _ _ (disconnect_link now)
set_dialer_link m (some d) now =
    for_keys_link (reapply same_entry now) _ _ (reapply_link same_entry now)

see_all_link :
    (snap : Snapshot) (now : ℕ) (m : Manager) → (see_all snap now m).mgr.dialer ≡ m.dialer
unfolding see_all see
see_all_link [] now m = refl
see_all_link ((k, svc) ∷ snap) now m =
    see_all_link snap now (see k svc now m).mgr ∙ (apply-Framed m _ now).dialer

miss_link : (k : ℕ) (e : Entry) (now : ℕ) (m : Manager) → (miss k e now m).mgr.dialer ≡ m.dialer
unfolding miss
miss_link k e now m =
    let f =
      close_if_open-Framed m (record e { missing = suc e.missing }) e.fwd
        (codes "remote service went away") now in
    ground (arith, f.dialer)

sweep_link :
    (es : List (ℕ × Entry)) (snap : Snapshot) (now : ℕ) (m : Manager)
    → (sweep es snap now m).mgr.dialer ≡ m.dialer
unfolding sweep
sweep_link [] snap now m = refl
sweep_link ((j, e) ∷ es) snap now m = elim (Bool-cases (seen j snap)) [
  | inl q ↦ rw q (sweep_link es snap now m)
  | inr q ↦ rw q (sweep_link es snap now (miss j e now m).mgr ∙ miss_link j e now m)
]

take_baseline_link : (m : Manager) (snap : Snapshot) → (take_baseline m snap).dialer ≡ m.dialer
unfolding take_baseline
take_baseline_link m snap = ground arith

sync_link : (m : Manager) (snap : Snapshot) (now : ℕ) → (sync m snap now).mgr.dialer ≡ m.dialer
unfolding sync
sync_link m snap now =
    let n = (see_all snap now (take_baseline m snap)).mgr in
    sweep_link n.entries snap now n
    ∙ (see_all_link snap now (take_baseline m snap) ∙ take_baseline_link m snap)

forward_now_link : (m : Manager) (k now : ℕ) → (forward_now m k now).mgr.dialer ≡ m.dialer
unfolding forward_now
forward_now_link m k now = elim (Option-cases (lookup k m.entries)) [
  | inl q ↦ rw (q, forward_now) refl
  | inr (e, q) ↦ rw (q, forward_now) (ground (arith, (apply-Framed m (force_on e) now).dialer))
]

relocate_link :
    (m : Manager) (e : Entry) (k : ℕ) (z : ℤ) (now : ℕ)
    → (relocate m e k z now).mgr.dialer ≡ m.dialer
unfolding relocate
relocate_link m e k z now =
    let m' = record m { alloc = forget m.alloc k } in
    let e' = record e { pinned_local = z } in
    let c = close_if_open m' e' e.fwd (codes "relocating") now in
    (apply-Framed c.mgr (record (c.entry) { err = [] }) now).dialer
    ∙ (close_if_open-Framed m' e' e.fwd (codes "relocating") now).dialer

move_local_link :
    (m : Manager) (k : ℕ) (z : ℤ) (now : ℕ) → (move_local m k z now).mgr.dialer ≡ m.dialer
unfolding move_local
move_local_link m k z now = elim (Bool-cases (bad_local z)) [
  | inl b ↦ rw b refl
  | inr b ↦ rw b (elim (Option-cases (lookup k m.entries)) [
    | inl q ↦ rw q refl
    | inr (e, q) ↦ rw q (relocate_link m e k z now)
  ])
]

set_local_port_link :
    (m : Manager) (k : ℕ) (z : ℤ) (now : ℕ) → (set_local_port m k z now).mgr.dialer ≡ m.dialer
unfolding set_local_port
set_local_port_link m k z now = elim (Bool-cases (bad_local z)) [
  | inl b ↦ rw b refl
  | inr b ↦ rw b (persist_link (move_local m k z now).mgr k ∙ move_local_link m k z now)
]

-- A call of the monitor, the user or the browser bridge.
abbrev pub LeavesLink : ℕ × Call → Type 0
LeavesLink (now, link d) = ⊥
LeavesLink (now, c) = Unit {0}

pub step_link : (m : Manager) (c : ℕ × Call) → LeavesLink c → (step m c).mgr.dialer ≡ m.dialer
unfolding step cycle_scheme set_scheme set_label cycle_mode set_policy observe_scheme
step_link m (now, syncs snap) h = sync_link m snap now
step_link m (now, policy p) h =
    for_keys_link (reapply same_entry now) _ _ (reapply_link same_entry now)
step_link m (now, link d) h = absurd h
step_link m (now, mode k) h = persist_link _ k ∙ reapply_link step_mode now k m
step_link m (now, forward k) h = forward_now_link m k now
step_link m (now, local k z) h = set_local_port_link m k z now
step_link m (now, session_local k z) h = move_local_link m k z now
step_link m (now, scheme k s) h = persist_link _ k ∙ edit_link m k _
step_link m (now, next_scheme k) h = persist_link _ k ∙ edit_link m k _
step_link m (now, observed k s) h = elim (Bool-cases (scheme_beq s unknown)) [
  | inl q ↦ rw q refl
  | inr q ↦ rw q (edit_link m k _)
]
step_link m (now, label k t) h = persist_link _ k ∙ edit_link m k _

pub run_link :
    (m : Manager) (cs : List (ℕ × Call)) → All LeavesLink cs → (run m cs).dialer ≡ m.dialer
unfolding run
run_link m [] h = refl
run_link m (c ∷ cs) h = run_link (step m c).mgr cs h.1 ∙ step_link m c h.0
