-- ===== src/Tunnel/Manager/Choice.antt =====
-- The settled table and the decisions of the user and of the browser bridge
-- (internal/tunnel/manager.go).
use autotun.Tunnel.Manager.Frame.{close_if_open-closed}
use autotun.Base.{ℕ, ◌≡◌, refl, ◌∙◌, inl, inr, [], none, nat_eq, Bool-cases, Option-cases, ℤ}
use mathlib.Core.Path.{subst₂}
use autotun.Assoc.{lookup}
use autotun.Text.{codes}
use autotun.Config.Mode.{mode_is_off}
use autotun.Tunnel.Alloc.{forget}
use autotun.Tunnel.Manager.{Manager, Entry, want}
use autotun.Tunnel.Manager.Apply.{Applied, apply, close_if_open}
use autotun.Tunnel.Manager.Control.{
  edit, reapply, persist, step_mode, cycle_mode, force_on, forward_now, relocate, move_local,
  set_local_port, bad_local,
}
use autotun.Tunnel.Manager.Frame.{Framed, apply-Framed, close_if_open-Framed}
use autotun.Tunnel.Manager.Settled.{Settled, Settled-same, apply-Settled}
use autotun.Tunnel.Manager.Converge.{AllSettled}
use autotun.Tunnel.Manager.Outcome.{put-AllSettled, apply-put-AllSettled}

pub persist-AllSettled : (m : Manager) (k : ℕ) → AllSettled m → AllSettled (persist m k)
unfolding persist
persist-AllSettled m k u = elim (Option-cases m.settings) [
  | inl q ↦ simp (q, persist) u
  | inr (st, q) ↦ simp (q, persist) u
]

-- An edit of what the verdict does not read.
pub edit-AllSettled :
    (m : Manager) (k : ℕ) (f : Entry → Entry)
    → ((e : Entry) → want m.policy (f e) ≡ want m.policy e)
    → ((e : Entry) → (f e).fwd ≡ e.fwd)
    → ((e : Entry) → (f e).err ≡ e.err)
    → AllSettled m
    → AllSettled (edit m k f)
unfolding edit
edit-AllSettled m k f w h r u = elim (Option-cases (lookup k m.entries)) [
  | inl q ↦ simp (q, edit) u
  | inr (e, q) ↦
      simp (q, edit)
        (put-AllSettled m k (record { mgr = m; entry = f e; events = [] }) refl refl refl
          (Settled-same m.policy m.dialer e (f e) (w e) (h e) (r e) (u k e q)) u)
]

-- A new mode is put into effect at once.
pub cycle_mode-AllSettled :
    (m : Manager) (k now : ℕ) → AllSettled m → AllSettled (cycle_mode m k now).mgr
unfolding cycle_mode reapply step_mode
cycle_mode-AllSettled m k now u = elim (Option-cases (lookup k m.entries)) [
  | inl q ↦ simp (q, cycle_mode, reapply) (persist-AllSettled m k u)
  | inr (e, q) ↦
      simp (q, cycle_mode, reapply)
        (persist-AllSettled _ k (apply-put-AllSettled m k (step_mode e) now (u k e q).offline u))
]

pub forward_now-AllSettled :
    (m : Manager) (k now : ℕ) → AllSettled m → AllSettled (forward_now m k now).mgr
unfolding forward_now
forward_now-AllSettled m k now u = elim (Option-cases (lookup k m.entries)) [
  | inl q ↦ simp (q, forward_now) u
  | inr (e, q) ↦ elim (Bool-cases (mode_is_off e.mode)) [
    | inl off ↦ simp (q, off, forward_now) u
    | inr allowed ↦
        simp (q, allowed, forward_now)
          (apply-put-AllSettled m k (force_on e) now (u k e q).offline u)
  ]
]

relocate-Framed :
    (m : Manager) (k : ℕ) (e : Entry) (local : ℤ) (now : ℕ)
    → let a = relocate m e k local now in
      (a.mgr.entries ≡ m.entries)
      × (a.mgr.policy ≡ m.policy)
      × (a.mgr.dialer ≡ m.dialer)
      × Settled m.policy m.dialer a.entry
unfolding relocate
relocate-Framed m k e local now = (
  g.entries ∙ f.entries,
  g.policy ∙ f.policy,
  g.dialer ∙ f.dialer,
  subst₂ (λ p o. Settled p o (apply c.mgr d now).entry) f.policy f.dialer
      (apply-Settled c.mgr d now (λ _. closed)),
)
  where
    m' : Manager
    m' = record m { alloc = forget m.alloc k }

    e' : Entry
    e' = record e { pinned_local = local }

    c : Applied
    c = close_if_open m' e' e.fwd (codes "relocating") now

    d : Entry
    d = record (c.entry) { err = [] }

    f : Framed m' e' c
    f = close_if_open-Framed m' e' e.fwd _ now

    g : Framed c.mgr d (apply c.mgr d now)
    g = apply-Framed c.mgr d now

    closed : c.entry.fwd ≡ none
    closed = close_if_open-closed m' e' e.fwd _ now refl

pub move_local-AllSettled :
    (m : Manager) (k : ℕ) (local : ℤ) (now : ℕ)
    → AllSettled m
    → AllSettled (move_local m k local now).mgr
unfolding move_local
move_local-AllSettled m k local now u = elim (Bool-cases (bad_local local)) [
  | inl bad ↦ simp (bad, move_local) u
  | inr good ↦ elim (Option-cases (lookup k m.entries)) [
    | inl q ↦ simp (good, q, move_local) u
    | inr (e, q) ↦
        let r = relocate-Framed m k e local now in
        simp (good, q, move_local) (put-AllSettled m k (relocate m e k local now) r.0 r.1 r.2 r.3 u)
  ]
]

pub set_local_port-AllSettled :
    (m : Manager) (k : ℕ) (local : ℤ) (now : ℕ)
    → AllSettled m
    → AllSettled (set_local_port m k local now).mgr
unfolding set_local_port
set_local_port-AllSettled m k local now u = elim (Bool-cases (bad_local local)) [
  | inl bad ↦ simp (bad, set_local_port) u
  | inr good ↦
      simp (good, set_local_port) (persist-AllSettled _ k (move_local-AllSettled m k local now u))
]
