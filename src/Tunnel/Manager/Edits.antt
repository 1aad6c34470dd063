-- ===== src/Tunnel/Manager/Edits.antt =====
-- The invariant and the manager's methods for one entry: its mode, its label, its local port.
use autotun.Tunnel.Manager.Frame.{close_if_open-closed}
use autotun.Base.{
  ℕ, ◌≤◌, ◌≡◌, refl, sym, ◌∙◌, ap, inl, inr, [], none, some, arith, nat_eq, count, Bool-cases,
  Option-cases, ℤ,
}
use autotun.Assoc.{lookup, All-lookup}
use autotun.Text.{codes}
use autotun.Config.Mode.{mode_is_off}
use autotun.Tunnel.Alloc.{forget}
use autotun.Tunnel.Manager.{Manager, Entry}
use autotun.Tunnel.Manager.Apply.{Applied, apply, close_if_open}
use autotun.Tunnel.Manager.Control.{
  edit, reapply, persist, step_mode, cycle_mode, force_on, forward_now, relocate, move_local,
  set_local_port, bad_local,
}
use autotun.Tunnel.Manager.Balance.{
  fwd_holds, held_at, held_at-le, Balanced, apply-Balanced, close_if_open-Balanced,
}
use autotun.Tunnel.Manager.Frame.{Framed, close_if_open-Framed, apply-Framed}
use autotun.Tunnel.Manager.Invariant.{Keyed, Inv, Sound, put-Inv, apply-Sound}
use autotun.Tunnel.Manager.Preserve.{Keeps, put_same-Inv}

-- An edit of fields other than the forwarder and the service.
pub edit-Inv :
    (m : Manager) (k : ℕ) (f : Entry → Entry)
    → ((e : Entry) → (f e).fwd ≡ e.fwd)
    → ((e : Entry) → (f e).svc ≡ e.svc)
    → Inv m
    → Inv (edit m k f)
unfolding edit
edit-Inv m k f h s v = elim (Option-cases (lookup k m.entries)) [
  | inl q ↦ simp (q, edit) v
  | inr (e, q) ↦ simp (q, edit) (put_same-Inv m k e (f e) v q (h e) (ap (λ x. x.port) (s e)))
]

pub persist-Inv : (m : Manager) (k : ℕ) → Inv m → Inv (persist m k)
unfolding persist
persist-Inv m k v = elim (Option-cases m.settings) [
  | inl q ↦ simp (q, persist) v
  | inr (st, q) ↦
      simp (q, persist)
        (record { is_map = v.is_map; keyed = v.keyed; owned = v.owned; once = v.once })
]

pub reapply-Keeps :
    (f : Entry → Entry) (now k : ℕ)
    → ((e : Entry) → (f e).fwd ≡ e.fwd)
    → ((e : Entry) → (f e).svc ≡ e.svc)
    → Keeps (reapply f now k)
unfolding reapply
reapply-Keeps f now k h s m v = elim (Option-cases (lookup k m.entries)) [
  | inl q ↦ simp (q, reapply) v
  | inr (e, q) ↦
      simp (q, reapply)
        (let key = All-lookup Keyed k e m.entries v.keyed q in
          put-Inv m k _ v key.1 (
            apply-Sound m k (f e) now v key.1 (ap (λ x. x.port) (s e) ∙ key.0)
              (λ p. ap (fwd_holds p) (h e) ∙ ap (held_at p) (sym q))))
]

pub forward_now-Inv : (m : Manager) (k now : ℕ) → Inv m → Inv (forward_now m k now).mgr
unfolding forward_now
forward_now-Inv m k now v = elim (Option-cases (lookup k m.entries)) [
  | inl q ↦ simp (q, forward_now) v
  | inr (e, q) ↦ elim (Bool-cases (mode_is_off e.mode)) [
    | inl off ↦ simp (q, off, forward_now) v
    | inr allowed ↦
        simp (q, allowed, forward_now)
          (let key = All-lookup Keyed k e m.entries v.keyed q in
            put-Inv m k _ v key.1
              (apply-Sound m k (force_on e) now v key.1 key.0 (λ p. ap (held_at p) (sym q))))
  ]
]

pub cycle_mode-Inv : (m : Manager) (k now : ℕ) → Inv m → Inv (cycle_mode m k now).mgr
unfolding cycle_mode
cycle_mode-Inv m k now v =
    persist-Inv _ k (reapply-Keeps step_mode now k step_mode-fwd step_mode-svc m v)
  where
    step_mode-fwd : (e : Entry) → (step_mode e).fwd ≡ e.fwd
    step_mode-fwd e = unfold step_mode in refl

    step_mode-svc : (e : Entry) → (step_mode e).svc ≡ e.svc
    step_mode-svc e = unfold step_mode in refl

-- The table's entry is still there while its tunnel is closed and opened anew.
relocate-Sound :
    (m : Manager) (k : ℕ) (e : Entry) (local : ℤ) (now : ℕ)
    → Inv m
    → lookup k m.entries ≡ some e
    → Sound m k (relocate m e k local now)
unfolding relocate
relocate-Sound m k e local now v q = record {
  entries = g.entries ∙ f.entries;
  port = ap (λ x. x.port) g.svc ∙ ap (λ x. x.port) f.svc ∙ key.0;
  balanced = λ p.
      omega (arith, (shut p).moved, (reopened p).moved, ap (fwd_holds p) closed, ap (held_at p) q);
  once = λ p. (reopened p).once;
}
  where
    m' : Manager
    m' = record m { alloc = forget m.alloc k }

    e' : Entry
    e' = record e { pinned_local = local }

    c : Applied
    c = close_if_open m' e' e.fwd (codes "relocating") now

    d : Entry
    d = record (c.entry) { err = [] }

    key : Keyed (k, e)
    key = All-lookup Keyed k e m.entries v.keyed q

    f : Framed m' e' c
    f = close_if_open-Framed m' e' e.fwd _ now

    g : Framed c.mgr d (apply c.mgr d now)
    g = apply-Framed c.mgr d now

    closed : c.entry.fwd ≡ none
    closed = close_if_open-closed m' e' e.fwd _ now refl

    held : (p : ℕ) → fwd_holds p e.fwd ≤ count p m.os.ours
    held p = omega (arith, ap (held_at p) q, held_at-le p k m.entries, v.owned p)

    shut : (p : ℕ) → Balanced p m' e.fwd c
    shut p = close_if_open-Balanced p m' e' (v.once p) e.fwd _ now refl (held p)

    reopened : (p : ℕ) → Balanced p c.mgr c.entry.fwd (apply c.mgr d now)
    reopened p =
        apply-Balanced p c.mgr d now (shut p).once (omega (arith, ap (fwd_holds p) closed))
          (omega (arith, key.0, key.1, ap (λ x. x.port) f.svc))

pub move_local-Inv :
    (m : Manager) (k : ℕ) (local : ℤ) (now : ℕ) → Inv m → Inv (move_local m k local now).mgr
unfolding move_local
move_local-Inv m k local now v = elim (Bool-cases (bad_local local)) [
  | inl bad ↦ simp (bad, move_local) v
  | inr good ↦ elim (Option-cases (lookup k m.entries)) [
    | inl q ↦ simp (good, q, move_local) v
    | inr (e, q) ↦
        simp (good, q, move_local)
          (put-Inv m k _ v (All-lookup Keyed k e m.entries v.keyed q).1
            (relocate-Sound m k e local now v q))
  ]
]

pub set_local_port-Inv :
    (m : Manager) (k : ℕ) (local : ℤ) (now : ℕ) → Inv m → Inv (set_local_port m k local now).mgr
unfolding set_local_port
set_local_port-Inv m k local now v = elim (Bool-cases (bad_local local)) [
  | inl bad ↦ simp (bad, set_local_port) v
  | inr good ↦ simp (good, set_local_port) (persist-Inv _ k (move_local-Inv m k local now v))
]
