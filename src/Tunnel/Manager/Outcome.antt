-- ===== src/Tunnel/Manager/Outcome.antt =====
-- The settled table and the methods `SetPolicy`, `SetDialer` and `Sync`
-- (internal/tunnel/manager.go).
use autotun.Base.{
  ℕ, suc, ◌≡◌, refl, sym, ◌∙◌, ap, ◌⊎◌, inl, inr, true, false, List, [], ◌∷◌, Option, none, some,
  ◌==◌, nat_eq, ltb, Bool-cases, map, subst,
}
use autotun.Assoc.{lookup, lookup-insert_cases, lookup-delete_cases, IsMap, Finds, All-Finds}
use autotun.Base.{All}
use autotun.Text.{codes}
use autotun.Probe.Service.{KeyedSnapshot, Service, Snapshot}
use autotun.Tunnel.Policy.{Policy}
use autotun.Tunnel.Manager.{Manager, Entry}
use autotun.Tunnel.Manager.Apply.{Applied, apply, close_if_open}
use autotun.Tunnel.Manager.Sync.{
  put, take_baseline, entry_or_new, refresh, see, see_all, miss, seen, sweep, sync,
}
use autotun.Tunnel.Manager.Control.{
  reapply, for_keys, on_entry, mark_paused, set_policy, disconnect, set_dialer, same_entry,
  sorted_keys,
}
use autotun.Tunnel.Manager.Frame.{Framed, apply-Framed, close_if_open-Framed}
use autotun.Tunnel.Manager.Invariant.{Inv}
use autotun.Tunnel.Manager.Preserve.{
  see_all-Keeps, take_baseline-Inv, miss-Inv, miss-Finds, new_entry_closed,
}
use autotun.Tunnel.Manager.Switches.{mark_paused-fwd}
use autotun.Tunnel.Manager.Settled.{Settled, want_same, Settled-same, apply-Settled}
use autotun.Tunnel.Manager.Converge.{
  Due, AllSettled, reapply-Due, Gone, disconnect-Gone, for_keys-Due, all-Due, finished, lookup-map,
  member-sorted,
}

-- A settled entry in place of another in a settled table.
pub put-AllSettled :
    (m : Manager) (k : ℕ) (a : Applied)
    → a.mgr.entries ≡ m.entries
    → a.mgr.policy ≡ m.policy
    → a.mgr.dialer ≡ m.dialer
    → Settled m.policy m.dialer a.entry
    → AllSettled m
    → AllSettled (put k a).mgr
put-AllSettled m k a en po di s u j e l =
    rw (po, di) (pick (lookup-insert_cases k j a.entry e m.entries (rw en at l)))
  where
    pick :
        (((k == j) ≡ true) × (a.entry ≡ e)) ⊎ (((k == j) ≡ false) × (lookup j m.entries ≡ some e))
        → Settled m.policy m.dialer e
    pick (inl (_, q)) = subst (Settled m.policy m.dialer) q s
    pick (inr (_, q)) = u j e q

pub apply-put-AllSettled :
    (m : Manager) (k : ℕ) (e : Entry) (now : ℕ)
    → (m.dialer ≡ none → e.fwd ≡ none)
    → AllSettled m
    → AllSettled (put k (apply m e now)).mgr
apply-put-AllSettled m k e now down u =
    let f = apply-Framed m e now in
    put-AllSettled m k (apply m e now) f.entries f.policy f.dialer (apply-Settled m e now down) u

-- After a new policy every row is settled under it, whatever the table was before, if only no
-- tunnel was open while the link was down.
pub set_policy-AllSettled :
    (m : Manager) (p : Policy) (now : ℕ)
    → ((j : ℕ) (e : Entry) → lookup j m.entries ≡ some e → m.dialer ≡ none → e.fwd ≡ none)
    → AllSettled (set_policy m p now).mgr
unfolding set_policy
set_policy-AllSettled m p now down = finished _ (
    for_keys-Due Due (reapply same_entry now) _ _ (λ k ks n. reapply-Due now k ks n)
      (all-Due _ marked))
  where
    mark : Entry → Entry
    mark = mark_paused m.policy.paused p.paused

    marked :
        (j : ℕ) (e : Entry)
        → lookup j (map (on_entry mark) m.entries) ≡ some e
        → m.dialer ≡ none
        → e.fwd ≡ none
    marked j e l d =
        let (old, q, r) = lookup-map mark j e m.entries l in
        ap (λ x. x.fwd) (sym r) ∙ mark_paused-fwd _ _ old ∙ down j old q d

-- So it is after the link came up again, or went down.
pub set_dialer-AllSettled :
    (m : Manager) (d : Option ℕ) (now : ℕ) → AllSettled (set_dialer m d now).mgr
unfolding set_dialer
set_dialer-AllSettled m (some d) now = finished _ (
    for_keys-Due Due (reapply same_entry now) _ _ (λ k ks n. reapply-Due now k ks n)
      (all-Due _ (λ j e l q. cc)))
set_dialer-AllSettled m none now = λ j e l. record {
  unwanted = λ h. g.gone j e l refl;
  offline = λ h. g.gone j e l refl;
  wanted = λ h u n. absurd (u g.down);
}
  where
    m' : Manager
    m' = record m { dialer = none }

    g : Gone [] (for_keys (disconnect now) (sorted_keys m') m').mgr
    g =
        for_keys-Due Gone (disconnect now) (sorted_keys m') m'
          (λ k ks n. disconnect-Gone now k ks n)
          (record { down = refl; gone = λ j e l q. absurd (cc (member-sorted j e m.entries l, q)) })

new_entry-down :
    (m : Manager) (k : ℕ) (svc : Service) (now : ℕ) (o : Option Entry)
    → AllSettled m
    → lookup k m.entries ≡ o
    → m.dialer ≡ none
    → (refresh (entry_or_new m k svc now o) svc).fwd ≡ none
unfolding refresh
new_entry-down m k svc now none u q d = new_entry_closed m k svc now
new_entry-down m k svc now (some e) u q d = (u k e q).offline d

see-AllSettled :
    (k : ℕ) (svc : Service) (now : ℕ) (m : Manager)
    → AllSettled m
    → AllSettled (see k svc now m).mgr
unfolding see
see-AllSettled k svc now m u =
    apply-put-AllSettled m k _ now (new_entry-down m k svc now (lookup k m.entries) u refl) u

see_all-AllSettled :
    (snap : Snapshot) (now : ℕ) (m : Manager) → AllSettled m → AllSettled (see_all snap now m).mgr
unfolding see_all
see_all-AllSettled [] now m u = u
see_all-AllSettled ((k, svc) ∷ snap) now m u =
    see_all-AllSettled snap now (see k svc now m).mgr (see-AllSettled k svc now m u)

miss-AllSettled :
    (k : ℕ) (e : Entry) (now : ℕ) (m : Manager)
    → Inv m
    → lookup k m.entries ≡ some e
    → AllSettled m
    → AllSettled (miss k e now m).mgr
unfolding miss
miss-AllSettled k e now m v l u = elim (Bool-cases (ltb (suc e.missing) m.grace)) [
  | inl q ↦ simp q (
      put-AllSettled m k (record { mgr = m; entry = missed; events = [] }) refl refl refl
        (Settled-same m.policy m.dialer e missed (want_same m.policy e missed refl refl refl refl)
          refl refl (u k e l))
        u)
  | inr q ↦ simp q λ j d h.
      let (_, found) = lookup-delete_cases k j d m.entries v.is_map (rw f.entries at h) in
      rw (f.policy, f.dialer) (u j d found)
]
  where
    missed : Entry
    missed = record e { missing = suc e.missing }

    f : Framed m missed (close_if_open m missed e.fwd (codes "remote service went away") now)
    f = close_if_open-Framed m missed e.fwd _ now

sweep-AllSettled :
    (es : List (ℕ × Entry)) (snap : Snapshot) (now : ℕ) (m : Manager)
    → IsMap es
    → All (Finds m.entries) es
    → Inv m
    → AllSettled m
    → AllSettled (sweep es snap now m).mgr
unfolding sweep
sweep-AllSettled [] snap now m i a v u = u
sweep-AllSettled ((k, e) ∷ es) snap now m i a v u = elim (Bool-cases (seen k snap)) [
  | inl q ↦ simp q (sweep-AllSettled es snap now m i.1 a.1 v u)
  | inr q ↦ simp q (
      sweep-AllSettled es snap now (miss k e now m).mgr i.1 (miss-Finds k e now m es v i.0 a.1)
        (miss-Inv k e now m v a.0) (miss-AllSettled k e now m v a.0 u))
]

take_baseline-AllSettled :
    (m : Manager) (snap : Snapshot) → AllSettled m → AllSettled (take_baseline m snap)
unfolding take_baseline
take_baseline-AllSettled m snap u = elim (Bool-cases m.have_base) [
  | inl q ↦ simp q u
  | inr q ↦ simp q u
]

-- After a scan, whatever it shows, every row of the table is settled if every row was before.
pub sync-AllSettled :
    (m : Manager) (snap : Snapshot) (now : ℕ)
    → KeyedSnapshot snap
    → Inv m
    → AllSettled m
    → AllSettled (sync m snap now).mgr
unfolding sync
sync-AllSettled m snap now w v u =
    let n = (see_all snap now (take_baseline m snap)).mgr in
    let y : Inv n = see_all-Keeps snap now w _ (take_baseline-Inv m snap v) in
    sweep-AllSettled n.entries snap now n y.is_map (All-Finds n.entries y.is_map) y
      (see_all-AllSettled snap now _ (take_baseline-AllSettled m snap u))
