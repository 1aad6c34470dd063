-- ===== src/Tunnel/Manager/Preserve.antt =====
-- The invariant of the manager and `Sync` (internal/tunnel/manager.go).
use autotun.Tunnel.Manager.Frame.{close_if_open-closed}
use autotun.Base.{
  ℕ, suc, ◌<◌, ◌≡◌, ◌≢◌, refl, sym, ◌∙◌, ap, inl, inr, List, [], ◌∷◌, Option, none, some, arith,
  nat_eq, ltb, Bool-cases, All,
}
use autotun.Assoc.{
  lookup, insert, IsMap, IsFresh, All-lookup, lookup-insert, lookup-delete, Finds, All-Finds,
}
use autotun.Probe.Service.{Service, Snapshot, KeyedSnapshot}
use autotun.Tunnel.Manager.{Manager, Entry}
use autotun.Tunnel.Manager.Sync.{
  Effect, take_baseline, new_entry, entry_or_new, refresh, see, see_all, miss, seen, sweep, sync,
}
use autotun.Tunnel.Manager.Balance.{fwd_holds, held_at}
use autotun.Tunnel.Manager.Frame.{close_if_open-Framed}
use autotun.Tunnel.Manager.Invariant.{Keyed, Inv, put-Inv, drop_entry-Inv, apply-Sound, close-Sound}

abbrev pub Keeps : (Manager → Effect) → Type 0
Keeps f = (m : Manager) → Inv m → Inv (f m).mgr

pub take_baseline-Inv : (m : Manager) (snap : Snapshot) → Inv m → Inv (take_baseline m snap)
unfolding take_baseline
take_baseline-Inv m snap v = elim (Bool-cases m.have_base) [
  | inl e ↦ simp e v
  | inr e ↦ simp e (record { is_map = v.is_map; keyed = v.keyed; owned = v.owned; once = v.once })
]

pub new_entry_closed :
    (m : Manager) (k : ℕ) (svc : Service) (now : ℕ) → (new_entry m k svc now).fwd ≡ none
unfolding new_entry
new_entry_closed m k svc now = ground arith

refresh-held :
    (m : Manager) (k : ℕ) (svc : Service) (now p : ℕ) (o : Option Entry)
    → fwd_holds p (refresh (entry_or_new m k svc now o) svc).fwd ≡ held_at p o
unfolding refresh
refresh-held m k svc now p none = ap (fwd_holds p) (new_entry_closed m k svc now)
refresh-held m k svc now p (some e) = refl

refresh-port : (e : Entry) (svc : Service) → (refresh e svc).svc.port ≡ svc.port
unfolding refresh
refresh-port e svc = ground arith

pub see-Keeps : (k : ℕ) (svc : Service) (now : ℕ) → svc.port ≡ k → 0 < k → Keeps (see k svc now)
unfolding see
see-Keeps k svc now port z m v = put-Inv m k _ v z (
    apply-Sound m k _ now v z (refresh-port _ svc ∙ port)
      (λ p. refresh-held m k svc now p (lookup k m.entries)))

pub see_all-Keeps : (snap : Snapshot) (now : ℕ) → KeyedSnapshot snap → Keeps (see_all snap now)
unfolding see_all
see_all-Keeps [] now w m v = v
see_all-Keeps ((k, svc) ∷ snap) now w m v =
    see_all-Keeps snap now w.1 (see k svc now m).mgr (see-Keeps k svc now w.0.0 w.0.1 m v)

-- An entry that the table holds, with another field than the forwarder changed.
pub put_same-Inv :
    (m : Manager) (k : ℕ) (e e' : Entry)
    → Inv m
    → lookup k m.entries ≡ some e
    → e'.fwd ≡ e.fwd
    → e'.svc.port ≡ e.svc.port
    → Inv (record m { entries = insert k e' m.entries })
put_same-Inv m k e e' v l f s =
    let key = All-lookup Keyed k e m.entries v.keyed l in
    put-Inv m k (record { mgr = m; entry = e'; events = [] }) v key.1
      (record {
        entries = refl;
        port = s ∙ key.0;
        balanced = λ p. omega (arith, ap (held_at p) l, ap (fwd_holds p) f);
        once = v.once;
      })

pub miss-Inv :
    (k : ℕ) (e : Entry) (now : ℕ) (m : Manager)
    → Inv m
    → lookup k m.entries ≡ some e
    → Inv (miss k e now m).mgr
unfolding miss
miss-Inv k e now m v l = elim (Bool-cases (ltb (suc e.missing) m.grace)) [
  | inl q ↦ simp q (put_same-Inv m k e _ v l refl refl)
  | inr q ↦ simp q (
      drop_entry-Inv m k _ v
        (close-Sound m k _ _ now v (All-lookup Keyed k e m.entries v.keyed l).0
          (λ p. ap (held_at p) (sym l)))
        (close_if_open-closed m _ e.fwd _ now refl))
]

pub lookup-miss :
    (k j : ℕ) (e : Entry) (now : ℕ) (m : Manager)
    → Inv m
    → k ≢ j
    → lookup j (miss k e now m).mgr.entries ≡ lookup j m.entries
unfolding miss
lookup-miss k j e now m v n = elim (Bool-cases (ltb (suc e.missing) m.grace)) [
  | inl q ↦ simp q (lookup-insert k j _ m.entries ∙ ground arith)
  | inr q ↦
      simp (q, (close_if_open-Framed m (record e { missing = suc e.missing }) e.fwd _ now).entries)
        (lookup-delete k j m.entries v.is_map ∙ ground arith)
]

pub miss-Finds :
    (k : ℕ) (e : Entry) (now : ℕ) (m : Manager) (es : List (ℕ × Entry))
    → Inv m
    → IsFresh k es
    → All (Finds m.entries) es
    → All (Finds (miss k e now m).mgr.entries) es
miss-Finds k e now m [] v f a = tt
miss-Finds k e now m ((j, d) ∷ es) v f a =
    (lookup-miss k j e now m v (λ q. f.0 (sym q)) ∙ a.0, miss-Finds k e now m es v f.1 a.1)

pub sweep-Inv :
    (es : List (ℕ × Entry)) (snap : Snapshot) (now : ℕ) (m : Manager)
    → IsMap es
    → All (Finds m.entries) es
    → Inv m
    → Inv (sweep es snap now m).mgr
unfolding sweep
sweep-Inv [] snap now m i a v = v
sweep-Inv ((k, e) ∷ es) snap now m i a v = elim (Bool-cases (seen k snap)) [
  | inl q ↦ rw q (sweep-Inv es snap now m i.1 a.1 v)
  | inr q ↦ rw q (
      sweep-Inv es snap now (miss k e now m).mgr i.1 (miss-Finds k e now m es v i.0 a.1)
        (miss-Inv k e now m v a.0))
]

-- A scan whose services stand under their own ports, none of them 0, keeps the invariant of the
-- manager: the table is a map by the ports of its services, and the listeners of the process are
-- those of the tunnels, each port once.
pub sync-Inv :
    (m : Manager) (snap : Snapshot) (now : ℕ)
    → KeyedSnapshot snap
    → Inv m
    → Inv (sync m snap now).mgr
unfolding sync
sync-Inv m snap now w v =
    let n = (see_all snap now (take_baseline m snap)).mgr in
    let u : Inv n = see_all-Keeps snap now w _ (take_baseline-Inv m snap v) in
    sweep-Inv n.entries snap now n u.is_map (All-Finds n.entries u.is_map) u
