-- ===== src/Tunnel/Manager/Absent.antt =====
-- What `Sync` (internal/tunnel/manager.go) does to an entry whose port is no longer listed.
pub mod Scans
use autotun.Base.{
  ℕ, suc, ◌+◌, ◌≤◌, ◌<◌, ◌≡◌, refl, sym, subst, ap, ◌∙◌, ◌⊎◌, inl, inr, Bool, true, false, List, [],
  ◌∷◌, Option, none, some, arith, ◌==◌, nat_eq, if◌then◌else◌, ltb, length, All, Bool-cases,
  Option-cases,
}
use autotun.Assoc.{
  lookup, insert, delete, IsMap, IsFresh, Finds, All-Finds, lookup-insert, lookup-delete,
  lookup-IsFresh, insert-IsMap, delete-IsMap,
}
use autotun.Text.{codes}
use autotun.Probe.Service.{Service, Snapshot, KeyedSnapshot}
use autotun.Tunnel.Manager.{Manager, Entry}
use autotun.Tunnel.Manager.Apply.{Applied, apply, close_if_open}
use autotun.Tunnel.Manager.Sync.{
  Effect, quiet, put, take_baseline, entry_or_new, refresh, see, see_all, drop_entry, miss, seen,
  sweep, sync,
}
use autotun.Tunnel.Manager.Frame.{apply-Framed, close_if_open-Framed}
use autotun.Tunnel.Manager.Invariant.{Inv}
use autotun.Tunnel.Manager.Preserve.{
  take_baseline-Inv, see_all-Keeps, sync-Inv, lookup-miss, miss-Inv, miss-Finds,
}
use autotun.Tunnel.Manager.Steps.{Call, syncs, step, run}

-- A step that leaves the entry of a port and the grace as they are.
record Aside (k : ℕ) (m n : Manager) : Type 0 where
  same : lookup k n.entries ≡ lookup k m.entries
  grace : n.grace ≡ m.grace

aside : (k : ℕ) (m : Manager) → Aside k m m
aside k m = record { same = refl; grace = refl }

Aside-trans : (k : ℕ) (m n o : Manager) → Aside k m n → Aside k n o → Aside k m o
Aside-trans k m n o a b = record { same = b.same ∙ a.same; grace = b.grace ∙ a.grace }

put-Aside :
    (j k : ℕ) (m : Manager) (a : Applied)
    → (a.mgr).entries ≡ m.entries
    → (a.mgr).grace ≡ m.grace
    → (j == k) ≡ false
    → Aside k m (put j a).mgr
put-Aside j k m a e g d = record {
  same = rw e (lookup-insert j k a.entry m.entries ∙ rw d refl);
  grace = g;
}

see-Aside :
    (j k : ℕ) (svc : Service) (now : ℕ) (m : Manager)
    → (j == k) ≡ false
    → Aside k m (see j svc now m).mgr
unfolding see
see-Aside j k svc now m d =
    let e = refresh (entry_or_new m j svc now (lookup j m.entries)) svc in
    let f = apply-Framed m e now in put-Aside j k m (apply m e now) f.entries f.grace d

see_all-Aside :
    (k : ℕ) (snap : Snapshot) (now : ℕ) (m : Manager)
    → seen k snap ≡ false
    → Aside k m (see_all snap now m).mgr
unfolding see_all seen lookup
see_all-Aside k [] now m h = aside k m
see_all-Aside k ((j, svc) ∷ snap) now m h = elim (Bool-cases (j == k)) [
  | inl e ↦ absurd (cc (rw (seen, lookup, e) at h))
  | inr e ↦
      let n = (see j svc now m).mgr in
      Aside-trans k m n (see_all snap now n).mgr (see-Aside j k svc now m e)
        (see_all-Aside k snap now n (rw (seen, lookup, e) at h))
]

take_baseline-Aside : (k : ℕ) (m : Manager) (snap : Snapshot) → Aside k m (take_baseline m snap)
unfolding take_baseline
take_baseline-Aside k m snap = elim (Bool-cases m.have_base) [
  | inl e ↦ simp e (aside k m)
  | inr e ↦ simp e (record { same = refl; grace = refl })
]

miss_grace : (k : ℕ) (e : Entry) (now : ℕ) (m : Manager) → (miss k e now m).mgr.grace ≡ m.grace
unfolding miss
miss_grace k e now m =
    let f =
      close_if_open-Framed m (record e { missing = suc e.missing }) e.fwd
        (codes "remote service went away") now in
    ground (arith, f.grace)

-- The entry with its count of missing scans.
abbrev pub missed : ℕ → Entry → Entry
missed n e = record e { missing = n }

-- What is left of an entry at that count.
abbrev pub left : ℕ → ℕ → Entry → Option Entry
left grace n e = if ltb n grace then some (missed n e) else none

abbrev pub after_miss : ℕ → Entry → Option Entry
after_miss grace e = left grace (suc e.missing) e

miss-after_miss :
    (k : ℕ) (e : Entry) (now : ℕ) (m : Manager)
    → IsMap m.entries
    → lookup k (miss k e now m).mgr.entries ≡ after_miss m.grace e
unfolding miss
miss-after_miss k e now m i =
    let e' = record e { missing = suc e.missing } in
    let f = close_if_open-Framed m e' e.fwd (codes "remote service went away") now in
    elim (Bool-cases (ltb (suc e.missing) m.grace)) [
      | inl q ↦ rw q (lookup-insert k k e' m.entries ∙ ground (arith, nat_eq.beq_iff k k))
      | inr q ↦
          rw (q, f.entries) (lookup-delete k k m.entries i ∙ ground (arith, nat_eq.beq_iff k k))
    ]

sweep_grace :
    (es : List (ℕ × Entry)) (snap : Snapshot) (now : ℕ) (m : Manager)
    → (sweep es snap now m).mgr.grace ≡ m.grace
unfolding sweep
sweep_grace [] snap now m = refl
sweep_grace ((j, e) ∷ es) snap now m = elim (Bool-cases (seen j snap)) [
  | inl q ↦ rw q (sweep_grace es snap now m)
  | inr q ↦ rw q (sweep_grace es snap now (miss j e now m).mgr ∙ miss_grace j e now m)
]

-- The loop leaves the entry of a port that it does not come to.
sweep_past :
    (k : ℕ) (es : List (ℕ × Entry)) (snap : Snapshot) (now : ℕ) (m : Manager)
    → IsMap es
    → All (Finds m.entries) es
    → Inv m
    → IsFresh k es
    → lookup k (sweep es snap now m).mgr.entries ≡ lookup k m.entries
unfolding sweep
sweep_past k [] snap now m i a v f = refl
sweep_past k ((j, e) ∷ es) snap now m i a v f = elim (Bool-cases (seen j snap)) [
  | inl q ↦ rw q (sweep_past k es snap now m i.1 a.1 v f.1)
  | inr q ↦ rw q (
      sweep_past k es snap now (miss j e now m).mgr i.1 (miss-Finds j e now m es v i.0 a.1)
        (miss-Inv j e now m v a.0) f.1
      ∙ lookup-miss j k e now m v f.0)
]

sweep_head :
    (k : ℕ) (e : Entry) (es : List (ℕ × Entry)) (snap : Snapshot) (now : ℕ) (m : Manager)
    → Inv m
    → seen k snap ≡ false
    → IsMap ((k, e) ∷ es)
    → All (Finds m.entries) ((k, e) ∷ es)
    → lookup k (sweep ((k, e) ∷ es) snap now m).mgr.entries ≡ after_miss m.grace e
unfolding sweep
sweep_head k e es snap now m v u i a = rw u (
    sweep_past k es snap now (miss k e now m).mgr i.1 (miss-Finds k e now m es v i.0 a.1)
      (miss-Inv k e now m v a.0) i.0
    ∙ miss-after_miss k e now m v.is_map)

-- The loop comes to an entry once, and treats it as `miss` does.
sweep_hits :
    (k : ℕ) (e : Entry) (es : List (ℕ × Entry)) (snap : Snapshot) (now : ℕ) (m : Manager)
    → IsMap es
    → All (Finds m.entries) es
    → Inv m
    → seen k snap ≡ false
    → lookup k es ≡ some e
    → lookup k (sweep es snap now m).mgr.entries ≡ after_miss m.grace e
unfolding sweep lookup
sweep_hits k e [] snap now m i a v u h = absurd (cc)
sweep_hits k e ((j, d) ∷ es) snap now m i a v u h = elim (Bool-cases (j == k)) [
  | inl q ↦
      let same : (k, e) ≡ (j, d) = ground (arith, nat_eq.beq_iff j k, h) in
      subst
        (λ (p : ℕ × Entry).
          IsMap (p ∷ es)
          → All (Finds m.entries) (p ∷ es)
          → lookup k (sweep (p ∷ es) snap now m).mgr.entries ≡ after_miss m.grace e)
        same (sweep_head k e es snap now m v u) i a
  | inr q ↦ elim (Bool-cases (seen j snap)) [
    | inl w ↦ rw w (sweep_hits k e es snap now m i.1 a.1 v u (rw q at h))
    | inr w ↦ rw w (
        sweep_hits k e es snap now (miss j d now m).mgr i.1 (miss-Finds j d now m es v i.0 a.1)
          (miss-Inv j d now m v a.0) u (rw q at h)
        ∙ ap (λ g. after_miss g e) (miss_grace j d now m))
  ]
]

-- What the loop over the snapshot leaves for the loop over the entries.
record Ready (k : ℕ) (m n : Manager) : Type 0 where
  inv : Inv n
  aside : Aside k m n

ready :
    (k : ℕ) (m : Manager) (snap : Snapshot) (now : ℕ)
    → KeyedSnapshot snap
    → Inv m
    → seen k snap ≡ false
    → Ready k m (see_all snap now (take_baseline m snap)).mgr
ready k m snap now w v u =
    let t = take_baseline m snap in
    let n = (see_all snap now t).mgr in
    record {
      inv = see_all-Keeps snap now w t (take_baseline-Inv m snap v);
      aside = Aside-trans k m t n (take_baseline-Aside k m snap) (see_all-Aside k snap now t u);
    }

pub sync_grace :
    (k : ℕ) (m : Manager) (snap : Snapshot) (now : ℕ)
    → KeyedSnapshot snap
    → Inv m
    → seen k snap ≡ false
    → (sync m snap now).mgr.grace ≡ m.grace
unfolding sync
sync_grace k m snap now w v u =
    let n = (see_all snap now (take_baseline m snap)).mgr in
    sweep_grace n.entries snap now n ∙ (ready k m snap now w v u).aside.grace

pub sync_present :
    (k : ℕ) (e : Entry) (m : Manager) (snap : Snapshot) (now : ℕ)
    → KeyedSnapshot snap
    → Inv m
    → seen k snap ≡ false
    → lookup k m.entries ≡ some e
    → lookup k (sync m snap now).mgr.entries ≡ after_miss m.grace e
unfolding sync
sync_present k e m snap now w v u h =
    let n = (see_all snap now (take_baseline m snap)).mgr in
    let r = ready k m snap now w v u in
    sweep_hits k e n.entries snap now n r.inv.is_map (All-Finds n.entries r.inv.is_map) r.inv u
      (r.aside.same ∙ h)
    ∙ ap (λ g. after_miss g e) r.aside.grace

pub sync_absent :
    (k : ℕ) (m : Manager) (snap : Snapshot) (now : ℕ)
    → KeyedSnapshot snap
    → Inv m
    → seen k snap ≡ false
    → lookup k m.entries ≡ none
    → lookup k (sync m snap now).mgr.entries ≡ none
unfolding sync
sync_absent k m snap now w v u h =
    let n = (see_all snap now (take_baseline m snap)).mgr in
    let r = ready k m snap now w v u in
    let gone = r.aside.same ∙ h in
    sweep_past k n.entries snap now n r.inv.is_map (All-Finds n.entries r.inv.is_map) r.inv
      (lookup-IsFresh k n.entries gone)
    ∙ gone
