-- ===== src/Tunnel/Manager/Absent/Scans.antt =====
-- Successive scans (`Sync`, internal/tunnel/manager.go) that do not show the port of an entry.
use autotun.Base.{
  ℕ, suc, ◌+◌, ◌≡◌, refl, sym, ap, ◌∙◌, inl, inr, false, List, [], ◌∷◌, none, some, arith, nat_eq,
  ltb, length, All, Bool-cases,
}
use autotun.Assoc.{lookup}
use autotun.Probe.Service.{Snapshot, KeyedSnapshot}
use autotun.Tunnel.Manager.{Manager, Entry}
use autotun.Tunnel.Manager.Sync.{seen, sync}
use autotun.Tunnel.Manager.Invariant.{Inv}
use autotun.Tunnel.Manager.Preserve.{sync-Inv}
use autotun.Tunnel.Manager.Steps.{Call, syncs, step, run}
use autotun.Tunnel.Manager.Absent.{missed, left, sync_present, sync_absent, sync_grace}

-- Scans, one after the other, at their times.
abbrev pub scans : List (ℕ × Snapshot) → List (ℕ × Call)
scans [] = []
scans ((now, snap) ∷ rest) = (now, syncs snap) ∷ scans rest

-- A scan that does not show the port, though it is one that the probe can report.
abbrev pub Misses : ℕ → ℕ × Snapshot → Type 0
Misses k (now, snap) = KeyedSnapshot snap × (seen k snap ≡ false)

scans_absent :
    (k : ℕ) (rest : List (ℕ × Snapshot)) (m : Manager)
    → Inv m
    → All (Misses k) rest
    → lookup k m.entries ≡ none
    → lookup k (run m (scans rest)).entries ≡ none
unfolding run step
scans_absent k [] m v a h = h
scans_absent k ((now, snap) ∷ rest) m v a h =
    scans_absent k rest (sync m snap now).mgr (sync-Inv m snap now a.0.0 v) a.1
      (sync_absent k m snap now a.0.0 v a.0.1 h)

-- The steps of the induction.
left_again :
    (e : Entry) (g h n : ℕ)
    → h ≡ g
    → left h (suc e.missing + suc n) (missed (suc e.missing) e) ≡ left g (e.missing + suc (suc n)) e
left_again e g h n q =
    let l : suc e.missing + suc n ≡ e.missing + suc (suc n) = omega arith in rw (q, l) refl

left-none :
    (e : Entry) (g n : ℕ) → ltb (suc e.missing) g ≡ false → left g (e.missing + suc n) e ≡ none
left-none e g n q = ground arith

-- Scans that do not show the port of an entry, one after the other, raise its count of missing
-- scans by their number as long as the count stays below the grace, and otherwise the entry is
-- deleted by the time of the last.
pub scans-left :
    (k : ℕ) (e : Entry) (now : ℕ) (snap : Snapshot) (rest : List (ℕ × Snapshot)) (m : Manager)
    → Inv m
    → All (Misses k) ((now, snap) ∷ rest)
    → lookup k m.entries ≡ some e
    → lookup k (run m (scans ((now, snap) ∷ rest))).entries
      ≡ left m.grace (e.missing + suc (length rest)) e
unfolding run step
scans-left k e now snap [] m v a h =
    let l : suc e.missing ≡ e.missing + 1 = omega arith in
    sync_present k e m snap now a.0.0 v a.0.1 h ∙ ap (λ n. left m.grace n e) l
scans-left k e now snap ((t, s) ∷ rest) m v a h =
    let n = (sync m snap now).mgr in
    let u = sync-Inv m snap now a.0.0 v in
    let l = sync_present k e m snap now a.0.0 v a.0.1 h in
    elim (Bool-cases (ltb (suc e.missing) m.grace)) [
      | inl q ↦
          scans-left k (missed (suc e.missing) e) t s rest n u a.1 (l ∙ rw q refl)
          ∙ left_again e m.grace n.grace (length rest) (sync_grace k m snap now a.0.0 v a.0.1)
      | inr q ↦
          scans_absent k ((t, s) ∷ rest) n u a.1 (l ∙ rw q refl)
          ∙ sym (left-none e m.grace (suc (length rest)) q)
    ]
