-- ===== src/Tunnel/Manager/Balance.antt =====
-- The listeners of the process against the tunnels of the table (internal/tunnel/manager.go), one
-- entry at a time.
use autotun.Base.{
  ℕ, ◌+◌, ◌≤◌, ◌<◌, ◌≡◌, refl, inl, inr, List, [], ◌∷◌, Option, none, some, arith, ◌==◌, nat_eq,
  list_eq, if◌then◌else◌, eqb, count, count-erase, Bool-cases, map,
}
use autotun.Assoc.{lookup, insert, delete}
use autotun.Text.{Text}
use autotun.Tunnel.Alloc.{Outcome, Allocated, release}
use autotun.Tunnel.Alloc.Laws.{Promised, allocate-Promised}
use autotun.Tunnel.Forward.{Forwarder, new_forwarder}
use autotun.Tunnel.Manager.{Manager, Entry, want}
use autotun.Tunnel.Manager.Apply.{
  Applied, close, close_if_open, take_outcome, with_allocated, open_entry, apply,
}
use autotun.Tunnel.Manager.Control.{on_entry}

-- How often a forwarder holds the local port `p`.
abbrev pub fwd_holds : ℕ → Option Forwarder → ℕ
fwd_holds p none = 0
fwd_holds p (some f) = if eqb f.local p then 1 else 0

-- How many tunnels of the table are on the local port `p`.
abbrev pub holders : ℕ → List (ℕ × Entry) → ℕ
holders p [] = 0
holders p ((k, e) ∷ es) = fwd_holds p e.fwd + holders p es

abbrev pub held_at : ℕ → Option Entry → ℕ
held_at p none = 0
held_at p (some e) = fwd_holds p e.fwd

pub holders-insert :
    (p k : ℕ) (e : Entry) (es : List (ℕ × Entry))
    → holders p (insert k e es) + held_at p (lookup k es) ≡ holders p es + fwd_holds p e.fwd
unfolding insert lookup
holders-insert p k e [] = omega arith
holders-insert p k e ((j, d) ∷ es) = elim (Bool-cases (j == k)) [
  | inl q ↦ rw q (omega arith)
  | inr q ↦ rw q (omega (arith, holders-insert p k e es))
]

pub holders-delete :
    (p k : ℕ) (es : List (ℕ × Entry))
    → holders p (delete k es) + held_at p (lookup k es) ≡ holders p es
unfolding delete lookup
holders-delete p k [] = omega arith
holders-delete p k ((j, d) ∷ es) = elim (Bool-cases (j == k)) [
  | inl q ↦ rw q (omega arith)
  | inr q ↦ rw q (omega (arith, holders-delete p k es))
]

pub held_at-le : (p k : ℕ) (es : List (ℕ × Entry)) → held_at p (lookup k es) ≤ holders p es
held_at-le p k es = omega (arith, holders-delete p k es)

pub holders-map :
    (p : ℕ) (f : Entry → Entry) (es : List (ℕ × Entry))
    → ((e : Entry) → fwd_holds p (f e).fwd ≡ fwd_holds p e.fwd)
    → holders p (map (on_entry f) es) ≡ holders p es
holders-map p f [] h = refl
holders-map p f ((k, e) ∷ es) h = omega (arith, h e, holders-map p f es h)

-- What a step on one entry does to the count of the local port `p`: it changes with the entry.
pub record Balanced (p : ℕ) (m : Manager) (o : Option Forwarder) (a : Applied) : Type 0 where
  pub moved :
      count p (a.mgr).os.ours + fwd_holds p o ≡ count p m.os.ours + fwd_holds p (a.entry).fwd
  pub once : count p (a.mgr).os.ours ≤ 1

module _ (p : ℕ) (m : Manager) (e : Entry) (once : count p m.os.ours ≤ 1) where
  pub close_if_open-Balanced :
      (o : Option Forwarder) (reason : Text) (now : ℕ)
      → e.fwd ≡ o
      → fwd_holds p o ≤ count p m.os.ours
      → Balanced p m o (close_if_open m e o reason now)
  unfolding close_if_open close release
  close_if_open-Balanced none reason now q h = ground arith
  close_if_open-Balanced (some f) reason now q h = ground (arith, count-erase f.local p m.os.ours)

  take_outcome-Balanced :
      (d now : ℕ) (r : Allocated)
      → e.fwd ≡ none
      → Promised m.alloc m.os.ours e.svc.port r.outcome r.alloc r.os.ours
      → Balanced p m none (take_outcome (with_allocated m r) e d now r.outcome)
  unfolding take_outcome new_forwarder
  take_outcome-Balanced d now r q h = outcome-Balanced r.outcome h
    where
      outcome-Balanced :
          (x : Outcome)
          → Promised m.alloc m.os.ours e.svc.port x r.alloc r.os.ours
          → Balanced p m none (take_outcome (with_allocated m r) e d now x)
      outcome-Balanced (Outcome.opened local remapped) g = ground arith
      outcome-Balanced (Outcome.failed x) g = ground arith

  open_entry-Balanced :
      (o : Option Forwarder) (dialer : Option ℕ) (now : ℕ)
      → e.fwd ≡ o
      → 0 < e.svc.port
      → Balanced p m o (open_entry m e o dialer now)
  unfolding open_entry
  open_entry-Balanced (some f) dialer now q z = ground arith
  open_entry-Balanced none none now q z = ground arith
  open_entry-Balanced none (some d) now q z =
      take_outcome-Balanced d now _ q (allocate-Promised m.alloc m.os e.svc.port e.pinned_local z)

pub apply-Balanced :
    (p : ℕ) (m : Manager) (e : Entry) (now : ℕ)
    → count p m.os.ours ≤ 1
    → fwd_holds p e.fwd ≤ count p m.os.ours
    → 0 < e.svc.port
    → Balanced p m e.fwd (apply m e now)
unfolding apply
apply-Balanced p m e now once h z = elim (Bool-cases (want m.policy e).forward) [
  | inl f ↦ rw f (open_entry-Balanced p m _ once e.fwd m.dialer now refl z)
  | inr f ↦ rw f (close_if_open-Balanced p m _ once e.fwd _ now refl h)
]
