-- ===== src/Tunnel/Manager/Invariant.antt =====
-- The invariant of the manager: the table is a map by remote port, and the listeners of the process
-- are those of the table's tunnels, each port once.
use autotun.Base.{
  ℕ, ◌+◌, ◌≤◌, ◌<◌, ◌≡◌, refl, ◌∙◌, ap, inl, inr, List, [], ◌∷◌, none, arith, ◌==◌, nat_eq, count,
  Bool-cases, All,
}
use autotun.Assoc.{lookup, insert, IsMap, insert-IsMap, delete-IsMap, All-delete}
use autotun.Text.{Text}
use autotun.Tunnel.Manager.{Manager, Entry}
use autotun.Tunnel.Manager.Apply.{Applied, apply, close_if_open}
use autotun.Tunnel.Manager.Sync.{put, drop_entry}
use autotun.Tunnel.Manager.Balance.{
  fwd_holds, holders, held_at, holders-insert, holders-delete, held_at-le, Balanced, apply-Balanced,
  close_if_open-Balanced,
}
use autotun.Tunnel.Manager.Frame.{Framed, apply-Framed, close_if_open-Framed}

-- An entry stands under its service's port, which is a real one.
abbrev pub Keyed : ℕ × Entry → Type 0
Keyed q = (q.1.svc.port ≡ q.0) × (0 < q.0)

pub record Inv (m : Manager) : Type 0 where
  pub is_map : IsMap m.entries
  pub keyed : All Keyed m.entries
  pub owned : (p : ℕ) → holders p m.entries ≡ count p m.os.ours
  pub once : (p : ℕ) → count p m.os.ours ≤ 1

-- A step on an entry, as the invariant needs it.
pub record Sound (m : Manager) (k : ℕ) (a : Applied) : Type 0 where
  pub entries : (a.mgr).entries ≡ m.entries
  pub port : (a.entry).svc.port ≡ k
  pub balanced :
      (p : ℕ)
      → count p (a.mgr).os.ours + held_at p (lookup k m.entries)
        ≡ count p m.os.ours + fwd_holds p (a.entry).fwd
  pub once : (p : ℕ) → count p (a.mgr).os.ours ≤ 1

All-insert_key :
    (k : ℕ) (e : Entry) (es : List (ℕ × Entry))
    → Keyed (k, e)
    → All Keyed es
    → All Keyed (insert k e es)
unfolding insert
All-insert_key k e [] h a = (h, tt)
All-insert_key k e ((j, d) ∷ es) h a = elim (Bool-cases (j == k)) [
  | inl q ↦ rw q ((ground (arith, h.0, h.1), ground (arith, h.1)), a.1)
  | inr q ↦ rw q (a.0, All-insert_key k e es h a.1)
]

pub put-Inv : (m : Manager) (k : ℕ) (a : Applied) → Inv m → 0 < k → Sound m k a → Inv (put k a).mgr
put-Inv m k a v z s = record {
  is_map = rw s.entries (insert-IsMap k a.entry m.entries v.is_map);
  keyed = rw s.entries (All-insert_key k a.entry m.entries (s.port, z) v.keyed);
  owned = λ p.
      rw s.entries (omega (arith, holders-insert p k a.entry m.entries, s.balanced p, v.owned p));
  once = s.once;
}

pub drop_entry-Inv :
    (m : Manager) (k : ℕ) (a : Applied)
    → Inv m
    → Sound m k a
    → a.entry.fwd ≡ none
    → Inv (drop_entry k a).mgr
drop_entry-Inv m k a v s c = record {
  is_map = rw s.entries (delete-IsMap k m.entries v.is_map);
  keyed = rw s.entries (All-delete Keyed k m.entries v.keyed);
  owned = λ p.
      rw s.entries
        (omega (arith, holders-delete p k m.entries, s.balanced p, v.owned p, ap (fwd_holds p) c));
  once = s.once;
}

-- Applying the policy to an entry that has the forwarder of the table's entry.
pub apply-Sound :
    (m : Manager) (k : ℕ) (e : Entry) (now : ℕ)
    → Inv m
    → 0 < k
    → e.svc.port ≡ k
    → ((p : ℕ) → fwd_holds p e.fwd ≡ held_at p (lookup k m.entries))
    → Sound m k (apply m e now)
apply-Sound m k e now v z port same = record {
  entries = f.entries;
  port = ap (λ s. s.port) f.svc ∙ port;
  balanced = λ p. omega (arith, (balance p).moved, same p);
  once = λ p. (balance p).once;
}
  where
    f : Framed m e (apply m e now)
    f = apply-Framed m e now

    balance : (p : ℕ) → Balanced p m e.fwd (apply m e now)
    balance p =
        apply-Balanced p m e now (v.once p)
          (omega (arith, same p, held_at-le p k m.entries, v.owned p)) (omega (arith, port))

pub close-Sound :
    (m : Manager) (k : ℕ) (e : Entry) (reason : Text) (now : ℕ)
    → Inv m
    → e.svc.port ≡ k
    → ((p : ℕ) → fwd_holds p e.fwd ≡ held_at p (lookup k m.entries))
    → Sound m k (close_if_open m e e.fwd reason now)
close-Sound m k e reason now v port same = record {
  entries = f.entries;
  port = ap (λ s. s.port) f.svc ∙ port;
  balanced = λ p. omega (arith, (balance p).moved, same p);
  once = λ p. (balance p).once;
}
  where
    f : Framed m e (close_if_open m e e.fwd reason now)
    f = close_if_open-Framed m e e.fwd reason now

    balance : (p : ℕ) → Balanced p m e.fwd (close_if_open m e e.fwd reason now)
    balance p =
        close_if_open-Balanced p m e (v.once p) e.fwd reason now refl
          (omega (arith, same p, held_at-le p k m.entries, v.owned p))
