-- ===== src/Tunnel/Manager/Switches.antt =====
-- The invariant and the manager's methods for every entry: `SetDialer` and `SetPolicy`.
use autotun.Base.{
  ℕ, ◌≡◌, refl, sym, ◌∙◌, ap, inl, inr, Bool, List, [], ◌∷◌, Option, none, some, arith, nat_eq,
  Option-cases, All, map,
}
use autotun.Assoc.{lookup, IsMap, IsFresh, All-lookup}
use autotun.Text.{codes}
use autotun.Tunnel.Policy.{Policy}
use autotun.Tunnel.Manager.{Manager, Entry}
use autotun.Tunnel.Manager.Apply.{close_if_open}
use autotun.Tunnel.Manager.Sync.{Effect}
use autotun.Tunnel.Manager.Control.{
  for_keys, on_entry, mark_paused, set_policy, disconnect, same_entry, set_dialer, reset_missing,
}
use autotun.Tunnel.Manager.Balance.{fwd_holds, held_at, holders-map}
use autotun.Tunnel.Manager.Invariant.{Keyed, Inv, put-Inv, close-Sound}
use autotun.Tunnel.Manager.Preserve.{Keeps}
use autotun.Tunnel.Manager.Edits.{reapply-Keeps}

for_keys-Keeps :
    (f : ℕ → Manager → Effect) (ks : List ℕ) → ((k : ℕ) → Keeps (f k)) → Keeps (for_keys f ks)
unfolding for_keys
for_keys-Keeps f [] h m v = v
for_keys-Keeps f (k ∷ ks) h m v = for_keys-Keeps f ks h (f k m).mgr (h k m v)

disconnect-Keeps : (now k : ℕ) → Keeps (disconnect now k)
unfolding disconnect
disconnect-Keeps now k m v = elim (Option-cases (lookup k m.entries)) [
  | inl q ↦ simp (q, disconnect) v
  | inr (e, q) ↦
      simp (q, disconnect)
        (let key = All-lookup Keyed k e m.entries v.keyed q in
          let s =
            close-Sound m k e (codes "disconnected") now v key.0 (λ p. ap (held_at p) (sym q)) in
          put-Inv m k (reset_missing (close_if_open m e e.fwd (codes "disconnected") now)) v key.1
            (record { entries = s.entries; port = s.port; balanced = s.balanced; once = s.once }))
]

pub set_dialer-Inv : (m : Manager) (d : Option ℕ) (now : ℕ) → Inv m → Inv (set_dialer m d now).mgr
unfolding set_dialer
set_dialer-Inv m none now v =
    for_keys-Keeps (disconnect now) _ (λ k. disconnect-Keeps now k) _
      (record { is_map = v.is_map; keyed = v.keyed; owned = v.owned; once = v.once })
set_dialer-Inv m (some d) now v =
    for_keys-Keeps _ _ (λ k. reapply-Keeps same_entry now k (λ e. refl) (λ e. refl)) _
      (record { is_map = v.is_map; keyed = v.keyed; owned = v.owned; once = v.once })

pub mark_paused-fwd : (a b : Bool) (e : Entry) → (mark_paused a b e).fwd ≡ e.fwd
unfolding mark_paused
mark_paused-fwd a b e = ground arith

mark_paused-svc : (a b : Bool) (e : Entry) → (mark_paused a b e).svc ≡ e.svc
unfolding mark_paused
mark_paused-svc a b e = ground arith

IsFresh-map :
    (k : ℕ) (f : Entry → Entry) (es : List (ℕ × Entry))
    → IsFresh k es
    → IsFresh k (map (on_entry f) es)
IsFresh-map k f [] h = tt
IsFresh-map k f ((j, e) ∷ es) h = (h.0, IsFresh-map k f es h.1)

IsMap-map : (f : Entry → Entry) (es : List (ℕ × Entry)) → IsMap es → IsMap (map (on_entry f) es)
IsMap-map f [] h = tt
IsMap-map f ((j, e) ∷ es) h = (IsFresh-map j f es h.0, IsMap-map f es h.1)

Keyed-map :
    (f : Entry → Entry) (es : List (ℕ × Entry))
    → ((e : Entry) → (f e).svc ≡ e.svc)
    → All Keyed es
    → All Keyed (map (on_entry f) es)
Keyed-map f [] s h = tt
Keyed-map f ((j, e) ∷ es) s h = ((ap (λ x. x.port) (s e) ∙ h.0.0, h.0.1), Keyed-map f es s h.1)

pub set_policy-Inv : (m : Manager) (p : Policy) (now : ℕ) → Inv m → Inv (set_policy m p now).mgr
unfolding set_policy
set_policy-Inv m p now v =
    for_keys-Keeps _ _ (λ k. reapply-Keeps same_entry now k (λ e. refl) (λ e. refl)) _
      (record {
        is_map = IsMap-map mark m.entries v.is_map;
        keyed = Keyed-map mark m.entries (mark_paused-svc _ _) v.keyed;
        owned = λ q.
            holders-map q mark m.entries (λ e. ap (fwd_holds q) (mark_paused-fwd _ _ e))
            ∙ v.owned q;
        once = v.once;
      })
  where
    mark : Entry → Entry
    mark = mark_paused m.policy.paused p.paused
