-- ===== src/Tunnel/Manager/Converge.antt =====
-- The settled table (internal/tunnel/manager.go): one step on an entry, and steps on every entry.
use autotun.Tunnel.Manager.Frame.{close_if_open-closed}
use autotun.Base.{
  ℕ, ◌≡◌, refl, sym, ◌∙◌, ap, ◌⊎◌, inl, inr, true, false, ◌||◌, List, [], ◌∷◌, none, some, arith,
  ◌==◌, nat_eq, eqb→eq, Bool-cases, Option-cases, map, subst,
}
use autotun.Assoc.{lookup, lookup-insert_cases}
use autotun.Text.{codes}
use autotun.Tunnel.Manager.{Manager, Entry}
use autotun.Tunnel.Manager.Apply.{Applied, apply, close_if_open}
use autotun.Tunnel.Manager.Sync.{Effect, put, member}
use autotun.Tunnel.Manager.Control.{
  reapply, for_keys, on_entry, disconnect, reset_missing, same_entry, keys_of, sort_by_port,
  insert_by_port, sorted_keys,
}
use autotun.Tunnel.Manager.Frame.{apply-Framed, close_if_open-Framed}
use autotun.Tunnel.Manager.Settled.{Settled, apply-Settled}

-- The entries that are not due any more are settled; no tunnel is open while the link is down.
pub record Due (ks : List ℕ) (m : Manager) : Type 0 where
  pub done :
      (j : ℕ) (e : Entry)
      → lookup j m.entries ≡ some e
      → member j ks ≡ false
      → Settled m.policy m.dialer e
  pub down : (j : ℕ) (e : Entry) → lookup j m.entries ≡ some e → m.dialer ≡ none → e.fwd ≡ none

abbrev pub AllSettled : Manager → Type 0
AllSettled m = (j : ℕ) (e : Entry) → lookup j m.entries ≡ some e → Settled m.policy m.dialer e

-- A step on one entry that settles it takes its key off the list.
pub put-Due :
    (k : ℕ) (ks : List ℕ) (m : Manager) (a : Applied)
    → a.mgr.entries ≡ m.entries
    → a.mgr.policy ≡ m.policy
    → a.mgr.dialer ≡ m.dialer
    → Settled m.policy m.dialer a.entry
    → Due (k ∷ ks) m
    → Due ks (put k a).mgr
put-Due k ks m a en po di s u = record {
  done = λ j e l h. rw (po, di) (settle j e (before j e l) h);
  down = λ j e l d. closed j e (before j e l) (sym di ∙ d);
}
  where
    before :
        (j : ℕ) (e : Entry)
        → lookup j (put k a).mgr.entries ≡ some e
        → (((k == j) ≡ true) × (a.entry ≡ e)) ⊎ (((k == j) ≡ false) × (lookup j m.entries ≡ some e))
    before j e l = lookup-insert_cases k j a.entry e m.entries (rw en at l)

    settle :
        (j : ℕ) (e : Entry)
        → (((k == j) ≡ true) × (a.entry ≡ e)) ⊎ (((k == j) ≡ false) × (lookup j m.entries ≡ some e))
        → member j ks ≡ false
        → Settled m.policy m.dialer e
    settle j e (inl (_, q)) h = subst (Settled m.policy m.dialer) q s
    settle j e (inr (n, l)) h = u.done j e l (rw n h)

    closed :
        (j : ℕ) (e : Entry)
        → (((k == j) ≡ true) × (a.entry ≡ e)) ⊎ (((k == j) ≡ false) × (lookup j m.entries ≡ some e))
        → m.dialer ≡ none
        → e.fwd ≡ none
    closed j e (inl (_, q)) d = ap (λ x. x.fwd) (sym q) ∙ s.offline d
    closed j e (inr (n, l)) d = u.down j e l d

-- A key that the table does not hold is due to nobody.
skip-Due :
    (k : ℕ) (ks : List ℕ) (m : Manager) → lookup k m.entries ≡ none → Due (k ∷ ks) m → Due ks m
skip-Due k ks m n u = record {
  done = λ j e l h. elim (Bool-cases (k == j)) [
    | inl q ↦ absurd (cc (n, l, ap (λ i. lookup i m.entries) (eqb→eq k j q)))
    | inr q ↦ u.done j e l (rw q h)
  ];
  down = u.down;
}

pub reapply-Due :
    (now k : ℕ) (ks : List ℕ) (m : Manager)
    → Due (k ∷ ks) m
    → Due ks (reapply same_entry now k m).mgr
unfolding reapply
reapply-Due now k ks m u = elim (Option-cases (lookup k m.entries)) [
  | inl q ↦ simp (q, reapply) (skip-Due k ks m q u)
  | inr (e, q) ↦
      simp (q, reapply)
        (let f = apply-Framed m e now in
          put-Due k ks m (apply m e now) f.entries f.policy f.dialer
            (apply-Settled m e now (u.down k e q)) u)
]

-- The entries that are not due any more have no tunnel.
pub record Gone (ks : List ℕ) (m : Manager) : Type 0 where
  pub down : m.dialer ≡ none
  pub gone : (j : ℕ) (e : Entry) → lookup j m.entries ≡ some e → member j ks ≡ false → e.fwd ≡ none

pub disconnect-Gone :
    (now k : ℕ) (ks : List ℕ) (m : Manager) → Gone (k ∷ ks) m → Gone ks (disconnect now k m).mgr
unfolding disconnect
disconnect-Gone now k ks m u = elim (Option-cases (lookup k m.entries)) [
  | inl q ↦
      simp (q, disconnect)
        (record {
          down = u.down;
          gone = λ j e l h. elim (Bool-cases (k == j)) [
            | inl r ↦ absurd (cc (q, l, ap (λ i. lookup i m.entries) (eqb→eq k j r)))
            | inr r ↦ u.gone j e l (rw r h)
          ];
        })
  | inr (e, q) ↦ simp (q, disconnect) (closing e)
]
  where
    closing :
        (e : Entry)
        → Gone ks (put k (reset_missing (close_if_open m e e.fwd (codes "disconnected") now))).mgr
    closing e = record {
      down = (close_if_open-Framed m e e.fwd _ now).dialer ∙ u.down;
      gone = λ j d l h. shut j d h (
          lookup-insert_cases k j _ d m.entries
            (rw (close_if_open-Framed m e e.fwd (codes "disconnected") now).entries at l));
    }
      where
        new : Entry
        new = (reset_missing (close_if_open m e e.fwd (codes "disconnected") now)).entry

        shut :
            (j : ℕ) (d : Entry)
            → member j ks ≡ false
            → (((k == j) ≡ true) × (new ≡ d)) ⊎ (((k == j) ≡ false) × (lookup j m.entries ≡ some d))
            → d.fwd ≡ none
        shut j d h (inl (_, q)) =
            ap (λ x. x.fwd) (sym q) ∙ close_if_open-closed m e e.fwd (codes "disconnected") now refl
        shut j d h (inr (n, l)) = u.gone j d l (rw n h)

pub for_keys-Due :
    (P : List ℕ → Manager → Type 0) (f : ℕ → Manager → Effect) (ks : List ℕ) (m : Manager)
    → ((k : ℕ) (rest : List ℕ) (n : Manager) → P (k ∷ rest) n → P rest (f k n).mgr)
    → P ks m
    → P [] (for_keys f ks m).mgr
unfolding for_keys
for_keys-Due P f [] m h p = p
for_keys-Due P f (k ∷ ks) m h p = for_keys-Due P f ks (f k m).mgr h (h k ks m p)

member-insert_by_port :
    (j k : ℕ) (e : Entry) (es : List (ℕ × Entry))
    → member j (keys_of (insert_by_port (k, e) es)) ≡ (k == j || member j (keys_of es))
unfolding insert_by_port
member-insert_by_port j k e [] = refl
member-insert_by_port j k e ((i, d) ∷ es) = ground (arith, member-insert_by_port j k e es)

-- Every key is among the sorted ones.
pub member-sorted :
    (j : ℕ) (e : Entry) (es : List (ℕ × Entry))
    → lookup j es ≡ some e
    → member j (keys_of (sort_by_port es)) ≡ true
unfolding sort_by_port lookup
member-sorted j e [] l = cc
member-sorted j e ((k, d) ∷ es) l =
    member-insert_by_port j k d (sort_by_port es) ∙ ground (arith, member-sorted j e es)

pub all-Due :
    (m : Manager)
    → ((j : ℕ) (e : Entry) → lookup j m.entries ≡ some e → m.dialer ≡ none → e.fwd ≡ none)
    → Due (sorted_keys m) m
all-Due m h = record { done = λ j e l q. absurd (cc (member-sorted j e m.entries l, q)); down = h }

pub finished : (m : Manager) → Due [] m → AllSettled m
finished m u j e l = u.done j e l refl

pub lookup-map :
    (f : Entry → Entry) (j : ℕ) (e : Entry) (es : List (ℕ × Entry))
    → lookup j (map (on_entry f) es) ≡ some e
    → (d : Entry) × (lookup j es ≡ some d) × (f d ≡ e)
unfolding lookup
lookup-map f j e [] h = cc
lookup-map f j e ((k, d) ∷ es) h = elim (Bool-cases (k == j)) [
  | inl q ↦ (d, rw q, ground (arith, h, q))
  | inr q ↦ let (d', l, r) = lookup-map f j e es (rw q at h) in (d', (rw q l), r)
]
