-- ===== src/Tunnel/Manager/Pause.antt =====
-- `SetPolicy` (internal/tunnel/manager.go) with a policy that pauses.
use autotun.Base.{
  ℕ, ◌≡◌, sym, subst, ◌∙◌, ap, inl, inr, true, false, List, [], ◌∷◌, some, arith, ◌==◌, nat_eq,
  eqb→eq, Bool-cases, Option-cases, map,
}
use autotun.Assoc.{lookup, insert, lookup-insert}
use autotun.Config.Mode.{auto}
use autotun.Tunnel.Policy.{Policy}
use autotun.Tunnel.Forward.{Forwarder}
use autotun.Tunnel.Manager.{Manager, Entry, want}
use autotun.Tunnel.Manager.Apply.{apply, open_entry}
use autotun.Tunnel.Manager.Sync.{put}
use autotun.Tunnel.Manager.Control.{
  reapply, for_keys, on_entry, mark_paused, set_policy, same_entry, sorted_keys,
}
use autotun.Tunnel.Manager.Frame.{apply-Framed}
use autotun.Tunnel.Manager.Converge.{for_keys-Due}

-- The entry of `k` has the tunnel `f` and is kept through the pause.
record Kept (k : ℕ) (f : Forwarder) (m : Manager) : Type 0 where
  stopped : m.policy.paused ≡ true
  entry : Entry
  there : lookup k m.entries ≡ some entry
  open_ : entry.fwd ≡ some f
  mode : entry.mode ≡ auto
  keep : entry.paused_keep ≡ true

apply_kept :
    (m : Manager) (e : Entry) (now : ℕ) (f : Forwarder)
    → m.policy.paused ≡ true
    → e.fwd ≡ some f
    → e.mode ≡ auto
    → e.paused_keep ≡ true
    → (apply m e now).entry.fwd ≡ some f
unfolding apply want open_entry
apply_kept m e now f p o a k = ground arith

put-Kept :
    (now k : ℕ) (f : Forwarder) (m : Manager) (d : Entry)
    → d.fwd ≡ some f
    → d.mode ≡ auto
    → d.paused_keep ≡ true
    → m.policy.paused ≡ true
    → Kept k f (put k (apply m d now)).mgr
put-Kept now k f m d o a y p =
    let g = apply-Framed m d now in
    record {
      stopped = ap (λ x. x.paused) g.policy ∙ p;
      entry = (apply m d now).entry;
      there =
          ap (λ es. lookup k (insert k (apply m d now).entry es)) g.entries
          ∙ lookup-insert k k (apply m d now).entry m.entries
          ∙ ground arith;
      open_ = apply_kept m d now f p o a y;
      mode = g.mode ∙ a;
      keep = g.paused_keep ∙ y;
    }

put_other :
    (now k j : ℕ) (f : Forwarder) (m : Manager) (d : Entry)
    → (j == k) ≡ false
    → Kept k f m
    → Kept k f (put j (apply m d now)).mgr
put_other now k j f m d n h =
    let g = apply-Framed m d now in
    record {
      stopped = ap (λ x. x.paused) g.policy ∙ h.stopped;
      entry = h.entry;
      there =
          ap (λ es. lookup k (insert j (apply m d now).entry es)) g.entries
          ∙ lookup-insert j k (apply m d now).entry m.entries
          ∙ ground (arith, n, h.there);
      open_ = h.open_;
      mode = h.mode;
      keep = h.keep;
    }

reapply-Kept :
    (now k j : ℕ) (f : Forwarder) (m : Manager)
    → Kept k f m
    → Kept k f (reapply same_entry now j m).mgr
unfolding reapply
reapply-Kept now k j f m h = elim (Option-cases (lookup j m.entries)) [
  | inl q ↦ simp (q, reapply) h
  | inr (d, q) ↦ elim (Bool-cases (j == k)) [
    | inl same ↦
        let key : j ≡ k = eqb→eq j k same in
        let here : d ≡ h.entry = cc (q, ap (λ i. lookup i m.entries) key, h.there) in
        simp (q, reapply)
          (subst (λ i. Kept k f (put i (apply m d now)).mgr) (sym key)
            (put-Kept now k f m d (ap (λ x. x.fwd) here ∙ h.open_) (ap (λ x. x.mode) here ∙ h.mode)
              (ap (λ x. x.paused_keep) here ∙ h.keep) h.stopped))
    | inr other ↦ simp (q, reapply) (put_other now k j f m d other h)
  ]
]

lookup-map-some :
    (g : Entry → Entry) (k : ℕ) (e : Entry) (es : List (ℕ × Entry))
    → lookup k es ≡ some e
    → lookup k (map (on_entry g) es) ≡ some (g e)
unfolding lookup
lookup-map-some g k e [] l = cc
lookup-map-some g k e ((j, d) ∷ es) l = elim (Bool-cases (j == k)) [
  | inl q ↦ rw q (let same : some d ≡ some e = rw q at l in cc same)
  | inr q ↦ rw q (lookup-map-some g k e es (rw q at l))
]

-- Pausing closes no automatic tunnel that is open: when a policy that pauses takes the place of one
-- that did not, the entry of such a tunnel is still listed, with the very same tunnel.
pub set_policy_pause_keeps :
    (m : Manager) (p : Policy) (now k : ℕ) (e : Entry) (f : Forwarder)
    → m.policy.paused ≡ false
    → p.paused ≡ true
    → lookup k m.entries ≡ some e
    → e.fwd ≡ some f
    → e.mode ≡ auto
    → (d : Entry) × (lookup k (set_policy m p now).mgr.entries ≡ some d) × (d.fwd ≡ some f)
unfolding set_policy
set_policy_pause_keeps m p now k e f r s l o a = (z.entry, z.there, z.open_)
  where
    mark : Entry → Entry
    mark = mark_paused m.policy.paused p.paused

    marked : mark e ≡ record e { paused_keep = true }
    marked = rw (r, s) (unfold mark_paused in ground (arith, o, a))

    m' : Manager
    m' = record m { policy = p; entries = map (on_entry mark) m.entries }

    z : Kept k f (for_keys (reapply same_entry now) (sorted_keys m') m').mgr
    z =
        for_keys-Due (λ ks n. Kept k f n) (reapply same_entry now) (sorted_keys m') m'
          (λ j ks n h. reapply-Kept now k j f n h)
          (record {
            stopped = s;
            entry = mark e;
            there = lookup-map-some mark k e m.entries l;
            open_ = ap (λ x. x.fwd) marked ∙ o;
            mode = ap (λ x. x.mode) marked ∙ a;
            keep = ap (λ x. x.paused_keep) marked;
          })
