-- ===== src/Probe/Merge/Result.antt =====
-- The snapshot of `merge` (internal/probe/service.go) port by port.
use autotun.Base.{
  ℕ, suc, ◌≤◌, ◌<◌, ◌≡◌, refl, sym, subst, ◌∙◌, ap, inl, inr, true, false, ◌||◌, List, [], ◌∷◌,
  Option, none, some, arith, ◌==◌, nat_eq, int_eq, list_eq, list_beq_iff, if◌then◌else◌, map, ℤ,
  pos, negsuc, Bool-cases, Option-cases, eqb→eq,
}
use autotun.Assoc.{lookup, insert, All-lookup}
use autotun.Text.{Text}
use autotun.Text.Order.{text_lt-Weak, text_lt_total}
use autotun.Sorting.{insert_by, sort_by, sort_by-IsSorted}
use autotun.Probe.Service.{Bind, Service, Snapshot, KeyedSnapshot}
use autotun.Probe.Merge.{
  Listener, real_port, empty_service, is_bind, has_bind, add_listener, or_empty, fold_at,
  fold_listeners, bind_before, sort_binds, sort_entry, merge,
}
use autotun.Probe.Merge.Described.{
  is_on, Describes, Described, count_bind, gather, Partial, gather-some, add_listener-Partial,
  lookup-fold_listeners,
}

bind_before_asym : (a b : Bind) → bind_before a b ≡ true → bind_before b a ≡ false
unfolding bind_before
bind_before_asym a b h = ground (
  arith,
  h,
  list_beq_iff a.proto b.proto,
  list_beq_iff b.proto a.proto,
  text_lt-Weak.asym a.addr b.addr,
  text_lt-Weak.asym a.proto b.proto,
)

bind_before_trans :
    (a b c : Bind) → bind_before b a ≡ false → bind_before c b ≡ false → bind_before c a ≡ false
unfolding bind_before
bind_before_trans a b c h g = ground (
  arith,
  h,
  g,
  list_beq_iff b.proto a.proto,
  list_beq_iff c.proto b.proto,
  list_beq_iff c.proto a.proto,
  text_lt-Weak.trans a.addr b.addr c.addr,
  text_lt-Weak.trans a.proto b.proto c.proto,
  text_lt_total a.proto b.proto,
  text_lt_total b.proto a.proto,
  text_lt_total b.proto c.proto,
  text_lt_total c.proto b.proto,
  text_lt-Weak.asym c.proto b.proto,
  text_lt-Weak.asym b.proto a.proto,
)

has_bind-insert_by :
    (proto addr : Text) (b : Bind) (bs : List Bind)
    → has_bind proto addr (insert_by bind_before b bs)
      ≡ (is_bind proto addr b || has_bind proto addr bs)
unfolding insert_by
has_bind-insert_by proto addr b [] = refl
has_bind-insert_by proto addr b (c ∷ bs) = elim (Bool-cases (bind_before c b)) [
  | inl q ↦ rw q (ground (arith, has_bind-insert_by proto addr b bs))
  | inr q ↦ rw q
]

has_bind-sort_by :
    (proto addr : Text) (bs : List Bind)
    → has_bind proto addr (sort_by bind_before bs) ≡ has_bind proto addr bs
unfolding sort_by
has_bind-sort_by proto addr [] = refl
has_bind-sort_by proto addr (b ∷ bs) =
    has_bind-insert_by proto addr b (sort_by bind_before bs)
    ∙ ap (λ r. is_bind proto addr b || r) (has_bind-sort_by proto addr bs)

abbrev sort_some : Option Service → Option Service
sort_some none = none
sort_some (some s) = some (sort_binds s)

count_bind-insert_by :
    (proto addr : Text) (b : Bind) (bs : List Bind)
    → count_bind proto addr (insert_by bind_before b bs) ≡ count_bind proto addr (b ∷ bs)
unfolding insert_by
count_bind-insert_by proto addr b [] = refl
count_bind-insert_by proto addr b (c ∷ bs) = elim (Bool-cases (bind_before c b)) [
  | inl q ↦ rw q (ground (arith, count_bind-insert_by proto addr b bs))
  | inr q ↦ rw q refl
]

count_bind-sort_by :
    (proto addr : Text) (bs : List Bind)
    → count_bind proto addr (sort_by bind_before bs) ≡ count_bind proto addr bs
unfolding sort_by
count_bind-sort_by proto addr [] = refl
count_bind-sort_by proto addr (b ∷ bs) =
    count_bind-insert_by proto addr b (sort_by bind_before bs)
    ∙ ap (λ n. if is_bind proto addr b then suc n else n) (count_bind-sort_by proto addr bs)

lookup-sort_entry :
    (p : ℕ) (snap : Snapshot) → lookup p (map sort_entry snap) ≡ sort_some (lookup p snap)
unfolding lookup
lookup-sort_entry p [] = refl
lookup-sort_entry p ((q, s) ∷ snap) = elim (Bool-cases (q == p)) [
  | inl e ↦ rw e
  | inr e ↦ rw e (lookup-sort_entry p snap)
]

Partial-Describes :
    (p : ℕ) (ls : List Listener) (t : Service)
    → Partial p ls (empty_service p) t
    → Describes p ls (sort_binds t)
unfolding sort_binds
Partial-Describes p ls t r = record {
  port = r.port;
  pid = r.pid;
  proc = r.proc;
  binds = λ a b. has_bind-sort_by a b t.binds ∙ r.binds a b;
  once = λ a b.
      subst (λ n. n ≤ 1) (sym (count_bind-sort_by a b t.binds)) (r.once (λ x y. omega arith) a b);
  sorted =
      sort_by-IsSorted bind_before t.binds
        (record { asym = bind_before_asym; trans = bind_before_trans });
}

skip_listener :
    (p : ℕ) (l : Listener) (ls : List Listener) (o : Option Service)
    → is_on p l ≡ false
    → Described p ls o
    → Described p (l ∷ ls) o
skip_listener p l ls none h d = ground (arith, h, d)
skip_listener p l ls (some s) h (a, d) = (
  ground (arith, h, a),
  record {
    port = d.port;
    pid = ground (arith, h, d.pid);
    proc = ground (arith, h, d.proc);
    binds = λ x y. ground (arith, h, d.binds x y);
    once = d.once;
    sorted = d.sorted;
  },
)

gather-none : (p : ℕ) (ls : List Listener) → Described p ls (sort_some (gather p none ls))
gather-none p [] = refl
gather-none p (l ∷ ls) = elim (Bool-cases (is_on p l)) [
  | inl h ↦
      let (t, g, r) = gather-some p ls (add_listener l (empty_service p)) in
      subst (λ o. Described p (l ∷ ls) (sort_some o))
        (sym (
          ap (λ b. gather p (if b then some (add_listener l (empty_service p)) else none) ls) h
          ∙ g))
        (
          ground (arith, h),
          Partial-Describes p (l ∷ ls) t (add_listener-Partial p l ls (empty_service p) t h r),
        )
  | inr h ↦
      subst (λ o. Described p (l ∷ ls) (sort_some o))
        (sym
          (ap (λ b. gather p (if b then some (add_listener l (empty_service p)) else none) ls) h))
        (skip_listener p l ls (sort_some (gather p none ls)) h (gather-none p ls))
]

-- The snapshot of a scan has an entry for exactly the ports from 1 to 65535 on which the remote
-- reports a listener. Its process is the first one that a listener of that port is attributed to,
-- and its addresses are those of the port's listeners, each of them once, in order.
pub lookup-merge : (ls : List Listener) (p : ℕ) → Described p ls (lookup p (merge ls))
unfolding merge
lookup-merge ls p =
    subst (Described p ls)
      (sym
        (lookup-sort_entry p (fold_listeners [] ls) ∙ ap sort_some (lookup-fold_listeners p [] ls)))
      (gather-none p ls)

abbrev IsReal : ℕ × Service → Type 0
IsReal q = (q.1.port ≡ q.0) × (0 < q.0)

real_port-pos : (z : ℤ) (p : ℕ) → real_port z ≡ some p → 0 < p
unfolding real_port
real_port-pos (negsuc n) p h = absurd (cc)
real_port-pos (pos n) p h = ground (arith, h)

insert-Keyed :
    (p : ℕ) (s : Service) (snap : Snapshot)
    → s.port ≡ p
    → 0 < p
    → KeyedSnapshot snap
    → KeyedSnapshot (insert p s snap)
unfolding insert
insert-Keyed p s [] e z a = ((e, z), tt)
insert-Keyed p s ((q, t) ∷ snap) e z a = elim (Bool-cases (q == p)) [
  | inl h ↦ rw h ((e ∙ sym (eqb→eq q p h), a.0.1), a.1)
  | inr h ↦ rw h (a.0, insert-Keyed p s snap e z a.1)
]

or_empty-port :
    (p : ℕ) (snap : Snapshot) → KeyedSnapshot snap → (or_empty p (lookup p snap)).port ≡ p
or_empty-port p snap a = elim (Option-cases (lookup p snap)) [
  | inl n ↦ ap (λ o. (or_empty p o).port) n
  | inr (s, n) ↦ ap (λ o. (or_empty p o).port) n ∙ (All-lookup IsReal p s snap a n).0
]

add_listener-port : (l : Listener) (s : Service) → (add_listener l s).port ≡ s.port
unfolding add_listener
add_listener-port l s = ground arith

fold_listeners-Keyed :
    (snap : Snapshot) (ls : List Listener)
    → KeyedSnapshot snap
    → KeyedSnapshot (fold_listeners snap ls)
unfolding fold_listeners
fold_listeners-Keyed snap [] a = a
fold_listeners-Keyed snap (l ∷ ls) a =
    fold_listeners-Keyed (fold_at snap l (real_port l.port)) ls
      (elim (Option-cases (real_port l.port)) [
        | inl n ↦ rw n a
        | inr (p, n) ↦ rw n (
            insert-Keyed p _ snap
              (add_listener-port l (or_empty p (lookup p snap)) ∙ or_empty-port p snap a)
              (real_port-pos l.port p n) a)
      ])

-- The snapshot that `merge` makes is one that the manager takes: each service stands under its own
-- port, which is not zero.
pub merge-KeyedSnapshot : (ls : List Listener) → KeyedSnapshot (merge ls)
unfolding merge sort_binds
merge-KeyedSnapshot ls = sorted (fold_listeners [] ls) (fold_listeners-Keyed [] ls tt)
  where
    sorted : (snap : Snapshot) → KeyedSnapshot snap → KeyedSnapshot (map sort_entry snap)
    sorted [] a = tt
    sorted ((q, s) ∷ snap) a = (a.0, sorted snap a.1)
