-- ===== src/Probe/Merge/Described.antt =====
-- `merge` (internal/probe/service.go) against a description of each port on its own.
use autotun.Base.{
  ℕ, suc, ◌≤◌, leb, ◌≡◌, refl, sym, ◌∙◌, ap, ◌+◌, eqb_iff, negsuc, inl, inr, Bool, true, false, not,
  ◌&&◌, ◌||◌, List, [], ◌∷◌, ◌++◌, Option, none, some, arith, ◌==◌, nat_eq, int_eq, eqb_ℤ_iff,
  list_eq, list_beq_iff, if◌then◌else◌, ℤ, pos, Bool-cases, eqb→eq,
}
use autotun.Assoc.{lookup, lookup-insert}
use autotun.Text.{Text, is_empty}
use autotun.Sorting.{IsSorted}
use autotun.Probe.Service.{Bind, Service, Snapshot}
use autotun.Probe.Merge.{
  Listener, real_port, is_bind, has_bind, add_listener, or_empty, fold_at, fold_listeners,
  bind_before,
}

abbrev pub is_some : ℕ → Option ℕ → Bool
is_some p none = false
is_some p (some q) = q == p

-- A listener on the port `p`, which is one from 1 to 65535.
unfoldable pub is_on : ℕ → Listener → Bool
is_on p l = l.port == pos p && (leb 1 p && leb p 65535)

abbrev pub any_on : ℕ → List Listener → Bool
any_on p [] = false
any_on p (l ∷ ls) = is_on p l || any_on p ls

-- The first process that a listener of the port is attributed to.
abbrev pub first_pid : ℕ → List Listener → ℤ
first_pid p [] = pos 0
first_pid p (l ∷ ls) =
    let rest = first_pid p ls in if is_on p l && not (l.pid == pos 0) then l.pid else rest

abbrev pub first_proc : ℕ → List Listener → Text
first_proc p [] = []
first_proc p (l ∷ ls) =
    let rest = first_proc p ls in if is_on p l && not (is_empty l.proc) then l.proc else rest

abbrev pub any_bind : ℕ → Text → Text → List Listener → Bool
any_bind p proto addr [] = false
any_bind p proto addr (l ∷ ls) =
    (is_on p l && (l.proto == proto && l.addr == addr)) || any_bind p proto addr ls

-- How often an address is among those of a service.
abbrev pub count_bind : Text → Text → List Bind → ℕ
count_bind proto addr [] = 0
count_bind proto addr (b ∷ bs) =
    let rest = count_bind proto addr bs in if is_bind proto addr b then suc rest else rest

-- No address is there twice.
abbrev pub Once : List Bind → Type 0
Once bs = (proto addr : Text) → count_bind proto addr bs ≤ 1

-- What the listeners of a scan say of the port `p`.
pub record Describes (p : ℕ) (ls : List Listener) (s : Service) : Type 0 where
  pub port : s.port ≡ p
  pub pid : s.pid ≡ first_pid p ls
  pub proc : s.proc ≡ first_proc p ls
  pub binds : (proto addr : Text) → has_bind proto addr s.binds ≡ any_bind p proto addr ls
  pub once : Once s.binds
  pub sorted : IsSorted bind_before s.binds

abbrev pub Described : ℕ → List Listener → Option Service → Type 0
Described p ls none = any_on p ls ≡ false
Described p ls (some s) = (any_on p ls ≡ true) × Describes p ls s

-- The test of `merge` is that one.
is_some-real_port :
    (p : ℕ) (z : ℤ) → is_some p (real_port z) ≡ (z == pos p && (leb 1 p && leb p 65535))
unfolding real_port
is_some-real_port p (negsuc n) = refl
is_some-real_port p (pos n) = ground (arith, eqb_ℤ_iff (pos n) (pos p), eqb_iff n p)

-- The loop, as one port sees it.
abbrev pub gather : ℕ → Option Service → List Listener → Option Service
gather p o [] = o
gather p o (l ∷ ls) = gather p (if is_on p l then some (add_listener l (or_empty p o)) else o) ls

lookup-fold_at :
    (p : ℕ) (snap : Snapshot) (l : Listener) (o : Option ℕ)
    → lookup p (fold_at snap l o)
      ≡ (if is_some p o then some (add_listener l (or_empty p (lookup p snap))) else lookup p snap)
lookup-fold_at p snap l none = refl
lookup-fold_at p snap l (some q) = elim (Bool-cases (q == p)) [
  | inl e ↦
      lookup-insert q p (add_listener l (or_empty q (lookup q snap))) snap
      ∙ rw e (ap (λ i. some (add_listener l (or_empty i (lookup i snap)))) (eqb→eq q p e))
  | inr e ↦ lookup-insert q p (add_listener l (or_empty q (lookup q snap))) snap ∙ rw e
]

pub lookup-fold_listeners :
    (p : ℕ) (snap : Snapshot) (ls : List Listener)
    → lookup p (fold_listeners snap ls) ≡ gather p (lookup p snap) ls
unfolding fold_listeners is_on
lookup-fold_listeners p snap [] = refl
lookup-fold_listeners p snap (l ∷ ls) =
    let here = add_listener l (or_empty p (lookup p snap)) in
    lookup-fold_listeners p (fold_at snap l (real_port l.port)) ls
    ∙ ap (λ o. gather p o ls) (lookup-fold_at p snap l (real_port l.port))
    ∙ ap (λ b. gather p (if b then some here else lookup p snap) ls) (is_some-real_port p l.port)

-- What the loop knows of a port, when some listeners are still to come.
pub record Partial (p : ℕ) (ls : List Listener) (s t : Service) : Type 0 where
  pub port : t.port ≡ s.port
  pub pid : t.pid ≡ (if s.pid == pos 0 then first_pid p ls else s.pid)
  pub proc : t.proc ≡ (if is_empty s.proc then first_proc p ls else s.proc)
  pub binds :
      (proto addr : Text)
      → has_bind proto addr t.binds ≡ (has_bind proto addr s.binds || any_bind p proto addr ls)
  pub once : Once s.binds → Once t.binds

has_bind-append :
    (proto addr : Text) (bs : List Bind) (b : Bind)
    → has_bind proto addr (bs ++ b ∷ []) ≡ (has_bind proto addr bs || is_bind proto addr b)
has_bind-append proto addr [] b = ground arith
has_bind-append proto addr (c ∷ bs) b = ground (arith, has_bind-append proto addr bs b)

has_bind-same :
    (l : Listener) (proto addr : Text) (bs : List Bind)
    → (l.proto == proto && l.addr == addr) ≡ true
    → has_bind l.proto l.addr bs ≡ has_bind proto addr bs
has_bind-same l proto addr bs h =
    let a : l.proto ≡ proto = (list_beq_iff l.proto proto).0 (ground (arith, h)) in
    let b : l.addr ≡ addr = (list_beq_iff l.addr addr).0 (ground (arith, h)) in
    ap (λ t. has_bind t l.addr bs) a ∙ ap (λ t. has_bind proto t bs) b

-- A listener adds its own address and no other.
add_listener-binds :
    (l : Listener) (s : Service) (proto addr : Text)
    → has_bind proto addr (add_listener l s).binds
      ≡ (has_bind proto addr s.binds || (l.proto == proto && l.addr == addr))
unfolding add_listener
add_listener-binds l s proto addr = elim (Bool-cases (has_bind l.proto l.addr s.binds)) [
  | inl q ↦ elim (Bool-cases (l.proto == proto && l.addr == addr)) [
    | inl h ↦ rw q (ground (arith, q, h, has_bind-same l proto addr s.binds h))
    | inr h ↦ rw q (ground (arith, h))
  ]
  | inr q ↦ rw q (has_bind-append proto addr s.binds _)
]

has_bind-count :
    (proto addr : Text) (bs : List Bind)
    → has_bind proto addr bs ≡ false
    → count_bind proto addr bs ≡ 0
has_bind-count proto addr [] h = refl
has_bind-count proto addr (b ∷ bs) h =
    let here : is_bind proto addr b ≡ false = ground (arith, h) in
    rw here (has_bind-count proto addr bs (ground (arith, h)))

count_bind-append :
    (proto addr : Text) (bs : List Bind) (b : Bind)
    → count_bind proto addr (bs ++ b ∷ [])
      ≡ count_bind proto addr bs + (if is_bind proto addr b then 1 else 0)
count_bind-append proto addr [] b = ground arith
count_bind-append proto addr (c ∷ bs) b = ground (arith, count_bind-append proto addr bs b)

add_listener-Once : (l : Listener) (s : Service) → Once s.binds → Once (add_listener l s).binds
unfolding add_listener
add_listener-Once l s o proto addr = elim (Bool-cases (has_bind l.proto l.addr s.binds)) [
  | inl q ↦ rw q (o proto addr)
  | inr q ↦
      let added =
        count_bind-append proto addr s.binds (record { proto = l.proto; addr = l.addr }) in
      rw (q, added)
        (elim (Bool-cases (l.proto == proto && l.addr == addr)) [
          | inl h ↦
              let same = sym (has_bind-same l proto addr s.binds h) ∙ q in
              rw (h, has_bind-count proto addr s.binds same) (omega arith)
          | inr h ↦ rw h (omega (arith, o proto addr))
        ])
]

pub add_listener-Partial :
    (p : ℕ) (l : Listener) (ls : List Listener) (s t : Service)
    → is_on p l ≡ true
    → Partial p ls (add_listener l s) t
    → Partial p (l ∷ ls) s t
unfolding add_listener
add_listener-Partial p l ls s t h r = record {
  port = r.port;
  pid = ground (arith, h, r.pid, eqb_ℤ_iff s.pid (pos 0), eqb_ℤ_iff l.pid (pos 0));
  proc = ground (arith, h, r.proc);
  binds = λ proto addr. ground (arith, h, r.binds proto addr, add_listener-binds l s proto addr);
  once = λ o. r.once (add_listener-Once l s o);
}

-- From a known service the loop goes on to one that it describes.
pub gather-some :
    (p : ℕ) (ls : List Listener) (s : Service)
    → (t : Service) × (gather p (some s) ls ≡ some t) × Partial p ls s t
gather-some p [] s = (
  s,
  refl,
  record {
    port = refl;
    pid = ground (arith, eqb_ℤ_iff s.pid (pos 0));
    proc = blank s.proc;
    binds = λ a b. ground arith;
    once = λ o. o;
  },
)
  where
    blank : (t : Text) → t ≡ (if is_empty t then [] else t)
    blank [] = refl
    blank (c ∷ t) = refl
gather-some p (l ∷ ls) s = elim (Bool-cases (is_on p l)) [
  | inl h ↦
      let (t, g, r) = gather-some p ls (add_listener l s) in
      (
        t,
        ap (λ b. gather p (if b then some (add_listener l s) else some s) ls) h ∙ g,
        add_listener-Partial p l ls s t h r,
      )
  | inr h ↦
      let (t, g, r) = gather-some p ls s in
      (
        t,
        ap (λ b. gather p (if b then some (add_listener l s) else some s) ls) h ∙ g,
        record {
          port = r.port;
          pid = ground (arith, h, r.pid);
          proc = ground (arith, h, r.proc);
          binds = λ a b. ground (arith, h, r.binds a b);
          once = r.once;
        },
      )
]
