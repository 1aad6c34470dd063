-- ===== src/Config/Ports.antt =====
-- `Store.SetPort` against `Store.Port` (internal/config/config.go).
use autotun.Base.{
  ℕ, ◌≡◌, ◌∙◌, inl, inr, true, false, ◌&&◌, none, arith, ◌==◌, nat_eq, list_eq, list_beq_iff,
  if◌then◌else◌, Bool-cases, Option-cases, All,
}
use autotun.Assoc.{
  lookup, insert, delete, lookup-insert, lookup-delete, IsMap, insert-IsMap, delete-IsMap,
  All-lookup, All-insert, All-delete,
}
use autotun.Text.{Text}
use autotun.Config.Store.{
  Port, Host, Store, zero_port, zero_host, port_is_zero, port_beq, port_beq_iff, host_is_zero,
  port_or_zero, host_at, port, put_host, set_port,
}

-- Every map of the store has distinct keys, as Go's maps have.
pub record IsWell (s : Store) : Type 0 where
  pub hosts_map : IsMap s.hosts
  pub ports_map : (name : Text) → IsMap (host_at s name).ports

host_is_zero-eq : (h : Host) → host_is_zero h ≡ true → h ≡ zero_host
unfolding host_is_zero
host_is_zero-eq h e = ground arith

-- A host written by `put_host` is read back, also when it is dropped for holding nothing.
pub host_at-put_host :
    (s : Store) (a b : Text) (h : Host)
    → IsMap s.hosts
    → host_at (put_host s a h) b ≡ (if a == b then h else host_at s b)
unfolding host_at put_host
host_at-put_host s a b h m = elim (Bool-cases (host_is_zero h)) [
  | inl z ↦ rw (z, lookup-delete a b s.hosts m) (ground (arith, host_is_zero-eq h z))
  | inr z ↦ rw (z, lookup-insert a b h s.hosts) (ground arith)
]

-- The two maps stay maps.
pub put_host-IsWell :
    (s : Store) (a : Text) (h : Host) → IsWell s → IsMap h.ports → IsWell (put_host s a h)
put_host-IsWell s a h w m = record {
  hosts_map = hosts;
  ports_map = λ name. rw (host_at-put_host s a name h w.hosts_map) (ports name);
}
  where
    hosts : IsMap (put_host s a h).hosts
    hosts = elim (Bool-cases (host_is_zero h)) [
      | inl z ↦ unfold put_host in rw z (delete-IsMap a s.hosts w.hosts_map)
      | inr z ↦ unfold put_host in rw z (insert-IsMap a h s.hosts w.hosts_map)
    ]

    ports : (name : Text) → IsMap (if a == name then h else host_at s name).ports
    ports name = elim (Bool-cases (a == name)) [ inl e ↦ rw e m | inr e ↦ rw e (w.ports_map name) ]

-- The three ways that `SetPort` can go.
set_port_cases {ℓ} :
    (P : Store → Type ℓ) (s : Store) (a : Text) (k : ℕ) (p : Port)
    → (port_is_zero p ≡ true → lookup k (host_at s a).ports ≡ none → P s)
    → (port_is_zero p ≡ true
        → P (put_host s a (record (host_at s a) { ports = delete k (host_at s a).ports })))
    → (port_is_zero p ≡ false → port_or_zero (lookup k (host_at s a).ports) ≡ p → P s)
    → (port_is_zero p ≡ false
        → P (put_host s a (record (host_at s a) { ports = insert k p (host_at s a).ports })))
    → P (set_port s a k p)
unfolding set_port
set_port_cases P s a k p absent dropped same stored = elim (Bool-cases (port_is_zero p)) [
  | inl z ↦ elim (Option-cases (lookup k (host_at s a).ports)) [
    | inl e ↦ rw (z, e) (absent z e)
    | inr (old, e) ↦ rw (z, e) (dropped z)
  ]
  | inr z ↦ elim (Bool-cases (port_beq (port_or_zero (lookup k (host_at s a).ports)) p)) [
    | inl e ↦ rw (z, e) (same z ((port_beq_iff _ p).0 e))
    | inr e ↦ rw (z, e) (stored z)
  ]
]

-- The two maps stay maps.
pub set_port-IsWell :
    (s : Store) (a : Text) (k : ℕ) (p : Port) → IsWell s → IsWell (set_port s a k p)
set_port-IsWell s a k p w =
    set_port_cases IsWell s a k p (λ _ _. w)
      (λ _. put_host-IsWell s a _ w (delete-IsMap k _ (w.ports_map a))) (λ _ _. w)
      (λ _. put_host-IsWell s a _ w (insert-IsMap k p _ (w.ports_map a)))

-- What a lookup finds after a write, in a host that was written by `put_host`.
port-put_host :
    (s : Store) (a b : Text) (j : ℕ) (h : Host)
    → IsMap s.hosts
    → port (put_host s a h) b j ≡ (if a == b then port_or_zero (lookup j h.ports) else port s b j)
unfolding port
port-put_host s a b j h m = rw (host_at-put_host s a b h m) (ground arith)

-- The settings that a store remembers are those that were last set, if its maps have distinct
-- keys: after `SetPort`, the port of that host reads as the new settings, or as the zero value
-- where these hold nothing, and every other port and host reads as before.
pub port-set_port :
    (s : Store) (a b : Text) (k j : ℕ) (p : Port)
    → IsWell s
    → port (set_port s a k p) b j
      ≡ (if a == b && k == j then (if port_is_zero p then zero_port else p) else port s b j)
unfolding port
port-set_port s a b k j p w =
    set_port_cases (λ t. port t b j ≡ result) s a k p
      (λ z e. ground (arith, list_beq_iff a b, z, e))
      (λ z.
        port-put_host s a b j _ w.hosts_map
        ∙ ground (arith, list_beq_iff a b, z, lookup-delete k j _ (w.ports_map a)))
      (λ z e. ground (arith, list_beq_iff a b, z, e))
      (λ z.
        port-put_host s a b j _ w.hosts_map
        ∙ ground (arith, list_beq_iff a b, z, lookup-insert k j p (host_at s a).ports))
  where
    result : Port
    result = if a == b && k == j then (if port_is_zero p then zero_port else p) else port s b j

-- Setting again what is already there, if it holds anything, leaves the store as it is, so that it
-- is not written back.
pub set_port_unchanged :
    (s : Store) (a : Text) (k : ℕ)
    → port_is_zero (port s a k) ≡ false
    → set_port s a k (port s a k) ≡ s
unfolding set_port port
set_port_unchanged s a k z = ground (arith, port_beq_iff (port s a k) (port s a k), z)

-- No entry of the store holds nothing.
abbrev pub PortKept : ℕ × Port → Type 0
PortKept q = port_is_zero q.1 ≡ false

abbrev pub HostKept : Text × Host → Type 0
HostKept q = (host_is_zero q.1 ≡ false) × All PortKept q.1.ports

abbrev pub IsClean : Store → Type 0
IsClean s = All HostKept s.hosts

host_at-Kept : (s : Store) (a : Text) → IsClean s → All PortKept (host_at s a).ports
unfolding host_at
host_at-Kept s a c = elim (Option-cases (lookup a s.hosts)) [
  | inl e ↦ rw e tt
  | inr (h, e) ↦ rw e (All-lookup HostKept a h s.hosts c e).1
]

put_host-IsClean :
    (s : Store) (a : Text) (h : Host) → IsClean s → All PortKept h.ports → IsClean (put_host s a h)
unfolding put_host
put_host-IsClean s a h c k = elim (Bool-cases (host_is_zero h)) [
  | inl z ↦ rw z (All-delete HostKept a s.hosts c)
  | inr z ↦ rw z (All-insert HostKept a h s.hosts c (λ j. (z, k)))
]

-- `SetPort` never leaves clutter: if no port entry and no host entry of the store is empty, then
-- none is after any `SetPort`, whatever settings it was given.
pub set_port-IsClean :
    (s : Store) (a : Text) (k : ℕ) (p : Port) → IsClean s → IsClean (set_port s a k p)
set_port-IsClean s a k p c =
    set_port_cases IsClean s a k p (λ _ _. c)
      (λ _. put_host-IsClean s a _ c (All-delete PortKept k _ (host_at-Kept s a c))) (λ _ _. c)
      (λ z. put_host-IsClean s a _ c (All-insert PortKept k p _ (host_at-Kept s a c) (λ j. z)))
