-- ===== src/Config/Views.antt =====
-- `Store.SetViewPrefs` against `Store.ViewPrefs` (internal/config/config.go).
use autotun.Base.{
  ℕ, ◌≡◌, refl, inl, inr, true, arith, ◌==◌, nat_eq, list_eq, list_beq_iff, if◌then◌else◌,
  Bool-cases,
}
use autotun.Text.{Text, codes, is_empty}
use autotun.Config.Store.{
  Host, Store, ViewPrefs, host_at, port, prefs_of, view_prefs, with_prefs, same_prefs,
  set_view_prefs,
}
use autotun.Config.Ports.{IsWell, host_at-put_host}

-- An empty sort name stands for the default one.
abbrev pub settled : ViewPrefs → ViewPrefs
settled p = record p { sort = if is_empty p.sort then codes "port" else p.sort }

prefs_of-with_prefs : (h : Host) (p : ViewPrefs) → prefs_of (with_prefs h p) ≡ settled p
unfolding prefs_of with_prefs
prefs_of-with_prefs h p = ground (arith, list_beq_iff p.sort (codes "port"))

same_prefs-eq : (a b : Host) → same_prefs a b ≡ true → prefs_of a ≡ prefs_of b
unfolding same_prefs prefs_of
same_prefs-eq a b h = ground (arith, list_beq_iff a.view b.view, list_beq_iff a.sort b.sort)

with_prefs-ports : (h : Host) (p : ViewPrefs) → (with_prefs h p).ports ≡ h.ports
unfolding with_prefs
with_prefs-ports h p = refl

-- The preferences of a host are those that were last set for it, an empty sort name standing for
-- the default one, and every other host's are as before, if the maps of the store have distinct
-- keys.
pub view_prefs-set_view_prefs :
    (s : Store) (a b : Text) (p : ViewPrefs)
    → IsWell s
    → view_prefs (set_view_prefs s a p) b ≡ (if a == b then settled p else view_prefs s b)
unfolding set_view_prefs view_prefs
view_prefs-set_view_prefs s a b p w =
    elim (Bool-cases (same_prefs (with_prefs (host_at s a) p) (host_at s a))) [
      | inl e ↦ rw e (
          ground (
            arith,
            list_beq_iff a b,
            same_prefs-eq (with_prefs (host_at s a) p) (host_at s a) e,
            prefs_of-with_prefs (host_at s a) p,
          ))
      | inr e ↦
          rw (e, host_at-put_host s a b (with_prefs (host_at s a) p) w.hosts_map)
            (ground (arith, prefs_of-with_prefs (host_at s a) p))
    ]

-- Setting the preferences of a host never touches a remembered port, of that host or another, if
-- the maps of the store have distinct keys.
pub port-set_view_prefs :
    (s : Store) (a b : Text) (p : ViewPrefs) (k : ℕ)
    → IsWell s
    → port (set_view_prefs s a p) b k ≡ port s b k
unfolding set_view_prefs port
port-set_view_prefs s a b p k w =
    elim (Bool-cases (same_prefs (with_prefs (host_at s a) p) (host_at s a))) [
      | inl e ↦ rw e
      | inr e ↦
          rw (e, host_at-put_host s a b (with_prefs (host_at s a) p) w.hosts_map)
            (ground (arith, list_beq_iff a b, with_prefs-ports (host_at s a) p))
    ]
