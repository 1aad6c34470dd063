-- ===== src/Tunnel/Manager/Session.antt =====
-- What the browser bridge does to an entry (internal/tunnel/manager.go): `ForwardNow` and
-- `observeScheme`.
use autotun.Base.{
  ℕ, ◌≡◌, refl, sym, ◌∙◌, ap, inl, inr, true, false, not, ◌&&◌, Option, none, some, arith, ◌==◌,
  nat_eq, list_eq, if◌then◌else◌, eqb→eq, Bool-cases, Option-cases,
}
use autotun.Assoc.{lookup, lookup-insert}
use autotun.Text.{Text, codes}
use autotun.Config.Mode.{on, mode_text, mode_is_off}
use autotun.Config.Store.{Store, port, set_port, zero_port, port_is_zero}
use autotun.Config.Ports.{IsWell}
use autotun.Tunnel.Scheme.{Scheme, unknown, scheme_beq}
use autotun.Tunnel.Manager.{Manager, Entry}
use autotun.Tunnel.Manager.Apply.{apply}
use autotun.Tunnel.Manager.Control.{
  edit, persist, saved_port, observe_scheme, force_on, forward_now, normal_label, set_label,
}
use autotun.Tunnel.Manager.Frame.{apply-Framed}
use autotun.Tunnel.Manager.Memory.{persist_lem}

same_key :
    (m : Manager) (k j : ℕ) (o : Option Entry) (e : Entry)
    → lookup k m.entries ≡ o
    → lookup j m.entries ≡ some e
    → (k == j) ≡ true
    → o ≡ some e
same_key m k j o e n l q = sym n ∙ ap (λ i. lookup i m.entries) (eqb→eq k j q) ∙ l

-- An edit changes the entry of its key and no other.
pub lookup-edit :
    (m : Manager) (k j : ℕ) (f : Entry → Entry) (e : Entry)
    → lookup j m.entries ≡ some e
    → lookup j (edit m k f).entries ≡ some (if k == j then f e else e)
unfolding edit
lookup-edit m k j f e l = elim (Option-cases (lookup k m.entries)) [
  | inl n ↦ simp (n, edit) (l ∙ ground (arith, same_key m k j none e n l))
  | inr (d, n) ↦
      simp (n, edit)
        (lookup-insert k j (f d) m.entries ∙ ground (arith, l, same_key m k j (some d) e n l))
]

-- What an observation of a reply does to the listed entries: a scheme that the user pinned is
-- never overwritten, an inconclusive reply says nothing, and no other entry than that of the port
-- changes.
pub lookup-observe_scheme :
    (m : Manager) (k j : ℕ) (s : Scheme) (e : Entry)
    → lookup j m.entries ≡ some e
    → lookup j (observe_scheme m k s).entries
      ≡ some (
          if k == j && (not (scheme_beq s unknown) && not e.pinned)
          then record e { scheme = s }
          else e)
unfolding observe_scheme
lookup-observe_scheme m k j s e l = elim (Bool-cases (scheme_beq s unknown)) [
  | inl q ↦ rw (q, observe_scheme) (l ∙ ground arith)
  | inr q ↦ rw (q, observe_scheme) (lookup-edit m k j _ e l ∙ ground arith)
]

-- `ForwardNow` writes nothing to the settings.
forward_now_same :
    (m : Manager) (k now : ℕ)
    → ((forward_now m k now).mgr.settings ≡ m.settings) × ((forward_now m k now).mgr.host ≡ m.host)
unfolding forward_now
forward_now_same m k now = elim (Option-cases (lookup k m.entries)) [
  | inl q ↦ simp (q, forward_now) (refl, refl)
  | inr (e, q) ↦ elim (Bool-cases (mode_is_off e.mode)) [
    | inl stays ↦ simp (q, stays, forward_now) (refl, refl)
    | inr allowed ↦
        let f = apply-Framed m (force_on e) now in
        simp (q, allowed, forward_now) (f.settings, f.host)
  ]
]

edit_same :
    (m : Manager) (k : ℕ) (f : Entry → Entry)
    → ((edit m k f).settings ≡ m.settings) × ((edit m k f).host ≡ m.host)
unfolding edit
edit_same m k f = elim (Option-cases (lookup k m.entries)) [
  | inl q ↦ simp (q, edit) (refl, refl)
  | inr (e, q) ↦ simp (q, edit) (refl, refl)
]

-- The entry is in mode on after `ForwardNow`.
lookup-forward_now :
    (m : Manager) (k now : ℕ) (e : Entry)
    → lookup k m.entries ≡ some e
    → mode_is_off e.mode ≡ false
    → (d : Entry) × (lookup k (forward_now m k now).mgr.entries ≡ some d) × (d.mode ≡ on)
unfolding forward_now
lookup-forward_now m k now e l q =
    let f = apply-Framed m (force_on e) now in
    (
      (apply m (force_on e) now).entry,
      simp (l, q, forward_now)
          (rw f.entries
            (lookup-insert k k (apply m (force_on e) now).entry m.entries ∙ ground arith)),
      f.mode,
    )

saved_on :
    (e : Entry)
    → e.mode ≡ on
    → ((saved_port e).mode ≡ codes "on") × (port_is_zero (saved_port e) ≡ false)
unfolding saved_port port_is_zero
saved_on e q = (ap mode_text q, ground (arith, q, ap mode_text q))

-- The forwarding that a browser request turns on, which is meant for the session, is remembered as
-- soon as the user gives the port a label: for any listed port that is not switched off,
-- `ForwardNow` leaves the settings as they are, and `SetLabel` then stores the mode on, if the
-- maps of the settings have distinct keys.
pub set_label-forward_now :
    (m : Manager) (k now : ℕ) (label : Text) (st : Store) (e : Entry)
    → m.settings ≡ some st
    → IsWell st
    → lookup k m.entries ≡ some e
    → mode_is_off e.mode ≡ false
    → ((forward_now m k now).mgr.settings ≡ some st)
      × ((st' : Store) × ((set_label (forward_now m k now).mgr k label).settings ≡ some st')
          × ((port st' m.host k).mode ≡ codes "on"))
unfolding set_label
set_label-forward_now m k now label st e s w l q = (
  before,
  (
    set_port st (edited).host k (saved_port d'),
    written.0,
    ap (λ h. (port (set_port st (edited).host k (saved_port d')) h k).mode) (sym host)
        ∙ ap (λ x. x.mode) (written.1 ∙ kept)
        ∙ (saved_on d' found.2).0,
  ),
)
  where
    relabel : Entry → Entry
    relabel x = record x { label = normal_label label }

    m' : Manager
    m' = (forward_now m k now).mgr

    edited : Manager
    edited = edit m' k relabel

    before : m'.settings ≡ some st
    before = (forward_now_same m k now).0 ∙ s

    host : edited.host ≡ m.host
    host = (edit_same m' k relabel).1 ∙ (forward_now_same m k now).1

    found : (d : Entry) × (lookup k m'.entries ≡ some d) × (d.mode ≡ on)
    found = lookup-forward_now m k now e l q

    d' : Entry
    d' = relabel found.0

    there : lookup k edited.entries ≡ some d'
    there = lookup-edit m' k k relabel found.0 found.1 ∙ ground arith

    kept : (if port_is_zero (saved_port d') then zero_port else saved_port d') ≡ saved_port d'
    kept = rw (saved_on d' found.2).1

    written :
        ((persist edited k).settings ≡ some (set_port st edited.host k (saved_port d')))
        × (port (set_port st edited.host k (saved_port d')) edited.host k
            ≡ (if port_is_zero (saved_port d') then zero_port else saved_port d'))
    written = persist_lem edited k st d' ((edit_same m' k relabel).0 ∙ before) w there
