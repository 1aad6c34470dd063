-- ===== src/Tunnel/Manager/Memory.antt =====
-- `persist`, and `Sync` on a port that it finds again (internal/tunnel/manager.go).
use autotun.Base.{
  ℕ, ◌≡◌, ◌≢◌, ◌⊎◌, refl, ◌∙◌, ap, inl, inr, Bool, true, false, not, ◌||◌, [], ◌∷◌, some, arith,
  ◌==◌, nat_eq, list_eq, list_beq_iff, eqb_ℤ_iff, if◌then◌else◌, pos, Bool-cases,
}
use autotun.Assoc.{lookup}
use autotun.Text.{Text, codes, is_empty}
use autotun.Probe.Service.{Service}
use autotun.Config.Mode.{auto, parse_mode, parse_mode-mode_text}
use autotun.Config.Store.{Store, Port, port, set_port, zero_port, port_is_zero}
use autotun.Config.Ports.{IsWell, port-set_port}
use autotun.Tunnel.Scheme.{
  Scheme, unknown, scheme_beq, parse_scheme, scheme_text, parse_scheme-scheme_text,
}
use autotun.Tunnel.Manager.{Manager, Entry}
use autotun.Tunnel.Manager.Sync.{fresh_entry, restore, new_entry}
use autotun.Tunnel.Manager.Control.{persist, saved_port}

-- What `persist` writes for a listed port is what the store reads back.
pub persist_lem :
    (m : Manager) (k : ℕ) (st : Store) (e : Entry)
    → m.settings ≡ some st
    → IsWell st
    → lookup k m.entries ≡ some e
    → ((persist m k).settings ≡ some (set_port st m.host k (saved_port e)))
      × (port (set_port st m.host k (saved_port e)) m.host k
          ≡ (if port_is_zero (saved_port e) then zero_port else saved_port e))
unfolding persist
persist_lem m k st e s w l = (
  simp (s, l, persist),
  port-set_port st m.host m.host k k (saved_port e) w ∙ ground (arith, list_beq_iff m.host m.host),
)

is_empty→nil : (t : Text) → is_empty t ≡ true → t ≡ []
is_empty→nil [] h = refl
is_empty→nil (c ∷ t) h = cc

-- Settings that hold nothing are restored as the zero value is.
zero_mode : (t : Text) → (is_empty t || t == codes "auto") ≡ true → parse_mode t ≡ auto
zero_mode [] h = unfold parse_mode in refl
zero_mode (c ∷ t) h =
    ap parse_mode ((list_beq_iff (c ∷ t) (codes "auto")).0 h) ∙ parse_mode-mode_text auto

restore-zero : (q : Port) (x : Entry) → port_is_zero q ≡ true → restore zero_port x ≡ restore q x
unfolding port_is_zero
restore-zero q x z = cc (
  is_empty→nil q.label (ground (arith, z)),
  is_empty→nil q.scheme (ground (arith, z)),
  zero_mode q.mode (ground (arith, z)),
  zero_mode [] refl,
  (eqb_ℤ_iff q.local (pos 0)).0 (ground (arith, z)),
)

new_entry-settings :
    (m : Manager) (k : ℕ) (svc : Service) (now : ℕ) (st : Store)
    → m.settings ≡ some st
    → new_entry m k svc now ≡ restore (port st m.host k) (fresh_entry m k svc now)
unfolding new_entry
new_entry-settings m k svc now st q = simp (q, new_entry)

persist-host : (m : Manager) (k : ℕ) → (persist m k).host ≡ m.host
unfolding persist
persist-host m k = ground arith

new_entry-persist :
    (m : Manager) (k : ℕ) (svc : Service) (now : ℕ) (st : Store) (e : Entry)
    → m.settings ≡ some st
    → IsWell st
    → lookup k m.entries ≡ some e
    → new_entry (persist m k) k svc now
      ≡ restore (saved_port e) (fresh_entry (persist m k) k svc now)
new_entry-persist m k svc now st e s w l =
    let (written, read) = persist_lem m k st e s w l in
    new_entry-settings (persist m k) k svc now _ written
    ∙ rw (persist-host m k, read) (pick (Bool-cases (port_is_zero (saved_port e))))
  where
    pick :
        ((port_is_zero (saved_port e) ≡ true) ⊎ (port_is_zero (saved_port e) ≡ false))
        → restore
            (if port_is_zero (saved_port e) then zero_port else saved_port e)
            (fresh_entry (persist m k) k svc now)
          ≡ restore (saved_port e) (fresh_entry (persist m k) k svc now)
    pick (inl z) = rw z (restore-zero (saved_port e) (fresh_entry (persist m k) k svc now) z)
    pick (inr z) = rw z

-- A scheme that the user pinned is a known one.
abbrev pub PinnedKnown : Entry → Type 0
PinnedKnown e = e.pinned ≡ true → e.scheme ≢ unknown

-- What the user decided about a listed port survives, if the maps of the settings have distinct
-- keys and a pinned scheme is a known one: when the port is found again after its decisions were
-- written to the settings, it has the mode, the label and the local port that it had, the scheme
-- that was pinned, and no scheme if none was pinned.
pub new_entry-remembers :
    (m : Manager) (k : ℕ) (svc : Service) (now : ℕ) (st : Store) (e : Entry)
    → m.settings ≡ some st
    → IsWell st
    → lookup k m.entries ≡ some e
    → PinnedKnown e
    → let n = new_entry (persist m k) k svc now in
      (n.mode ≡ e.mode)
      × (n.label ≡ e.label)
      × (n.pinned_local ≡ e.pinned_local)
      × (n.scheme ≡ (if e.pinned then e.scheme else unknown))
      × (n.pinned ≡ e.pinned)
unfolding saved_port
new_entry-remembers m k svc now st e s w l known =
    let q = new_entry-persist m k svc now st e s w l in
    (
      ap (λ x. x.mode) q ∙ parse_mode-mode_text e.mode,
      ap (λ x. x.label) q,
      ap (λ x. x.pinned_local) q,
      ap (λ x. x.scheme) q ∙ scheme_kept e.pinned e.scheme,
      ap (λ x. x.pinned) q ∙ pinned_kept e.pinned e.scheme known,
    )
  where
    scheme_kept :
        (b : Bool) (c : Scheme)
        → parse_scheme (if b then scheme_text c else []) ≡ (if b then c else unknown)
    scheme_kept true c = parse_scheme-scheme_text c
    scheme_kept false c = parse_scheme-scheme_text unknown

    pinned_kept :
        (b : Bool) (c : Scheme)
        → (b ≡ true → c ≢ unknown)
        → not (scheme_beq (parse_scheme (if b then scheme_text c else [])) unknown) ≡ b
    pinned_kept true c h = rw (parse_scheme-scheme_text c) (ground (arith, h refl))
    pinned_kept false c h = rw (parse_scheme-scheme_text unknown)
