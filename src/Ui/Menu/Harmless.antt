-- ===== src/Ui/Menu/Harmless.antt =====
-- The menu (internal/ui/viewmenu.go) changes what is listed and how, and nothing that is forwarded.
use autotun.Base.{
  ℕ, ◌-◌, ◌+◌, ◌≡◌, refl, ap, subst, inl, inr, Bool, true, false, List, [], ◌∷◌, Option, none, some,
  ◌==◌, nat_eq, if◌then◌else◌, ltb, All, Bool-cases, Option-cases,
}
use autotun.Text.{Text}
use autotun.Config.Store.{Store, Port, ViewPrefs, port}
use autotun.Config.Ports.{IsWell}
use autotun.Config.Views.{port-set_view_prefs}
use autotun.Tunnel.Manager.{Manager}
use autotun.Ui.Input.{Key}
use autotun.Ui.Model.{
  Model, Reply, silent, reload, refreshed, clamp_cursor, save_prefs, ctrl_set_view_prefs,
}
use autotun.Ui.Menu.{
  names, switch, menu_rows, menu_at, changed_by, activate_menu_item, menu_cases, handle_menu_key,
}

-- What the settings remember of a port.
abbrev pub remembered : Option Store → Text → ℕ → Option Port
remembered none host p = none
remembered (some st) host p = some (port st host p)

abbrev pub IsWellStored : Option Store → Type 0
IsWellStored none = Unit {0}
IsWellStored (some st) = IsWell st

-- Two managers with one table, one policy and one set of listeners, whose settings remember the
-- same of every port.
pub record SameTunnels (c d : Manager) : Type 0 where
  pub manager : record d { settings = c.settings } ≡ c
  pub ports : (host : Text) (p : ℕ) → remembered d.settings host p ≡ remembered c.settings host p

same_tunnels : (c : Manager) → SameTunnels c c
same_tunnels c = record { manager = refl; ports = λ host p. refl }

ctrl_set_view_prefs-SameTunnels :
    (c : Manager) (p : ViewPrefs)
    → IsWellStored c.settings
    → SameTunnels c (ctrl_set_view_prefs c p)
unfolding ctrl_set_view_prefs
ctrl_set_view_prefs-SameTunnels c p w = elim (Option-cases c.settings) [
  | inl e ↦ simp (e, ctrl_set_view_prefs) (same_tunnels c)
  | inr (st, e) ↦
      simp (e, ctrl_set_view_prefs)
        (record {
          manager = refl;
          ports = λ host k.
              rw e (ap some (port-set_view_prefs st c.host host p k (subst IsWellStored e w)));
        })
]

abbrev Harmless : Model → Reply → Type 0
Harmless m r = SameTunnels m.ctrl (r.model).ctrl

changed_by-ctrl : (i : ℕ) (m : Model) → (changed_by i m).ctrl ≡ m.ctrl
unfolding changed_by
changed_by-ctrl i m = elim (Bool-cases (i == 0)) [
  | inl e ↦ rw e refl
  | inr e ↦ elim (Bool-cases (i == 1)) [
    | inl f ↦ rw (e, f) refl
    | inr f ↦ elim (Bool-cases (i == 2)) [ inl g ↦ rw (e, f, g) refl | inr g ↦ rw (e, f, g) refl ]
  ]
]

activate_menu_item-Harmless :
    (i : ℕ) (m : Model) → IsWellStored (m.ctrl).settings → Harmless m (activate_menu_item i m)
unfolding activate_menu_item reload refreshed clamp_cursor save_prefs
activate_menu_item-Harmless i m w =
    rw (changed_by-ctrl i m) (ctrl_set_view_prefs-SameTunnels m.ctrl _ w)

switch-Harmless :
    (m : Model) (t : Text) (cs : List (List Text × Reply)) (d : Reply)
    → All (λ c. Harmless m c.1) cs
    → Harmless m d
    → Harmless m (switch t cs d)
unfolding switch
switch-Harmless m t [] d h k = k
switch-Harmless m t ((ks, a) ∷ cs) d h k = elim (Bool-cases (names t ks)) [
  | inl e ↦ rw e h.0
  | inr e ↦ rw e (switch-Harmless m t cs d h.1 k)
]

if-Harmless :
    (b : Bool) (m k l : Model)
    → SameTunnels m.ctrl k.ctrl
    → SameTunnels m.ctrl l.ctrl
    → SameTunnels m.ctrl (if b then k else l).ctrl
if-Harmless true m k l h g = h
if-Harmless false m k l h g = g

-- No key of the menu opens or closes a tunnel, or changes anything else of the manager but the
-- settings, and in these it changes nothing that is remembered of a port, if the settings are a
-- store whose maps have distinct keys.
pub handle_menu_key-SameTunnels :
    (k : Key) (m : Model)
    → IsWellStored (m.ctrl).settings
    → SameTunnels m.ctrl (handle_menu_key k m).model.ctrl
unfolding handle_menu_key
handle_menu_key-SameTunnels k m w =
    let s = same_tunnels m.ctrl in
    let c = m.menu.cursor in
    switch-Harmless m k.name (menu_cases m) (silent m)
      (
        s,
        (
          if-Harmless (ltb 0 c) m (menu_at (c - 1) m) m s s,
          (
            if-Harmless (ltb c (menu_rows - 1)) m (menu_at (c + 1) m) m s s,
            (activate_menu_item-Harmless c m w, tt),
          ),
        ),
      )
      s
