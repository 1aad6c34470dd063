-- ===== src/Ui/WellFormed.antt =====
-- The invariant of the display's model (internal/ui/model.go), and what the helpers of the handlers
-- do to it.
pub mod Actions
pub mod Keys
pub mod Messages
use autotun.Base.{
  ℕ, zero, suc, ◌+◌, ◌-◌, ◌≤◌, ◌<◌, ◌≡◌, refl, inl, inr, Bool, true, false, not, ◌||◌, List, [],
  ◌∷◌, ◌++◌, Option, none, some, arith, ◌==◌, nat_eq, if◌then◌else◌, ltb, ℤ, pos, negsuc, length,
  All, Bool-cases, Option-cases,
}
use autotun.Text.{Text, codes, has_prefix}
use autotun.Config.Store.{ViewPrefs}
use autotun.Tunnel.Manager.{Manager, State}
use autotun.Tunnel.Manager.Invariant.{Inv}
use autotun.Ui.Input.{TextInput}
use autotun.Ui.Input.Split.{IsInput}
use autotun.Ui.Model.{
  Model, Reply, silent, ViewMenu, ToastMsg, no_selection, table_height, clamp_cursor, within,
  target_of, move, refreshed, reload, selected, listed, save_prefs, ctrl_set_view_prefs, show_toast,
  say, complain,
}
use autotun.Ui.Menu.{switch, names, menu_rows}
use autotun.Ui.Actions.{with_selected, need_selection}
use autotun.Ui.Cursor.{Placed, clamp_cursor-Placed}

-- An address that `OpenURL` does not refuse (internal/ui/open.go).
abbrev pub IsWebUrl : Text → Type 0
IsWebUrl u = (has_prefix (codes "http://") u || has_prefix (codes "https://") u) ≡ true

-- The manager is in order, the editor's cursor is in its text, the menu's cursor is on an item, and
-- only web addresses were opened.
pub record Sound (c : Manager) (input : TextInput) (item : ℕ) (opened : List Text) : Type 0 where
  pub ctrl : Inv c
  pub input_in : IsInput input
  pub menu_in : item < menu_rows
  pub web : All IsWebUrl opened

abbrev pub IsSound : Model → Type 0
IsSound m = Sound m.ctrl m.input m.menu.cursor m.opened

abbrev pub IsPlaced : Model → Type 0
IsPlaced m = Placed (length m.rows) (table_height m.height) m.cursor m.offset

-- The model is sound, and the cursor is well placed in the table.
abbrev pub WellFormed : Model → Type 0
WellFormed m = IsPlaced m × IsSound m

pub clamp_cursor-WellFormed : (m : Model) → IsSound m → WellFormed (clamp_cursor m)
unfolding clamp_cursor
clamp_cursor-WellFormed m w = (clamp_cursor-Placed m, w)

pub reload-WellFormed : (m : Model) → IsSound m → WellFormed (reload m)
unfolding reload refreshed
reload-WellFormed m w = clamp_cursor-WellFormed (refreshed m) w

Placed-empty : (n h : ℕ) (z : ℤ) (o : ℕ) → Placed n h z o → (n == 0) ≡ true → o ≡ 0
Placed-empty n h (pos c) o p e = ground (arith, p.0)
Placed-empty n h (negsuc c) o p e = p.1

move_empty : (m : Model) → IsPlaced m → (length m.rows == 0) ≡ true → m.offset ≡ 0
move_empty m p e = Placed-empty (length m.rows) (table_height m.height) m.cursor m.offset p e

if-WellFormed :
    (b : Bool) (m k : Model)
    → (b ≡ true → WellFormed m)
    → (b ≡ false → WellFormed k)
    → WellFormed (if b then m else k)
if-WellFormed true m k h g = h refl
if-WellFormed false m k h g = g refl

pub move-WellFormed : (d : ℤ) (m : Model) → WellFormed m → WellFormed (move d m)
unfolding move
move-WellFormed d m w =
    let n = length m.rows in
    if-WellFormed (n == 0) _ _ (λ e. ((refl, move_empty m w.0 e), w.1))
      (λ e.
        clamp_cursor-WellFormed (record m { cursor = pos (within (target_of d m.cursor n) n) }) w.1)

ctrl_set_view_prefs-Inv : (c : Manager) (p : ViewPrefs) → Inv c → Inv (ctrl_set_view_prefs c p)
unfolding ctrl_set_view_prefs
ctrl_set_view_prefs-Inv c p v = elim (Option-cases c.settings) [
  | inl e ↦ simp (e, ctrl_set_view_prefs) v
  | inr (st, e) ↦
      simp (e, ctrl_set_view_prefs)
        (record { is_map = v.is_map; keyed = v.keyed; owned = v.owned; once = v.once })
]

pub save_prefs-IsSound : (m : Model) → IsSound m → IsSound (save_prefs m)
unfolding save_prefs
save_prefs-IsSound m w = record {
  ctrl = ctrl_set_view_prefs-Inv m.ctrl _ w.ctrl;
  input_in = w.input_in;
  menu_in = w.menu_in;
  web = w.web;
}

-- A switch leaves a well-formed model if each of its cases does.
abbrev pub Fine : Reply → Type 0
Fine r = WellFormed r.model

pub switch-Fine :
    (t : Text) (cs : List (List Text × Reply)) (d : Reply)
    → All (λ c. Fine c.1) cs
    → Fine d
    → Fine (switch t cs d)
unfolding switch
switch-Fine t [] d h k = k
switch-Fine t ((ks, a) ∷ cs) d h k = elim (Bool-cases (names t ks)) [
  | inl e ↦ rw e h.0
  | inr e ↦ rw e (switch-Fine t cs d h.1 k)
]

pub either-Fine :
    (b : Bool) (r s : Reply)
    → (b ≡ true → Fine r)
    → (b ≡ false → Fine s)
    → Fine (if b then r else s)
either-Fine true r s h k = h refl
either-Fine false r s h k = k refl

pub need_selection-Fine : (m : Model) → WellFormed m → Fine (need_selection m)
unfolding need_selection show_toast
need_selection-Fine m w = either-Fine (length m.rows == 0) _ _ (λ e. w) (λ e. w)

-- A handler of the selected row.
pub with_selected-Fine :
    (f : State → Model → Reply) (m : Model)
    → WellFormed m
    → ((s : State) → selected m ≡ some s → Fine (f s m))
    → Fine (with_selected f m)
with_selected-Fine f m w h = elim (Option-cases (selected m)) [
  | inl e ↦ rw (with_selected, e) (need_selection-Fine m w)
  | inr (s, e) ↦ rw (with_selected, e) (h s e)
]
