-- ===== src/Ui/WellFormed/Messages.antt =====
-- The invariant of the model over its messages (internal/ui/model.go).
use autotun.Base.{
  refl, ℕ, zero, suc, ◌+◌, ◌<◌, ◌≤◌, inl, inr, Bool, true, false, ◌||◌, ◌&&◌, List, [], ◌∷◌, Option,
  none, some, arith, ◌==◌, nat_eq, if◌then◌else◌, ltb, pos, negsuc, ◌+ℤ◌, Bool-cases,
}
use autotun.Text.{Text}
use autotun.Tunnel.Manager.{Manager}
use autotun.Tunnel.Manager.Invariant.{Inv}
use autotun.Tunnel.Scheme.{Scheme, unknown, http, https}
use autotun.Ui.Sort.{SortKey, sort_key_next}
use autotun.Ui.Dissolve.{Dissolve, advance, done}
use autotun.Ui.Model.{Options, new_model}
use autotun.Ui.Model.{Model, silent, editing, selected, selected_port, reload, show_toast}
use autotun.Ui.Menu.{menu_row_from, menu_row_at, menu_rows, menu_at}
use autotun.Ui.Keys.{Env, at_row, is_dissolving}
use autotun.Ui.Columns.{Column, cycles_mode, cycles_scheme}
use autotun.Ui.Mouse.{
  MouseMsg, MouseButton, wheel_up, wheel_down, left_button, other_button, Screen, header_sort,
  click_header, sort_for_now, action_cases, run_action, overlay_open, row_at, zone_at,
}
use autotun.Ui.Click.{
  click_row, click_cell, click_bar, click_line, click_table, click_protocol, click_menu, click,
  wheel, pointer, handle_mouse, double_click_window,
}
use autotun.Ui.Update.{
  Msg, window_size, fatal_msg, status_msg, toast_msg, toast_expired, refresh_msg, dissolve_msg,
  mouse_msg, key_msg, next_frame, handle, update, draw, Happening, updates, draws, happen, run,
}
use autotun.Ui.WellFormed.{
  WellFormed, Fine, reload-WellFormed, clamp_cursor-WellFormed, switch-Fine, either-Fine,
  if-WellFormed,
}
use autotun.Ui.WellFormed.Actions.{
  press_mode-Fine, press_scheme-Fine, open_selected-Fine, choose_protocol-Fine, copy_selected-Fine,
  open_filter-WellFormed, open_local_port-Fine, commit-Fine,
}
use autotun.Ui.WellFormed.Keys.{
  activate_menu_item-Fine, menu_at-WellFormed, toggle_detail-WellFormed, at_row-WellFormed,
  handle_key-Fine,
}

run_action-Fine : (env : Env) (id : Text) (m : Model) → WellFormed m → Fine (run_action env id m)
unfolding run_action sort_for_now show_toast
run_action-Fine env id m w =
    switch-Fine id (action_cases env m) (silent m)
      (
        w,
        (
          w,
          (
            toggle_detail-WellFormed (selected m) m w,
            (
              open_selected-Fine m w,
              (
                press_scheme-Fine m w,
                (
                  open_filter-WellFormed m w,
                  (
                    open_local_port-Fine m w,
                    (
                      w,
                      (
                        press_mode-Fine env.now m w,
                        (
                          copy_selected-Fine env.osc52 m w,
                          (
                            reload-WellFormed (record m { sort_key = sort_key_next m.sort_key })
                                w.1,
                            (w, tt),
                          ),
                        ),
                      ),
                    ),
                  ),
                ),
              ),
            ),
          ),
        ),
      )
      w

-- A click on the table.
header_sort-WellFormed : (key : SortKey) (m : Model) → WellFormed m → WellFormed (header_sort key m)
header_sort-WellFormed key m w = if-WellFormed _ _ _ (λ e. w) (λ e. w)

click_header-Fine : (o : Option SortKey) (m : Model) → WellFormed m → Fine (click_header o m)
unfolding click_header show_toast
click_header-Fine none m w = w
click_header-Fine (some key) m w =
    reload-WellFormed (header_sort key m) (header_sort-WellFormed key m w).1

click_row-Fine : (now : ℕ) (m : Model) → WellFormed m → Fine (click_row now m)
unfolding click_row
click_row-Fine now m w =
    either-Fine
      (selected_port m == m.last_click_port && ltb now (m.last_click_at + double_click_window)) _ _
      (λ e. open_selected-Fine (record m { last_click_port = 0; last_click_at = now }) w) (λ e. w)

click_cell-Fine :
    (now : ℕ) (c : Option Column) (m : Model) → WellFormed m → Fine (click_cell now c m)
unfolding click_cell
click_cell-Fine now none m w = click_row-Fine now m w
click_cell-Fine now (some c) m w =
    either-Fine (cycles_mode c.kind) _ _
      (λ e. press_mode-Fine now (record m { last_click_port = 0 }) w)
      λ e.
        either-Fine (cycles_scheme c.kind) _ _
          (λ f. press_scheme-Fine (record m { last_click_port = 0 }) w)
          (λ f. click_row-Fine now m w)

click_bar-Fine : (env : Env) (o : Option Text) (m : Model) → WellFormed m → Fine (click_bar env o m)
unfolding click_bar
click_bar-Fine env none m w = w
click_bar-Fine env (some id) m w = run_action-Fine env id m w

click_line-Fine :
    (now : ℕ) (c : Option Column) (o : Option ℕ) (m : Model)
    → WellFormed m
    → Fine (click_line now c o m)
unfolding click_line
click_line-Fine now c none m w = w
click_line-Fine now c (some i) m w =
    click_cell-Fine now c (at_row (pos i) m) (at_row-WellFormed (pos i) m w)

click_table-Fine : (env : Env) (x y : ℕ) (m : Model) → WellFormed m → Fine (click_table env x y m)
unfolding click_table
click_table-Fine env x y m w =
    either-Fine (y + 1 == m.height) _ _ (λ e. click_bar-Fine env (zone_at x m.footer_zones) m w)
      λ e.
        either-Fine (y == 1) _ _ (λ f. click_header-Fine _ m w)
          (λ f. click_line-Fine env.now _ (row_at y m) m w)

-- A click on what covers the table.
click_protocol-Fine : (s : Scheme) (m : Model) → WellFormed m → Fine (click_protocol s m)
click_protocol-Fine unknown m w = w
click_protocol-Fine http m w = choose_protocol-Fine http m w
click_protocol-Fine https m w = choose_protocol-Fine https m w

abbrev IsItem : Option ℕ → Type 0
IsItem none = Unit {0}
IsItem (some i) = i < menu_rows

menu_row_from-IsItem : (y first i n : ℕ) → i + n ≤ menu_rows → IsItem (menu_row_from y first i n)
unfolding menu_row_from
menu_row_from-IsItem y first i zero h = tt
menu_row_from-IsItem y first i (suc n) h = elim (Bool-cases (y == first + i + i)) [
  | inl e ↦ rw (e, menu_row_from) (omega (arith, h))
  | inr e ↦ rw (e, menu_row_from) (menu_row_from-IsItem y first (suc i) n (omega (arith, h)))
]

click_menu-Fine : (o : Option ℕ) (m : Model) → IsItem o → WellFormed m → Fine (click_menu o m)
click_menu-Fine none m l w = w
click_menu-Fine (some i) m l w =
    activate_menu_item-Fine i (menu_at i m) (menu_at-WellFormed i m l w)

click-Fine :
    (env : Env) (s : Screen) (x y : ℕ) (m : Model) → WellFormed m → Fine (click env s x y m)
unfolding click menu_row_at
click-Fine env s x y m w =
    either-Fine m.protocol_prompt _ _ (λ a. click_protocol-Fine _ m w)
      λ a.
        either-Fine (m.show_detail || m.show_help) _ _ (λ b. w)
          λ b.
            either-Fine m.menu.is_open _ _
              (λ c. click_menu-Fine _ m (menu_row_from-IsItem y _ 0 menu_rows (omega arith)) w)
              λ c.
                either-Fine m.confirming _ _ (λ d. w)
                  λ d.
                    either-Fine (editing m.editor) _ _ (λ e. commit-Fine env.now m.editor m w)
                      (λ e. click_table-Fine env x y m w)

wheel-Fine : (up : Bool) (m : Model) → WellFormed m → Fine (wheel up m)
unfolding wheel
wheel-Fine up m w =
    either-Fine (overlay_open m) _ _ (λ e. w)
      (λ e. at_row-WellFormed (if up then m.cursor +ℤ negsuc 0 else m.cursor +ℤ pos 1) m w)

pointer-Fine :
    (env : Env) (s : Screen) (msg : MouseMsg) (b : MouseButton) (m : Model)
    → WellFormed m
    → Fine (pointer env s msg b m)
unfolding pointer
pointer-Fine env s msg wheel_up m w = wheel-Fine true m w
pointer-Fine env s msg wheel_down m w = wheel-Fine false m w
pointer-Fine env s msg left_button m w =
    either-Fine msg.press _ _ (λ e. click-Fine env s msg.x msg.y m w) (λ e. w)
pointer-Fine env s msg other_button m w = w

next_frame-Fine : (o : Option Dissolve) (m : Model) → WellFormed m → Fine (next_frame o m)
unfolding next_frame
next_frame-Fine none m w = w
next_frame-Fine (some d) m w = either-Fine (done (advance d)) _ _ (λ e. w) (λ e. w)

handle-Fine :
    (env : Env) (s : Screen) (msg : Msg) (m : Model) → WellFormed m → Fine (handle env s msg m)
unfolding handle handle_mouse show_toast
handle-Fine env s (window_size a b) m w =
    clamp_cursor-WellFormed (record m { width = a; height = b }) w.1
handle-Fine env s (fatal_msg e) m w = w
handle-Fine env s (status_msg st) m w = w
handle-Fine env s (toast_msg t) m w = w
handle-Fine env s (toast_expired id) m w = if-WellFormed _ _ _ (λ e. w) (λ e. w)
handle-Fine env s refresh_msg m w =
    if-WellFormed (is_dissolving m) m (reload m) (λ e. w) (λ e. reload-WellFormed m w.1)
handle-Fine env s dissolve_msg m w = next_frame-Fine m.dissolving m w
handle-Fine env s (mouse_msg msg) m w =
    either-Fine (is_dissolving m) _ _ (λ e. w) (λ e. pointer-Fine env s msg msg.button m w)
handle-Fine env s (key_msg k) m w = handle_key-Fine env k m w

pub happen-WellFormed : (e : Happening) (m : Model) → WellFormed m → WellFormed (happen e m)
unfolding happen update draw
happen-WellFormed (updates env s msg) m w = handle-Fine env s msg (record m { pending_osc = [] }) w
happen-WellFormed (draws s) m w = w

run-WellFormed : (es : List Happening) (m : Model) → WellFormed m → WellFormed (run es m)
unfolding run
run-WellFormed [] m w = w
run-WellFormed (e ∷ es) m w = run-WellFormed es (happen e m) (happen-WellFormed e m w)

new_model-WellFormed : (c : Manager) (o : Options) → Inv c → WellFormed (new_model c o)
unfolding new_model
new_model-WellFormed c o v =
    ((refl, refl), record { ctrl = v; input_in = omega arith; menu_in = omega arith; web = tt })

-- Whatever keys, clicks and other messages reach a new display of a manager that satisfies its
-- invariant, the cursor is on a row that is on the screen or on none, the screen is never scrolled
-- past the end, the cursors of the editor and of the menu are in place, only web addresses were
-- opened, and the manager still satisfies its invariant.
pub run-new_model-WellFormed :
    (c : Manager) (o : Options) (es : List Happening) → Inv c → WellFormed (run es (new_model c o))
run-new_model-WellFormed c o es v = run-WellFormed es (new_model c o) (new_model-WellFormed c o v)
