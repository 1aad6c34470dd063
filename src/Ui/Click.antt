-- ===== src/Ui/Click.antt =====
-- internal/ui/model.go: a click on the table, and the layers that a click meets.
use autotun.Base.{
  ℕ, ◌+◌, Bool, true, false, ◌&&◌, ◌||◌, Option, none, some, ◌==◌, nat_eq, if◌then◌else◌, ltb, pos,
  negsuc, ◌+ℤ◌, ◌*◌,
}
use autotun.Text.{Text}
use autotun.Tunnel.Scheme.{Scheme, unknown}
use autotun.Ui.Model.{Model, Reply, silent, editing, selected_port}
use autotun.Ui.Menu.{menu_row_at, close_menu, menu_at, activate_menu_item}
use autotun.Ui.Actions.{press_mode, press_scheme, open_selected, choose_protocol}
use autotun.Ui.Editors.{commit}
use autotun.Ui.Keys.{Env, at_row, is_dissolving}
use autotun.Ui.Columns.{Column, cycles_mode, cycles_scheme, columns, column_at}
use autotun.Ui.Mouse.{
  MouseMsg, MouseButton, wheel_up, wheel_down, left_button, other_button, Screen, zone_at,
  protocol_choice_at, row_at, overlay_open, inner, run_action, sort_of, click_header,
}

-- `doubleClickWindow`, in nanoseconds.
abbrev pub double_click_window : ℕ
double_click_window = 450 * 1000000

-- A click that stands on no control of the row: the second of two on one row opens it.
unfoldable pub click_row : ℕ → Model → Reply
unfolding selected_port open_selected
click_row now m =
    let port = selected_port m in
    if port == m.last_click_port && ltb now (m.last_click_at + double_click_window)
    then open_selected (record m { last_click_port = 0; last_click_at = now })
    else silent (record m { last_click_port = port; last_click_at = now })

-- A click on a cell of the row that it has selected.
unfoldable pub click_cell : ℕ → Option Column → Model → Reply
unfolding click_row press_mode press_scheme
click_cell now none m = click_row now m
click_cell now (some c) m =
    if cycles_mode c.kind
    then press_mode now (record m { last_click_port = 0 })
    else if cycles_scheme c.kind
    then press_scheme (record m { last_click_port = 0 })
    else click_row now m

-- A click on the table, its header or the key bar.
unfoldable pub click_bar : Env → Option Text → Model → Reply
unfolding run_action
click_bar env none m = silent m
click_bar env (some id) m = run_action env id m

unfoldable pub click_line : ℕ → Option Column → Option ℕ → Model → Reply
unfolding click_cell
click_line now c none m = silent m
click_line now c (some i) m = click_cell now c (at_row (pos i) m)

unfoldable pub click_table : Env → ℕ → ℕ → Model → Reply
unfolding click_bar zone_at columns column_at click_header row_at click_line inner
click_table env x y m =
    let c = column_at x (columns (inner m.width)) in
    if y + 1 == m.height
    then click_bar env (zone_at x m.footer_zones) m
    else if y == 1
    then click_header (sort_of c) m
    else click_line env.now c (row_at y m) m

-- A click while the protocol box or the menu is open.
abbrev pub click_protocol : Scheme → Model → Reply
click_protocol unknown m = silent (record m { protocol_prompt = false })
click_protocol s m = choose_protocol s m

abbrev pub click_menu : Option ℕ → Model → Reply
click_menu none m = silent (close_menu m)
click_menu (some i) m = activate_menu_item i (menu_at i m)

-- A press of the left button, through the layers.
unfoldable pub click : Env → Screen → ℕ → ℕ → Model → Reply
unfolding choose_protocol protocol_choice_at activate_menu_item menu_row_at commit click_table
click env s x y m =
    if m.protocol_prompt
    then click_protocol (protocol_choice_at s m.width m.height x y) m
    else if m.show_detail || m.show_help
    then silent (record m { show_detail = false; show_help = false })
    else if m.menu.is_open
    then click_menu (menu_row_at m.height s.menu_lines y) m
    else if m.confirming
    then silent m
    else if editing m.editor
    then commit env.now m.editor m
    else click_table env x y m

-- The wheel moves the cursor unless something covers the table.
unfoldable pub wheel : Bool → Model → Reply
unfolding overlay_open
wheel up m =
    if overlay_open m
    then silent m
    else silent (at_row (if up then m.cursor +ℤ negsuc 0 else m.cursor +ℤ pos 1) m)

-- `handleMouse`.
unfoldable pub pointer : Env → Screen → MouseMsg → MouseButton → Model → Reply
unfolding wheel click
pointer env s msg wheel_up m = wheel true m
pointer env s msg wheel_down m = wheel false m
pointer env s msg left_button m = if msg.press then click env s msg.x msg.y m else silent m
pointer env s msg other_button m = silent m

unfoldable pub handle_mouse : Env → Screen → MouseMsg → Model → Reply
unfolding pointer
handle_mouse env s msg m = if is_dissolving m then silent m else pointer env s msg msg.button m
