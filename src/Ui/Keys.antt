-- ===== src/Ui/Keys.antt =====
-- internal/ui/model.go: the keys, through the layers that can cover the table.
use autotun.Base.{
  ℕ, ◌+◌, Bool, true, false, not, ◌&&◌, ◌||◌, [], ◌∷◌, ◌++◌, Option, none, some, List, nat_eq,
  if◌then◌else◌, leb, ℤ, pos, negsuc, neg, ◌+ℤ◌, length,
}
use autotun.Text.{Text, codes}
use autotun.Tunnel.Scheme.{http, https}
use autotun.Tunnel.Manager.{State}
use autotun.Ui.Sort.{sort_key_next, sort_key_text}
use autotun.Ui.Input.{Key}
use autotun.Ui.Dissolve.{new_dissolve}
use autotun.Ui.Model.{
  Model, Reply, silent, quit_cmd, dissolve_tick, ConnState, reconnecting, disconnected, editing,
  table_height, move, clamp_cursor, selected, reload, save_prefs, show_toast, say,
}
use autotun.Ui.Menu.{switch, char, open_menu, handle_menu_key}
use autotun.Ui.Actions.{
  press_mode, press_scheme, open_selected, choose_protocol, copy_selected, toggle_pause,
}
use autotun.Ui.Editors.{open_filter, open_local_port, open_label, handle_editor_key}

-- What the handlers use of the rest of the program: the time, the lengths of the lines of the
-- screen, the drawn numbers, and the escape sequence of the clipboard.
pub record Env : Type 0 where
  pub now : ℕ
  pub screen : List ℕ
  pub rng : ℕ → ℕ
  pub osc52 : Text → Text

-- `offline` (internal/ui/view.go).
abbrev pub is_down : ConnState → Bool
is_down disconnected = true
is_down reconnecting = true
is_down _ = false

unfoldable pub is_offline : Model → Bool
is_offline m = m.ever_connected && is_down (m.status).state

abbrev pub quit_now : Model → Reply
quit_now m = record { model = record m { quit = true }; cmd = quit_cmd }

-- `beginQuit`.
unfoldable pub begin_quit : Env → Model → Reply
unfolding new_dissolve
begin_quit env m =
    if not (m.opts).dissolve || leb m.width 0 || leb m.height 0 then quit_now m else record {
      model = record m { dissolving = some (new_dissolve env.screen m.width m.height env.rng) };
      cmd = dissolve_tick;
    }

-- `handleConfirmKey`.
abbrev pub confirm_cases : Env → Model → List (List Text × Reply)
confirm_cases env m =
    let m' = record m { confirming = false } in
    (char b'y' ∷ char b'Y' ∷ codes "enter" ∷ [], begin_quit env m')
    ∷ (char b'n' ∷ char b'N' ∷ codes "esc" ∷ char b'q' ∷ codes "ctrl+c" ∷ [], silent m')
    ∷ []

unfoldable pub handle_confirm_key : Env → Key → Model → Reply
unfolding switch begin_quit
handle_confirm_key env k m = switch k.name (confirm_cases env m) (silent m)

-- `handleProtocolKey`.
abbrev pub protocol_cases : Model → List (List Text × Reply)
protocol_cases m =
    (codes "enter" ∷ char b'h' ∷ char b'1' ∷ [], choose_protocol http m)
    ∷ (char b's' ∷ char b'2' ∷ [], choose_protocol https m)
    ∷ (codes "esc" ∷ char b'q' ∷ [], silent (record m { protocol_prompt = false }))
    ∷ []

unfoldable pub handle_protocol_key : Key → Model → Reply
unfolding switch choose_protocol
handle_protocol_key k m = switch k.name (protocol_cases m) (silent m)

-- The retry of `handleOfflineKey`.
abbrev pub ellipsis : Text
ellipsis = 0xE2 ∷ 0x80 ∷ 0xA6 ∷ []

unfoldable pub retry : Model → Reply
unfolding show_toast
retry m =
    if (m.opts).can_retry
    then say (codes "reconnecting" ++ ellipsis)
        (record m { retries = 1 + m.retries; status = record (m.status) { next_retry = 0 } })
    else silent m

-- `handleOfflineKey`, with what comes next for a key that it does not claim.
abbrev pub offline_cases : Model → List (List Text × Reply)
offline_cases m = (char b'r' ∷ [], retry m) ∷ []

unfoldable pub handle_offline_key : Key → Model → Reply → Reply
unfolding switch retry
handle_offline_key k m next = switch k.name (offline_cases m) next

abbrev pub sort_note : Model → Text
sort_note m = codes "sort: " ++ sort_key_text m.sort_key

abbrev pub toggle_detail : Option State → Model → Model
toggle_detail none m = m
toggle_detail (some s) m = record m { show_detail = not m.show_detail }

-- The keys `s` and `r` of the table.
unfoldable pub next_sort : Model → Reply
unfolding sort_key_next save_prefs reload show_toast sort_key_text
next_sort m =
    let m' = reload (save_prefs (record m { sort_key = sort_key_next m.sort_key })) in
    say (sort_note m') m'

unfoldable pub reverse_sort : Model → Reply
unfolding save_prefs reload
reverse_sort m = silent (reload (save_prefs (record m { reverse = not m.reverse })))

-- The cursor on the last row, -1 in an empty table.
abbrev pub last_row : ℕ → ℤ
last_row n = pos n +ℤ negsuc 0

abbrev pub at_row : ℤ → Model → Model
at_row c m = clamp_cursor (record m { cursor = c })

-- `handleTableKey`.
abbrev pub table_cases : Env → Model → List (List Text × Reply)
table_cases env m =
    let h = table_height m.height in
    (codes "ctrl+c" ∷ [], quit_now m)
    ∷ (char b'q' ∷ codes "esc" ∷ [], silent (record m { confirming = true }))
    ∷ (codes "up" ∷ char b'k' ∷ [], silent (move (neg 1) m))
    ∷ (codes "down" ∷ char b'j' ∷ [], silent (move (pos 1) m))
    ∷ (codes "pgup" ∷ codes "ctrl+u" ∷ [], silent (move (neg h) m))
    ∷ (codes "pgdown" ∷ codes "ctrl+d" ∷ [], silent (move (pos h) m))
    ∷ (codes "home" ∷ char b'g' ∷ [], silent (at_row (pos 0) m))
    ∷ (codes "end" ∷ char b'G' ∷ [], silent (at_row (last_row (length m.rows)) m))
    ∷ (char b's' ∷ [], next_sort m)
    ∷ (char b'r' ∷ [], reverse_sort m)
    ∷ (char b'/' ∷ [], silent (open_filter m))
    ∷ (char b'l' ∷ [], open_local_port m)
    ∷ (char b'n' ∷ [], open_label m)
    ∷ (char b'?' ∷ [], silent (record m { show_help = not m.show_help }))
    ∷ (codes "enter" ∷ char b'd' ∷ [], silent (toggle_detail (selected m) m))
    ∷ (char b'a' ∷ [], press_mode env.now m)
    ∷ (char b't' ∷ [], press_scheme m)
    ∷ (codes " " ∷ char b'o' ∷ [], open_selected m)
    ∷ (char b'y' ∷ [], copy_selected env.osc52 m)
    ∷ (char b'p' ∷ [], toggle_pause env.now m)
    ∷ (char b'c' ∷ [], silent (open_menu m))
    ∷ []

unfoldable pub handle_table_key : Env → Key → Model → Reply
unfolding switch move clamp_cursor next_sort reverse_sort open_filter open_local_port open_label
    selected press_mode press_scheme open_selected copy_selected toggle_pause table_height
handle_table_key env k m = switch k.name (table_cases env m) (silent m)

-- The keys that close the help and the detail box; the others go on to the table.
abbrev pub detail_cases : Model → List (List Text × Reply)
detail_cases m =
    (
      codes "esc" ∷ codes "enter" ∷ char b'd' ∷ char b'q' ∷ [],
      silent (record m { show_detail = false }),
    )
    ∷ []

unfoldable pub handle_detail_key : Env → Key → Model → Reply
unfolding switch handle_table_key
handle_detail_key env k m =
    let next = handle_table_key env k m in
    if m.show_detail then switch k.name (detail_cases m) next else next

abbrev pub help_cases : Model → List (List Text × Reply)
help_cases m =
    (
      char b'?' ∷ codes "esc" ∷ char b'q' ∷ codes "enter" ∷ [],
      silent (record m { show_help = false }),
    )
    ∷ []

unfoldable pub handle_help_key : Env → Key → Model → Reply
unfolding switch handle_detail_key
handle_help_key env k m =
    let next = handle_detail_key env k m in
    if m.show_help then switch k.name (help_cases m) next else next

abbrev pub is_dissolving : Model → Bool
is_dissolving m = elim m.dissolving [ none ↦ false | some d ↦ true ]

-- `handleKey`.
unfoldable pub handle_key : Env → Key → Model → Reply
unfolding handle_confirm_key handle_editor_key handle_protocol_key handle_menu_key is_offline
    handle_offline_key handle_help_key
handle_key env k m =
    if is_dissolving m
    then quit_now m
    else if m.confirming
    then handle_confirm_key env k m
    else if editing m.editor
    then handle_editor_key env.now k m
    else if m.protocol_prompt
    then handle_protocol_key k m
    else if m.menu.is_open
    then handle_menu_key k m
    else if is_offline m
    then handle_offline_key k m (handle_help_key env k m)
    else handle_help_key env k m
