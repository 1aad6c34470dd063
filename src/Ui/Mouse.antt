-- ===== src/Ui/Mouse.antt =====
-- internal/ui/model.go and internal/ui/view.go: the mouse over the whole screen, and the key bar.
use autotun.Base.{
  ℕ, suc, ◌+◌, ◌-◌, ◌/◌, Bool, true, false, not, ◌&&◌, ◌||◌, List, [], ◌∷◌, Option, none, some,
  ◌==◌, nat_eq, if◌then◌else◌, ltb, leb, length, take, list_eq,
}
use autotun.Text.{Text, codes, has_prefix}
use autotun.Tunnel.Scheme.{Scheme, unknown, http, https}
use autotun.Ui.Sort.{SortKey, sort_key_next, sort_key_text}
use autotun.Ui.Model.{
  Model, Reply, silent, Zone, get_elem?, editing, table_height, selected, reload, show_toast, say,
}
use autotun.Ui.Menu.{switch, char, open_menu}
use autotun.Ui.Actions.{arrows, press_mode, press_scheme, open_selected, copy_selected}
use autotun.Ui.Editors.{open_filter, open_local_port}
use autotun.Ui.Keys.{Env, sort_note, toggle_detail}
use autotun.Ui.Columns.{Column}

pub data MouseButton : Type 0 where
  wheel_up wheel_down left_button other_button : MouseButton

-- `tea.MouseMsg`.
pub record MouseMsg : Type 0 where
  pub x : ℕ
  pub y : ℕ
  pub button : MouseButton
  pub press : Bool

-- The lines of the protocol box without their styling, how many lines the menu's box has, how wide
-- the chip of the search and the view is, and how many cells a text takes.
pub record Screen : Type 0 where
  pub protocol_box : List Text
  pub menu_lines : ℕ
  pub chip_width : ℕ
  pub string_width : Text → ℕ

-- `keyBar`: the zones of the entries that fit, from the column `used` on.
abbrev pub key_hints : List (Text × Text)
key_hints =
    (arrows, codes "move")
    ∷ (codes "enter", codes "detail")
    ∷ (codes "o", codes "open")
    ∷ (codes "c", codes "config")
    ∷ (codes "?", codes "help")
    ∷ (codes "esc", codes "quit")
    ∷ []

unfoldable pub lay_zones : (Text → ℕ) → ℕ → ℕ → ℕ → List (Text × Text) → List Zone
lay_zones width budget lead used [] = []
lay_zones width budget lead used ((k, d) ∷ ks) =
    let w = width k + 1 + width d in
    let rest = lay_zones width budget 3 (used + lead + w) ks in
    if ltb budget (used + lead + w)
    then []
    else record { x0 = 3 + used + lead; x1 = 3 + used + lead + w; id = k } ∷ rest

unfoldable pub key_bar : Screen → ℕ → List Zone
unfolding lay_zones
key_bar s width = lay_zones s.string_width (width - 6 - s.chip_width) 0 0 key_hints

-- `zone.contains`, and the loop over the zones of the key bar.
abbrev pub zone_contains : ℕ → Zone → Bool
zone_contains x z = leb z.x0 x && ltb x z.x1

unfoldable pub zone_at : ℕ → List Zone → Option Text
zone_at x [] = none
zone_at x (z ∷ zs) = if zone_contains x z then some z.id else zone_at x zs

-- `strings.Index`, from the index `i` on.
unfoldable pub index_from : ℕ → Text → Text → Option ℕ
unfolding has_prefix
index_from i p [] = if has_prefix p [] then some i else none
index_from i p (c ∷ s) =
    let rest = index_from (suc i) p s in if has_prefix p (c ∷ s) then some i else rest

-- `protocolChoiceAt`, for the line with the two choices; `at` is the column of the click.
abbrev pub choices : List (Text × Scheme)
choices = (codes "enter / h http", http) ∷ (codes "s https", https) ∷ []

abbrev pub choice_hit : (Text → ℕ) → Text → ℕ → ℕ → Text → Option ℕ → Bool
choice_hit width line left x needle none = false
choice_hit width line left x needle (some start) =
    let from = left + width (take start line) in leb from x && ltb x (from + width needle)

unfoldable pub choice_at : (Text → ℕ) → Text → ℕ → ℕ → List (Text × Scheme) → Scheme
unfolding index_from
choice_at width line left x [] = unknown
choice_at width line left x ((needle, scheme) ∷ cs) =
    let rest = choice_at width line left x cs in
    if choice_hit width line left x needle (index_from 0 needle line) then scheme else rest

abbrev pub widest_line : (Text → ℕ) → List Text → ℕ
widest_line width [] = 0
widest_line width (l ∷ ls) =
    let rest = widest_line width ls in if ltb rest (width l) then width l else rest

abbrev pub line_or_empty : Option Text → Text
line_or_empty none = []
line_or_empty (some l) = l

unfoldable pub protocol_choice_at : Screen → ℕ → ℕ → ℕ → ℕ → Scheme
unfolding choice_at
protocol_choice_at s width height x y =
    let n = length s.protocol_box in
    let left = (width - widest_line s.string_width s.protocol_box) / 2 in
    let row = n - 2 in
    let line = line_or_empty (get_elem? s.protocol_box row) in
    if ltb n 2 || not (y == (height - n) / 2 + row)
    then unknown
    else choice_at s.string_width line left x choices

-- `rowAt`; `none` is -1.
unfoldable pub row_at : ℕ → Model → Option ℕ
unfolding table_height
row_at y m =
    let idx = (y - 3) + m.offset in
    if ltb y 3 || leb (length m.rows) idx || leb (table_height m.height) (y - 3)
    then none
    else some idx

-- `overlayOpen`.
unfoldable pub overlay_open : Model → Bool
overlay_open m =
    m.confirming
    || m.show_help
    || m.show_detail
    || m.protocol_prompt
    || editing m.editor
    || m.menu.is_open

-- `inner`.
unfoldable pub inner : ℕ → ℕ
inner width = if ltb width 4 then 1 else width - 2

-- The sort of `runAction`, which is not saved.
unfoldable pub sort_for_now : Model → Reply
unfolding sort_key_next reload show_toast sort_key_text
sort_for_now m =
    let m' = reload (record m { sort_key = sort_key_next m.sort_key }) in say (sort_note m') m'

-- `runAction`.
abbrev pub action_cases : Env → Model → List (List Text × Reply)
action_cases env m =
    (arrows ∷ [], silent m)
    ∷ (codes "esc" ∷ [], silent (record m { confirming = true }))
    ∷ (codes "enter" ∷ [], silent (toggle_detail (selected m) m))
    ∷ (char b'o' ∷ [], open_selected m)
    ∷ (char b't' ∷ [], press_scheme m)
    ∷ (char b'/' ∷ [], silent (open_filter m))
    ∷ (char b'l' ∷ [], open_local_port m)
    ∷ (char b'c' ∷ [], silent (open_menu m))
    ∷ (char b'a' ∷ [], press_mode env.now m)
    ∷ (char b'y' ∷ [], copy_selected env.osc52 m)
    ∷ (char b's' ∷ [], sort_for_now m)
    ∷ (char b'?' ∷ [], silent (record m { show_help = not m.show_help }))
    ∷ []

unfoldable pub run_action : Env → Text → Model → Reply
unfolding switch selected open_selected press_scheme open_filter open_local_port press_mode
    copy_selected sort_for_now
run_action env id m = switch id (action_cases env m) (silent m)

-- A click on the header of a column.
abbrev pub header_sort : SortKey → Model → Model
header_sort key m =
    if sort_key_text m.sort_key == sort_key_text key
    then record m { reverse = not m.reverse }
    else record m { sort_key = key; reverse = false }

abbrev pub sort_of : Option Column → Option SortKey
sort_of none = none
sort_of (some c) = c.sort

unfoldable pub click_header : Option SortKey → Model → Reply
unfolding reload show_toast sort_key_text
click_header none m = silent m
click_header (some key) m = let m' = reload (header_sort key m) in say (sort_note m') m'
