-- ===== src/Ui/Model.antt =====
-- internal/ui/model.go: the rows that the table shows, the cursor and the messages in the footer.
mod Data
unfoldable pub use Data.*
use autotun.Base.{
  ℕ, zero, suc, ◌+◌, ◌-◌, Bool, true, false, ◌&&◌, List, [], ◌∷◌, Option, none, some, ◌==◌, nat_eq,
  int_eq, if◌then◌else◌, ltb, leb, ℤ, pos, negsuc, eqb_ℤ, ltb_ℤ, ◌+ℤ◌, length,
}
use autotun.Text.{Text}
use autotun.Config.Store.{ViewPrefs, view_prefs, set_view_prefs, default_view_prefs}
use autotun.Tunnel.Manager.{Manager, State}
use autotun.Tunnel.Manager.Rows.{states}
use autotun.Ui.Sort.{
  SortKey, sort_key_text, sort_key_named, sort_states, filter_states, hide_preexisting,
}
use autotun.Ui.Input.{TextInput, empty_input}
use autotun.Ui.Dissolve.{Dissolve}

-- `editing`.
abbrev pub editing : EditorKind → Bool
editing editor_none = false
editing _ = true

-- `tableHeight` (internal/ui/view.go).
unfoldable pub table_height : ℕ → ℕ
table_height height = let h = height - 4 in if ltb h 1 then 1 else h

-- The row of a cursor that is not `noSelection`, in a table of `n` rows.
unfoldable pub clamp_row : ℤ → ℕ → ℕ
clamp_row (pos c) n = if leb n c then n - 1 else c
clamp_row (negsuc c) n = 0

-- The first row on the screen, for a cursor at `c` in `n` rows of which `h` fit.
unfoldable pub clamp_offset : ℕ → ℕ → ℕ → ℕ → ℕ
clamp_offset c n h offset =
    let a = if ltb c offset then c else offset in
    let b = if ltb 0 h && leb (a + h) c then (c - h) + 1 else a in
    if ltb (n - h) b then n - h else b

-- The cursor and the first row on the screen, for a table of `n` rows of which `h` fit.
unfoldable pub clamped : ℕ → ℕ → ℤ → ℕ → ℤ × ℕ
unfolding clamp_row clamp_offset
clamped n h cursor offset =
    if n == 0
    then (no_selection, 0)
    else if eqb_ℤ cursor no_selection
    then (no_selection, 0)
    else let c = clamp_row cursor n in (pos c, clamp_offset c n h offset)

-- `clampCursor`.
unfoldable pub clamp_cursor : Model → Model
unfolding clamped
clamp_cursor m =
    let c = clamped (length m.rows) (table_height m.height) m.cursor m.offset in
    record m { cursor = c.0; offset = c.1 }

abbrev pub get_elem? {ℓ} : {A : Type ℓ} → List A → ℕ → Option A
get_elem? [] i = none
get_elem? (x ∷ xs) zero = some x
get_elem? (x ∷ xs) (suc i) = get_elem? xs i

abbrev pub row_at_cursor : List State → ℤ → Option State
row_at_cursor rows (pos c) = get_elem? rows c
row_at_cursor rows (negsuc c) = none

-- `selected`.
unfoldable pub selected : Model → Option State
selected m = row_at_cursor m.rows m.cursor

abbrev pub port_or_none : Option State → ℕ
port_or_none none = 0
port_or_none (some s) = s.remote_port

-- `selectedPort`.
unfoldable pub selected_port : Model → ℕ
unfolding selected
selected_port m = port_or_none (selected m)

-- The loop of `reload` that looks for the row of a port, from the index `i` on.
unfoldable pub find_port : ℕ → ℕ → List State → ℤ
find_port p i [] = no_selection
find_port p i (r ∷ rs) = if r.remote_port == p then pos i else find_port p (suc i) rs

-- The rows that `reload` shows.
unfoldable pub listed : Model → List State
listed m =
    let all = states m.ctrl in
    let known = if m.prefs.show_preexisting then all else hide_preexisting all in
    sort_states (filter_states known m.query) m.sort_key m.reverse m.prefs.inactive_last

-- What `reload` does before it calls `clampCursor`.
unfoldable pub refreshed : Model → Model
unfolding listed selected_port find_port
refreshed m =
    let chosen = selected_port m in
    let rows = listed m in
    let cursor = if ltb 0 chosen then find_port chosen 0 rows else m.cursor in
    record m { rows = rows; cursor = cursor }

-- `reload`.
unfoldable pub reload : Model → Model
unfolding refreshed clamp_cursor
reload m = clamp_cursor (refreshed m)

-- A target of `move`, kept within a table of `n` rows.
unfoldable pub within : ℤ → ℕ → ℕ
within (negsuc t) n = 0
within (pos t) n = if leb n t then n - 1 else t

abbrev pub target_of : ℤ → ℤ → ℕ → ℤ
target_of delta cursor n =
    if eqb_ℤ cursor no_selection
    then (if ltb_ℤ delta (pos 0) then pos (n - 1) else pos 0)
    else cursor +ℤ delta

-- `move`.
unfoldable pub move : ℤ → Model → Model
unfolding within clamp_cursor
move delta m =
    let n = length m.rows in
    if n == 0
    then record m { cursor = no_selection }
    else clamp_cursor (record m { cursor = pos (within (target_of delta m.cursor n) n) })

-- `showToast`.
unfoldable pub show_toast : ToastMsg → Model → Reply
show_toast t m = record {
  model = record m { toast = t; has_toast = true; toast_id = suc m.toast_id };
  cmd = expire (suc m.toast_id);
}

abbrev pub say : Text → Model → Reply
say t m = show_toast (record { text = t; bad = false }) m

abbrev pub complain : Text → Model → Reply
complain t m = show_toast (record { text = t; bad = true }) m

-- `savePrefs` (internal/ui/viewmenu.go).
unfoldable pub save_prefs : Model → Model
unfolding ctrl_set_view_prefs sort_key_text
save_prefs m =
    let p = record (m.prefs) { sort = sort_key_text m.sort_key; reverse = m.reverse } in
    record m { prefs = p; ctrl = ctrl_set_view_prefs m.ctrl p }
