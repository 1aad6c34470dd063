-- ===== src/Ui/Selection.antt =====
-- What internal/ui/model.go makes of the selected row when the rows change, and how the keys and the
-- wheel move the cursor.
use autotun.Base.{
  ℕ, zero, suc, ◌+◌, ◌<◌, ◌≡◌, refl, sym, ap, ◌∙◌, inl, inr, Bool, true, false, ◌||◌, ◌&&◌, List,
  [], ◌∷◌, arith, ◌==◌, nat_eq, if◌then◌else◌, ltb, ℤ, pos, neg, ◌+ℤ◌, length, Bool-cases,
}
use autotun.Tunnel.Manager.{State}
use autotun.Ui.Model.{
  Model, no_selection, table_height, clamp_row, clamped, clamp_cursor, get_elem?, row_at_cursor,
  port_or_none, selected, selected_port, find_port, listed, refreshed, reload, within, target_of,
  move,
}
use autotun.Ui.Mouse.{overlay_open}
use autotun.Ui.Click.{wheel}

-- Whether a port is among the rows.
abbrev pub shows : ℕ → List State → Bool
shows p [] = false
shows p (r ∷ rs) = r.remote_port == p || shows p rs

-- The row of a port that `find_port` gives, counted from `i`.
record Found (p i : ℕ) (rows : List State) : Type 0 where
  at : ℕ
  found : find_port p i rows ≡ pos (i + at)
  bound : at < length rows
  port : port_or_none (get_elem? rows at) ≡ p

find_port-Found : (p i : ℕ) (rows : List State) → shows p rows ≡ true → Found p i rows
unfolding find_port
find_port-Found p i [] h = cc
find_port-Found p i (r ∷ rs) h = elim (Bool-cases (r.remote_port == p)) [
  | inl e ↦ record {
    at = 0;
    found = rw e (ap pos {x = i} (omega arith));
    bound = omega arith;
    port = ground (arith, e);
  }
  | inr e ↦
      let f = find_port-Found p (suc i) rs (rw e at h) in
      record {
        at = suc f.at;
        found = rw (e, f.found) (ap pos {x = suc i + f.at} (omega arith));
        bound = omega (arith, f.bound);
        port = f.port;
      }
]

find_port_missing :
    (p i : ℕ) (rows : List State) → shows p rows ≡ false → find_port p i rows ≡ no_selection
unfolding find_port
find_port_missing p i [] h = refl
find_port_missing p i (r ∷ rs) h = elim (Bool-cases (r.remote_port == p)) [
  | inl e ↦ cc (rw e at h)
  | inr e ↦ rw e (find_port_missing p (suc i) rs (rw e at h))
]

-- A cursor on a row stays where it is.
clamped_on_row : (n h c o : ℕ) → c < n → (clamped n h (pos c) o).0 ≡ pos c
unfolding clamped clamp_row
clamped_on_row n h c o l = ground (arith, l)

clamped_none : (n h o : ℕ) → (clamped n h no_selection o).0 ≡ no_selection
unfolding clamped
clamped_none n h o = elim (Bool-cases (n == 0)) [ inl e ↦ rw e refl | inr e ↦ rw e refl ]

-- Where `reload` puts the cursor, and what is there.
landing :
    (p h o : ℕ) (rows : List State) (z : ℤ)
    → 0 < p
    → port_or_none (
        row_at_cursor rows
          (clamped (length rows) h (if ltb 0 p then find_port p 0 rows else z) o).0)
      ≡ (if shows p rows then p else 0)
landing p h o rows z l =
    let chosen : ltb 0 p ≡ true = ground (arith, l) in
    elim (Bool-cases (shows p rows)) [
      | inl e ↦
          let f = find_port-Found p 0 rows e in
          let found : find_port p 0 rows ≡ pos f.at =
            f.found ∙ ap pos {x = 0 + f.at} (omega arith) in
          rw (chosen, found, clamped_on_row (length rows) h f.at o f.bound, e) f.port
      | inr e ↦ rw (chosen, find_port_missing p 0 rows e, clamped_none (length rows) h o, e) refl
    ]

-- After the rows are read anew, the row of the port that was selected is selected, wherever it
-- stands now; if that port is no longer listed, nothing is selected.
pub selected_port-reload :
    (m : Model)
    → 0 < selected_port m
    → selected_port (reload m) ≡ (if shows (selected_port m) (listed m) then selected_port m else 0)
unfolding selected_port selected reload refreshed clamp_cursor
selected_port-reload m z =
    landing (selected_port m) (table_height m.height) m.offset (listed m) m.cursor z

step_up : (c : ℕ) → pos (suc c) +ℤ neg 1 ≡ pos c
step_up c = ground arith

within_rows : (c n : ℕ) → c < n → within (pos c) n ≡ c
unfolding within
within_rows c n l = ground (arith, l)

move_cursor :
    (d : ℤ) (m : Model)
    → (length m.rows == 0) ≡ false
    → (move d m).cursor
      ≡ (clamped
          (length m.rows)
          (table_height m.height)
          (pos (within (target_of d m.cursor (length m.rows)) (length m.rows)))
          m.offset).0
unfolding move clamp_cursor
move_cursor d m e = rw e refl

target_up : (z : ℤ) (c n : ℕ) → z ≡ pos (suc c) → c < n → within (target_of (neg 1) z n) n ≡ c
target_up z c n e l = rw (e, step_up c) (within_rows c n l)

up_by_key :
    (m : Model) (c : ℕ)
    → m.cursor ≡ pos (suc c)
    → suc c < length m.rows
    → (move (neg 1) m).cursor ≡ pos c
up_by_key m c e l =
    let n = length m.rows in
    let h = table_height m.height in
    let t = target_up m.cursor c n e (omega (arith, l)) in
    move_cursor (neg 1) m (ground (arith, l))
    ∙ (ap (λ z. (clamped n h (pos z) m.offset).0) t
        ∙ clamped_on_row n h c m.offset (omega (arith, l)))

up_by_wheel :
    (m : Model) (c : ℕ)
    → overlay_open m ≡ false
    → m.cursor ≡ pos (suc c)
    → suc c < length m.rows
    → (wheel true m).model.cursor ≡ pos c
unfolding wheel clamp_cursor
up_by_wheel m c h e l =
    rw (h, e, step_up c)
      (clamped_on_row (length m.rows) (table_height m.height) c m.offset (omega (arith, l)))

off_by_wheel :
    (m : Model)
    → overlay_open m ≡ false
    → m.cursor ≡ pos 0
    → (wheel true m).model.cursor ≡ no_selection
unfolding wheel clamp_cursor
off_by_wheel m h e = rw (h, e) (clamped_none (length m.rows) (table_height m.height) m.offset)

step_down : (c : ℕ) → pos c +ℤ pos 1 ≡ pos (c + 1)
step_down c = ground arith

-- A cursor past the last row comes to the last one.
within_clamped : (c n : ℕ) → 0 < n → within (pos c) n < n
unfolding within
within_clamped c n l = ground (arith, l)

clamped_past : (n h c o : ℕ) → 0 < n → (clamped n h (pos c) o).0 ≡ pos (within (pos c) n)
unfolding clamped clamp_row within
clamped_past n h c o l = ground (arith, l)

down_by_key :
    (m : Model) (c : ℕ)
    → m.cursor ≡ pos c
    → 0 < length m.rows
    → (move (pos 1) m).cursor ≡ pos (within (pos (c + 1)) (length m.rows))
down_by_key m c e l =
    let n = length m.rows in
    let h = table_height m.height in
    let t : within (target_of (pos 1) m.cursor n) n ≡ within (pos (c + 1)) n =
      rw (e, step_down c) refl in
    move_cursor (pos 1) m (ground (arith, l))
    ∙ (ap (λ z. (clamped n h (pos z) m.offset).0) t
        ∙ clamped_on_row n h (within (pos (c + 1)) n) m.offset (within_clamped (c + 1) n l))

down_by_wheel :
    (m : Model) (c : ℕ)
    → overlay_open m ≡ false
    → m.cursor ≡ pos c
    → 0 < length m.rows
    → (wheel false m).model.cursor ≡ pos (within (pos (c + 1)) (length m.rows))
unfolding wheel clamp_cursor
down_by_wheel m c h e l =
    rw (h, e, step_down c) (clamped_past (length m.rows) (table_height m.height) (c + 1) m.offset l)

-- Which way a turn of the wheel goes, as the argument of `move`.
abbrev pub turn_of : Bool → ℤ
turn_of true = neg 1
turn_of false = pos 1

-- Turning the wheel moves a cursor that is on a row as the key for one row up or down does, if
-- nothing covers the table, except for turning it up on the first row: there the key stays, and the
-- wheel takes the selection away.
pub wheel-move :
    (up : Bool) (m : Model) (c : ℕ)
    → overlay_open m ≡ false
    → m.cursor ≡ pos c
    → c < length m.rows
    → (wheel up m).model.cursor
      ≡ (if up && (c == 0) then no_selection else (move (turn_of up) m).cursor)
wheel-move true m zero h e l = off_by_wheel m h e
wheel-move true m (suc c) h e l =
    let later : (suc c == 0) ≡ false = ground arith in
    rw later (up_by_wheel m c h e l ∙ sym (up_by_key m c e l))
wheel-move false m c h e l =
    let some_row : 0 < length m.rows = omega (arith, l) in
    down_by_wheel m c h e some_row ∙ sym (down_by_key m c e some_row)
