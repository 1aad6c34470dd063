-- ===== src/Ui/Cursor.antt =====
-- Where internal/ui/model.go puts the cursor, and what it shows of the table.
use autotun.Base.{
  ℕ, ◌+◌, ◌-◌, ◌≤◌, ◌<◌, ◌≡◌, refl, inl, inr, arith, ◌==◌, nat_eq, eqb_ℤ, ℤ, pos, negsuc, length,
  Bool-cases,
}
use autotun.Ui.Model.{
  Model, no_selection, table_height, clamp_row, clamp_offset, clamped, clamp_cursor,
}

-- The cursor of a table of `n` rows is on one of them, which is on the screen of `h` rows, and the
-- screen is not scrolled past the end; or nothing is chosen and the table is not scrolled.
abbrev pub Placed : ℕ → ℕ → ℤ → ℕ → Type 0
Placed n h (pos c) o = (c < n) × (o ≤ c) × (c < o + h) × (o ≤ n - h)
Placed n h (negsuc c) o = (c ≡ 0) × (o ≡ 0)

pub clamp_row-lt : (z : ℤ) (n : ℕ) → 0 < n → clamp_row z n < n
unfolding clamp_row
clamp_row-lt (pos c) n h = ground arith
clamp_row-lt (negsuc c) n h = h

clamp_offset-Placed : (c n h o : ℕ) → c < n → 0 < h → Placed n h (pos c) (clamp_offset c n h o)
unfolding clamp_offset
clamp_offset-Placed c n h o l z =
    (l, ground (arith, l, z), ground (arith, l, z), ground (arith, l, z))

pub table_height-pos : (h : ℕ) → 0 < table_height h
unfolding table_height
table_height-pos h = ground arith

-- Whatever the cursor was, it is well placed after `clampCursor`.
pub clamped-Placed :
    (n h : ℕ) (z : ℤ) (o : ℕ) → 0 < h → Placed n h (clamped n h z o).0 (clamped n h z o).1
unfolding clamped
clamped-Placed n h z o l = elim (Bool-cases (n == 0)) [
  | inl e ↦ rw e (refl, refl)
  | inr e ↦ elim (Bool-cases (eqb_ℤ z no_selection)) [
    | inl q ↦ rw (e, q) (refl, refl)
    | inr q ↦
        rw (e, q)
          (clamp_offset-Placed (clamp_row z n) n h o (clamp_row-lt z n (ground (arith, e))) l)
  ]
]

pub clamp_cursor-Placed :
    (m : Model)
    → let m' = clamp_cursor m in Placed (length m.rows) (table_height m.height) m'.cursor m'.offset
unfolding clamp_cursor
clamp_cursor-Placed m =
    clamped-Placed (length m.rows) (table_height m.height) m.cursor m.offset
      (table_height-pos m.height)
