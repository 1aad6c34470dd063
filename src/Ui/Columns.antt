-- ===== src/Ui/Columns.antt =====
-- internal/ui/view.go: where the columns of the table stand. The renderer and the mouse read this.
pub mod Places
use autotun.Base.{
  ℕ, ◌+◌, ◌-◌, Bool, true, false, ◌&&◌, List, [], ◌∷◌, ◌++◌, Option, none, some, if◌then◌else◌, ltb,
  leb,
}
use autotun.Ui.Sort.{
  SortKey, sort_remote, sort_local, sort_process, sort_age, sort_traffic, sort_conns,
}

pub data ColumnKind : Type 0 where
  col_local col_arrow col_remote col_mode col_scheme col_process col_age col_conns : ColumnKind
  col_in col_out : ColumnKind

-- `column`, without its title: the first cell, the width, and what a click sorts by.
pub record Column : Type 0 where
  pub kind : ColumnKind
  pub x : ℕ
  pub w : ℕ
  pub sort : Option SortKey

-- Whether a click on a cell cycles the mode or the protocol.
abbrev pub cycles_mode : ColumnKind → Bool
cycles_mode col_mode = true
cycles_mode _ = false

abbrev pub cycles_scheme : ColumnKind → Bool
cycles_scheme col_scheme = true
cycles_scheme _ = false

abbrev pub gap : ℕ
gap = 2

abbrev pub min_proc : ℕ
min_proc = 11

abbrev pub max_proc : ℕ
max_proc = 56

-- Which groups of columns are shown.
pub record Shown : Type 0 where
  pub mode : Bool
  pub scheme : Bool
  pub age : Bool
  pub conns : Bool
  pub traffic : Bool

abbrev pub column : ColumnKind → ℕ → Option SortKey → Column
column k w s = record { kind = k; x = 0; w = w; sort = s }

abbrev pub when : Bool → List Column → List Column
when true cs = cs
when false cs = []

-- The columns to the right of the process.
abbrev pub metrics : Shown → List Column
metrics s =
    when s.age (column col_age 5 (some sort_age) ∷ [])
    ++ (when s.conns (column col_conns 6 (some sort_conns) ∷ [])
        ++ when s.traffic
            (column col_in 8 (some sort_traffic) ∷ column col_out 8 (some sort_traffic) ∷ []))

-- The closure `build`.
unfoldable pub build : Shown → ℕ → List Column
build s proc =
    column col_local 7 (some sort_local)
      ∷ column col_arrow 1 none
      ∷ column col_remote 7 (some sort_remote)
      ∷ when s.mode (column col_mode 1 none ∷ [])
    ++ (when s.scheme (column col_scheme 7 none ∷ [])
        ++ (column col_process proc (some sort_process) ∷ metrics s))

-- The closure `widthOf`: the marker and a space, and the columns with their gaps.
unfoldable pub gaps_of : List Column → ℕ
gaps_of [] = 0
gaps_of (c ∷ cs) = gap + c.w + gaps_of cs

unfoldable pub width_of : List Column → ℕ
unfolding gaps_of
width_of [] = 2
width_of (c ∷ cs) = 2 + c.w + gaps_of cs

-- The closure `fits`.
unfoldable pub fits : ℕ → Shown → Bool
unfolding build width_of
fits inner s = leb (width_of (build s min_proc)) inner

abbrev pub all_shown : Shown
all_shown = record { mode = true; scheme = true; age = true; conns = true; traffic = true }

abbrev pub drop_unless : Bool → (Shown → Shown) → Shown → Shown
drop_unless true f s = s
drop_unless false f s = f s

-- What is given up, in this order, as long as the columns do not fit.
abbrev pub sacrifices : List (Shown → Shown)
sacrifices =
    (λ s. record s { mode = false })
    ∷ (λ s. record s { traffic = false })
    ∷ (λ s. record s { conns = false })
    ∷ (λ s. record s { age = false })
    ∷ (λ s. record s { scheme = false })
    ∷ []

unfoldable pub shrink : ℕ → List (Shown → Shown) → Shown → Shown
unfolding fits
shrink inner [] s = s
shrink inner (f ∷ fs) s = shrink inner fs (drop_unless (fits inner s) f s)

-- The groups that are left when the terminal narrows.
unfoldable pub shown_in : ℕ → Shown
unfolding shrink
shown_in inner = shrink inner sacrifices all_shown

-- The width of the process column: what is left over, up to a bound.
unfoldable pub proc_width : ℕ → Shown → ℕ
unfolding width_of build
proc_width inner s =
    let extra = inner - width_of (build s min_proc) in
    let proc = min_proc + extra in
    if ltb 0 extra then (if ltb max_proc proc then max_proc else proc) else min_proc

-- The loop that gives the columns their places, from `x` on.
unfoldable pub placed_at : ℕ → List Column → List Column
placed_at x [] = []
placed_at x (c ∷ cs) = record c { x = x } ∷ placed_at (x + c.w + gap) cs

-- `columns`, for the cells inside the border.
unfoldable pub columns : ℕ → List Column
unfolding shown_in proc_width placed_at
columns inner = let s = shown_in inner in placed_at 3 (build s (proc_width inner s))

-- `columnAt`.
unfoldable pub column_at : ℕ → List Column → Option Column
column_at x [] = none
column_at x (c ∷ cs) =
    let rest = column_at x cs in if leb c.x x && ltb x (c.x + c.w) then some c else rest
