-- ===== src/Ui/Columns/Places.antt =====
-- The columns of the table (internal/ui/view.go) fit between the borders, and no two of them share a
-- cell.
use autotun.Base.{
  ℕ, suc, ◌+◌, ◌-◌, ◌≤◌, ◌≡◌, refl, ap, subst, ◌∙◌, ◌⊎◌, inl, inr, true, false, List, [], ◌∷◌, ◌++◌,
  none, some, arith, Bool-cases,
}
use autotun.Ui.Sort.{sort_process}
use autotun.Ui.Columns.{
  metrics, sacrifices, shrink, when, column, col_process, col_mode, col_scheme, Column, Shown, gap,
  min_proc, all_shown, build, gaps_of, width_of, fits, shown_in, proc_width, placed_at, columns,
}

-- The columns stand one after the other from `x` on, with a gap after each, and end before `e`.
abbrev pub Spaced : ℕ → ℕ → List Column → Type 0
Spaced x e [] = Unit {0}
Spaced x e (c ∷ cs) = (x ≤ c.x) × (c.x + c.w ≤ e) × Spaced (c.x + c.w + gap) e cs

placed_at-Spaced :
    (x e : ℕ) (cs : List Column) → x + gaps_of cs ≤ e + gap → Spaced x e (placed_at x cs)
unfolding placed_at gaps_of
placed_at-Spaced x e [] h = tt
placed_at-Spaced x e (c ∷ cs) h =
    (omega arith, omega (arith, h), placed_at-Spaced (x + c.w + gap) e cs (omega (arith, h)))

gaps_of-append :
    (xs b c : List Column) (p : ℕ)
    → gaps_of b ≡ gaps_of c + p
    → gaps_of (xs ++ b) ≡ gaps_of (xs ++ c) + p
unfolding gaps_of
gaps_of-append [] b c p h = h
gaps_of-append (x ∷ xs) b c p h = omega (arith, gaps_of-append xs b c p h)

width_of-gaps_of : (c : Column) (cs : List Column) → width_of (c ∷ cs) ≡ gaps_of (c ∷ cs)
unfolding width_of gaps_of
width_of-gaps_of c cs = omega arith

-- A wider process column makes the table wider by as much.
gaps_of-build :
    (s : Shown) (p : ℕ) → gaps_of (build s (min_proc + p)) ≡ gaps_of (build s min_proc) + p
unfolding build gaps_of
gaps_of-build s p =
    let wide = column col_process (min_proc + p) (some sort_process) ∷ metrics s in
    let slim = column col_process min_proc (some sort_process) ∷ metrics s in
    let base : gaps_of wide ≡ gaps_of slim + p = omega arith in
    let vias = when s.scheme (column col_scheme 7 none ∷ []) in
    omega (
      arith,
      gaps_of-append (when s.mode (column col_mode 1 none ∷ [])) (vias ++ wide) (vias ++ slim) p
          (gaps_of-append vias wide slim p base),
    )

-- From this width on there is room for the ports and the process.
abbrev pub narrowest : ℕ
narrowest = 34

abbrev give_up : List (Shown → Shown) → Shown → Shown
give_up [] s = s
give_up (f ∷ fs) s = give_up fs (f s)

shrink_fitting :
    (inner : ℕ) (fs : List (Shown → Shown)) (s : Shown)
    → fits inner s ≡ true
    → shrink inner fs s ≡ s
unfolding shrink
shrink_fitting inner [] s e = refl
shrink_fitting inner (f ∷ fs) s e = rw e (shrink_fitting inner fs s e)

shrink_giving :
    (inner : ℕ) (f : Shown → Shown) (fs : List (Shown → Shown)) (s : Shown)
    → fits inner s ≡ false
    → shrink inner (f ∷ fs) s ≡ shrink inner fs (f s)
unfolding shrink
shrink_giving inner f fs s e = rw e refl

-- What is left fits, or everything was given up.
shrink-fits :
    (inner : ℕ) (fs : List (Shown → Shown)) (s : Shown)
    → (fits inner (shrink inner fs s) ≡ true) ⊎ (shrink inner fs s ≡ give_up fs s)
shrink-fits inner [] s = inr (unfold shrink in refl)
shrink-fits inner (f ∷ fs) s = elim (Bool-cases (fits inner s)) [
  | inl e ↦ inl (ap (fits inner) (shrink_fitting inner (f ∷ fs) s e) ∙ e)
  | inr e ↦
      let q = shrink_giving inner f fs s e in
      elim (shrink-fits inner fs (f s)) [
        | inl a ↦ inl (ap (fits inner) q ∙ a)
        | inr b ↦ inr (q ∙ b)
      ]
]

narrow_fits : (inner : ℕ) → narrowest ≤ inner → fits inner (give_up sacrifices all_shown) ≡ true
unfolding fits width_of build
narrow_fits inner h = ground (arith, h)

shown_in-fits : (inner : ℕ) → narrowest ≤ inner → fits inner (shown_in inner) ≡ true
unfolding shown_in
shown_in-fits inner h = elim (shrink-fits inner sacrifices all_shown) [
  | inl e ↦ e
  | inr e ↦ ap (fits inner) e ∙ narrow_fits inner h
]

fits-width_of : (inner : ℕ) (s : Shown) → fits inner s ≡ true → gaps_of (build s min_proc) ≤ inner
unfolding fits build width_of gaps_of
fits-width_of inner s h = ground (arith, h)

-- The process column takes at most what is left over.
proc_width_ge : (inner : ℕ) (s : Shown) → min_proc ≤ proc_width inner s
unfolding proc_width
proc_width_ge inner s = ground arith

proc_width_le :
    (inner : ℕ) (s : Shown) → proc_width inner s ≤ min_proc + (inner - width_of (build s min_proc))
unfolding proc_width
proc_width_le inner s = ground arith

width_of-build : (s : Shown) (p : ℕ) → width_of (build s p) ≡ gaps_of (build s p)
unfolding width_of build gaps_of
width_of-build s p = omega arith

proc_width-fits :
    (inner : ℕ) (s : Shown)
    → gaps_of (build s min_proc) ≤ inner
    → gaps_of (build s (proc_width inner s)) ≤ inner
proc_width-fits inner s h =
    let p = proc_width inner s in
    let q : min_proc + (p - min_proc) ≡ p = omega (arith, proc_width_ge inner s) in
    subst (λ w. gaps_of (build s w) ≤ inner) q
      (omega (
        arith,
        gaps_of-build s (p - min_proc),
        proc_width_le inner s,
        width_of-build s min_proc,
        h,
      ))

-- From 34 cells between the borders on, the columns stand from the left to the right with a gap
-- between any two, so that no two share a cell, and the last one ends before the right border.
pub columns-Spaced : (inner : ℕ) → narrowest ≤ inner → Spaced 3 (suc inner) (columns inner)
unfolding columns
columns-Spaced inner h =
    let s = shown_in inner in
    let f = proc_width-fits inner s (fits-width_of inner s (shown_in-fits inner h)) in
    placed_at-Spaced 3 (suc inner) (build s (proc_width inner s)) (omega (arith, f))
