-- ===== src/Ui/Input/Split.antt =====
-- The line editor of internal/ui/input.go against a pair of texts: what stands before the cursor,
-- read backwards from it, and what stands after it.
use autotun.Base.{
  ℕ, zero, suc, ◌+◌, ◌-◌, ◌≤◌, ◌≡◌, refl, sym, ap, subst, ◌∙◌, inl, inr, Bool, not, List, [], ◌∷◌,
  ◌++◌, Option, none, some, arith, if◌then◌else◌, ltb, length, take, drop, take-append-drop,
  Bool-cases,
}
use autotun.Text.{drop_while}
use autotun.Ui.Input.{
  Rune, KeyType, runes_key, space_key, backspace_key, delete_key, left_key, right_key, home_key,
  end_key, ctrl_a, ctrl_e, ctrl_u, ctrl_w, other_key, TextInput, is_control, is_blank, insert_rune,
  insert_runes, backspace, delete_rune, rune_at, skip_left, delete_word, edited,
}

pub record Split : Type 0 where
  pub before : List Rune
  pub after : List Rune

-- The reversal of a text, in front of another.
abbrev pub onto : List Rune → List Rune → List Rune
onto [] r = r
onto (x ∷ l) r = onto l (x ∷ r)

-- The editor that shows a pair.
abbrev pub input_of : Split → TextInput
input_of s = record { value = onto s.before s.after; cursor = length s.before }

-- The keys on a pair.
abbrev pub insert_at : List Rune → Split → Split
insert_at [] s = s
insert_at (r ∷ rs) s = insert_at rs (if is_control r then s else record s { before = r ∷ s.before })

abbrev pub step_left : Split → Split
step_left s = elim s.before [ [] ↦ s | x ∷ l ↦ record { before = l; after = x ∷ s.after } ]

abbrev pub step_right : Split → Split
step_right s = elim s.after [ [] ↦ s | x ∷ r ↦ record { before = x ∷ s.before; after = r } ]

abbrev pub erase_word : List Rune → List Rune
erase_word l = drop_while (λ r. not (is_blank r)) (drop_while is_blank l)

abbrev pub press : KeyType → List Rune → Split → Option Split
press runes_key rs s = some (insert_at rs s)
press space_key rs s = some (insert_at (32 ∷ []) s)
press backspace_key rs s = some (record s { before = drop 1 s.before })
press delete_key rs s = some (record s { after = drop 1 s.after })
press left_key rs s = some (step_left s)
press right_key rs s = some (step_right s)
press home_key rs s = some (record { before = []; after = onto s.before s.after })
press ctrl_a rs s = some (record { before = []; after = onto s.before s.after })
press end_key rs s = some (record { before = onto s.after s.before; after = [] })
press ctrl_e rs s = some (record { before = onto s.after s.before; after = [] })
press ctrl_u rs s = some (record { before = []; after = [] })
press ctrl_w rs s = some (record s { before = erase_word s.before })
press other_key rs s = none

abbrev pub shown : Option Split → Option TextInput
shown none = none
shown (some s) = some (input_of s)

onto-append : (l a w : List Rune) → onto l a ++ w ≡ onto l (a ++ w)
onto-append [] a w = refl
onto-append (x ∷ l) a w = onto-append l (x ∷ a) w

length-onto : (l r : List Rune) → length (onto l r) ≡ length l + length r
length-onto [] r = omega arith
length-onto (x ∷ l) r = omega (arith, length-onto l (x ∷ r))

take-onto : (l r : List Rune) (k : ℕ) → take (length l + k) (onto l r) ≡ onto l (take k r)
take-onto [] r k = ap (λ n. take n r) {x = 0 + k} (omega arith)
take-onto (x ∷ l) r k =
    ap (λ n. take n (onto l (x ∷ r))) (omega arith) ∙ take-onto l (x ∷ r) (suc k)

drop-onto : (l r : List Rune) (k : ℕ) → drop (length l + k) (onto l r) ≡ drop k r
drop-onto [] r k = ap (λ n. drop n r) {x = 0 + k} (omega arith)
drop-onto (x ∷ l) r k =
    ap (λ n. drop n (onto l (x ∷ r))) (omega arith) ∙ drop-onto l (x ∷ r) (suc k)

rune_at-onto : (l r : List Rune) (k : ℕ) → rune_at (length l + k) (onto l r) ≡ rune_at k r
rune_at-onto [] r k = ap (λ n. rune_at n r) {x = 0 + k} (omega arith)
rune_at-onto (x ∷ l) r k =
    ap (λ n. rune_at n (onto l (x ∷ r))) (omega arith) ∙ rune_at-onto l (x ∷ r) (suc k)

-- The two parts of an editor that shows a pair.
before_cursor : (l r w : List Rune) → take (length l) (onto l r) ++ w ≡ onto l w
before_cursor l r w =
    ap (λ n. take n (onto l r) ++ w) (omega arith)
    ∙ (ap (λ t. t ++ w) (take-onto l r 0) ∙ onto-append l [] w)

after_cursor : (l r : List Rune) → drop (length l) (onto l r) ≡ r
after_cursor l r = ap (λ n. drop n (onto l r)) (omega arith) ∙ drop-onto l r 0

past_cursor : (l r : List Rune) → drop (suc (length l)) (onto l r) ≡ drop 1 r
past_cursor l r = ap (λ n. drop n (onto l r)) {x = suc (length l)} (omega arith) ∙ drop-onto l r 1

last_rune : (l r : List Rune) (x : Rune) → rune_at (length l) (onto l (x ∷ r)) ≡ some x
last_rune l r x =
    ap (λ n. rune_at n (onto l (x ∷ r))) {x = length l} (omega arith) ∙ rune_at-onto l (x ∷ r) 0

insert_rune-input_of :
    (r : Rune) (s : Split)
    → insert_rune r (input_of s)
      ≡ input_of (if is_control r then s else record s { before = r ∷ s.before })
unfolding insert_rune
insert_rune-input_of r s = elim (Bool-cases (is_control r)) [
  | inl e ↦ rw e
  | inr e ↦ rw (e, after_cursor s.before s.after, before_cursor s.before s.after (r ∷ s.after))
]

insert_runes-input_of :
    (rs : List Rune) (s : Split) → insert_runes rs (input_of s) ≡ input_of (insert_at rs s)
unfolding insert_runes
insert_runes-input_of [] s = refl
insert_runes-input_of (r ∷ rs) s = rw (insert_rune-input_of r s) (insert_runes-input_of rs _)

backspace-input_of :
    (l r : List Rune)
    → backspace (input_of (record { before = l; after = r }))
      ≡ input_of (record { before = drop 1 l; after = r })
unfolding backspace
backspace-input_of [] r = refl
backspace-input_of (x ∷ l) r = ground (arith, before_cursor l (x ∷ r) r, past_cursor l (x ∷ r))

delete_rune-input_of :
    (l r : List Rune)
    → delete_rune (input_of (record { before = l; after = r }))
      ≡ input_of (record { before = l; after = drop 1 r })
unfolding delete_rune
delete_rune-input_of l [] = ground (arith, length-onto l [])
delete_rune-input_of l (x ∷ r) =
    ground (arith, length-onto l (x ∷ r), before_cursor l (x ∷ r) r, past_cursor l (x ∷ r))

-- What a loop of `deleteWord` passes over is moved to the other side.
passed :
    (f : Rune → Bool) (l r : List Rune) → (t : List Rune) × (onto l r ≡ onto (drop_while f l) t)
unfolding drop_while
passed f [] r = (r, refl)
passed f (x ∷ l) r = elim (Bool-cases (f x)) [
  | inl e ↦ rw e (passed f l (x ∷ r))
  | inr e ↦ rw e (r, refl)
]

skip_left-onto :
    (f : Rune → Bool) (l r : List Rune)
    → skip_left f (onto l r) (length l) ≡ length (drop_while f l)
unfolding skip_left drop_while
skip_left-onto f [] r = refl
skip_left-onto f (x ∷ l) r = ground (arith, last_rune l r x, skip_left-onto f l (x ∷ r))

-- The text that `deleteWord` leaves, once the two loops are done.
delete_word-input_of :
    (l r : List Rune)
    → delete_word (input_of (record { before = l; after = r }))
      ≡ input_of (record { before = erase_word l; after = r })
unfolding delete_word
delete_word-input_of l r =
    let a = passed is_blank l r in
    let l1 = drop_while is_blank l in
    let b = passed (λ c. not (is_blank c)) l1 a.0 in
    let i : skip_left (λ c. not (is_blank c)) (onto l r) (skip_left is_blank (onto l r) (length l))
        ≡ length (erase_word l) =
      rw (skip_left-onto is_blank l r, a.1) (skip_left-onto (λ c. not (is_blank c)) l1 a.0) in
    rw (i, after_cursor l r, a.1, b.1, before_cursor (erase_word l) b.0 r) refl

step_left-input_of :
    (l r : List Rune)
    → (if ltb 0 (length l)
        then record { value = onto l r; cursor = length l - 1 }
        else record { value = onto l r; cursor = length l })
      ≡ input_of (step_left (record { before = l; after = r }))
step_left-input_of [] r = refl
step_left-input_of (x ∷ l) r = ground arith

step_right-input_of :
    (l r : List Rune)
    → (if ltb (length l) (length (onto l r))
        then record { value = onto l r; cursor = suc (length l) }
        else record { value = onto l r; cursor = length l })
      ≡ input_of (step_right (record { before = l; after = r }))
step_right-input_of l [] = ground (arith, length-onto l [])
step_right-input_of l (x ∷ r) = ground (arith, length-onto l (x ∷ r))

onto-onto : (x l w : List Rune) → onto (onto x l) w ≡ onto l (x ++ w)
onto-onto [] l w = refl
onto-onto (a ∷ x) l w = onto-onto x (a ∷ l) w

append_nil : (x : List Rune) → x ++ [] ≡ x
append_nil [] = refl
append_nil (a ∷ x) = ap (◌∷◌ a) (append_nil x)

end-input_of :
    (l r : List Rune)
    → record { value = onto l r; cursor = length (onto l r) }
      ≡ input_of (record { before = onto r l; after = [] })
end-input_of l r =
    rw (onto-onto r l [], append_nil r, length-onto l r, length-onto r l)
      (ap (λ n. record { value = onto l r; cursor = n }) {x = length l + length r} (omega arith))

-- Each key of the editor does to its text and its cursor what it does to the pair of the text
-- before the cursor and the text after it: a character is put in front of the cursor,
-- backspace and ctrl+w take from the text before it, delete takes from the text after it, ctrl+u
-- takes both away, and home, end and the arrows move the cursor. No other key is taken.
pub edited-input_of :
    (k : KeyType) (rs : List Rune) (s : Split) → edited k rs (input_of s) ≡ shown (press k rs s)
unfolding edited
edited-input_of runes_key rs s = ap some (insert_runes-input_of rs s)
edited-input_of space_key rs s = ap some (insert_runes-input_of (32 ∷ []) s)
edited-input_of backspace_key rs s = ap some (backspace-input_of s.before s.after)
edited-input_of delete_key rs s = ap some (delete_rune-input_of s.before s.after)
edited-input_of left_key rs s = ap some (step_left-input_of s.before s.after)
edited-input_of right_key rs s = ap some (step_right-input_of s.before s.after)
edited-input_of home_key rs s = refl
edited-input_of ctrl_a rs s = refl
edited-input_of end_key rs s = ap some (end-input_of s.before s.after)
edited-input_of ctrl_e rs s = ap some (end-input_of s.before s.after)
edited-input_of ctrl_u rs s = refl
edited-input_of ctrl_w rs s = ap some (delete_word-input_of s.before s.after)
edited-input_of other_key rs s = refl

abbrev split_of : TextInput → Split
split_of t = record { before = onto (take t.cursor t.value) []; after = drop t.cursor t.value }

length-take : (n : ℕ) (xs : List Rune) → n ≤ length xs → length (take n xs) ≡ n
length-take zero xs h = omega arith
length-take (suc n) [] h = omega (arith, h)
length-take (suc n) (x ∷ xs) h = omega (arith, length-take n xs (omega (arith, h)))

-- Every editor whose cursor is within its text shows a pair.
input_of-split_of : (t : TextInput) → t.cursor ≤ length t.value → input_of (split_of t) ≡ t
input_of-split_of t h =
    rw
      (
        onto-onto (take t.cursor t.value) [] (drop t.cursor t.value),
        take-append-drop t.cursor t.value,
        length-onto (take t.cursor t.value) [],
        length-take t.cursor t.value h,
      )
      (ap (λ n. record { value = t.value; cursor = n }) {x = t.cursor + 0} (omega arith))

abbrev pub IsInput : TextInput → Type 0
IsInput t = t.cursor ≤ length t.value

input_of-IsInput : (s : Split) → IsInput (input_of s)
input_of-IsInput s = rw (length-onto s.before s.after) (omega arith)

shown-IsInput : (o : Option Split) (u : TextInput) → shown o ≡ some u → IsInput u
shown-IsInput none u e = cc
shown-IsInput (some s) u e = let q : input_of s ≡ u = cc in subst IsInput q (input_of-IsInput s)

-- No key moves the cursor out of the text.
pub edited-IsInput :
    (k : KeyType) (rs : List Rune) (t u : TextInput)
    → IsInput t
    → edited k rs t ≡ some u
    → IsInput u
edited-IsInput k rs t u h e =
    shown-IsInput (press k rs (split_of t)) u
      (sym (edited-input_of k rs (split_of t)) ∙ (ap (edited k rs) (input_of-split_of t h) ∙ e))
