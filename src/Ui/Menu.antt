-- ===== src/Ui/Menu.antt =====
-- internal/ui/viewmenu.go: the menu of the settings of a host, and Go's switch on a string.
pub mod Harmless
use autotun.Base.{
  ℕ, zero, suc, ◌+◌, ◌-◌, ◌/◌, ◌%◌, Bool, true, false, not, ◌||◌, List, [], ◌∷◌, Option, none, some,
  ◌==◌, nat_eq, list_eq, list_beq, if◌then◌else◌, ltb, length,
}
use autotun.Text.{Text, codes}
use autotun.Ui.Sort.{SortKey, sort_remote, sort_age, sort_traffic, sort_process, sort_key_text}
use autotun.Ui.Input.{Key}
use autotun.Ui.Model.{Model, Reply, silent, reload, save_prefs, get_elem?}

-- A switch on a string: the first case that has the string among its values, or the default.
abbrev pub names : Text → List Text → Bool
names t [] = false
names t (k ∷ ks) = k == t || names t ks

unfoldable pub switch {ℓ} : {A : Type ℓ} → Text → List (List Text × A) → A → A
unfolding list_beq
switch t [] d = d
switch t ((ks, a) ∷ cs) d = let rest = switch t cs d in if names t ks then a else rest

-- A value of a case that is a single character.
abbrev pub char : ℕ → Text
char c = c ∷ []

-- How many rows `menuItems` has, and the choices of the third.
abbrev pub menu_rows : ℕ
menu_rows = 3

abbrev pub sort_choices : List SortKey
sort_choices = sort_remote ∷ sort_age ∷ sort_traffic ∷ sort_process ∷ []

-- `sortChoice`, from the index `i` on; `none` is -1.
unfoldable pub choice_from : ℕ → SortKey → List SortKey → Option ℕ
unfolding sort_key_text list_beq
choice_from i key [] = none
choice_from i key (c ∷ cs) =
    if sort_key_text c == sort_key_text key then some i else choice_from (suc i) key cs

abbrev pub after_choice : Option ℕ → ℕ
after_choice none = 0
after_choice (some i) = i + 1

abbrev pub key_or : SortKey → Option SortKey → SortKey
key_or d none = d
key_or d (some k) = k

-- The sort key after the one that is active, along the choices.
unfoldable pub next_choice : SortKey → SortKey
unfolding choice_from
next_choice key =
    let next = after_choice (choice_from 0 key sort_choices) % length sort_choices in
    key_or key (get_elem? sort_choices next)

-- What a row of the menu changes.
unfoldable pub changed_by : ℕ → Model → Model
unfolding next_choice
changed_by i m =
    if i == 0
    then record m { prefs = record (m.prefs) { show_preexisting = not (m.prefs).show_preexisting } }
    else if i == 1
    then record m { prefs = record (m.prefs) { inactive_last = not (m.prefs).inactive_last } }
    else if i == 2
    then record m { sort_key = next_choice m.sort_key }
    else m

-- `activateMenuItem`.
unfoldable pub activate_menu_item : ℕ → Model → Reply
unfolding changed_by save_prefs reload
activate_menu_item i m = silent (reload (save_prefs (changed_by i m)))

abbrev pub open_menu : Model → Model
open_menu m = record m { menu = record (m.menu) { is_open = true } }

abbrev pub close_menu : Model → Model
close_menu m = record m { menu = record (m.menu) { is_open = false } }

abbrev pub menu_at : ℕ → Model → Model
menu_at i m = record m { menu = record (m.menu) { cursor = i } }

-- `handleMenuKey`.
abbrev pub menu_cases : Model → List (List Text × Reply)
menu_cases m =
    let c = m.menu.cursor in
    (codes "esc" ∷ char b'c' ∷ char b'q' ∷ [], silent (close_menu m))
    ∷ (codes "up" ∷ char b'k' ∷ [], silent (if ltb 0 c then menu_at (c - 1) m else m))
    ∷ (
      codes "down" ∷ char b'j' ∷ [],
      silent (if ltb c (menu_rows - 1) then menu_at (c + 1) m else m),
    )
    ∷ (codes " " ∷ codes "enter" ∷ codes "right" ∷ char b'l' ∷ [], activate_menu_item c m)
    ∷ []

unfoldable pub handle_menu_key : Key → Model → Reply
unfolding switch
handle_menu_key k m = switch k.name (menu_cases m) (silent m)

-- `menuRowAt`: the item at a line of the terminal, for a box of `lines` lines; `none` is -1.
unfoldable pub menu_row_from : ℕ → ℕ → ℕ → ℕ → Option ℕ
menu_row_from y first i zero = none
menu_row_from y first i (suc n) =
    if y == first + i + i then some i else menu_row_from y first (suc i) n

unfoldable pub menu_row_at : ℕ → ℕ → ℕ → Option ℕ
unfolding menu_row_from
menu_row_at height lines y = menu_row_from y ((height - lines) / 2 + 4) 0 menu_rows
