-- ===== src/Ui/Input.antt =====
-- internal/ui/input.go: the line editor of the search and of the two editors. A character is the
-- number of its code point, and the conversion between `[]rune` and `string` is left out.
pub mod Split
use autotun.Base.{
  ℕ, zero, suc, ◌+◌, ◌-◌, ◌≤◌, Bool, true, false, not, ◌||◌, ◌&&◌, List, [], ◌∷◌, ◌++◌, Option,
  none, some, ◌==◌, nat_eq, if◌then◌else◌, ltb, leb, length, take, drop,
}

abbrev pub Rune : Type 0
Rune = ℕ

-- The `Type` of a key, as far as the editor reads it.
pub data KeyType : Type 0 where
  runes_key space_key backspace_key delete_key left_key right_key home_key end_key : KeyType
  ctrl_a ctrl_e ctrl_u ctrl_w other_key : KeyType

-- `tea.KeyMsg`: what `String` gives for it, its type, and the runes that it types.
pub record Key : Type 0 where
  pub name : List Rune
  pub type : KeyType
  pub runes : List Rune

-- `textInput`.
pub record TextInput : Type 0 where
  pub value : List Rune
  pub cursor : ℕ

abbrev pub empty_input : TextInput
empty_input = record { value = []; cursor = 0 }

-- `SetValue`.
unfoldable pub set_text : List Rune → TextInput
set_text s = record { value = s; cursor = length s }

-- `unicode.IsControl`.
abbrev pub is_control : Rune → Bool
is_control r = ltb r 32 || (leb 127 r && ltb r 160)

-- `unicode.IsSpace`.
unfoldable pub is_blank : Rune → Bool
is_blank r =
    (leb 9 r && leb r 13)
    || r == 32
    || r == 0x85
    || r == 0xA0
    || r == 0x1680
    || (leb 0x2000 r && leb r 0x200A)
    || r == 0x2028
    || r == 0x2029
    || r == 0x202F
    || r == 0x205F
    || r == 0x3000

-- One turn of the loop over the typed runes.
unfoldable pub insert_rune : Rune → TextInput → TextInput
insert_rune r t = if is_control r then t else record {
  value = take t.cursor t.value ++ r ∷ drop t.cursor t.value;
  cursor = suc t.cursor;
}

unfoldable pub insert_runes : List Rune → TextInput → TextInput
unfolding insert_rune
insert_runes [] t = t
insert_runes (r ∷ rs) t = insert_runes rs (insert_rune r t)

unfoldable pub backspace : TextInput → TextInput
backspace t =
    if ltb 0 t.cursor
    then record {
      value = take (t.cursor - 1) t.value ++ drop t.cursor t.value;
      cursor = t.cursor - 1;
    }
    else t

unfoldable pub delete_rune : TextInput → TextInput
delete_rune t =
    if ltb t.cursor (length t.value)
    then record t { value = take t.cursor t.value ++ drop (suc t.cursor) t.value }
    else t

abbrev pub blank_at : Option Rune → Bool
blank_at none = false
blank_at (some r) = is_blank r

abbrev pub rune_at : ℕ → List Rune → Option Rune
rune_at i [] = none
rune_at zero (r ∷ rs) = some r
rune_at (suc i) (r ∷ rs) = rune_at i rs

-- The two loops of `deleteWord`, from the position `i` to the left.
unfoldable pub skip_left : (Rune → Bool) → List Rune → ℕ → ℕ
skip_left f value zero = zero
skip_left f value (suc i) =
    let rest = skip_left f value i in
    elim (rune_at i value) [ none ↦ suc i | some r ↦ if f r then rest else suc i ]

unfoldable pub delete_word : TextInput → TextInput
unfolding skip_left is_blank
delete_word t =
    let i = skip_left (λ r. not (is_blank r)) t.value (skip_left is_blank t.value t.cursor) in
    record { value = take i t.value ++ drop t.cursor t.value; cursor = i }

-- `Update` by the type of the key; `none` where the key is not consumed.
unfoldable pub edited : KeyType → List Rune → TextInput → Option TextInput
unfolding insert_runes backspace delete_rune delete_word
edited runes_key rs t = some (insert_runes rs t)
edited space_key rs t = some (insert_runes (32 ∷ []) t)
edited backspace_key rs t = some (backspace t)
edited delete_key rs t = some (delete_rune t)
edited left_key rs t = some (if ltb 0 t.cursor then record t { cursor = t.cursor - 1 } else t)
edited right_key rs t =
    some (if ltb t.cursor (length t.value) then record t { cursor = suc t.cursor } else t)
edited home_key rs t = some (record t { cursor = 0 })
edited ctrl_a rs t = some (record t { cursor = 0 })
edited end_key rs t = some (record t { cursor = length t.value })
edited ctrl_e rs t = some (record t { cursor = length t.value })
edited ctrl_u rs t = some empty_input
edited ctrl_w rs t = some (delete_word t)
edited other_key rs t = none

-- `textInput.Update`.
unfoldable pub input_update : Key → TextInput → Option TextInput
unfolding edited
input_update k t = edited k.type k.runes t
