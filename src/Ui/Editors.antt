-- ===== src/Ui/Editors.antt =====
-- internal/ui/model.go: the search, the editor of a local port and the editor of a label.
use autotun.Base.{
  ℕ, ◌||◌, [], ◌∷◌, ◌++◌, Option, none, some, List, nat_eq, ◌==◌, if◌then◌else◌, ℤ, pos, negsuc,
  ltb_ℤ,
}
use autotun.Assoc.{lookup}
use autotun.Text.{Text, codes, is_empty, trim_space}
use autotun.Text.Decimal.{itoa, atoi}
use autotun.Tunnel.Manager.{Manager, State}
use autotun.Tunnel.Manager.Control.{
  OpError, not_listed, set_label, set_local_port, local_port_error,
}
use autotun.Ui.Input.{Key, TextInput, empty_input, set_text, input_update}
use autotun.Ui.Model.{
  Model, Reply, silent, EditorKind, editor_none, editor_filter, editor_local_port,
  editor_port_label, no_selection, reload, show_toast, say, complain,
}
use autotun.Ui.Menu.{switch}
use autotun.Ui.Actions.{with_selected, op_error_text, remote_text}

-- `closeEditor`.
unfoldable pub close_editor : Model → Model
close_editor m = record m { editor = editor_none; editor_port = 0; input = empty_input }

-- `openFilter`.
unfoldable pub open_filter : Model → Model
unfolding set_text
open_filter m = record m { editor = editor_filter; input = set_text m.query }

-- `openLocalPort`.
abbrev pub pinned_text : ℤ → Text
pinned_text z = if ltb_ℤ (pos 0) z then (elim z [ pos n ↦ itoa n | negsuc n ↦ [] ]) else []

unfoldable pub edit_local_of : State → Model → Reply
unfolding set_text itoa
edit_local_of s m = silent (record m {
  editor = editor_local_port;
  editor_port = s.remote_port;
  input = set_text (pinned_text s.pinned_local);
})

unfoldable pub open_local_port : Model → Reply
unfolding edit_local_of
open_local_port = with_selected edit_local_of

-- `openLabel`.
unfoldable pub edit_label_of : State → Model → Reply
unfolding set_text
edit_label_of s m =
    silent (record m {
      editor = editor_port_label;
      editor_port = s.remote_port;
      input = set_text s.label;
    })

unfoldable pub open_label : Model → Reply
unfolding edit_label_of
open_label = with_selected edit_label_of

-- What `SetLabel` returns.
unfoldable pub label_error : Manager → ℕ → Option OpError
label_error c port = elim (lookup port c.entries) [ none ↦ some (not_listed port) | some e ↦ none ]

abbrev pub or_failed : Option OpError → Text → Model → Reply
or_failed none t m = say t m
or_failed (some e) t m = complain (op_error_text e) m

abbrev pub label_note : ℕ → Text → Text
label_note port label =
    if is_empty label
    then remote_text port (codes ": label cleared")
    else remote_text port (codes ": named " ++ (label ++ codes " (remembered)"))

-- `applyLabel`. Where the port is not listed, `SetLabel` changes nothing.
unfoldable pub apply_label : Model → Reply
unfolding close_editor reload trim_space set_label label_error op_error_text show_toast
apply_label m =
    let label = trim_space (m.input).value in
    let port = m.editor_port in
    or_failed (label_error m.ctrl port) (label_note port label)
      (reload (record (close_editor m) { ctrl = set_label m.ctrl port label }))

-- The local port that a text of `applyLocalPort` names; `none` is an error.
abbrev pub port_named : Option ℤ → Option ℤ
port_named none = none
port_named (some z) = if ltb_ℤ z (pos 1) || ltb_ℤ (pos 65535) z then none else some z

unfoldable pub local_typed : Text → Option ℤ
unfolding atoi
local_typed text = if is_empty text then some (pos 0) else port_named (atoi text)

abbrev pub local_note : ℕ → ℤ → Text
local_note port (pos n) =
    if n == 0
    then remote_text port (codes " back to its default local port")
    else remote_text port (codes " pinned to local " ++ (itoa n ++ codes " (remembered)"))
local_note port (negsuc n) = []

-- `applyLocalPort`, once its text is read.
unfoldable pub set_local_of : ℕ → ℕ → ℤ → Model → Reply
unfolding reload set_local_port local_port_error op_error_text show_toast
set_local_of now port local m =
    or_failed (local_port_error m.ctrl port local now) (local_note port local)
      (reload (record m { ctrl = (set_local_port m.ctrl port local now).mgr }))

unfoldable pub apply_local_port : ℕ → Model → Reply
unfolding close_editor trim_space local_typed set_local_of show_toast
apply_local_port now m =
    let text = trim_space (m.input).value in
    elim (local_typed text) [
      | none ↦ complain (codes "not a port number: " ++ text) (close_editor m)
      | some local ↦ set_local_of now m.editor_port local (close_editor m)
    ]

-- What the enter key and a click outside do to an open editor.
unfoldable pub commit : ℕ → EditorKind → Model → Reply
unfolding apply_local_port apply_label close_editor
commit now editor_local_port m = apply_local_port now m
commit now editor_port_label m = apply_label m
commit now editor_filter m = silent (close_editor m)
commit now editor_none m = silent (close_editor m)

-- What the escape key does to it.
unfoldable pub abandon : EditorKind → Model → Model
unfolding close_editor reload
abandon editor_filter m = reload (record (close_editor m) { query = [] })
abandon kind m = close_editor m

-- What a key does to the text.
unfoldable pub typed : EditorKind → Option TextInput → Model → Model
unfolding reload
typed kind none m = m
typed editor_filter (some t) m =
    reload (record m { input = t; query = t.value; cursor = no_selection })
typed kind (some t) m = record m { input = t }

-- `handleEditorKey`.
abbrev pub editor_cases : ℕ → Key → Model → List (List Text × Reply)
editor_cases now k m =
    (codes "esc" ∷ codes "ctrl+c" ∷ [], silent (abandon m.editor m))
    ∷ (codes "enter" ∷ [], commit now m.editor m)
    ∷ []

unfoldable pub handle_editor_key : ℕ → Key → Model → Reply
unfolding switch abandon commit typed input_update
handle_editor_key now k m =
    switch k.name (editor_cases now k m) (silent (typed m.editor (input_update k m.input) m))
