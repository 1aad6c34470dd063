-- ===== src/Ui/WellFormed/Actions.antt =====
-- What the handlers of the selected port and of the editors (internal/ui/model.go) do to the
-- invariant of the model.
use autotun.Base.{
  ℕ, ◌≡◌, refl, inl, inr, false, not, [], ◌∷◌, ◌++◌, Option, none, some, arith, nat_eq,
  Option-cases,
}
use autotun.Text.{Text, codes, has_prefix, trim_space}
use autotun.Tunnel.Scheme.{Scheme, unknown, http, https, scheme_beq, url_scheme}
use autotun.Tunnel.Manager.{Manager, State, status_is_active, url, endpoint}
use autotun.Tunnel.Manager.Invariant.{Inv}
use autotun.Tunnel.Manager.Control.{OpError}
use autotun.Tunnel.Manager.Steps.{
  Call, IsCall, step, mode, next_scheme, scheme, label, local, policy,
}
use autotun.Tunnel.Manager.History.{step-Inv}
use autotun.Ui.Input.{TextInput, Key, input_update, set_text, empty_input}
use autotun.Ui.Input.Split.{IsInput, edited-IsInput}
use autotun.Ui.Model.{
  Model, silent, EditorKind, editor_none, editor_filter, editor_local_port, editor_port_label,
  no_selection, reload, show_toast,
}
use autotun.Ui.Actions.{
  cycle_mode_of, press_mode, cycle_scheme_of, press_scheme, open_result, open_of, open_selected,
  choose_of, choose_protocol, copy_of, copy_selected, toggle_pause,
}
use autotun.Ui.Editors.{
  close_editor, open_filter, edit_local_of, open_local_port, edit_label_of, open_label, or_failed,
  apply_label, local_typed, set_local_of, apply_local_port, commit, abandon, typed, editor_cases,
  editor_cases, handle_editor_key, pinned_text,
}
use autotun.Ui.WellFormed.{
  IsWebUrl, IsSound, WellFormed, Fine, reload-WellFormed, switch-Fine, either-Fine,
  with_selected-Fine,
}

-- A change of the manager that keeps its invariant.
abbrev pub with_ctrl : Manager → Model → Model
with_ctrl c m = record m { ctrl = c }

pub with_ctrl-IsSound : (c : Manager) (m : Model) → Inv c → IsSound m → IsSound (with_ctrl c m)
with_ctrl-IsSound c m v w = record {
  ctrl = v;
  input_in = w.input_in;
  menu_in = w.menu_in;
  web = w.web;
}

-- A call of the manager, followed by `reload`.
abbrev pub after_call : ℕ × Call → Model → Model
after_call c m = reload (with_ctrl (step m.ctrl c).mgr m)

pub after_call-WellFormed :
    (c : ℕ × Call) (m : Model) → IsCall c → IsSound m → WellFormed (after_call c m)
after_call-WellFormed c m i w =
    reload-WellFormed (with_ctrl (step m.ctrl c).mgr m)
      (with_ctrl-IsSound (step m.ctrl c).mgr m (step-Inv m.ctrl c i w.ctrl) w)

pub press_mode-Fine : (now : ℕ) (m : Model) → WellFormed m → Fine (press_mode now m)
unfolding step press_mode cycle_mode_of show_toast
press_mode-Fine now m w =
    with_selected-Fine (cycle_mode_of now) m w
      λ s e. after_call-WellFormed (now, mode s.remote_port) m tt w.1

pub press_scheme-Fine : (m : Model) → WellFormed m → Fine (press_scheme m)
unfolding step press_scheme cycle_scheme_of show_toast
press_scheme-Fine m w =
    with_selected-Fine cycle_scheme_of m w
      λ s e. after_call-WellFormed (0, next_scheme s.remote_port) m tt w.1

pub toggle_pause-Fine : (now : ℕ) (m : Model) → WellFormed m → Fine (toggle_pause now m)
unfolding step toggle_pause show_toast
toggle_pause-Fine now m w =
    let p = record (m.ctrl.policy) { paused = not (m.ctrl.policy).paused } in
    after_call-WellFormed (now, policy p) m tt w.1

-- The address of an active tunnel whose protocol is known.
url_text-IsWebUrl : (s : Scheme) (t : Text) → IsWebUrl (url_scheme s ++ (codes "://" ++ t))
unfolding url_scheme has_prefix
url_text-IsWebUrl unknown t = refl
url_text-IsWebUrl http t = refl
url_text-IsWebUrl https t = refl

url-IsWebUrl :
    (s : State)
    → not (status_is_active s.status) ≡ false
    → scheme_beq s.scheme unknown ≡ false
    → IsWebUrl (url s)
unfolding url
url-IsWebUrl s a b = rw (a, b) (url_text-IsWebUrl s.scheme (endpoint s))

open_result-Fine :
    (u : Text) (o : Option Text) (m : Model) → WellFormed m → Fine (open_result u o m)
unfolding show_toast
open_result-Fine u none m w = w
open_result-Fine u (some e) m w = w

opened_more :
    (u : Text) (m : Model)
    → IsWebUrl u
    → WellFormed m
    → WellFormed (record m { opened = u ∷ m.opened })
opened_more u m i w = (
  w.0,
  record { ctrl = w.1.ctrl; input_in = w.1.input_in; menu_in = w.1.menu_in; web = (i, w.1.web) },
)

pub open_selected-Fine : (m : Model) → WellFormed m → Fine (open_selected m)
unfolding open_selected open_of show_toast
open_selected-Fine m w = with_selected-Fine open_of m w λ s e.
    either-Fine (not (status_is_active s.status)) _ _ (λ a. w)
      λ a.
        either-Fine (scheme_beq s.scheme unknown) _ _ (λ b. w)
          λ b. open_result-Fine (url s) _ _ (opened_more (url s) m (url-IsWebUrl s a b) w)

pub choose_protocol-Fine :
    (scheme : Scheme) (m : Model) → WellFormed m → Fine (choose_protocol scheme m)
unfolding step choose_protocol choose_of
choose_protocol-Fine sc m w = with_selected-Fine (choose_of sc) _ w λ s e. open_selected-Fine _ (
    after_call-WellFormed (0, scheme s.remote_port sc) (record m { protocol_prompt = false }) tt
      w.1)

pub copy_selected-Fine : (f : Text → Text) (m : Model) → WellFormed m → Fine (copy_selected f m)
unfolding copy_selected copy_of show_toast
copy_selected-Fine f m w =
    with_selected-Fine (copy_of f) m w
      λ s e. either-Fine (not (status_is_active s.status)) _ _ (λ a. w) (λ a. w)

-- The editors.
pub edited_input-WellFormed :
    (i : TextInput) (m : Model) → IsInput i → WellFormed m → WellFormed (record m { input = i })
edited_input-WellFormed i m h w =
    (w.0, record { ctrl = w.1.ctrl; input_in = h; menu_in = w.1.menu_in; web = w.1.web })

set_text-IsInput : (t : Text) → IsInput (set_text t)
unfolding set_text
set_text-IsInput t = omega arith

pub close_editor-WellFormed : (m : Model) → WellFormed m → WellFormed (close_editor m)
unfolding close_editor
close_editor-WellFormed m w = edited_input-WellFormed empty_input m (omega arith) w

pub open_filter-WellFormed : (m : Model) → WellFormed m → WellFormed (open_filter m)
unfolding open_filter
open_filter-WellFormed m w =
    edited_input-WellFormed (set_text m.query) m (set_text-IsInput m.query) w

pub open_local_port-Fine : (m : Model) → WellFormed m → Fine (open_local_port m)
unfolding open_local_port edit_local_of
open_local_port-Fine m w = with_selected-Fine edit_local_of m w λ s e.
    let t = pinned_text s.pinned_local in
    edited_input-WellFormed (set_text t) m (set_text-IsInput t) w

pub open_label-Fine : (m : Model) → WellFormed m → Fine (open_label m)
unfolding open_label edit_label_of
open_label-Fine m w =
    with_selected-Fine edit_label_of m w
      λ s e. edited_input-WellFormed (set_text s.label) m (set_text-IsInput s.label) w

or_failed-Fine : (o : Option OpError) (t : Text) (m : Model) → WellFormed m → Fine (or_failed o t m)
unfolding show_toast
or_failed-Fine none t m w = w
or_failed-Fine (some e) t m w = w

apply_label-Fine : (m : Model) → WellFormed m → Fine (apply_label m)
unfolding step apply_label
apply_label-Fine m w =
    let call : ℕ × Call = (0, label m.editor_port (trim_space (m.input).value)) in
    or_failed-Fine _ _ _
      (after_call-WellFormed call (close_editor m) tt (close_editor-WellFormed m w).1)

apply_local_port-Fine : (now : ℕ) (m : Model) → WellFormed m → Fine (apply_local_port now m)
unfolding step apply_local_port set_local_of show_toast
apply_local_port-Fine now m w =
    let text = trim_space (m.input).value in
    let closed = close_editor-WellFormed m w in
    elim (Option-cases (local_typed text)) [
      | inl e ↦ simp (e, apply_local_port) closed
      | inr (z, e) ↦
          simp (e, apply_local_port)
            (or_failed-Fine _ _ _
              (after_call-WellFormed (now, local m.editor_port z) (close_editor m) tt closed.1))
    ]

pub commit-Fine : (now : ℕ) (k : EditorKind) (m : Model) → WellFormed m → Fine (commit now k m)
unfolding commit
commit-Fine now editor_local_port m w = apply_local_port-Fine now m w
commit-Fine now editor_port_label m w = apply_label-Fine m w
commit-Fine now editor_filter m w = close_editor-WellFormed m w
commit-Fine now editor_none m w = close_editor-WellFormed m w

abandon-WellFormed : (k : EditorKind) (m : Model) → WellFormed m → WellFormed (abandon k m)
unfolding abandon
abandon-WellFormed editor_filter m w =
    reload-WellFormed (record (close_editor m) { query = [] }) (close_editor-WellFormed m w).1
abandon-WellFormed editor_local_port m w = close_editor-WellFormed m w
abandon-WellFormed editor_port_label m w = close_editor-WellFormed m w
abandon-WellFormed editor_none m w = close_editor-WellFormed m w

typed-WellFormed :
    (k : EditorKind) (o : Option TextInput) (m : Model)
    → ((i : TextInput) → o ≡ some i → IsInput i)
    → WellFormed m
    → WellFormed (typed k o m)
unfolding typed
typed-WellFormed k none m h w = w
typed-WellFormed editor_filter (some i) m h w =
    reload-WellFormed (record m { input = i; query = i.value; cursor = no_selection })
      (edited_input-WellFormed i m (h i refl) w).1
typed-WellFormed editor_local_port (some i) m h w = edited_input-WellFormed i m (h i refl) w
typed-WellFormed editor_port_label (some i) m h w = edited_input-WellFormed i m (h i refl) w
typed-WellFormed editor_none (some i) m h w = edited_input-WellFormed i m (h i refl) w

pub handle_editor_key-Fine :
    (now : ℕ) (k : Key) (m : Model) → WellFormed m → Fine (handle_editor_key now k m)
unfolding handle_editor_key input_update
handle_editor_key-Fine now k m w =
    switch-Fine k.name (editor_cases now k m) (silent (typed m.editor (input_update k m.input) m))
      (abandon-WellFormed m.editor m w, (commit-Fine now m.editor m w, tt))
      (typed-WellFormed m.editor (input_update k m.input) m
        (λ i e. edited-IsInput k.type k.runes m.input i w.1.input_in e) w)
