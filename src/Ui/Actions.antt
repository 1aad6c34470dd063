-- ===== src/Ui/Actions.antt =====
-- internal/ui/model.go: what the keys and the clicks do to the selected port, and the two editors.
use autotun.Base.{
  ℕ, suc, Bool, true, false, not, [], ◌∷◌, ◌++◌, Option, none, some, nat_eq, ◌==◌, if◌then◌else◌, ℤ,
  pos, negsuc, length,
}
use autotun.Assoc.{lookup}
use autotun.Text.{Text, codes}
use autotun.Text.Decimal.{itoa}
use autotun.Config.Mode.{Mode, auto, on, off}
use autotun.Tunnel.Scheme.{Scheme, unknown, scheme_beq, scheme_text}
use autotun.Tunnel.Manager.{State, Entry, status_is_active, endpoint, url}
use autotun.Tunnel.Manager.Control.{
  OpError, not_listed, switched_off, out_of_range, failure, cycle_mode, cycle_scheme, set_scheme,
  set_policy,
}
use autotun.Ui.Model.{Model, Reply, silent, selected, reload, show_toast, say, complain}

-- The bytes of ↑↓, —.
abbrev pub arrows : Text
arrows = 0xE2 ∷ 0x86 ∷ 0x91 ∷ 0xE2 ∷ 0x86 ∷ 0x93 ∷ []

abbrev dash : Text
dash = 0xE2 ∷ 0x80 ∷ 0x94 ∷ []

-- `needSelection`.
unfoldable pub need_selection : Model → Reply
unfolding show_toast
need_selection m =
    if length m.rows == 0
    then silent m
    else complain (codes "pick a row first " ++ (dash ++ (32 ∷ arrows ++ codes " or click"))) m

-- The error of a call of the manager, as text.
abbrev int_text : ℤ → Text
int_text (pos n) = itoa n
int_text (negsuc n) = b'-' ∷ itoa (suc n)

unfoldable pub op_error_text : OpError → Text
unfolding itoa
op_error_text (not_listed p) = codes "remote port " ++ (itoa p ++ codes " is not listed")
op_error_text (switched_off p) = codes "remote port " ++ (itoa p ++ codes " is switched off")
op_error_text (out_of_range z) = codes "local port " ++ (int_text z ++ codes " is out of range")
op_error_text (failure t) = t

abbrev pub remote_text : ℕ → Text → Text
remote_text p t = codes "remote " ++ (itoa p ++ t)

-- `cycleMode`. The mode that `CycleMode` returns is the one of the entry.
abbrev pub mode_now : Option Entry → Mode
mode_now none = auto
mode_now (some e) = e.mode

abbrev pub mode_note : Mode → Text
mode_note on = codes ": always forward (remembered)"
mode_note off = codes ": never forward (remembered)"
mode_note auto = codes ": back to automatic"

unfoldable pub cycle_mode_of : ℕ → State → Model → Reply
unfolding reload show_toast cycle_mode
cycle_mode_of now s m =
    let c = (cycle_mode m.ctrl s.remote_port now).mgr in
    let note = mode_note (mode_now (lookup s.remote_port c.entries)) in
    say (remote_text s.remote_port note) (reload (record m { ctrl = c }))

-- A handler that needs a selected row.
abbrev pub with_selected : (State → Model → Reply) → Model → Reply
with_selected f m = elim (selected m) [ none ↦ need_selection m | some s ↦ f s m ]

unfoldable pub press_mode : ℕ → Model → Reply
unfolding cycle_mode_of selected need_selection
press_mode now = with_selected (cycle_mode_of now)

-- `cycleScheme`.
abbrev pub scheme_now : Option Entry → Scheme
scheme_now none = unknown
scheme_now (some e) = e.scheme

abbrev pub scheme_note : Scheme → Text
scheme_note unknown = codes ": protocol unset"
scheme_note s = codes " is " ++ (scheme_text s ++ codes " (remembered)")

unfoldable pub cycle_scheme_of : State → Model → Reply
unfolding reload show_toast cycle_scheme
cycle_scheme_of s m =
    let c = cycle_scheme m.ctrl s.remote_port in
    let note = scheme_note (scheme_now (lookup s.remote_port c.entries)) in
    say (remote_text s.remote_port note) (reload (record m { ctrl = c }))

unfoldable pub press_scheme : Model → Reply
unfolding cycle_scheme_of selected need_selection
press_scheme = with_selected cycle_scheme_of

-- `openSelected`.
abbrev pub open_result : Text → Option Text → Model → Reply
open_result u none m = say (codes "opened " ++ u) m
open_result u (some e) m = complain (codes "open failed: " ++ e) m

unfoldable pub open_of : State → Model → Reply
unfolding show_toast url
open_of s m =
    if not (status_is_active s.status)
    then complain (codes "no tunnel to open") m
    else if scheme_beq s.scheme unknown
    then silent (record m { protocol_prompt = true })
    else open_result (url s) ((m.opts).open_url (url s)) (record m { opened = url s ∷ m.opened })

unfoldable pub open_selected : Model → Reply
unfolding open_of selected need_selection
open_selected = with_selected open_of

-- `chooseProtocol`.
unfoldable pub choose_of : Scheme → State → Model → Reply
unfolding open_selected reload set_scheme
choose_of scheme s m =
    open_selected (reload (record m { ctrl = set_scheme m.ctrl s.remote_port scheme }))

unfoldable pub choose_protocol : Scheme → Model → Reply
unfolding choose_of selected need_selection
choose_protocol scheme m = with_selected (choose_of scheme) (record m { protocol_prompt = false })

-- `copySelected`. `osc52` is the escape sequence that sets the clipboard.
unfoldable pub copy_of : (Text → Text) → State → Model → Reply
unfolding show_toast url endpoint
copy_of osc52 s m =
    let value = if scheme_beq s.scheme unknown then endpoint s else url s in
    if not (status_is_active s.status)
    then complain (codes "no tunnel to copy") m
    else say (codes "copied " ++ value) (record m { pending_osc = osc52 value })

unfoldable pub copy_selected : (Text → Text) → Model → Reply
unfolding copy_of selected need_selection
copy_selected osc52 = with_selected (copy_of osc52)

-- `togglePause`.
abbrev pub pause_note : Bool → Text
pause_note true = codes "paused: current tunnels stay up; new automatic tunnels will wait"
pause_note false = codes "resumed"

unfoldable pub toggle_pause : ℕ → Model → Reply
unfolding reload show_toast set_policy
toggle_pause now m =
    let paused = not (m.ctrl.policy).paused in
    let p = record (m.ctrl.policy) { paused = paused } in
    say (pause_note paused) (reload (record m { ctrl = (set_policy m.ctrl p now).mgr }))
