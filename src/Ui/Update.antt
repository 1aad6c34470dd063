-- ===== src/Ui/Update.antt =====
-- internal/ui/model.go: the messages of the display.
use autotun.Base.{
  ℕ, Bool, true, false, ◌||◌, List, [], ◌∷◌, Option, none, some, ◌==◌, nat_eq, if◌then◌else◌,
}
use autotun.Text.{Text}
use autotun.Ui.Input.{Key}
use autotun.Ui.Dissolve.{Dissolve, advance, done}
use autotun.Ui.Model.{
  Model, Reply, silent, refresh_tick, dissolve_tick, quit_cmd, ConnState, probing, connected,
  StatusMsg, ToastMsg, clamp_cursor, reload, show_toast,
}
use autotun.Ui.Keys.{Env, is_dissolving, quit_now, handle_key}
use autotun.Ui.Mouse.{MouseMsg, Screen, key_bar}
use autotun.Ui.Click.{handle_mouse}

-- The messages that `Update` knows.
pub data Msg : Type 0 where
  window_size : ℕ → ℕ → Msg
  fatal_msg : Text → Msg
  status_msg : StatusMsg → Msg
  toast_msg : ToastMsg → Msg
  toast_expired : ℕ → Msg
  refresh_msg dissolve_msg : Msg
  mouse_msg : MouseMsg → Msg
  key_msg : Key → Msg

abbrev pub is_up : ConnState → Bool
is_up connected = true
is_up probing = true
is_up _ = false

-- A frame of the exit animation.
unfoldable pub next_frame : Option Dissolve → Model → Reply
unfolding advance done
next_frame none m = silent m
next_frame (some d) m =
    let d' = advance d in
    let m' = record m { dissolving = some d' } in
    if done d' then quit_now m' else record { model = m'; cmd = dissolve_tick }

-- The cases of `Update`.
unfoldable pub handle : Env → Screen → Msg → Model → Reply
unfolding clamp_cursor reload show_toast next_frame handle_mouse handle_key
handle env s (window_size w h) m = silent (clamp_cursor (record m { width = w; height = h }))
handle env s (fatal_msg e) m = record { model = record m { fatal = some e }; cmd = quit_cmd }
handle env s (status_msg st) m =
    silent (record m { status = st; ever_connected = m.ever_connected || is_up st.state })
handle env s (toast_msg t) m = show_toast t m
handle env s (toast_expired id) m =
    silent (if id == m.toast_id then record m { has_toast = false } else m)
handle env s refresh_msg m = record {
  model = if is_dissolving m then m else reload m;
  cmd = refresh_tick;
}
handle env s dissolve_msg m = next_frame m.dissolving m
handle env s (mouse_msg msg) m = handle_mouse env s msg m
handle env s (key_msg k) m = handle_key env k m

-- `Update`.
unfoldable pub update : Env → Screen → Msg → Model → Reply
unfolding handle
update env s msg m = handle env s msg (record m { pending_osc = [] })

-- What a call of `View` records: the zones of the key bar.
unfoldable pub draw : Screen → Model → Model
unfolding key_bar
draw s m = record m { footer_zones = key_bar s m.width }

-- A history of messages, each with what the rest of the program gives at its time, and of frames
-- that are drawn.
pub data Happening : Type 0 where
  updates : Env → Screen → Msg → Happening
  draws : Screen → Happening

unfoldable pub happen : Happening → Model → Model
unfolding update draw
happen (updates env s msg) m = (update env s msg m).model
happen (draws s) m = draw s m

unfoldable pub run : List Happening → Model → Model
unfolding happen
run [] m = m
run (e ∷ es) m = run es (happen e m)
