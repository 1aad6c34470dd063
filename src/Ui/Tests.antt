-- ===== src/Ui/Tests.antt =====
-- The order of the table (internal/ui/sort.go) on rows that can be followed in the source.
use autotun.Base.{
  ℕ, zero, suc, ◌*◌, ◌≤◌, ◌<◌, ◌≡◌, refl, true, false, List, [], ◌∷◌, none, some, pos, neg, map,
  nat_eq, ◌==◌, if◌then◌else◌, length, arith, All,
}
use autotun.Probe.Service.{Service}
use autotun.Config.Store.{Store}
use autotun.Config.Ports.{IsWell}
use autotun.Tunnel.Policy.{default_policy}
use autotun.Tunnel.Alloc.{grants}
use autotun.Tunnel.Manager.{Manager, new}
use autotun.Tunnel.Manager.Invariant.{Inv}
use autotun.Tunnel.Manager.Steps
use autotun.Tunnel.Manager.Steps.{Call, IsCall, syncs}
use autotun.Tunnel.Manager.History.{new-Inv, run-Inv}
use autotun.Ui.Input.{Key, runes_key, ctrl_w, edited}
use autotun.Ui.Input.Split
use autotun.Ui.Input.Split.{Split, input_of, shown, edited-input_of}
use autotun.Ui.Dissolve.{longest}
use autotun.Ui.Model.{Model, Options, new_model, no_selection, selected_port, listed, reload, move}
use autotun.Ui.Menu.{handle_menu_key, open_menu}
use autotun.Ui.Menu.Harmless.{SameTunnels, IsWellStored, handle_menu_key-SameTunnels}
use autotun.Ui.Keys.{Env, begin_quit}
use autotun.Ui.Columns.{columns}
use autotun.Ui.Columns.Places.{Spaced, columns-Spaced}
use autotun.Ui.Mouse.{Screen, overlay_open}
use autotun.Ui.Click.{wheel}
use autotun.Ui.Update.{key_msg, dissolve_msg, Happening, updates, draws, run}
use autotun.Ui.WellFormed.{WellFormed}
use autotun.Ui.WellFormed.Messages.{run-new_model-WellFormed}
use autotun.Ui.Selection.{shows, selected_port-reload, wheel-move}
use autotun.Ui.Quit.{frames_in, run-begin_quit}
use autotun.Text.{Text, codes}
use autotun.Config.Mode.{auto}
use autotun.Tunnel.Scheme.{unknown}
use autotun.Tunnel.Policy.{skip_none}
use autotun.Tunnel.Manager.{State, Status, active, skipped}
use autotun.Ui.Sort.{sort_states, sort_traffic}

abbrev row : ℕ → Status → ℕ → Text → State
row p st bytes cmd = record {
  remote_port = p;
  local_port = p;
  local_addr = codes "127.0.0.1";
  remapped = false;
  pid = pos 0;
  proc = [];
  cmd = cmd;
  binds = codes "*";
  status = st;
  skip = skip_none;
  err = [];
  scheme = unknown;
  scheme_pinned = false;
  label = [];
  mode = auto;
  preexisting = false;
  pinned_local = pos 0;
  first_seen = 0;
  created = 0;
  last_byte = 0;
  bytes_in = bytes;
  bytes_out = 0;
  active_conns = 0;
  total_conns = 0;
}

abbrev table : List State
table =
    row 80 skipped 900 (codes "nginx")
    ∷ row 3000 active 10 (codes "Node")
    ∷ row 5000 active 20 (codes "ruby")
    ∷ []

busiest_first :
    map (λ s. s.remote_port) (sort_states table sort_traffic false true) ≡ 5000 ∷ 3000 ∷ 80 ∷ []
unfolding sort_states
busiest_first = refl

-- The display of a manager with two tunnels, in a terminal of 80 columns and 24 rows.
abbrev service_on : ℕ → Service
service_on p = record {
  port = p;
  binds = record { proto = codes "tcp"; addr = codes "127.0.0.1" } ∷ [];
  pid = pos 12;
  proc = codes "node";
  cmd = codes "node server";
}

abbrev settings : Store
settings = record { path = codes "hosts.yml"; hosts = []; dirty = false }

abbrev fresh : Manager
fresh =
    new (record { bind = codes "127.0.0.1"; same_port = false; sticky = [] })
      (record { ours = []; answers = grants 3000 ∷ grants 5000 ∷ [] }) (some 1) default_policy 2
      (codes "box") (some settings)

abbrev calls : List (ℕ × Call)
calls = (1, syncs []) ∷ (2, syncs ((3000, service_on 3000) ∷ (5000, service_on 5000) ∷ [])) ∷ []

calls-IsCall : All IsCall calls
calls-IsCall = (tt, (((refl, omega arith), ((refl, omega arith), tt)), tt))

abbrev manager : Manager
manager = Steps.run fresh calls

manager-Inv : Inv manager
manager-Inv = run-Inv fresh calls calls-IsCall (new-Inv _ _ _ _ _ _ _ refl)

abbrev options : Options
options = record { dissolve = true; open_url = λ u. none; can_retry = true }

abbrev env : Env
env = record { now = 7; screen = 80 ∷ 40 ∷ 80 ∷ []; rng = λ n. n * 5; osc52 = λ t. t }

abbrev screen : Screen
screen = record {
  protocol_box = codes "" ∷ codes "  enter / h http   ·   s https" ∷ codes "" ∷ [];
  menu_lines = 12;
  chip_width = 0;
  string_width = length;
}

abbrev key : Text → Key
key t = record { name = t; type = runes_key; runes = t }

abbrev press : Text → Happening
press t = updates env screen (key_msg (key t))

abbrev display : Model
display = new_model manager options

-- The table with the second of its three rows selected.
abbrev chosen : Model
chosen = record display { rows = table; cursor = pos 1 }

run-new_model-WellFormed_example : WellFormed (
    run
      (press (codes "down") ∷ press (codes "o") ∷ draws screen ∷ press (codes "pgup") ∷ [])
      (new_model manager options))
run-new_model-WellFormed_example =
    run-new_model-WellFormed manager options
      (press (codes "down") ∷ press (codes "o") ∷ draws screen ∷ press (codes "pgup") ∷ [])
      manager-Inv

abbrev words : Split
words = record { before = codes "dlrow ,olleh"; after = codes "!" }

edited-input_of_example : edited ctrl_w [] (input_of words) ≡ shown (Split.press ctrl_w [] words)
edited-input_of_example = edited-input_of ctrl_w [] words

word_deleted :
    edited ctrl_w [] (input_of words) ≡ some (record { value = codes "hello, !"; cursor = 7 })
unfolding edited
word_deleted = refl

abbrev frames : ℕ → List Happening
frames zero = []
frames (suc n) = updates env screen dissolve_msg ∷ frames n

enough : longest display.height ≤ frames_in (frames 50)
unfolding new_model
enough = omega arith

animated : display.opts.dissolve ≡ true
unfolding new_model
animated = refl

wide : 0 < display.width
unfolding new_model
wide = omega arith

high : 0 < display.height
unfolding new_model
high = omega arith

run-begin_quit_example : (run (frames 50) (begin_quit env display).model).quit ≡ true
run-begin_quit_example = run-begin_quit env display (frames 50) animated wide high enough

something_selected : 0 < selected_port chosen
unfolding selected_port
something_selected = omega arith

selected_port-reload_example :
    selected_port (reload chosen)
    ≡ (if shows (selected_port chosen) (listed chosen) then selected_port chosen else 0)
selected_port-reload_example = selected_port-reload chosen something_selected

selected_in_table : 1 < length chosen.rows
selected_in_table = omega arith

selected_at : chosen.cursor ≡ pos 1
selected_at = refl

no_overlay : overlay_open chosen ≡ false
unfolding overlay_open new_model
no_overlay = refl

wheel-move_example :
    (wheel true chosen).model.cursor
    ≡ (if ◌==◌ {A = ℕ} 1 0 then no_selection else (move (neg 1) chosen).cursor)
wheel-move_example = wheel-move true chosen 1 no_overlay selected_at selected_in_table

settings-IsWell : IsWell settings
unfolding autotun.Config.Store.host_at autotun.Assoc.lookup
settings-IsWell = record { hosts_map = tt; ports_map = λ name. tt }

abbrev configured : Model
configured = open_menu (new_model fresh options)

configured-IsWellStored : IsWellStored configured.ctrl.settings
unfolding new_model new
configured-IsWellStored = settings-IsWell

handle_menu_key-SameTunnels_example :
    SameTunnels configured.ctrl (handle_menu_key (key (codes " ")) configured).model.ctrl
handle_menu_key-SameTunnels_example =
    handle_menu_key-SameTunnels (key (codes " ")) configured configured-IsWellStored

columns-Spaced_example : Spaced 3 79 (columns 78)
columns-Spaced_example = columns-Spaced 78 (omega arith)

-- Where the columns of a narrow terminal begin.
narrow_columns : map (λ c. c.x) (columns 34) ≡ 3 ∷ 12 ∷ 15 ∷ 24 ∷ []
unfolding columns
narrow_columns = refl
