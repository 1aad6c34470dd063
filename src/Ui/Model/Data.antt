-- ===== src/Ui/Model/Data.antt =====
-- internal/ui/model.go: the state of the table's display. The controller is the one of
-- internal/app/app.go: the tunnel manager, with the settings store that the manager holds as well.
use autotun.Base.{ℕ, Bool, false, List, [], Option, none, some, nat_eq, int_eq, ℤ, negsuc}
use autotun.Text.{Text}
use autotun.Config.Store.{ViewPrefs, view_prefs, set_view_prefs, default_view_prefs}
use autotun.Tunnel.Manager.{Manager, State}
use autotun.Tunnel.Manager.Rows.{states}
use autotun.Ui.Sort.{SortKey, sort_key_named}
use autotun.Ui.Input.{TextInput, empty_input}
use autotun.Ui.Dissolve.{Dissolve}

-- `ConnState`.
pub data ConnState : Type 0 where
  connecting probing connected reconnecting disconnected : ConnState

-- `StatusMsg`; a time of zero is the zero time.
pub record StatusMsg : Type 0 where
  pub state : ConnState
  pub mode : Text
  pub detail : Text
  pub attempt : ℕ
  pub next_retry : ℕ

pub record ToastMsg : Type 0 where
  pub text : Text
  pub bad : Bool

-- `Options`, as far as the model reads them outside of rendering. Opening a URL gives the text of
-- an error, if there is one.
pub record Options : Type 0 where
  pub dissolve : Bool
  pub open_url : Text → Option Text
  pub can_retry : Bool

pub data EditorKind : Type 0 where
  editor_none editor_filter editor_local_port editor_port_label : EditorKind

-- `viewMenu`; `is_open` is its field `open`.
pub record ViewMenu : Type 0 where
  pub is_open : Bool
  pub cursor : ℕ

-- `zone`, with a column at which it begins and one at which it has ended.
pub record Zone : Type 0 where
  pub x0 : ℕ
  pub x1 : ℕ
  pub id : Text

-- `noSelection`.
abbrev pub no_selection : ℤ
no_selection = negsuc 0

-- `Model`. `opened` and `retries` record the calls of `OpenURL` and of `Retry`.
pub record Model : Type 0 where
  pub ctrl : Manager
  pub opts : Options
  pub width : ℕ
  pub height : ℕ
  pub rows : List State
  pub cursor : ℤ
  pub offset : ℕ
  pub sort_key : SortKey
  pub reverse : Bool
  pub editor : EditorKind
  pub editor_port : ℕ
  pub input : TextInput
  pub query : Text
  pub show_help : Bool
  pub show_detail : Bool
  pub protocol_prompt : Bool
  pub confirming : Bool
  pub menu : ViewMenu
  pub prefs : ViewPrefs
  pub status : StatusMsg
  pub ever_connected : Bool
  pub toast : ToastMsg
  pub toast_id : ℕ
  pub has_toast : Bool
  pub last_click_port : ℕ
  pub last_click_at : ℕ
  pub footer_zones : List Zone
  pub dissolving : Option Dissolve
  pub pending_osc : Text
  pub fatal : Option Text
  pub quit : Bool
  pub opened : List Text
  pub retries : ℕ

-- `tea.Cmd`: what is to happen next.
pub data Cmd : Type 0 where
  no_cmd quit_cmd refresh_tick dissolve_tick : Cmd
  expire : ℕ → Cmd

-- What a handler leaves behind and returns.
pub record Reply : Type 0 where
  pub model : Model
  pub cmd : Cmd

abbrev pub silent : Model → Reply
silent m = record { model = m; cmd = no_cmd }

-- `uiController.ViewPrefs` and `SetViewPrefs`.
unfoldable pub ctrl_view_prefs : Manager → ViewPrefs
ctrl_view_prefs c = elim c.settings [ none ↦ default_view_prefs | some st ↦ view_prefs st c.host ]

unfoldable pub ctrl_set_view_prefs : Manager → ViewPrefs → Manager
ctrl_set_view_prefs c p = elim c.settings [
  | none ↦ c
  | some st ↦ record c { settings = some (set_view_prefs st c.host p) }
]

-- `New`.
unfoldable pub new_model : Manager → Options → Model
unfolding states ctrl_view_prefs sort_key_named
new_model c opts =
    let prefs = ctrl_view_prefs c in
    record {
      ctrl = c;
      opts = opts;
      width = 80;
      height = 24;
      rows = states c;
      cursor = no_selection;
      offset = 0;
      sort_key = sort_key_named prefs.sort;
      reverse = prefs.reverse;
      editor = editor_none;
      editor_port = 0;
      input = empty_input;
      query = [];
      show_help = false;
      show_detail = false;
      protocol_prompt = false;
      confirming = false;
      menu = record { is_open = false; cursor = 0 };
      prefs = prefs;
      status = record { state = connecting; mode = []; detail = []; attempt = 0; next_retry = 0 };
      ever_connected = false;
      toast = record { text = []; bad = false };
      toast_id = 0;
      has_toast = false;
      last_click_port = 0;
      last_click_at = 0;
      footer_zones = [];
      dissolving = none;
      pending_osc = [];
      fatal = none;
      quit = false;
      opened = [];
      retries = 0;
    }
