-- ===== src/Config/Mode.antt =====
-- internal/config/config.go: views and forwarding modes.
use autotun.Base.{Bool, true, false, ◌≡◌, refl, ◌==◌, nat_eq, list_eq, list_beq, if◌then◌else◌}
use autotun.Text.{Text, codes}

pub data View : Type 0 where
  since_start everything : View

unfoldable pub parse_view : Text → View
unfolding list_beq
parse_view s = if s == codes "everything" then everything else since_start

abbrev pub view_is_everything : View → Bool
view_is_everything since_start = false
view_is_everything everything = true

pub data Mode : Type 0 where
  auto on off : Mode

unfoldable pub parse_mode : Text → Mode
unfolding list_beq
parse_mode s = if s == codes "on" then on else if s == codes "off" then off else auto

-- `string(mode)`.
abbrev pub mode_text : Mode → Text
mode_text auto = codes "auto"
mode_text on = codes "on"
mode_text off = codes "off"

-- `Mode.Next`. Every mode that the program stores comes from `ParseMode` or is a constant.
unfoldable pub mode_next : Mode → Mode
mode_next on = off
mode_next off = auto
mode_next auto = on

abbrev pub mode_is_auto : Mode → Bool
mode_is_auto auto = true
mode_is_auto _ = false

abbrev pub mode_is_off : Mode → Bool
mode_is_off off = true
mode_is_off _ = false

pub parse_mode-mode_text : (m : Mode) → parse_mode (mode_text m) ≡ m
unfolding parse_mode
parse_mode-mode_text auto = refl
parse_mode-mode_text on = refl
parse_mode-mode_text off = refl
