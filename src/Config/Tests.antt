-- ===== src/Config/Tests.antt =====
-- The store of settings (internal/config/config.go) on inputs that can be followed in the source.
use autotun.Base.{
  ◌≡◌, refl, Bool, true, false, List, [], ◌∷◌, Option, none, some, pos, nat_eq, list_eq,
  if◌then◌else◌,
}
use autotun.Text.{codes}
use autotun.Config.Store.{
  Store, Port, ViewPrefs, host_at, port, zero_port, set_port, view_prefs, set_view_prefs,
}
use autotun.Config.Ports.{IsWell, IsClean, set_port-IsWell, port-set_port, set_port-IsClean}
use autotun.Config.Views.{settled, view_prefs-set_view_prefs}

abbrev empty_store : Store
empty_store = record { path = codes "hosts.yml"; hosts = []; dirty = false }

abbrev frontend : Port
frontend = record {
  label = codes "frontend";
  scheme = codes "https";
  mode = codes "on";
  local = pos 8080;
}

abbrev one_port : Store
one_port = set_port empty_store (codes "box") 3000 frontend

empty_store-IsWell : IsWell empty_store
unfolding host_at autotun.Assoc.lookup
empty_store-IsWell = record { hosts_map = tt; ports_map = λ name. tt }

one_port-IsWell : IsWell one_port
one_port-IsWell = set_port-IsWell empty_store (codes "box") 3000 frontend empty_store-IsWell

frontend_read : port one_port (codes "box") 3000 ≡ frontend
unfolding set_port port autotun.Assoc.lookup host_at autotun.Config.Store.port_is_zero
    autotun.Config.Store.port_beq autotun.Config.Store.put_host autotun.Config.Store.host_is_zero
    autotun.Assoc.insert
frontend_read = refl

port-set_port_example :
    port (set_port one_port (codes "box") 3000 zero_port) (codes "box") 3000 ≡ zero_port
unfolding host_at autotun.Base.list_beq autotun.Config.Store.port_is_zero
port-set_port_example =
    port-set_port one_port (codes "box") (codes "box") 3000 3000 zero_port one_port-IsWell

set_port-IsClean_example : IsClean one_port
set_port-IsClean_example = set_port-IsClean empty_store (codes "box") 3000 frontend tt

abbrev prefs : ViewPrefs
prefs = record { show_preexisting = true; inactive_last = false; sort = []; reverse = true }

view_prefs-set_view_prefs_example :
    view_prefs (set_view_prefs one_port (codes "box") prefs) (codes "box") ≡ settled prefs
unfolding autotun.Base.list_beq
view_prefs-set_view_prefs_example =
    view_prefs-set_view_prefs one_port (codes "box") (codes "box") prefs one_port-IsWell
