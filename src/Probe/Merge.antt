-- ===== src/Probe/Merge.antt =====
-- internal/probe/service.go: `merge`, which makes the snapshot of a scan out of the listening
-- sockets that the remote reports. The order of the result stands for the order of Go's `range`.
pub mod Described
pub mod Result
use autotun.Base.{
  ℕ, suc, ◌+◌, ◌<◌, ◌≤◌, ◌≡◌, ◌≢◌, refl, sym, ◌∙◌, ap, inl, inr, Bool, true, false, not, ◌&&◌, ◌||◌,
  List, [], ◌∷◌, ◌++◌, Option, none, some, arith, ◌==◌, nat_eq, int_eq, list_eq, list_beq,
  if◌then◌else◌, ltb, All, map, ℤ, pos, negsuc, Bool-cases, Option-cases, eqb→eq,
}
use autotun.Assoc.{lookup, insert, lookup-insert}
use autotun.Text.{Text, is_empty, text_lt}
use autotun.Sorting.{sort_by}
use autotun.Probe.Service.{Bind, Service, Snapshot, KeyedSnapshot}

-- `Listener`: one raw listening socket.
pub record Listener : Type 0 where
  pub proto : Text
  pub addr : Text
  pub port : ℤ
  pub pid : ℤ
  pub proc : Text

-- The port of a listener, where it is a real one.
unfoldable pub real_port : ℤ → Option ℕ
real_port (negsuc n) = none
real_port (pos n) = if n == 0 || ltb 65535 n then none else some n

abbrev pub empty_service : ℕ → Service
empty_service p = record { port = p; binds = []; pid = pos 0; proc = []; cmd = [] }

abbrev pub is_bind : Text → Text → Bind → Bool
is_bind proto addr b = b.proto == proto && b.addr == addr

abbrev pub has_bind : Text → Text → List Bind → Bool
has_bind proto addr [] = false
has_bind proto addr (b ∷ bs) = is_bind proto addr b || has_bind proto addr bs

-- What a listener adds to the service of its port.
unfoldable pub add_listener : Listener → Service → Service
add_listener l s = record s {
  binds =
      if has_bind l.proto l.addr s.binds
      then s.binds
      else s.binds ++ record { proto = l.proto; addr = l.addr } ∷ [];
  pid = if s.pid == pos 0 && not (l.pid == pos 0) then l.pid else s.pid;
  proc = if is_empty s.proc && not (is_empty l.proc) then l.proc else s.proc;
}

abbrev pub or_empty : ℕ → Option Service → Service
or_empty p none = empty_service p
or_empty p (some s) = s

abbrev pub fold_at : Snapshot → Listener → Option ℕ → Snapshot
fold_at snap l none = snap
fold_at snap l (some p) = insert p (add_listener l (or_empty p (lookup p snap))) snap

-- The first loop of `merge`.
unfoldable pub fold_listeners : Snapshot → List Listener → Snapshot
unfolding lookup insert real_port add_listener list_beq
fold_listeners snap [] = snap
fold_listeners snap (l ∷ ls) = fold_listeners (fold_at snap l (real_port l.port)) ls

unfoldable pub bind_before : Bind → Bind → Bool
unfolding text_lt list_beq
bind_before a b = if a.proto == b.proto then text_lt a.addr b.addr else text_lt a.proto b.proto

unfoldable pub sort_binds : Service → Service
unfolding sort_by bind_before
sort_binds s = record s { binds = sort_by bind_before s.binds }

abbrev pub sort_entry : ℕ × Service → ℕ × Service
sort_entry (p, s) = (p, sort_binds s)

unfoldable pub merge : List Listener → Snapshot
unfolding fold_listeners sort_binds
merge ls = map sort_entry (fold_listeners [] ls)
