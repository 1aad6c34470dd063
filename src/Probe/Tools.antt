-- ===== src/Probe/Tools.antt =====
-- internal/probe/parse.go: the parsers of what netstat and lsof print.
pub mod Bounds
use autotun.Base.{
  ℕ, Bool, true, false, not, ◌&&◌, ◌||◌, List, [], ◌∷◌, Option, none, some, ◌==◌, nat_eq, list_eq,
  list_beq, if◌then◌else◌, ltb, length, reverse, ℤ, pos,
}
use autotun.Text.{Text, codes, is_empty, cut, trim_space, trim_suffix, contains, split, fields}
use autotun.Text.Decimal.{atoi, atoi_value}
use autotun.Probe.Merge.{Listener}
use autotun.Probe.Parse.{
  split_host_port, proto_for, trim_return, lines_of, field, is_listen, with_process, listener_at,
  push,
}

-- The process column of netstat, `pid/name`, where there is one.
unfoldable pub netstat_process : List Text → Option (Text × ℤ)
unfolding cut atoi list_beq
netstat_process f =
    if ltb (length f) 7 || field 6 f == codes "-" then none else elim (cut b'/' (field 6 f)) [
      | none ↦ none
      | some (pid, name) ↦ elim (atoi pid) [ none ↦ none | some n ↦ some (name, n) ]
    ]

abbrev pub netstat_proto : Text → Text
netstat_proto f = if f == codes "tcp6" then codes "tcp6" else codes "tcp"

abbrev pub is_tcp : Text → Bool
is_tcp f = f == codes "tcp" || f == codes "tcp6" || f == codes "tcp4"

unfoldable pub netstat_listener : List Text → Option Listener
unfolding is_listen split_host_port netstat_process list_beq
netstat_listener f =
    if ltb (length f) 6 || (not (is_tcp (field 0 f)) || not (is_listen (field 5 f)))
    then none
    else elim (split_host_port (field 3 f)) [
      | none ↦ none
      | some (host, p) ↦
          some (with_process (netstat_process f) (listener_at (netstat_proto (field 0 f)) host p))
    ]

abbrev pub netstat_lines : List Text → List Listener
netstat_lines [] = []
netstat_lines (line ∷ rest) =
    push (netstat_listener (fields (trim_return line))) (netstat_lines rest)

-- `ParseNetstat`.
unfoldable pub parse_netstat : Text → List Listener
unfolding netstat_listener fields trim_return split
parse_netstat out = netstat_lines (lines_of out)

-- The process that the name fields of lsof belong to.
pub record LsofState : Type 0 where
  pub pid : ℤ
  pub cmd : Text

-- The address of a name field, unless it is that of an established connection.
unfoldable pub lsof_name : Text → Text
unfolding trim_space trim_suffix
lsof_name val = trim_space (trim_suffix (codes "(LISTEN)") (trim_space val))

unfoldable pub lsof_listener : LsofState → Text → Option Listener
unfolding lsof_name contains split_host_port proto_for
lsof_listener st val =
    if contains (lsof_name val) (codes "->") then none else elim (split_host_port (lsof_name val)) [
      | none ↦ none
      | some (host, p) ↦
          some (record (listener_at (proto_for host) host p) { pid = st.pid; proc = st.cmd })
    ]

-- One line of `ParseLsof`, by its first byte.
unfoldable pub lsof_step : LsofState → Text → LsofState
unfolding atoi_value
lsof_step st [] = st
lsof_step st (c ∷ val) =
    if c == b'p'
    then record { pid = atoi_value val; cmd = [] }
    else if c == b'c'
    then record st { cmd = val }
    else st

unfoldable pub lsof_found : LsofState → Text → Option Listener
unfolding lsof_listener
lsof_found st [] = none
lsof_found st (c ∷ val) = if c == b'n' then lsof_listener st val else none

abbrev pub lsof_lines : LsofState → List Text → List Listener
lsof_lines st [] = []
lsof_lines st (line ∷ rest) =
    push (lsof_found st (trim_return line)) (lsof_lines (lsof_step st (trim_return line)) rest)

-- `ParseLsof`.
unfoldable pub parse_lsof : Text → List Listener
unfolding lsof_step lsof_found trim_return split
parse_lsof out = lsof_lines (record { pid = pos 0; cmd = [] }) (lines_of out)
