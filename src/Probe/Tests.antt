-- ===== src/Probe/Tests.antt =====
-- The address model and the service's methods on inputs that can be followed in the source.
use autotun.Base.{◌≡◌, refl, true, false, List, [], ◌∷◌, pos, map, nat_eq}
use autotun.Assoc.{lookup}
use autotun.Text.{Text, codes, fields, has_prefix, trim_space}
use autotun.Base.{false}
use autotun.Tunnel.Policy.{default_policy}
use autotun.Tunnel.Alloc.{grants}
use autotun.Tunnel.Manager.{Manager, new}
use autotun.Tunnel.Manager.Invariant.{Inv}
use autotun.Tunnel.Manager.Steps.{run}
use autotun.Tunnel.Manager.History.{new-Inv}
use autotun.Probe.Proc.{parse_proc_addr}
use autotun.Probe.Monitor.{
  ss, mark_ready, mark_error, start, line, turns, reason, eof, remote_error, reported_mode,
}
use autotun.Probe.Monitor.Frames.{
  Frame, IsPlain, IsFrame, stream, reading, snapshot_of, scans-stream,
}
use autotun.Probe.Monitor.Feeding.{error_ends, calls_at, run_scans-Inv}
use autotun.Probe.Service.{Service, is_loopback, is_wildcard, dial_addr, bind_summary}
use autotun.Probe.Merge.{Listener, merge}
use autotun.Probe.Parse.{parse_ss, listener_at}
use autotun.Probe.Tools.Bounds.{IsReport, parse-IsReport}
use autotun.Base.{◌++◌, none, some, All}
use autotun.Probe.Tools.{parse_netstat, parse_lsof}
use autotun.Probe.Merge.Described.{Described}
use autotun.Probe.Merge.Result.{lookup-merge}

loopback_v6 : is_loopback (codes "[::1]") ≡ true
unfolding is_loopback
loopback_v6 = refl

loopback_mapped : is_loopback (codes "::ffff:127.0.0.1") ≡ true
unfolding is_loopback
loopback_mapped = refl

loopback_no : is_loopback (codes "fe80::1") ≡ false
unfolding is_loopback
loopback_no = refl

loopback_v4 : is_loopback (codes "127.0.0.53") ≡ true
unfolding is_loopback
loopback_v4 = refl

wildcard_full : is_wildcard (codes "0:0:0:0:0:0:0:0") ≡ true
unfolding is_wildcard
wildcard_full = refl

abbrev web : Service
web = record {
  port = 3000;
  binds =
      record { proto = codes "tcp6"; addr = codes "::" }
      ∷ record { proto = codes "tcp"; addr = codes "10.0.0.4" }
      ∷ [];
  pid = pos 12;
  proc = codes "node";
  cmd = [];
}

web_dial : dial_addr web ≡ codes "127.0.0.1:3000"
unfolding dial_addr
web_dial = refl

web_summary : bind_summary web ≡ codes "*,10.0.0.4"
unfolding bind_summary
web_summary = refl

-- Two addresses of one port, the second of them with the process, and a port that is not one.
abbrev listeners : List Listener
listeners =
    record { proto = codes "tcp6"; addr = codes "::"; port = pos 3000; pid = pos 0; proc = [] }
    ∷ record {
      proto = codes "tcp";
      addr = codes "0.0.0.0";
      port = pos 3000;
      pid = pos 12;
      proc = codes "node";
    }
    ∷ record {
      proto = codes "tcp";
      addr = codes "0.0.0.0";
      port = pos 70000;
      pid = pos 13;
      proc = codes "x";
    }
    ∷ []

merged_pid : map (λ q. (q.1).pid) (merge listeners) ≡ pos 12 ∷ []
unfolding merge
merged_pid = refl

lookup-merge_example : Described 3000 listeners (lookup 3000 (merge listeners))
lookup-merge_example = lookup-merge listeners 3000

-- Output of the three tools.
ss_out :
    parse_ss (codes "LISTEN 0 511 127.0.0.1:3000 0.0.0.0:*\n      users:(pid)")
    ≡ listener_at (codes "tcp") (codes "127.0.0.1") 3000 ∷ []
unfolding parse_ss autotun.Probe.Ip.to_v4
ss_out = refl

netstat_out :
    parse_netstat (codes "Proto\ntcp6 0 0 :::22 :::* LISTEN 812/sshd")
    ≡ record {
      proto = codes "tcp6";
      addr = codes "::";
      port = pos 22;
      pid = pos 812;
      proc = codes "sshd";
    }
      ∷ []
unfolding parse_netstat
netstat_out = refl

lsof_out :
    parse_lsof (codes "p12\ncnode\nf20\nn*:3000\nn10.0.0.1:22->10.0.0.2:5")
    ≡ record {
      proto = codes "tcp";
      addr = codes "*";
      port = pos 3000;
      pid = pos 12;
      proc = codes "node";
    }
      ∷ []
unfolding parse_lsof
lsof_out = refl

parse-IsReport_example :
    All IsReport (parse_ss (codes "LISTEN 0 511 *:80 *:*"))
    × All IsReport (parse_netstat (codes "LISTEN 0 511 *:80 *:*"))
    × All IsReport (parse_lsof (codes "LISTEN 0 511 *:80 *:*"))
parse-IsReport_example = parse-IsReport (codes "LISTEN 0 511 *:80 *:*")

-- A stream with two scans of ss, and one that the prober cannot begin.
abbrev hello : Text
hello = codes "@@AUTOTUN-READY 1 ss Linux"

abbrev ss_frame : Frame
ss_frame = record { body = codes "LISTEN 0 511 127.0.0.1:3000 0.0.0.0:*" ∷ []; socks = none }

abbrev empty_frame : Frame
empty_frame = record { body = []; socks = none }

ss_frame-IsPlain : IsPlain (codes "LISTEN 0 511 127.0.0.1:3000 0.0.0.0:*")
unfolding has_prefix autotun.Base.list_beq
ss_frame-IsPlain = record {
  no_error = refl;
  no_ready = refl;
  no_scan = refl;
  no_sock_map = refl;
  no_end = refl;
}

frames-IsFrame : All IsFrame (ss_frame ∷ empty_frame ∷ [])
frames-IsFrame = (((ss_frame-IsPlain, tt), tt), ((tt, tt), tt))

hello_no_error : has_prefix mark_error hello ≡ false
unfolding has_prefix
hello_no_error = refl

hello_ready : has_prefix mark_ready hello ≡ true
unfolding has_prefix
hello_ready = refl

hello_mode : reported_mode (fields hello) ≡ some ss
unfolding fields autotun.Probe.Monitor.parse_scan_mode
hello_mode = refl

scans-stream_example :
    let r = turns (reading (hello ∷ stream (ss_frame ∷ empty_frame ∷ []))) start in
    (r.scans ≡ map (snapshot_of (some ss) []) (ss_frame ∷ empty_frame ∷ [])) × (reason none r ≡ eof)
scans-stream_example =
    scans-stream hello ss (ss_frame ∷ empty_frame ∷ []) hello_no_error hello_ready hello_mode
      frames-IsFrame

ports_of_frame : map (λ q. q.0) (snapshot_of (some ss) [] ss_frame) ≡ 3000 ∷ []
unfolding autotun.Probe.Monitor.fill merge autotun.Probe.Monitor.parse_body
ports_of_frame = refl

start_running : start.stop ≡ none
unfolding start
start_running = refl

error_ends_example :
    let s =
      turns (line (mark_error ++ codes " no usable tool") false ∷ line hello false ∷ []) start in
    (s.scans ≡ start.scans)
    × (s.infos ≡ start.infos)
    × (reason none s ≡ remote_error (trim_space (codes " no usable tool")))
error_ends_example =
    error_ends (codes " no usable tool") false (line hello false ∷ []) none start start_running

abbrev idle_manager : Manager
idle_manager =
    new (record { bind = codes "127.0.0.1"; same_port = false; sticky = [] })
      (record { ours = []; answers = grants 3000 ∷ [] }) (some 1) default_policy 2 (codes "box")
      none

idle_manager-Inv : Inv idle_manager
idle_manager-Inv = new-Inv _ _ _ _ _ _ _ refl

run_scans-Inv_example : Inv (
    run idle_manager
      (calls_at (λ i. i) 0 (turns (reading (hello ∷ stream (ss_frame ∷ []))) start).scans))
run_scans-Inv_example =
    run_scans-Inv (reading (hello ∷ stream (ss_frame ∷ []))) (λ i. i) idle_manager idle_manager-Inv

-- An address of /proc/net/tcp, and one of /proc/net/tcp6.
proc_v4 : parse_proc_addr (codes "0100007F:0BB8") ≡ some (codes "127.0.0.1", 3000)
unfolding parse_proc_addr
proc_v4 = refl

proc_v6 : parse_proc_addr (codes "00000000000000000000000001000000:1F90") ≡ some (codes "::1", 8080)
unfolding parse_proc_addr
proc_v6 = refl
