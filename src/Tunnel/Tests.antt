-- ===== src/Tunnel/Tests.antt =====
-- The tunnel components (internal/tunnel) on inputs that can be followed in the source.
use autotun.Base.{◌≡◌, ◌⊎◌, ◌↔◌, refl, true, false, [], ◌∷◌, pos, nat_eq, arith, All}
use autotun.Assoc.{lookup}
use autotun.Text.{Text, codes}
use autotun.Probe.Service.{Service}
use autotun.Tunnel.PortSet.{PortSet, ok, parse_port_set, port_set_text, contains, is_separator}
use autotun.Tunnel.PortSet.Contains.{
  parse_port_set-IsSorted, contains-parse_port_set, IsSorted, IsRange,
}
use autotun.Tunnel.PortSet.Print.{parse_port_set-port_set_text}
use autotun.Tunnel.Policy.{Policy, default_policy, eval, skip_none}
use autotun.Tunnel.Policy.Verdict.{eval_forwards, InWindow}
use autotun.Tunnel.Alloc.{Allocator, Os, Outcome, grants, refuses, Allocated, allocate}
use autotun.Tunnel.Alloc.Laws.{allocate-Promised, Promised}
use autotun.Tunnel.Alloc.Order.{allocate-first_bound, found, first_bound}
use autotun.Assoc.{insert}
use autotun.Tunnel.Forward.Connections.{
  Link, Reach, here, next, dials, ends_out, count_dial, count_out, Reach-active,
}
use autotun.Tunnel.Forward.{Forwarder, new_forwarder, copy_reply}
use autotun.Tunnel.Forward.Relay.{copy_reply-sent}

abbrev web : Service
web = record {
  port = 3000;
  binds = record { proto = codes "tcp"; addr = codes "127.0.0.1" } ∷ [];
  pid = pos 12;
  proc = codes "node";
  cmd = [];
}

abbrev ports : PortSet
ports = record { lo = 80; hi = 80 } ∷ record { lo = 3000; hi = 3010 } ∷ []

parsed : parse_port_set (codes "3000-3010, 80") ≡ ok ports
unfolding parse_port_set autotun.Tunnel.PortSet.parse_ranges autotun.Text.fields_func
    autotun.Tunnel.PortSet.parse_range autotun.Text.cut autotun.Tunnel.PortSet.parse_port
    autotun.Tunnel.PortSet.check_port autotun.Text.Decimal.atoi autotun.Text.trim_space
    autotun.Tunnel.PortSet.sort_ranges autotun.Tunnel.PortSet.insert_range
parsed = refl

contains-parse_port_set_example : contains ports 3005 ≡ true
unfolding autotun.Text.fields_func autotun.Tunnel.PortSet.parse_range autotun.Text.cut
    autotun.Tunnel.PortSet.parse_port autotun.Tunnel.PortSet.check_port autotun.Text.Decimal.atoi
    autotun.Text.trim_space
contains-parse_port_set_example = contains-parse_port_set (codes "3000-3010, 80") ports 3005 parsed

parse_port_set-IsSorted_example : IsSorted ports × All IsRange ports
parse_port_set-IsSorted_example = parse_port_set-IsSorted (codes "3000-3010, 80") ports parsed

parse_port_set-port_set_text_example : parse_port_set (port_set_text ports) ≡ ok ports
parse_port_set-port_set_text_example =
    parse_port_set-port_set_text ports (omega arith, (omega arith, tt))
      ((omega arith, omega arith, omega arith), ((omega arith, omega arith, omega arith), tt))

abbrev web_policy : Policy
web_policy = record default_policy { exclude = ports }

eval_forwards_example : (eval web_policy web false ≡ skip_none) ↔ (
    (contains ports 3000 ≡ false)
    × (web_policy.paused ≡ false)
    × ((contains web_policy.include 3000 ≡ true) ⊎ InWindow web_policy web false))
eval_forwards_example = eval_forwards web_policy web false

-- The port used last is refused, the remote port's own number is granted.
abbrev allocator : Allocator
allocator = record { bind = codes "127.0.0.1"; same_port = false; sticky = (3000, 3001) ∷ [] }

abbrev system : Os
system = record { ours = 4000 ∷ []; answers = refuses (codes "in use") ∷ grants 0 ∷ [] }

abbrev system_after : Os
system_after = record { ours = 3000 ∷ 4000 ∷ []; answers = [] }

abbrev got : Allocated
got = record {
  alloc = record { bind = codes "127.0.0.1"; same_port = false; sticky = (3000, 3000) ∷ [] };
  os = system_after;
  outcome = Outcome.opened 3000 false;
}

allocated : allocate allocator system 3000 (pos 0) ≡ got
unfolding allocate autotun.Tunnel.Alloc.try_sticky lookup autotun.Tunnel.Alloc.take_sticky
    autotun.Tunnel.Alloc.listen autotun.Tunnel.Alloc.answered autotun.Tunnel.Alloc.take_mirror
    autotun.Tunnel.Alloc.settle autotun.Tunnel.Alloc.remember autotun.Assoc.insert
allocated = refl

allocate-Promised_example :
    let r = allocate allocator system 3000 (pos 0) in
    Promised allocator (4000 ∷ []) 3000 r.outcome r.alloc r.os.ours
allocate-Promised_example = allocate-Promised allocator system 3000 (pos 0) (omega arith)

allocate-first_bound_example :
    found (allocate allocator system 3000 (pos 0)) ≡ first_bound (3001 ∷ 3000 ∷ 0 ∷ []) system
unfolding lookup
allocate-first_bound_example = allocate-first_bound allocator system 3000 (pos 0)

abbrev web_forwarder : Forwarder
web_forwarder = new_forwarder 3000 1 (codes "127.0.0.1:3000") false 7

copy_reply-sent_example :
    let r = copy_reply true web_forwarder 12 (codes "HTTP/1.1" ∷ codes " 200 OK" ∷ []) in
    (r.written ≡ codes "HTTP/1.1 200") × (r.fwd.bytes_in ≡ 12)
unfolding new_forwarder
copy_reply-sent_example =
    copy_reply-sent true web_forwarder 12 (codes "HTTP/1.1" ∷ codes " 200 OK" ∷ [])

-- One connection, whose client has sent all of its five bytes.
abbrev idle : Link
idle = record { fwd = web_forwarder; conns = [] }

abbrev one_open : Link
one_open = record {
  fwd = count_out (count_dial web_forwarder) 5 9;
  conns = (4, record { outward = false; inward = true }) ∷ [];
}

one_open-Reach : Reach idle one_open
unfolding lookup insert
one_open-Reach = next (next here (dials idle 4 refl)) (
    ends_out
      (record {
        fwd = count_dial web_forwarder;
        conns = (4, record { outward = true; inward = true }) ∷ [];
      })
      4 (record { outward = true; inward = true }) 5 9 refl refl)

Reach-active_example : one_open.fwd.active ≡ 1
Reach-active_example = Reach-active 3000 1 7 (codes "127.0.0.1:3000") false one_open one_open-Reach
