-- ===== src/Browser/Tests.antt =====
-- Requests to the browser bridge (internal/browser/bridge.go).
use autotun.Base.{
  List, [], ℕ, arith, nat_eq, pos, false, ◌≡◌, refl, Option, none, some, ◌∷◌, ◌++◌, take,
}
use autotun.Text.{Text, codes, cut, cut_last, trim_space}
use autotun.Browser.{
  handle_conn, max_request, read_line, parse_request, request_error_text, stale, err_line,
}
use autotun.Browser.Request.{Authentic, handle_conn-Authentic}
use autotun.Probe.Service.{Service, Snapshot}
use autotun.Tunnel.Policy.{default_policy}
use autotun.Tunnel.Alloc.{Os, Allocator, refuses, grants}
use autotun.Tunnel.Manager.{Manager, State, new}
use autotun.Tunnel.Manager.Invariant.{Inv}
use autotun.Tunnel.Manager.History.{new-Inv}
use autotun.Tunnel.Manager.Steps.{Call, syncs}
use autotun.Browser.Router.{
  Url, await, localize, Routed, Localized, local_url, refusal, bad_scheme, port_of, at_port,
  names_remote,
}
use autotun.Browser.Router.Reach.{Reaches, ArePolls, await-Reaches}

abbrev request : Text
request = codes "ab12 http://localhost:5173/login" ++ (10 ∷ codes "more")

abbrev browser : Text → Option Text
browser u = none

opened_url :
    (handle_conn (codes "ab12") browser request).opened ≡ some (codes "http://localhost:5173/login")
unfolding handle_conn read_line parse_request cut trim_space
opened_url = refl

answered_stale :
    (handle_conn (codes "cd34") browser request).answer ≡ err_line (request_error_text stale)
unfolding handle_conn read_line parse_request cut trim_space
answered_stale = refl

handle_conn-Authentic_example :
    Authentic
      (codes "ab12")
      (read_line (take max_request request))
      (codes "http://localhost:5173/login")
handle_conn-Authentic_example =
    handle_conn-Authentic (codes "ab12") request (codes "http://localhost:5173/login") browser
      opened_url

abbrev web_server : Service
web_server = record {
  port = 5173;
  binds = record { proto = codes "tcp"; addr = codes "127.0.0.1" } ∷ [];
  pid = pos 12;
  proc = codes "node";
  cmd = codes "node server";
}

abbrev scan : Snapshot
scan = (5173, web_server) ∷ []

-- The service shows up while the router waits.
abbrev polls : List (List (ℕ × Call))
polls = [] ∷ ((1, syncs []) ∷ (2, syncs scan) ∷ []) ∷ []

polls-ArePolls : ArePolls polls
polls-ArePolls = (tt, ((tt, (((refl, omega arith), tt), tt)), tt))

-- The port 5173 is taken here, and the system gives 45000 instead.
abbrev system : Os
system = record {
  ours = [];
  answers = refuses (codes "in use") ∷ grants 45000 ∷ refuses (codes "in use") ∷ [];
}

abbrev allocator : Allocator
allocator = record { bind = codes "127.0.0.1"; same_port = false; sticky = [] }

abbrev fresh : Manager
fresh = new allocator system (some 1) default_policy 2 (codes "box") none

await-Reaches_example :
    let f = await 5173 polls 3 fresh in
    Inv f.mgr × ((st : State) → f.row ≡ some st → Reaches f.mgr 5173 st.local_port)
await-Reaches_example =
    await-Reaches 5173 polls 3 fresh polls-ArePolls
      (new-Inv allocator system (some 1) default_policy 2 (codes "box") none refl)

abbrev login : Url
login = record {
  scheme = codes "http";
  host = codes "localhost:5173";
  rest = codes "/login?next=a";
}

opened_here :
    (localize (some login) polls 3 fresh).answer
    ≡ local_url (codes "http://localhost:45000/login?next=a")
unfolding localize names_remote await port_of autotun.Browser.Router.hostname
    autotun.Browser.Router.host_and_port autotun.Browser.Router.active_row
    autotun.Browser.Router.poll autotun.Browser.Router.reclaim autotun.Browser.Router.probe_port
    autotun.Browser.Router.take_back autotun.Text.has_prefix autotun.Text.has_suffix
    autotun.Text.cut_last autotun.Text.contains autotun.Text.Decimal.atoi autotun.Text.Decimal.itoa
    autotun.Text.Decimal.itoa_from autotun.Probe.Ip.join_host_port autotun.Tunnel.Manager.Steps.run
    autotun.Tunnel.Manager.Steps.step autotun.Tunnel.Manager.Rows.states autotun.Tunnel.Manager.new
    autotun.Tunnel.Manager.want autotun.Tunnel.Manager.state_of autotun.Tunnel.Manager.hidden
    autotun.Tunnel.Manager.Control.forward_now autotun.Tunnel.Manager.Control.forward_now_error
    autotun.Tunnel.Manager.Control.move_local autotun.Tunnel.Manager.Control.local_port_error
    autotun.Tunnel.Manager.Sync.sync autotun.Tunnel.Manager.Sync.sweep
    autotun.Tunnel.Manager.Sync.see_all autotun.Tunnel.Manager.Sync.see
    autotun.Tunnel.Manager.Sync.refresh autotun.Tunnel.Manager.Sync.take_baseline
    autotun.Tunnel.Manager.Sync.new_entry autotun.Tunnel.Manager.Sync.seen
    autotun.Tunnel.Manager.Apply.apply autotun.Tunnel.Manager.Apply.open_entry
    autotun.Tunnel.Manager.Apply.take_outcome autotun.Assoc.insert autotun.Assoc.lookup
    autotun.Tunnel.Policy.default_policy autotun.Tunnel.Policy.eval
    autotun.Tunnel.Policy.eval_window autotun.Tunnel.PortSet.contains autotun.Tunnel.Alloc.allocate
    autotun.Tunnel.Alloc.try_sticky autotun.Tunnel.Alloc.take_sticky
    autotun.Tunnel.Alloc.take_mirror autotun.Tunnel.Alloc.take_ephemeral autotun.Tunnel.Alloc.listen
    autotun.Tunnel.Alloc.answered autotun.Tunnel.Alloc.settle autotun.Tunnel.Alloc.remember
    autotun.Tunnel.Forward.new_forwarder
opened_here = refl

default_port :
    port_of (record login { scheme = codes "https"; host = codes "localhost" }) ≡ at_port 443
unfolding port_of autotun.Browser.Router.host_and_port cut_last
default_port = refl

refused_scheme :
    (localize (some (record login { scheme = codes "file" })) polls 3 fresh).answer
    ≡ refusal (bad_scheme (codes "file"))
unfolding localize
refused_scheme = refl
