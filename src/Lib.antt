-- ===== src/Lib.antt =====
-- A model of autotun, which watches what listens on a remote host and keeps a local listener open
-- for each service that is wanted, over one SSH connection.
--
-- The parts of the program, and where they are:
--   * the monitor (internal/probe/monitor.go: Probe/Monitor) reads the lines that the prober on the
--     remote host prints, scan by scan. Monitor/Frames is about streams that are as the prober's
--     script prints them, Monitor/Feeding about errors and about what the manager makes of the scans;
--   * the output of ss, netstat, lsof or /proc/net/tcp is parsed into listeners
--     (internal/probe/parse.go: Probe/Parse, Probe/Tools, Probe/Proc);
--   * a scan of the remote is merged into a snapshot, a map from ports to services
--     (internal/probe/service.go: Probe/Service for `Service`, Probe/Merge for `merge`). What the
--     services use of Go's package net, `ParseIP` and the tests of an address, is Probe/Ip;
--   * the policy (internal/tunnel/policy.go: Tunnel/Policy) says which services are forwarded, with
--     the port sets of --include and --exclude (internal/tunnel/portset.go: Tunnel/PortSet);
--   * the allocator (internal/tunnel/alloc.go: Tunnel/Alloc) opens local listeners;
--   * a forwarder (internal/tunnel/forward.go: Tunnel/Forward) carries the bytes of a tunnel, and
--     learns the scheme of the service from its first reply (internal/tunnel/scheme.go:
--     Tunnel/Scheme). Its connections are a step relation on the counters (Forward/Connections); a
--     forwarder of the manager's table keeps the counters that it was made with, since no decision
--     reads them;
--   * the manager (internal/tunnel/manager.go) holds the table of entries. Tunnel/Manager has its
--     state and the row of an entry; Manager/Apply has `applyLocked` and `closeLocked`;
--     Manager/Sync has `Sync`, Manager/Control the methods of the user, the browser bridge and the
--     connection, Manager/Rows has `States`, `Counts` and `Close`, and Manager/Steps the histories
--     of calls. Manager/Invariant, Balance, Frame, Preserve, Edits and Switches are about the
--     invariant, Settled, Converge, Choice and Outcome about the settled table, Link about the
--     connection, Absent about ports that the scans do not show, History about what follows for
--     histories, Memory, Session and Pause about single methods;
--   * the settings (internal/config/config.go: Config/Mode, Config/Store) are remembered per host;
--   * a destination is read and resolved (internal/sshx/destination.go: Sshx/Destination for
--     `ParseTarget`, Sshx/Resolve for `Resolve`);
--   * the supervisor (internal/app/app.go: App/Supervisor) connects, runs a monitor on the connection
--     and gives the connection to the manager, takes it away when it is lost, and waits before it
--     connects again. Supervisor/Offline is about the tunnels, Supervisor/Backoff about the waits;
--   * the browser bridge (internal/browser/bridge.go: Browser) answers the requests of the remote host
--     to open a URL. The router (internal/app/browser.go: Browser/Router) gives a URL of a service
--     of the remote host the local port of its tunnel. Browser/Request is about which requests are
--     served, Router/Reach about the tunnel that is found;
--   * the display (internal/ui) orders and filters the manager's rows (sort.go: Ui/Sort) and answers
--     keys, clicks and messages (model.go). Ui/Model has its state, the rows and the cursor; Ui/Input
--     is the line editor (input.go), Ui/Menu the menu of the settings (viewmenu.go), Ui/Actions what
--     is done to the selected port, Ui/Editors the search and the two editors, Ui/Keys the keys,
--     Ui/Columns the places of the columns (view.go), Ui/Mouse and Ui/Click the mouse, Ui/Dissolve
--     the exit animation (dissolve.go) and Ui/Update the messages. Ui/WellFormed, Cursor, Selection,
--     Quit, Input/Split, Menu/Harmless and Columns/Places are about them.
--
-- How the code is rendered:
--   * a string is a list of bytes, and an int that may be negative is an integer. `ToLower`,
--     `TrimSpace` and `Fields` are those of ASCII. Counters of type uint64 wrap around;
--   * a map is a list of pairs with distinct keys (Assoc). The order of the list stands for the
--     order in which a `range` loop visits the map, and every theorem is for any order. A sort is a
--     stable insertion sort (Sorting);
--   * the manager's methods take the time as an argument and return the events that the code hands
--     to `OnEvent`. A method is one step. `CycleMode`, `SetScheme`, `SetLabel` and `SetLocalPort`
--     release the lock between the change and `persist`, and the model takes the two together;
--   * the operating system is a list of the ports that this process listens on, with the answers
--     that it will give to the attempts to listen. It never gives the process a port that it
--     listens on already. `fwd.stop` takes the port from the list. A dialer is the number of the
--     connection that it stands for;
--   * the lookup of the ssh configuration, the expansion of a path and the name of the current
--     user are arguments of `resolve`;
--   * the settings are those of the process. Reading and writing the file is left out;
--   * the display's controller is the manager itself, whose settings are the store that
--     internal/app/app.go gives to both. A handler returns the new state and the command for
--     bubbletea; the URLs that are opened and the calls of `Retry` are recorded in the state. A text
--     that the user types is a list of characters. What is drawn enters as data: the lengths of the
--     lines, the widths of texts and the lines of the protocol box;
--   * the URL that `url.Parse` makes of a text is an argument of the router, as is what happens while
--     it waits;
--   * Go's switch on a string is a function on a table of cases (Ui/Menu);
--   * the monitor's lookups of command lines run beside its reading: an answer is a turn of its own,
--     at any place of a history. The lines of the stream are given.
--
-- Loops are structural recursion, so nothing runs on fuel.
--
-- Not modelled: the script of the prober and the two goroutines of `Monitor.Run`, the SSH client and
-- its authentication, the expansion of a path and the files of the ssh configuration, the shim
-- of the browser bridge, the rest of the application, which starts the goroutines of the supervisor and of the
-- display, the drawing of the terminal display with its colours, self update, and the entry point;
-- of the forwarder the accept loop and the waiting for its connections; of the settings the file and
-- the import of an older one. These parts are network, terminal and file access, or are still to
-- come.
pub mod Base
pub mod Sorting
pub mod Assoc
pub mod Text
pub mod Probe
pub mod Config
pub mod Tunnel
pub mod Ui
pub mod Sshx
pub mod App
pub mod Browser
