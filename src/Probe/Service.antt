-- ===== src/Probe/Service.antt =====
-- internal/probe/service.go: services and snapshots.
use autotun.Base.{
  ℕ, ◌<◌, ◌≡◌, Bool, true, false, not, ◌&&◌, ◌||◌, List, [], ◌∷◌, ◌++◌, Option, none, some, ltb,
  ◌==◌, nat_eq, int_eq, list_eq, list_beq, if◌then◌else◌, ℤ, All,
}
use autotun.Text.{Text, codes, is_empty, trim_brackets, join, text_lt}
use autotun.Text.Decimal.{itoa}
use autotun.Probe.Ip.{parse_ip, ip_is_loopback, ip_is_unspecified, join_host_port}

pub record Bind : Type 0 where
  pub proto : Text
  pub addr : Text

pub record Service : Type 0 where
  pub port : ℕ
  pub binds : List Bind
  pub pid : ℤ
  pub proc : Text
  pub cmd : Text

unfoldable pub command : Service → Text
command s =
    if not (is_empty s.cmd) then s.cmd else if not (is_empty s.proc) then s.proc else codes "?"

abbrev pub test_ip : (List ℕ → Bool) → Option (List ℕ) → Bool
test_ip f none = false
test_ip f (some ip) = f ip

unfoldable pub is_loopback : Text → Bool
unfolding trim_brackets parse_ip ip_is_loopback
is_loopback addr = test_ip ip_is_loopback (parse_ip (trim_brackets addr))

unfoldable pub is_wildcard : Text → Bool
unfolding trim_brackets parse_ip ip_is_unspecified list_beq
is_wildcard addr =
    let a = trim_brackets addr in
    a == codes "0.0.0.0"
    || a == codes "::"
    || a == codes "*"
    || is_empty a
    || test_ip ip_is_unspecified (parse_ip a)

abbrev pub all_loopback : List Bind → Bool
all_loopback [] = true
all_loopback (b ∷ bs) = is_loopback b.addr && all_loopback bs

-- `LoopbackOnly`.
unfoldable pub loopback_only : Service → Bool
unfolding is_loopback
loopback_only s = elim s.binds [ [] ↦ false | b ∷ bs ↦ all_loopback (b ∷ bs) ]

-- How well an address serves for dialing; `DialAddr` takes the first of the best rank.
unfoldable pub rank : Bind → ℕ
unfolding is_wildcard is_loopback trim_brackets list_beq
rank b =
    let addr = trim_brackets b.addr in
    if addr == codes "127.0.0.1"
    then 4
    else if is_wildcard addr && b.proto == codes "tcp"
    then 3
    else if is_wildcard addr
    then 2
    else if is_loopback addr
    then 1
    else 0

-- The loop of `DialAddr`; `none` stands for the initial rank, -1.
unfoldable pub best_bind : Option ℕ → Text → List Bind → Text
unfolding rank trim_brackets
best_bind r best [] = best
best_bind none best (b ∷ bs) = best_bind (some (rank b)) (trim_brackets b.addr) bs
best_bind (some r) best (b ∷ bs) =
    let better = ltb r (rank b) in
    best_bind (some (if better then rank b else r)) (if better then trim_brackets b.addr else best)
      bs

unfoldable pub dial_host : Service → Text
unfolding best_bind is_wildcard
dial_host s =
    let best = best_bind none [] s.binds in
    if is_empty best || is_wildcard best then codes "127.0.0.1" else best

unfoldable pub dial_addr : Service → Text
unfolding dial_host join_host_port itoa
dial_addr s = join_host_port (dial_host s) (itoa s.port)

-- `sort.Strings`, as an insertion sort.
unfoldable pub insert_text : Text → List Text → List Text
unfolding text_lt
insert_text t [] = t ∷ []
insert_text t (u ∷ us) = if text_lt u t then u ∷ insert_text t us else t ∷ u ∷ us

unfoldable pub sort_texts : List Text → List Text
unfolding insert_text
sort_texts [] = []
sort_texts (t ∷ ts) = insert_text t (sort_texts ts)

abbrev pub seen : Text → List Text → Bool
seen t [] = false
seen t (u ∷ us) = u == t || seen t us

-- The loop of `BindSummary`: each displayed address once, in the order of first sight.
unfoldable pub summary_addrs : List Text → List Bind → List Text
unfolding is_wildcard trim_brackets list_beq
summary_addrs out [] = out
summary_addrs out (b ∷ bs) =
    let a = trim_brackets b.addr in
    let shown = if is_wildcard a then codes "*" else a in
    summary_addrs (if seen shown out then out else out ++ shown ∷ []) bs

unfoldable pub bind_summary : Service → Text
unfolding summary_addrs sort_texts join
bind_summary s = join (codes ",") (sort_texts (summary_addrs [] s.binds))

-- `Snapshot`: the services of one scan, by port, in the order in which `range` visits them.
abbrev pub Snapshot : Type 0
Snapshot = List (ℕ × Service)

-- The ports of a snapshot are real ones, and those of its services.
abbrev pub KeyedSnapshot : Snapshot → Type 0
KeyedSnapshot = All λ (q : ℕ × Service). (q.1.port ≡ q.0) × (0 < q.0)
