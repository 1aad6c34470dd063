-- ===== src/Config/Store.antt =====
-- internal/config/config.go: `Port`, `Host` and the `Store` with its methods. A nil map and an empty
-- one are the same list here: the code reads both alike, by `len`, indexing and `range`.
use autotun.Base.{
  ℕ, ◌≡◌, ◌↔◌, Bool, true, false, not, ◌&&◌, ◌||◌, List, [], ◌∷◌, Option, none, some, arith, ◌==◌,
  nat_eq, int_eq, list_eq, list_beq, list_beq_iff, eqb_ℤ_iff, if◌then◌else◌, ℤ, pos,
}
use autotun.Assoc.{lookup, insert, delete}
use autotun.Text.{Text, codes, is_empty}
use autotun.Config.Mode.{View, everything, since_start, parse_view, view_is_everything}

pub record Port : Type 0 where
  pub label : Text
  pub scheme : Text
  pub mode : Text
  pub local : ℤ

abbrev pub zero_port : Port
zero_port = record { label = []; scheme = []; mode = []; local = pos 0 }

-- `Port.IsZero`.
unfoldable pub port_is_zero : Port → Bool
unfolding list_beq
port_is_zero p =
    is_empty p.label
    && is_empty p.scheme
    && (is_empty p.mode || p.mode == codes "auto")
    && p.local == pos 0

-- Go's `==` on `Port`.
unfoldable pub port_beq : Port → Port → Bool
port_beq p q = p.label == q.label && p.scheme == q.scheme && p.mode == q.mode && p.local == q.local

pub port_beq_iff : (p q : Port) → (port_beq p q ≡ true) ↔ (p ≡ q)
unfolding port_beq
port_beq_iff p q = ground (
  arith,
  list_beq_iff p.label q.label,
  list_beq_iff p.scheme q.scheme,
  list_beq_iff p.mode q.mode,
  eqb_ℤ_iff p.local q.local,
)

pub record Host : Type 0 where
  pub view : Text
  pub show_preexisting : Bool
  pub sort : Text
  pub reverse : Bool
  pub inactive_last : Option Bool
  pub ports : List (ℕ × Port)

abbrev pub zero_host : Host
zero_host = record {
  view = [];
  show_preexisting = false;
  sort = [];
  reverse = false;
  inactive_last = none;
  ports = [];
}

abbrev pub no_ports : List (ℕ × Port) → Bool
no_ports [] = true
no_ports (x ∷ xs) = false

abbrev pub is_none : Option Bool → Bool
is_none none = true
is_none (some b) = false

-- `Host.IsZero`.
unfoldable pub host_is_zero : Host → Bool
host_is_zero h =
    is_empty h.view
    && not h.show_preexisting
    && is_empty h.sort
    && not h.reverse
    && is_none h.inactive_last
    && no_ports h.ports

pub record Store : Type 0 where
  pub path : Text
  pub hosts : List (Text × Host)
  pub dirty : Bool

-- Indexing a map gives the zero value for a missing key.
abbrev pub host_or_zero : Option Host → Host
host_or_zero none = zero_host
host_or_zero (some h) = h

abbrev pub port_or_zero : Option Port → Port
port_or_zero none = zero_port
port_or_zero (some p) = p

unfoldable pub host_at : Store → Text → Host
host_at s name = host_or_zero (lookup name s.hosts)

-- `Store.Port`.
unfoldable pub port : Store → Text → ℕ → Port
port s name k = port_or_zero (lookup k (host_at s name).ports)

-- The end of the setters: an entry that holds nothing leaves the map.
unfoldable pub put_host : Store → Text → Host → Store
put_host s name h =
    if host_is_zero h
    then record s { hosts = delete name s.hosts; dirty = true }
    else record s { hosts = insert name h s.hosts; dirty = true }

-- `Store.SetPort`.
unfoldable pub set_port : Store → Text → ℕ → Port → Store
set_port s name k p =
    let h = host_at s name in
    if port_is_zero p
    then elim (lookup k h.ports) [
      | none ↦ s
      | some old ↦ put_host s name (record h { ports = delete k h.ports })
    ]
    else if port_beq (port_or_zero (lookup k h.ports)) p
    then s
    else put_host s name (record h { ports = insert k p h.ports })

pub record ViewPrefs : Type 0 where
  pub show_preexisting : Bool
  pub inactive_last : Bool
  pub sort : Text
  pub reverse : Bool

unfoldable pub default_view_prefs : ViewPrefs
default_view_prefs = record {
  show_preexisting = false;
  inactive_last = true;
  sort = codes "port";
  reverse = false;
}

abbrev pub or_default : Option Bool → Bool → Bool
or_default none b = b
or_default (some b) d = b

-- `Store.ViewPrefs`, on the host's record.
unfoldable pub prefs_of : Host → ViewPrefs
unfolding default_view_prefs parse_view
prefs_of h = record {
  show_preexisting = h.show_preexisting || view_is_everything (parse_view h.view);
  inactive_last = or_default h.inactive_last default_view_prefs.inactive_last;
  sort = if is_empty h.sort then default_view_prefs.sort else h.sort;
  reverse = h.reverse;
}

unfoldable pub view_prefs : Store → Text → ViewPrefs
view_prefs s name = prefs_of (host_at s name)

abbrev pub bool_beq : Bool → Bool → Bool
bool_beq true b = b
bool_beq false b = not b

-- `samePtr`: both unset, or both set to one value.
unfoldable pub same_ptr : Option Bool → Option Bool → Bool
same_ptr none none = true
same_ptr none (some b) = false
same_ptr (some a) none = false
same_ptr (some a) (some b) = bool_beq a b

-- The record that `SetViewPrefs` builds.
unfoldable pub with_prefs : Host → ViewPrefs → Host
unfolding default_view_prefs list_beq
with_prefs h p = record h {
  view = [];
  show_preexisting = p.show_preexisting;
  sort = if not (is_empty p.sort) && not (p.sort == default_view_prefs.sort) then p.sort else [];
  reverse = p.reverse;
  inactive_last = if p.inactive_last then none else some false;
}

unfoldable pub same_prefs : Host → Host → Bool
unfolding same_ptr
same_prefs a b =
    a.view == b.view
    && bool_beq a.show_preexisting b.show_preexisting
    && a.sort == b.sort
    && bool_beq a.reverse b.reverse
    && same_ptr a.inactive_last b.inactive_last

-- `Store.SetViewPrefs`.
unfoldable pub set_view_prefs : Store → Text → ViewPrefs → Store
set_view_prefs s name p =
    let h = host_at s name in
    let next = with_prefs h p in if same_prefs next h then s else put_host s name next

-- `Store.View` and `Store.SetView`.
unfoldable pub view : Store → Text → View
view s name = parse_view (host_at s name).view

abbrev pub view_text : View → Text
view_text since_start = []
view_text everything = codes "everything"

unfoldable pub set_view : Store → Text → View → Store
unfolding list_beq
set_view s name v =
    let h = host_at s name in
    if h.view == view_text v
    then s
    else record s { hosts = insert name (record h { view = view_text v }) s.hosts; dirty = true }
