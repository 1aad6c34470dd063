-- ===== src/Ui/Sort.antt =====
-- internal/ui/sort.go: the order of the table and what it leaves out.
pub mod Laws
use autotun.Base.{
  ℕ, ◌+◌, Bool, true, false, not, ◌&&◌, ◌||◌, List, [], ◌∷◌, Option, none, some, ◌==◌, nat_eq,
  list_eq, list_beq, if◌then◌else◌, ltb, keep_if,
}
use autotun.Text.{Text, codes, is_empty, to_lower, trim_space, text_lt, contains}
use autotun.Text.Decimal.{itoa}
use autotun.Sorting.{sort_by}
use autotun.Tunnel.Forward.{u64}
use autotun.Tunnel.Policy.{is_preexisting}
use autotun.Tunnel.Manager.{State, Status, active, skipped, error, offline, status_is_active}

pub data SortKey : Type 0 where
  sort_remote sort_local sort_process sort_age sort_traffic sort_conns : SortKey

abbrev pub sort_keys : List SortKey
sort_keys = sort_remote ∷ sort_local ∷ sort_process ∷ sort_age ∷ sort_traffic ∷ sort_conns ∷ []

-- `SortKey.String`.
unfoldable pub sort_key_text : SortKey → Text
sort_key_text sort_local = codes "local"
sort_key_text sort_process = codes "process"
sort_key_text sort_age = codes "age"
sort_key_text sort_traffic = codes "traffic"
sort_key_text sort_conns = codes "conns"
sort_key_text sort_remote = codes "remote"

-- `SortKey.Next`, along `sortKeys`.
unfoldable pub sort_key_next : SortKey → SortKey
sort_key_next sort_remote = sort_local
sort_key_next sort_local = sort_process
sort_key_next sort_process = sort_age
sort_key_next sort_age = sort_traffic
sort_key_next sort_traffic = sort_conns
sort_key_next sort_conns = sort_remote

unfoldable pub named_in : Text → List SortKey → SortKey
unfolding sort_key_text list_beq
named_in name [] = sort_remote
named_in name (k ∷ ks) = if sort_key_text k == name then k else named_in name ks

-- `sortKeyNamed`.
unfoldable pub sort_key_named : Text → SortKey
unfolding named_in
sort_key_named name = named_in name sort_keys

-- `hidePreexisting`.
unfoldable pub hide_preexisting : List State → List State
hide_preexisting = keep_if λ r. not (is_preexisting r.skip && not (status_is_active r.status))

-- What the sort by process compares: the label, or else the command, in lower case.
abbrev pub shown_name : State → Text
shown_name s = to_lower (if is_empty s.label then s.cmd else s.label)

-- The comparison by a key alone; `none` is a tie.
unfoldable pub compare_by : SortKey → State → State → Option Bool
unfolding text_lt list_beq
compare_by sort_local a b =
    if not (a.local_port == b.local_port) then some (ltb a.local_port b.local_port) else none
compare_by sort_process a b =
    if not (shown_name a == shown_name b)
    then some (text_lt (shown_name a) (shown_name b))
    else none
compare_by sort_age a b =
    if not (a.first_seen == b.first_seen) then some (ltb b.first_seen a.first_seen) else none
compare_by sort_traffic a b =
    let at = u64 (a.bytes_in + a.bytes_out) in
    let bt = u64 (b.bytes_in + b.bytes_out) in if not (at == bt) then some (ltb bt at) else none
compare_by sort_conns a b =
    if not (a.total_conns == b.total_conns) then some (ltb b.total_conns a.total_conns) else none
compare_by sort_remote a b = none

-- The closure `less` of `sortStates`.
unfoldable pub less : SortKey → State → State → Bool
unfolding compare_by
less key a b = elim (compare_by key a b) [ some r ↦ r | none ↦ ltb a.remote_port b.remote_port ]

abbrev pub bool_eq : Bool → Bool → Bool
bool_eq true b = b
bool_eq false b = not b

-- The closure `ordered`, with the reversal and with the live tunnels in front.
unfoldable pub ordered : SortKey → Bool → Bool → State → State → Bool
unfolding less
ordered key reverse inactive_last a b =
    let inner = if reverse then less key b a else less key a b in
    if inactive_last && not (bool_eq (status_is_active a.status) (status_is_active b.status))
    then status_is_active a.status
    else inner

-- `sortStates`.
unfoldable pub sort_states : List State → SortKey → Bool → Bool → List State
unfolding sort_by ordered
sort_states rows key reverse inactive_last = sort_by (ordered key reverse inactive_last) rows

-- `string(status)`.
abbrev pub status_text : Status → Text
status_text active = codes "active"
status_text skipped = codes "skipped"
status_text error = codes "error"
status_text offline = codes "offline"

unfoldable pub matches : State → Text → Bool
unfolding contains to_lower itoa
matches r q =
    contains (to_lower r.cmd) q
    || contains (to_lower r.label) q
    || contains (to_lower r.proc) q
    || contains (itoa r.remote_port) q
    || contains (itoa r.local_port) q
    || contains (status_text r.status) q

-- `filterStates`.
unfoldable pub filter_states : List State → Text → List State
unfolding matches to_lower trim_space
filter_states rows query =
    let q = to_lower (trim_space query) in
    if is_empty q then rows else keep_if (λ r. matches r q) rows
