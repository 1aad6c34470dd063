-- ===== src/Tunnel/Manager/Rows.antt =====
-- internal/tunnel/manager.go: what the display asks for (`States`, `Counts`), and `Close`.
use autotun.Base.{
  ℕ, suc, ◌+◌, ◌-◌, ◌<◌, ◌≡◌, ◌≢◌, refl, sym, ◌∙◌, ap, inl, inr, Bool, List, [], ◌∷◌, Option, none,
  some, arith, if◌then◌else◌, ltb, count, count-erase, All, map, Bool-cases, length, nat_eq,
}
use autotun.Assoc.{IsFresh, IsMap}
use autotun.Sorting.{insert_by, sort_by, All-insert_by, All-sort_by}
use autotun.Tunnel.Alloc.{Os, release}
use autotun.Tunnel.Forward.{Forwarder}
use autotun.Tunnel.Manager.{
  Manager, Entry, State, Status, active, error, hidden, state_of, is_open, idle_status,
  status_is_active,
}
use autotun.Tunnel.Manager.Control.{on_entry}
use autotun.Tunnel.Manager.Balance.{fwd_holds, holders}
use autotun.Tunnel.Manager.Invariant.{Inv, Keyed}

abbrev pub row_before : State → State → Bool
row_before s t = ltb s.remote_port t.remote_port

-- The loop of `States`.
unfoldable pub rows : Manager → List (ℕ × Entry) → List State
unfolding hidden state_of
rows m [] = []
rows m ((k, e) ∷ es) = let rest = rows m es in if hidden e then rest else state_of m e ∷ rest

unfoldable pub states : Manager → List State
unfolding rows sort_by
states m = sort_by row_before (rows m m.entries)

pub record Counts : Type 0 where
  pub actives : ℕ
  pub skips : ℕ
  pub fails : ℕ

unfoldable pub count_row : Status → Counts → Counts
count_row active c = record c { actives = suc c.actives }
count_row error c = record c { fails = suc c.fails }
count_row _ c = record c { skips = suc c.skips }

abbrev pub count_rows : List State → Counts
count_rows [] = record { actives = 0; skips = 0; fails = 0 }
count_rows (s ∷ ss) = count_row s.status (count_rows ss)

-- `Counts`.
unfoldable pub counts : Manager → Counts
unfolding states count_row
counts m = count_rows (states m)

-- `Close`: every tunnel is taken from its entry, and its listener is closed.
unfoldable pub close_fwd : Os → Option Forwarder → Os
unfolding release
close_fwd os none = os
close_fwd os (some f) = release os f.local

unfoldable pub close_each : Os → List (ℕ × Entry) → Os
unfolding close_fwd
close_each os [] = os
close_each os ((k, e) ∷ es) = close_each (close_fwd os e.fwd) es

abbrev pub without_fwd : Entry → Entry
without_fwd e = record e { fwd = none }

unfoldable pub close_all : Manager → Manager
unfolding close_each
close_all m = record m {
  os = close_each m.os m.entries;
  entries = map (on_entry without_fwd) m.entries;
}

close_fwd-count :
    (q : ℕ) (os : Os) (o : Option Forwarder)
    → count q (close_fwd os o).ours ≡ count q os.ours - fwd_holds q o
unfolding close_fwd release
close_fwd-count q os none = omega arith
close_fwd-count q os (some f) = ground (arith, count-erase f.local q os.ours)

close_each-count :
    (q : ℕ) (os : Os) (es : List (ℕ × Entry))
    → count q (close_each os es).ours ≡ count q os.ours - holders q es
unfolding close_each
close_each-count q os [] = omega arith
close_each-count q os ((k, e) ∷ es) =
    omega (arith, close_each-count q (close_fwd os e.fwd) es, close_fwd-count q os e.fwd)

holders-closed : (q : ℕ) (es : List (ℕ × Entry)) → holders q (map (on_entry without_fwd) es) ≡ 0
holders-closed q [] = refl
holders-closed q ((k, e) ∷ es) = omega (arith, holders-closed q es)

-- Where the invariant of the manager holds, `Close` leaves no tunnel in the table and no listener
-- open.
pub close_all-count :
    (m : Manager) (q : ℕ)
    → Inv m
    → (count q (close_all m).os.ours ≡ 0) × (holders q (close_all m).entries ≡ 0)
unfolding close_all
close_all-count m q v =
    (omega (arith, close_each-count q m.os m.entries, v.owned q), holders-closed q m.entries)

-- Each row stands before the rows of greater ports.
abbrev pub Ascending : List State → Type 0
Ascending [] = Unit
Ascending (s ∷ ss) = All (λ t. s.remote_port < t.remote_port) ss × Ascending ss

abbrev OtherPort : State → State → Type 0
OtherPort s t = s.remote_port ≢ t.remote_port

state_of-port : (m : Manager) (e : Entry) → (state_of m e).remote_port ≡ e.svc.port
unfolding state_of
state_of-port m e = ground arith

less_later :
    (s t : State) (ss : List State)
    → s.remote_port < t.remote_port
    → All (λ u. t.remote_port < u.remote_port) ss
    → All (λ u. s.remote_port < u.remote_port) ss
less_later s t [] h a = tt
less_later s t (u ∷ ss) h a = (omega (arith, h, a.0), less_later s t ss h a.1)

insert_by-Ascending :
    (s : State) (ss : List State)
    → All (OtherPort s) ss
    → Ascending ss
    → Ascending (insert_by row_before s ss)
unfolding insert_by
insert_by-Ascending s [] o a = (tt, tt)
insert_by-Ascending s (t ∷ ss) o a = elim (Bool-cases (row_before t s)) [
  | inl q ↦ rw q (
    All-insert_by row_before (λ u. t.remote_port < u.remote_port) s ss (ground (arith, q)) a.0,
    insert_by-Ascending s ss o.1 a.1,
  )
  | inr q ↦
      let lt : s.remote_port < t.remote_port = ground (arith, q, o.0) in
      rw q ((lt, less_later s t ss lt a.0), a)
]

rows-OtherPort :
    (m : Manager) (s : State) (k : ℕ) (es : List (ℕ × Entry))
    → s.remote_port ≡ k
    → IsFresh k es
    → All Keyed es
    → All (OtherPort s) (rows m es)
unfolding rows
rows-OtherPort m s k [] p f a = tt
rows-OtherPort m s k ((j, e) ∷ es) p f a = elim (Bool-cases (hidden e)) [
  | inl q ↦ rw q (rows-OtherPort m s k es p f.1 a.1)
  | inr q ↦ rw q (
    (λ h. f.0 (sym a.0.0 ∙ sym (state_of-port m e) ∙ sym h ∙ p)),
    rows-OtherPort m s k es p f.1 a.1,
  )
]

rows-Ascending :
    (m : Manager) (es : List (ℕ × Entry))
    → IsMap es
    → All Keyed es
    → Ascending (sort_by row_before (rows m es))
unfolding rows sort_by
rows-Ascending m [] i a = tt
rows-Ascending m ((k, e) ∷ es) i a = elim (Bool-cases (hidden e)) [
  | inl q ↦ rw q (rows-Ascending m es i.1 a.1)
  | inr q ↦ rw q (
      insert_by-Ascending (state_of m e) _
        (All-sort_by row_before _ _
          (rows-OtherPort m (state_of m e) k es (state_of-port m e ∙ a.0.0) i.0 a.1))
        (rows-Ascending m es i.1 a.1))
]

-- Where the invariant of the manager holds, the rows for the display are in the order of their
-- remote ports, each port once.
pub states-Ascending : (m : Manager) → Inv m → Ascending (states m)
unfolding states
states-Ascending m v = rows-Ascending m m.entries v.is_map v.keyed

count_rows-insert_by :
    (s : State) (ss : List State)
    → count_rows (insert_by row_before s ss) ≡ count_row s.status (count_rows ss)
unfolding insert_by
count_rows-insert_by s [] = refl
count_rows-insert_by s (t ∷ ss) = elim (Bool-cases (row_before t s)) [
  | inl q ↦
      rw q (
        ap (count_row t.status) (count_rows-insert_by s ss)
        ∙ swap t.status s.status (count_rows ss))
  | inr q ↦ rw q
]
  where
    swap : (x y : Status) (c : Counts) → count_row x (count_row y c) ≡ count_row y (count_row x c)
    swap x y c = unfold count_row in ground arith

count_rows-sort_by : (ss : List State) → count_rows (sort_by row_before ss) ≡ count_rows ss
unfolding sort_by
count_rows-sort_by [] = refl
count_rows-sort_by (s ∷ ss) =
    count_rows-insert_by s (sort_by row_before ss) ∙ ap (count_row s.status) (count_rows-sort_by ss)

abbrev pub open_entries : List (ℕ × Entry) → ℕ
open_entries [] = 0
open_entries ((k, e) ∷ es) = let rest = open_entries es in if is_open e.fwd then suc rest else rest

state_of-active : (m : Manager) (e : Entry) → status_is_active (state_of m e).status ≡ is_open e.fwd
unfolding state_of idle_status
state_of-active m e = ground arith

count_row-actives :
    (s : Status) (c : Counts)
    → (count_row s c).actives ≡ (if status_is_active s then suc c.actives else c.actives)
unfolding count_row
count_row-actives s c = ground arith

rows-actives :
    (m : Manager) (es : List (ℕ × Entry)) → (count_rows (rows m es)).actives ≡ open_entries es
unfolding rows hidden
rows-actives m [] = refl
rows-actives m ((k, e) ∷ es) = ground (
  arith,
  rows-actives m es,
  count_row-actives (state_of m e).status (count_rows (rows m es)),
  state_of-active m e,
)

count_row-total :
    (s : Status) (c : Counts)
    → (count_row s c).actives + (count_row s c).skips + (count_row s c).fails
      ≡ suc (c.actives + c.skips + c.fails)
unfolding count_row
count_row-total s c = ground arith

count_rows-total :
    (ss : List State)
    → (count_rows ss).actives + (count_rows ss).skips + (count_rows ss).fails ≡ length ss
count_rows-total [] = refl
count_rows-total (s ∷ ss) =
    omega (arith, count_row-total s.status (count_rows ss), count_rows-total ss)

-- The active count of the status line is the number of the tunnels of the table, none of which is
-- hidden, and the three counts add up to the number of the rows.
pub counts-states :
    (m : Manager)
    → ((counts m).actives ≡ open_entries m.entries)
      × ((counts m).actives + (counts m).skips + (counts m).fails ≡ length (states m))
unfolding counts states
counts-states m = (
  ap (λ c. c.actives) (count_rows-sort_by (rows m m.entries)) ∙ rows-actives m m.entries,
  count_rows-total (states m),
)
