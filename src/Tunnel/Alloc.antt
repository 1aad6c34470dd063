-- ===== src/Tunnel/Alloc.antt =====
-- internal/tunnel/alloc.go: local ports for remote services. `net.Listen` is the operation `listen`
-- on the state of the operating system.
pub mod Laws
pub mod Order
use autotun.Base.{
  ℕ, ◌≡◌, refl, Bool, true, false, not, ◌||◌, List, [], ◌∷◌, ◌++◌, Option, none, some, arith, ◌==◌,
  nat_eq, ltb, eqb, if◌then◌else◌, ℤ, pos, negsuc, count, erase,
}
use autotun.Assoc.{lookup, insert, delete}
use autotun.Text.{Text, codes, is_empty}
use autotun.Text.Decimal.{itoa}

-- What the outside says to one attempt to listen: the port is free, with the number that the system
-- would pick for port 0, or there is an error.
pub data Answer : Type 0 where
  grants : ℕ → Answer
  refuses : Text → Answer

-- The ports that this process listens on, and the answers still to come.
pub record Os : Type 0 where
  pub ours : List ℕ
  pub answers : List Answer

-- A listener or an error, with the system's new state.
pub data Listened : Type 0 where
  bound : ℕ → Os → Listened
  refused : Text → Os → Listened

abbrev pub in_use : Text
in_use = codes "bind: address already in use"

-- A port that is not one, or that the process holds already, is refused in any case.
unfoldable pub settle : Os → ℕ → Listened
settle os p =
    if p == 0 || (ltb 65535 p || not (count p os.ours == 0))
    then refused in_use os
    else bound p (record os { ours = p ∷ os.ours })

unfoldable pub answered : Os → ℕ → Answer → Listened
answered os p (refuses e) = refused e os
answered os p (grants q) = settle os (if p == 0 then q else p)

-- `net.Listen` on a port of the bind address, 0 for any.
unfoldable pub listen : Os → ℕ → Listened
listen os p = elim os.answers [
  | [] ↦ refused [] os
  | a ∷ rest ↦ answered (record os { answers = rest }) p a
]

-- `Listener.Close`.
unfoldable pub release : Os → ℕ → Os
release os p = record os { ours = erase p os.ours }

pub record Allocator : Type 0 where
  pub bind : Text
  pub same_port : Bool
  pub sticky : List (ℕ × ℕ)

unfoldable pub new_allocator : Text → Bool → Allocator
new_allocator bind same = record {
  bind = if is_empty bind then codes "127.0.0.1" else bind;
  same_port = same;
  sticky = [];
}

-- `ConflictError`, alone or joined with the error of the last attempt.
pub data AllocError : Type 0 where
  conflict : ℕ → AllocError
  joined : ℕ → Text → AllocError

abbrev pub conflict_text : ℕ → Text
conflict_text p = codes "local port " ++ (itoa p ++ codes " is already in use")

-- `err.Error()`; `errors.Join` puts a newline between the texts.
unfoldable pub error_text : AllocError → Text
error_text (conflict p) = conflict_text p
error_text (joined p e) = conflict_text p ++ (10 ∷ e)

-- A listener on a local port, with the remapped flag, or an error.
pub data Outcome : Type 0 where
  opened : ℕ → Bool → Outcome
  failed : AllocError → Outcome

pub record Allocated : Type 0 where
  pub alloc : Allocator
  pub os : Os
  pub outcome : Outcome

-- `record`: the assignment is remembered.
unfoldable pub remember : Allocator → ℕ → ℕ → Allocator
remember a remote local = record a { sticky = insert remote local a.sticky }

-- `Forget`.
unfoldable pub forget : Allocator → ℕ → Allocator
forget a remote = record a { sticky = delete remote a.sticky }

-- `firstErr`: the port of the first attempt that failed.
abbrev pub first_error : Option ℕ → ℕ → ℕ
first_error none p = p
first_error (some q) p = q

abbrev pub success : Allocator → Os → ℕ → ℕ → Bool → Allocated
success a os remote q remapped = record {
  alloc = remember a remote q;
  os = os;
  outcome = opened q remapped;
}

-- Each attempt takes the answer of `net.Listen`: a listener ends the search, an error goes on to
-- the next candidate. The last one takes any port.
unfoldable pub take_ephemeral : Allocator → ℕ → ℕ → Listened → Allocated
take_ephemeral a remote e (bound q os) = success a os remote q true
take_ephemeral a remote e (refused t os) = record {
  alloc = a;
  os = os;
  outcome = failed (joined e t);
}

unfoldable pub take_mirror : Allocator → ℕ → Option ℕ → Listened → Allocated
take_mirror a remote e (bound q os) = success a os remote q false
take_mirror a remote e (refused t os) =
    if a.same_port
    then record { alloc = a; os = os; outcome = failed (conflict (first_error e remote)) }
    else take_ephemeral a remote (first_error e remote) (listen os 0)

unfoldable pub take_sticky : Allocator → ℕ → Option ℕ → ℕ → Listened → Allocated
take_sticky a remote e prev (bound q os) = success a os remote q true
take_sticky a remote e prev (refused t os) =
    take_mirror a remote (some (first_error e prev)) (listen os remote)

-- The port used last, if it is another one than the remote port.
unfoldable pub try_sticky : Allocator → Os → ℕ → Option ℕ → Option ℕ → Allocated
try_sticky a os remote e none = take_mirror a remote e (listen os remote)
try_sticky a os remote e (some prev) =
    if prev == remote
    then take_mirror a remote e (listen os remote)
    else take_sticky a remote e prev (listen os prev)

unfoldable pub take_preferred : Allocator → ℕ → ℕ → Listened → Allocated
take_preferred a remote p (bound q os) = success a os remote q (not (p == remote))
take_preferred a remote p (refused t os) = try_sticky a os remote (some p) (lookup remote a.sticky)

-- `Allocate`: the pinned port, the one used last, the remote port's own number, any port.
unfoldable pub allocate : Allocator → Os → ℕ → ℤ → Allocated
allocate a os remote (negsuc n) = try_sticky a os remote none (lookup remote a.sticky)
allocate a os remote (pos p) =
    if p == 0
    then try_sticky a os remote none (lookup remote a.sticky)
    else take_preferred a remote p (listen os p)
