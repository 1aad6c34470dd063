-- ===== src/Tunnel/Alloc/Order.antt =====
-- The order of preference of `Allocate` (internal/tunnel/alloc.go), against a list of candidates that
-- is tried in turn.
use autotun.Base.{
  ℕ, ◌≡◌, refl, inl, inr, List, [], ◌∷◌, Option, none, some, ◌==◌, nat_eq, if◌then◌else◌, ℤ, pos,
  negsuc, Bool-cases,
}
use autotun.Assoc.{lookup}
use autotun.Tunnel.Alloc.{
  Os, Listened, bound, refused, listen, Allocator, Outcome, opened, failed, Allocated,
  take_ephemeral, take_mirror, take_sticky, try_sticky, take_preferred, allocate,
}

-- A listener ends the search.
abbrev resume : Listened → (Os → Option ℕ × Os) → Option ℕ × Os
resume (bound q os) more = (some q, os)
resume (refused t os) more = more os

-- The first candidate that the system lets the process listen on.
abbrev pub first_bound : List ℕ → Os → Option ℕ × Os
first_bound [] os = (none, os)
first_bound (c ∷ cs) os = resume (listen os c) (first_bound cs)

-- The candidates: the remote port's own number, then any port, which is 0, unless the same port
-- is wanted.
abbrev pub own_candidates : Allocator → ℕ → List ℕ
own_candidates a remote = remote ∷ (if a.same_port then [] else 0 ∷ [])

abbrev pub sticky_candidates : Allocator → ℕ → Option ℕ → List ℕ
sticky_candidates a remote none = own_candidates a remote
sticky_candidates a remote (some prev) =
    if prev == remote then own_candidates a remote else prev ∷ own_candidates a remote

-- Before these the port that this remote port had last, and before all the pinned one.
abbrev pub candidates : Allocator → ℕ → ℤ → List ℕ
candidates a remote (negsuc n) = sticky_candidates a remote (lookup remote a.sticky)
candidates a remote (pos p) =
    if p == 0
    then sticky_candidates a remote (lookup remote a.sticky)
    else p ∷ sticky_candidates a remote (lookup remote a.sticky)

abbrev pub port_of : Outcome → Option ℕ
port_of (opened q remapped) = some q
port_of (failed e) = none

abbrev pub found : Allocated → Option ℕ × Os
found r = (port_of r.outcome, r.os)

module _ (a : Allocator) (remote : ℕ) where
  found-take_ephemeral :
      (e : ℕ) (l : Listened) → found (take_ephemeral a remote e l) ≡ resume l (first_bound [])
  unfolding take_ephemeral
  found-take_ephemeral e (bound q os) = refl
  found-take_ephemeral e (refused t os) = refl

  found-take_mirror :
      (e : Option ℕ) (l : Listened)
      → found (take_mirror a remote e l)
        ≡ resume l (first_bound (if a.same_port then [] else 0 ∷ []))
  unfolding take_mirror
  found-take_mirror e (bound q os) = refl
  found-take_mirror e (refused t os) = elim (Bool-cases a.same_port) [
    | inl same ↦ simp same
    | inr free ↦ simp free (found-take_ephemeral _ (listen os 0))
  ]

  found-try_sticky :
      (os : Os) (e o : Option ℕ)
      → found (try_sticky a os remote e o) ≡ first_bound (sticky_candidates a remote o) os
  unfolding try_sticky
  found-try_sticky os e none = found-take_mirror e (listen os remote)
  found-try_sticky os e (some prev) = elim (Bool-cases (prev == remote)) [
    | inl same ↦ rw same (found-take_mirror e (listen os remote))
    | inr other ↦ rw other (go (listen os prev))
  ]
    where
      go :
          (l : Listened)
          → found (take_sticky a remote e prev l) ≡ resume l (first_bound (own_candidates a remote))
      go (bound q os') = unfold take_sticky in refl
      go (refused t os') = unfold take_sticky in found-take_mirror _ (listen os' remote)

  found-take_preferred :
      (p : ℕ) (l : Listened)
      → found (take_preferred a remote p l)
        ≡ resume l (first_bound (sticky_candidates a remote (lookup remote a.sticky)))
  unfolding take_preferred
  found-take_preferred p (bound q os) = refl
  found-take_preferred p (refused t os) = found-try_sticky os (some p) _

-- `Allocate` listens on the first of its candidates that the system allows, in this order: the
-- pinned port, the port that this remote port had last, the remote port's own number, and, unless
-- the same port is required, any port. It fails only when all of these are refused, and it tries
-- none after the one that it takes.
pub allocate-first_bound :
    (a : Allocator) (os : Os) (remote : ℕ) (wish : ℤ)
    → found (allocate a os remote wish) ≡ first_bound (candidates a remote wish) os
unfolding allocate
allocate-first_bound a os remote (negsuc n) = found-try_sticky a remote os none _
allocate-first_bound a os remote (pos p) = elim (Bool-cases (p == 0)) [
  | inl z ↦ rw z (found-try_sticky a remote os none _)
  | inr z ↦ rw z (found-take_preferred a remote p (listen os p))
]
