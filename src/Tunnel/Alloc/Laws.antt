-- ===== src/Tunnel/Alloc/Laws.antt =====
-- What `Allocate` (internal/tunnel/alloc.go) promises of its result.
use autotun.Base.{
  ℕ, ◌≤◌, ◌<◌, ◌≡◌, ◌≢◌, refl, ◌∙◌, ◌⊎◌, inl, inr, true, List, ◌∷◌, Option, none, some, arith, ◌==◌,
  nat_eq, ℤ, pos, negsuc, count, Bool-cases,
}
use autotun.Tunnel.Alloc.{
  Os, Listened, bound, refused, settle, answered, listen, Allocator, Outcome, opened, failed,
  Allocated, remember, take_ephemeral, take_mirror, take_sticky, try_sticky, take_preferred,
  allocate,
}

-- What one call of `net.Listen` does: a listener is on the port that was asked for, or on any one
-- for 0, and no other listener of the process is; an error leaves the listeners alone.
abbrev pub Bound : Os → ℕ → Listened → Type 0
Bound os p (bound q os') =
    (os'.ours ≡ q ∷ os.ours) × (count q os.ours ≡ 0) × (0 < q) × (q ≤ 65535) × ((p ≡ 0) ⊎ (q ≡ p))
Bound os p (refused e os') = os'.ours ≡ os.ours

pub listen-Bound : (os : Os) (p : ℕ) → Bound os p (listen os p)
unfolding listen answered settle
listen-Bound os p = ground arith

-- What `Allocate` promises of its result, where the process held `xs`: the listener is new and is
-- remembered, and the mapping is marked as remapped unless it mirrors the remote port; a failure
-- changes nothing.
abbrev pub Promised : Allocator → List ℕ → ℕ → Outcome → Allocator → List ℕ → Type 0
Promised a xs remote (opened q remapped) b ys =
    (ys ≡ q ∷ xs)
    × (count q xs ≡ 0)
    × (0 < q)
    × (q ≤ 65535)
    × (b ≡ remember a remote q)
    × ((remapped ≡ true) ⊎ (q ≡ remote))
Promised a xs remote (failed e) b ys = (ys ≡ xs) × (b ≡ a)

abbrev Fulfils : Allocator → List ℕ → ℕ → Allocated → Type 0
Fulfils a xs remote r = Promised a xs remote r.outcome r.alloc r.os.ours

-- The section's list is what the process holds before the search.
module _ (a : Allocator) (remote : ℕ) (xs : List ℕ) (real : 0 < remote) where
  take_ephemeral-Fulfils :
      (e : ℕ) (os : Os) (l : Listened)
      → os.ours ≡ xs
      → Bound os 0 l
      → Fulfils a xs remote (take_ephemeral a remote e l)
  unfolding take_ephemeral
  take_ephemeral-Fulfils e os (bound q os') h b = ground arith
  take_ephemeral-Fulfils e os (refused t os') h b = ground arith

  take_mirror-Fulfils :
      (e : Option ℕ) (os : Os) (l : Listened)
      → os.ours ≡ xs
      → Bound os remote l
      → Fulfils a xs remote (take_mirror a remote e l)
  unfolding take_mirror
  take_mirror-Fulfils e os (bound q os') h b = ground arith
  take_mirror-Fulfils e os (refused t os') h b = elim (Bool-cases a.same_port) [
    | inl same ↦ simp same (b ∙ h, refl)
    | inr free ↦
        simp free (take_ephemeral-Fulfils _ os' (listen os' 0) (b ∙ h) (listen-Bound os' 0))
  ]

  take_sticky-Fulfils :
      (e : Option ℕ) (prev : ℕ) (os : Os) (l : Listened)
      → prev ≢ remote
      → os.ours ≡ xs
      → Bound os prev l
      → Fulfils a xs remote (take_sticky a remote e prev l)
  unfolding take_sticky
  take_sticky-Fulfils e prev os (bound q os') n h b = ground arith
  take_sticky-Fulfils e prev os (refused t os') n h b =
      take_mirror-Fulfils _ os' (listen os' remote) (b ∙ h) (listen-Bound os' remote)

  try_sticky-Fulfils :
      (e : Option ℕ) (os : Os) (o : Option ℕ)
      → os.ours ≡ xs
      → Fulfils a xs remote (try_sticky a os remote e o)
  unfolding try_sticky
  try_sticky-Fulfils e os none h =
      take_mirror-Fulfils e os (listen os remote) h (listen-Bound os remote)
  try_sticky-Fulfils e os (some prev) h = elim (Bool-cases (prev == remote)) [
    | inl same ↦ rw same (take_mirror-Fulfils e os (listen os remote) h (listen-Bound os remote))
    | inr other ↦
        rw other
          (take_sticky-Fulfils e prev os (listen os prev) (ground arith) h (listen-Bound os prev))
  ]

  take_preferred-Fulfils :
      (p : ℕ) (os : Os) (l : Listened)
      → 0 < p
      → os.ours ≡ xs
      → Bound os p l
      → Fulfils a xs remote (take_preferred a remote p l)
  unfolding take_preferred
  take_preferred-Fulfils p os (bound q os') n h b = ground arith
  take_preferred-Fulfils p os (refused t os') n h b = try_sticky-Fulfils _ os' _ (b ∙ h)

-- For any remote port but 0 and any wish, against any behaviour of the system: a listener that
-- `Allocate` returns is on a port from 1 to 65535 that the process did not listen on, which is
-- remembered for this remote port, and unless it is marked as remapped its number is that of the
-- remote port. A failure leaves the listeners and the memory as they were.
pub allocate-Promised :
    (a : Allocator) (os : Os) (remote : ℕ) (wish : ℤ)
    → 0 < remote
    → let r = allocate a os remote wish in Promised a os.ours remote r.outcome r.alloc r.os.ours
unfolding allocate
allocate-Promised a os remote (negsuc n) real =
    try_sticky-Fulfils a remote os.ours real none os _ refl
allocate-Promised a os remote (pos p) real = elim (Bool-cases (p == 0)) [
  | inl z ↦ rw z (try_sticky-Fulfils a remote os.ours real none os _ refl)
  | inr z ↦ rw z (
      take_preferred-Fulfils a remote os.ours real p os (listen os p) (ground arith) refl
        (listen-Bound os p))
]
