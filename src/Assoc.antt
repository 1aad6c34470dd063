-- ===== src/Assoc.antt =====
-- Go's maps, as association lists with distinct keys: the order of a list is the order in which a
-- `range` loop happens to visit the map.
use autotun.Base.{
  ◌≡◌, refl, sym, subst, ◌≢◌, ◌⊎◌, inl, inr, true, false, List, [], ◌∷◌, Option, none, some, arith,
  Eq, ◌==◌, if◌then◌else◌, All, Bool-cases,
}

module _ {ℓ κ} {K : Type ℓ} {V : Type κ} ⦃e : Eq K⦄ where
  unfoldable pub lookup : K → List (K × V) → Option V
  lookup key [] = none
  lookup key ((i, u) ∷ rest) = if i == key then some u else lookup key rest

  -- A new key goes to the end; the value of an old one is replaced where it stands.
  unfoldable pub insert : K → V → List (K × V) → List (K × V)
  insert k v [] = (k, v) ∷ []
  insert k v ((j, w) ∷ m) = if j == k then (j, v) ∷ m else (j, w) ∷ insert k v m

  unfoldable pub delete : K → List (K × V) → List (K × V)
  delete k [] = []
  delete k ((j, w) ∷ m) = if j == k then m else (j, w) ∷ delete k m

  -- `k` is no key of the map.
  abbrev pub IsFresh : K → List (K × V) → Type ℓ
  IsFresh k = All λ (p : K × V). p.0 ≢ k

  abbrev pub IsMap : List (K × V) → Type ℓ
  IsMap [] = Unit
  IsMap ((k, v) ∷ m) = IsFresh k m × IsMap m

  pub lookup-insert :
      (a b : K) (v : V) (m : List (K × V))
      → lookup b (insert a v m) ≡ (if a == b then some v else lookup b m)
  unfolding lookup insert
  lookup-insert a b v [] = refl
  lookup-insert a b v ((i, w) ∷ rest) =
      ground (arith, e.beq_iff a b, e.beq_iff i a, e.beq_iff i b, lookup-insert a b v rest)

  pub lookup-fresh : (k : K) (m : List (K × V)) → IsFresh k m → lookup k m ≡ none
  unfolding lookup
  lookup-fresh k [] f = refl
  lookup-fresh k ((i, w) ∷ m) f = ground (arith, e.beq_iff i k, lookup-fresh k m f.1, f.0)

  pub lookup-IsFresh : (k : K) (m : List (K × V)) → lookup k m ≡ none → IsFresh k m
  unfolding lookup
  lookup-IsFresh k [] h = tt
  lookup-IsFresh k ((i, w) ∷ m) h = elim (Bool-cases (i == k)) [
    | inl q ↦ absurd (cc (rw q at h))
    | inr q ↦ (λ s. cc ((e.beq_iff i k).1 s), lookup-IsFresh k m (rw q at h))
  ]

  pub lookup-delete :
      (k j : K) (m : List (K × V))
      → IsMap m
      → lookup j (delete k m) ≡ (if k == j then none else lookup j m)
  unfolding lookup delete
  lookup-delete k j [] f = ground arith
  lookup-delete k j ((i, w) ∷ m) f = ground (
    arith,
    e.beq_iff k j,
    e.beq_iff i k,
    e.beq_iff i j,
    lookup-delete k j m f.1,
    lookup-fresh i m f.0,
  )

  pub insert-IsFresh :
      (k j : K) (v : V) (m : List (K × V)) → k ≢ j → IsFresh j m → IsFresh j (insert k v m)
  unfolding insert
  insert-IsFresh k j v [] h f = (h, tt)
  insert-IsFresh k j v ((i, w) ∷ m) h f = elim (Bool-cases (i == k)) [
    | inl e ↦ rw e f
    | inr e ↦ rw e (f.0, insert-IsFresh k j v m h f.1)
  ]

  pub insert-IsMap : (k : K) (v : V) (m : List (K × V)) → IsMap m → IsMap (insert k v m)
  unfolding insert
  insert-IsMap k v [] f = (tt, tt)
  insert-IsMap k v ((i, w) ∷ m) f = elim (Bool-cases (i == k)) [
    | inl eq ↦ rw eq f
    | inr ne ↦
        rw ne
          (insert-IsFresh k i v m (λ q. cc ((e.beq_iff i k).1 (sym q))) f.0, insert-IsMap k v m f.1)
  ]

  pub delete-IsFresh : (k j : K) (m : List (K × V)) → IsFresh j m → IsFresh j (delete k m)
  unfolding delete
  delete-IsFresh k j [] f = tt
  delete-IsFresh k j ((i, w) ∷ m) f = elim (Bool-cases (i == k)) [
    | inl e ↦ rw e f.1
    | inr e ↦ rw e (f.0, delete-IsFresh k j m f.1)
  ]

  pub delete-IsMap : (k : K) (m : List (K × V)) → IsMap m → IsMap (delete k m)
  unfolding delete
  delete-IsMap k [] f = tt
  delete-IsMap k ((i, w) ∷ m) f = elim (Bool-cases (i == k)) [
    | inl e ↦ rw e f.1
    | inr e ↦ rw e (delete-IsFresh k i m f.0, delete-IsMap k m f.1)
  ]

  -- A statement of every entry, under the operations.
  pub All-lookup {μ} :
      (P : K × V → Type μ) (k : K) (v : V) (m : List (K × V))
      → All P m
      → lookup k m ≡ some v
      → P (k, v)
  unfolding lookup
  All-lookup P k v [] a h = absurd (cc)
  All-lookup P k v ((j, w) ∷ m) a h = elim (Bool-cases (j == k)) [
    | inl q ↦ let same : (j, w) ≡ (k, v) = ground (arith, e.beq_iff j k, h) in subst P same a.0
    | inr q ↦ All-lookup P k v m a.1 (rw q at h)
  ]

  pub All-insert {μ} :
      (P : K × V → Type μ) (k : K) (v : V) (m : List (K × V))
      → All P m
      → ((j : K) → P (j, v))
      → All P (insert k v m)
  unfolding insert
  All-insert P k v [] a h = (h k, tt)
  All-insert P k v ((j, w) ∷ m) a h = elim (Bool-cases (j == k)) [
    | inl q ↦ rw q (h j, a.1)
    | inr q ↦ rw q (a.0, All-insert P k v m a.1 h)
  ]

  pub All-delete {μ} :
      (P : K × V → Type μ) (k : K) (m : List (K × V)) → All P m → All P (delete k m)
  unfolding delete
  All-delete P k [] a = tt
  All-delete P k ((j, w) ∷ m) a = elim (Bool-cases (j == k)) [
    | inl q ↦ rw q a.1
    | inr q ↦ rw q (a.0, All-delete P k m a.1)
  ]

  -- In a map every entry is what its key finds.
  abbrev pub Finds : List (K × V) → K × V → Type κ
  Finds m q = lookup q.0 m ≡ some q.1

  Finds-cons :
      (k : K) (v : V) (m es : List (K × V))
      → IsFresh k es
      → All (Finds m) es
      → All (Finds ((k, v) ∷ m)) es
  unfolding lookup
  Finds-cons k v m [] f a = tt
  Finds-cons k v m ((j, w) ∷ es) f a =
      (ground (arith, e.beq_iff k j, f.0, a.0), Finds-cons k v m es f.1 a.1)

  pub All-Finds : (m : List (K × V)) → IsMap m → All (Finds m) m
  All-Finds [] i = tt
  All-Finds ((k, v) ∷ m) i =
      ((unfold lookup in ground (arith, e.beq_iff k k)), Finds-cons k v m m i.0 (All-Finds m i.1))

  -- What is found after an insertion was put there now or was there before.
  pub lookup-insert_cases :
      (k j : K) (v w : V) (m : List (K × V))
      → lookup j (insert k v m) ≡ some w
      → (((k == j) ≡ true) × (v ≡ w)) ⊎ (((k == j) ≡ false) × (lookup j m ≡ some w))
  lookup-insert_cases k j v w m h = elim (Bool-cases (k == j)) [
    | inl q ↦ inl (q, ground (arith, lookup-insert k j v m, h, q))
    | inr q ↦ inr (q, ground (arith, lookup-insert k j v m, h, q))
  ]

  pub lookup-delete_cases :
      (k j : K) (w : V) (m : List (K × V))
      → IsMap m
      → lookup j (delete k m) ≡ some w
      → ((k == j) ≡ false) × (lookup j m ≡ some w)
  lookup-delete_cases k j w m i h = ground (arith, lookup-delete k j m i, h)
