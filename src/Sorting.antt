-- ===== src/Sorting.antt =====
-- Go's package `sort`, as a stable insertion sort by a Boolean order.
use mathlib.Core.List.{Perm}
use mathlib.Core.List.Perm
use autotun.Base.{
  ◌≡◌, inl, inr, Bool, true, false, List, [], ◌∷◌, if◌then◌else◌, All, All-map, Bool-cases,
}

-- What the sorts of the package ask of the order that they are given.
pub record Weak {ℓ} {A : Type ℓ} (lt : A → A → Bool) : Type ℓ where
  pub asym : (a b : A) → lt a b ≡ true → lt b a ≡ false
  pub trans : (a b c : A) → lt b a ≡ false → lt c b ≡ false → lt c a ≡ false

module _ {ℓ} {A : Type ℓ} (lt : A → A → Bool) where
  unfoldable pub insert_by : A → List A → List A
  insert_by x [] = x ∷ []
  insert_by x (y ∷ ys) = if lt y x then y ∷ insert_by x ys else x ∷ y ∷ ys

  unfoldable pub sort_by : List A → List A
  unfolding insert_by
  sort_by [] = []
  sort_by (x ∷ xs) = insert_by x (sort_by xs)

  -- No element is less than one that stands before it.
  abbrev pub IsSorted : List A → Type 0
  IsSorted [] = Unit
  IsSorted (x ∷ xs) = (All (λ y. lt y x ≡ false) xs) × IsSorted xs

  insert_by-Perm : (x : A) (xs : List A) → Perm (insert_by x xs) (x ∷ xs)
  unfolding insert_by
  insert_by-Perm x [] = Perm.refl (x ∷ [])
  insert_by-Perm x (y ∷ ys) = elim (Bool-cases (lt y x)) [
    | inl q ↦ rw q (Perm.trans (Perm.cons y (insert_by-Perm x ys)) (Perm.swap x y ys))
    | inr q ↦ rw q (Perm.refl (x ∷ y ∷ ys))
  ]

  pub sort_by-Perm : (xs : List A) → Perm (sort_by xs) xs
  unfolding sort_by
  sort_by-Perm [] = Perm.refl []
  sort_by-Perm (x ∷ xs) = Perm.trans (insert_by-Perm x (sort_by xs)) (Perm.cons x (sort_by-Perm xs))

  pub All-insert_by {κ} :
      (P : A → Type κ) (x : A) (xs : List A) → P x → All P xs → All P (insert_by x xs)
  unfolding insert_by
  All-insert_by P x [] p a = (p, tt)
  All-insert_by P x (y ∷ ys) p a = elim (Bool-cases (lt y x)) [
    | inl q ↦ rw q (a.0, All-insert_by P x ys p a.1)
    | inr q ↦ rw q (p, a)
  ]

  pub All-sort_by {κ} : (P : A → Type κ) (xs : List A) → All P xs → All P (sort_by xs)
  unfolding sort_by
  All-sort_by P [] a = tt
  All-sort_by P (x ∷ xs) a = All-insert_by P x (sort_by xs) a.0 (All-sort_by P xs a.1)

  insert_by-IsSorted : (x : A) (xs : List A) → Weak lt → IsSorted xs → IsSorted (insert_by x xs)
  unfolding insert_by
  insert_by-IsSorted x [] w s = (tt, tt)
  insert_by-IsSorted x (y ∷ ys) w s = elim (Bool-cases (lt y x)) [
    | inl q ↦
        rw q (
          All-insert_by (λ z. lt z y ≡ false) x ys (w.asym y x q) s.0,
          insert_by-IsSorted x ys w s.1,
        )
    | inr q ↦ rw q ((q, All-map _ _ ys (λ z h. w.trans x y z q h) s.0), s)
  ]

  pub sort_by-IsSorted : (xs : List A) → Weak lt → IsSorted (sort_by xs)
  unfolding sort_by
  sort_by-IsSorted [] w = tt
  sort_by-IsSorted (x ∷ xs) w = insert_by-IsSorted x (sort_by xs) w (sort_by-IsSorted xs w)
