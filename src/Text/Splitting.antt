-- ===== src/Text/Splitting.antt =====
-- How texts that are put together come apart again.
use mathlib.Core.List.{reverse-reverse, reverse-cons}
use autotun.Base.{
  ℕ, ◌≡◌, ◌≢◌, refl, ap, ◌∙◌, Bool, true, false, List, [], ◌∷◌, ◌++◌, none, some, arith, ◌==◌,
  nat_eq, All, All-append, reverse, eqb_iff,
}
use autotun.Text.{Text, cut, drop_while, trim_by, split_by, fields_func, join, drop_empty}

-- No byte of the text passes the test.
abbrev pub Without : (ℕ → Bool) → Text → Type 0
Without f = All λ c. f c ≡ false

-- A text that is one field: not empty, and with no separator.
abbrev pub IsWord : (ℕ → Bool) → Text → Type 0
IsWord f [] = ⊥
IsWord f (c ∷ s) = Without f (c ∷ s)

pub cut-Without : (sep : ℕ) (s : Text) → Without (λ c. c == sep) s → cut sep s ≡ none
unfolding cut
cut-Without sep [] w = refl
cut-Without sep (c ∷ s) w = rw (w.0, cut-Without sep s w.1)

pub cut-append :
    (sep : ℕ) (a b : Text) → Without (λ c. c == sep) a → cut sep (a ++ sep ∷ b) ≡ some (a, b)
unfolding cut
cut-append sep [] b w = ground (arith, eqb_iff sep sep)
cut-append sep (c ∷ a) b w = rw (w.0, cut-append sep a b w.1)

drop_while-Without : (f : ℕ → Bool) (s : Text) → Without f s → drop_while f s ≡ s
unfolding drop_while
drop_while-Without f [] w = refl
drop_while-Without f (c ∷ s) w = rw w.0

All-reverse {ℓ} : (P : ℕ → Type ℓ) (s : Text) → All P s → All P (reverse s)
All-reverse P [] a = tt
All-reverse P (c ∷ s) a =
    rw (reverse-cons c s) (All-append P (reverse s) (c ∷ []) (All-reverse P s a.1) (a.0, tt))

pub trim_by-Without : (f : ℕ → Bool) (s : Text) → Without f s → trim_by f s ≡ s
unfolding trim_by
trim_by-Without f s w =
    rw (drop_while-Without f s w, drop_while-Without f (reverse s) (All-reverse _ s w))
      (reverse-reverse s)

split_by-append :
    (f : ℕ → Bool) (sep : ℕ) (w s : Text)
    → f sep ≡ true
    → Without f w
    → split_by f (w ++ sep ∷ s) ≡ w ∷ split_by f s
unfolding split_by
split_by-append f sep [] s h a = rw h
split_by-append f sep (c ∷ w) s h a = rw (a.0, split_by-append f sep w s h a.1)

split_by-Without : (f : ℕ → Bool) (w : Text) → Without f w → split_by f w ≡ w ∷ []
unfolding split_by
split_by-Without f [] a = refl
split_by-Without f (c ∷ w) a = rw (a.0, split_by-Without f w a.1)

drop_empty-word :
    (f : ℕ → Bool) (w : Text) (ws : List Text)
    → IsWord f w
    → drop_empty (w ∷ ws) ≡ w ∷ drop_empty ws
drop_empty-word f [] ws a = absurd a
drop_empty-word f (c ∷ w) ws a = refl

IsWord-Without : (f : ℕ → Bool) (w : Text) → IsWord f w → Without f w
IsWord-Without f [] a = tt
IsWord-Without f (c ∷ w) a = a

-- Words that are joined by one separator are the fields of the joined text.
pub fields_func-join :
    (f : ℕ → Bool) (sep : ℕ) (ws : List Text)
    → f sep ≡ true
    → All (IsWord f) ws
    → fields_func f (join (sep ∷ []) ws) ≡ ws
unfolding fields_func join
fields_func-join f sep [] h a = unfold split_by in refl
fields_func-join f sep (w ∷ []) h a =
    rw (split_by-Without f w (IsWord-Without f w a.0)) (drop_empty-word f w [] a.0)
fields_func-join f sep (w ∷ v ∷ ws) h a =
    ap drop_empty (split_by-append f sep w (join (sep ∷ []) (v ∷ ws)) h (IsWord-Without f w a.0))
    ∙ drop_empty-word f w _ a.0
    ∙ ap (◌∷◌ w) (fields_func-join f sep (v ∷ ws) h a.1)

pub IsWord-append : (f : ℕ → Bool) (w s : Text) → IsWord f w → Without f s → IsWord f (w ++ s)
IsWord-append f [] s a b = absurd a
IsWord-append f (c ∷ w) s a b = (a.0, All-append _ w s a.1 b)

pub IsWord-of : (f : ℕ → Bool) (w : Text) → w ≢ [] → Without f w → IsWord f w
IsWord-of f [] n a = n refl
IsWord-of f (c ∷ w) n a = a
