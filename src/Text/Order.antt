-- ===== src/Text/Order.antt =====
-- The byte order of texts, by which Go compares strings.
use autotun.Base.{◌≡◌, refl, true, false, [], ◌∷◌, arith, nat_eq, list_eq}
use autotun.Text.{Text, text_lt}
use autotun.Sorting.{Weak}

pub text_lt_irrefl : (a : Text) → text_lt a a ≡ false
unfolding text_lt
text_lt_irrefl [] = refl
text_lt_irrefl (c ∷ a) = ground (arith, text_lt_irrefl a)

text_lt_asym : (a b : Text) → text_lt a b ≡ true → text_lt b a ≡ false
unfolding text_lt
text_lt_asym [] [] h = refl
text_lt_asym [] (d ∷ b) h = refl
text_lt_asym (c ∷ a) [] h = ground arith
text_lt_asym (c ∷ a) (d ∷ b) h = ground (arith, h, text_lt_asym a b)

text_lt_trans : (a b c : Text) → text_lt b a ≡ false → text_lt c b ≡ false → text_lt c a ≡ false
unfolding text_lt
text_lt_trans [] b [] h g = refl
text_lt_trans [] [] (z ∷ c) h g = refl
text_lt_trans [] (y ∷ b) (z ∷ c) h g = refl
text_lt_trans (x ∷ a) [] [] h g = ground arith
text_lt_trans (x ∷ a) [] (z ∷ c) h g = ground arith
text_lt_trans (x ∷ a) (y ∷ b) [] h g = ground arith
text_lt_trans (x ∷ a) (y ∷ b) (z ∷ c) h g = ground (arith, h, g, text_lt_trans a b c)

pub text_lt-Weak : Weak text_lt
text_lt-Weak = record { asym = text_lt_asym; trans = text_lt_trans }

-- Two different texts are in one order or the other.
pub text_lt_total : (a b : Text) → text_lt a b ≡ false → text_lt b a ≡ false → a ≡ b
unfolding text_lt
text_lt_total [] [] h g = refl
text_lt_total [] (d ∷ b) h g = ground arith
text_lt_total (c ∷ a) [] h g = ground arith
text_lt_total (c ∷ a) (d ∷ b) h g = ground (arith, h, g, text_lt_total a b)
