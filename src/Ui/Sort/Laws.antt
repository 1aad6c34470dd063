-- ===== src/Ui/Sort/Laws.antt =====
-- The order of the table (`sortStates`, internal/ui/sort.go) and its search.
use mathlib.Core.List.{Perm, reverse-cons}
use autotun.Base.{
  ℕ, ◌≡◌, refl, sym, ◌∙◌, ap, inl, inr, Bool, true, false, not, ◌&&◌, List, [], ◌∷◌, ◌++◌, arith,
  nat_eq, list_eq, list_beq, list_beq_iff, All, All-map, Bool-cases, reverse, map,
}
use autotun.Text.{Text, to_lower, trim_space, trim_by, drop_while, lower_byte, is_space}
use autotun.Text.Order.{text_lt-Weak, text_lt_total}
use autotun.Sorting.{Weak, IsSorted, sort_by-IsSorted, sort_by-Perm}
use autotun.Tunnel.Manager.{State, status_is_active}
use autotun.Ui.Sort.{
  SortKey, sort_remote, sort_local, sort_process, sort_age, sort_traffic, sort_conns, sort_key_text,
  sort_key_named, named_in, compare_by, less, ordered, sort_states, filter_states, shown_name,
}

less_asym : (key : SortKey) (a b : State) → less key a b ≡ true → less key b a ≡ false
unfolding less compare_by
less_asym sort_remote a b h = ground (arith, h)
less_asym sort_local a b h = ground (arith, h)
less_asym sort_age a b h = ground (arith, h)
less_asym sort_traffic a b h = ground (arith, h)
less_asym sort_conns a b h = ground (arith, h)
less_asym sort_process a b h = ground (
  arith,
  h,
  list_beq_iff (shown_name a) (shown_name b),
  list_beq_iff (shown_name b) (shown_name a),
  text_lt-Weak.asym (shown_name a) (shown_name b),
)

less_trans :
    (key : SortKey) (a b c : State)
    → less key b a ≡ false
    → less key c b ≡ false
    → less key c a ≡ false
unfolding less compare_by
less_trans sort_remote a b c h g = ground (arith, h, g)
less_trans sort_local a b c h g = ground (arith, h, g)
less_trans sort_age a b c h g = ground (arith, h, g)
less_trans sort_traffic a b c h g = ground (arith, h, g)
less_trans sort_conns a b c h g = ground (arith, h, g)
less_trans sort_process a b c h g = ground (
  arith,
  h,
  g,
  list_beq_iff (shown_name b) (shown_name a),
  list_beq_iff (shown_name c) (shown_name b),
  list_beq_iff (shown_name c) (shown_name a),
  text_lt-Weak.trans (shown_name a) (shown_name b) (shown_name c),
  text_lt_total (shown_name b) (shown_name a),
  text_lt_total (shown_name a) (shown_name b),
  text_lt_total (shown_name c) (shown_name b),
  text_lt_total (shown_name b) (shown_name c),
  text_lt-Weak.asym (shown_name c) (shown_name b),
  text_lt-Weak.asym (shown_name b) (shown_name a),
)

pub ordered-Weak : (key : SortKey) (rev last : Bool) → Weak (ordered key rev last)
unfolding ordered
ordered-Weak key true last = record {
  asym = λ a b h. ground (arith, h, less_asym key b a);
  trans = λ a b c h g. ground (arith, h, g, less_trans key c b a);
}
ordered-Weak key false last = record {
  asym = λ a b h. ground (arith, h, less_asym key a b);
  trans = λ a b c h g. ground (arith, h, g, less_trans key a b c);
}

pub sort_states-IsSorted :
    (rows : List State) (key : SortKey) (rev last : Bool)
    → Perm (sort_states rows key rev last) rows
      × IsSorted (ordered key rev last) (sort_states rows key rev last)
unfolding sort_states
sort_states-IsSorted rows key rev last = (
  sort_by-Perm (ordered key rev last) rows,
  sort_by-IsSorted (ordered key rev last) rows (ordered-Weak key rev last),
)

-- No live row stands behind one that is not.
abbrev pub LiveFirst : List State → Type 0
LiveFirst [] = Unit
LiveFirst (s ∷ ss) =
    All (λ t. (status_is_active t.status && not (status_is_active s.status)) ≡ false) ss
    × LiveFirst ss

IsSorted-LiveFirst :
    (key : SortKey) (rev : Bool) (ss : List State)
    → IsSorted (ordered key rev true) ss
    → LiveFirst ss
unfolding ordered
IsSorted-LiveFirst key rev [] h = tt
IsSorted-LiveFirst key rev (s ∷ ss) h = (
  All-map (λ t. ordered key rev true t s ≡ false) _ ss (λ t g. ground (arith, g)) h.0,
  IsSorted-LiveFirst key rev ss h.1,
)

-- With the inactive rows last, every live tunnel stands before every other row, whatever the key
-- and the direction.
pub sort_states-LiveFirst :
    (rows : List State) (key : SortKey) (rev : Bool) → LiveFirst (sort_states rows key rev true)
sort_states-LiveFirst rows key rev =
    IsSorted-LiveFirst key rev _ (sort_states-IsSorted rows key rev true).1

pub sort_key_named-sort_key_text : (k : SortKey) → sort_key_named (sort_key_text k) ≡ k
unfolding sort_key_named sort_key_text named_in list_beq
sort_key_named-sort_key_text sort_remote = refl
sort_key_named-sort_key_text sort_local = refl
sort_key_named-sort_key_text sort_process = refl
sort_key_named-sort_key_text sort_age = refl
sort_key_named-sort_key_text sort_traffic = refl
sort_key_named-sort_key_text sort_conns = refl

lower_byte_idem : (c : ℕ) → lower_byte (lower_byte c) ≡ lower_byte c
lower_byte_idem c = ground arith

is_space-lower_byte : (c : ℕ) → is_space (lower_byte c) ≡ is_space c
is_space-lower_byte c = ground arith

to_lower_idem : (t : Text) → to_lower (to_lower t) ≡ to_lower t
unfolding to_lower
to_lower_idem [] = refl
to_lower_idem (c ∷ t) =
    ap (λ x. lower_byte (lower_byte c) ∷ x) (to_lower_idem t)
    ∙ ap (λ d. d ∷ map lower_byte t) (lower_byte_idem c)

drop_while-to_lower :
    (t : Text) → drop_while is_space (to_lower t) ≡ to_lower (drop_while is_space t)
unfolding drop_while to_lower
drop_while-to_lower [] = refl
drop_while-to_lower (c ∷ t) = elim (Bool-cases (is_space c)) [
  | inl q ↦ rw (is_space-lower_byte c, q) (drop_while-to_lower t)
  | inr q ↦ rw (is_space-lower_byte c, q)
]

to_lower-append : (s t : Text) → map lower_byte (s ++ t) ≡ map lower_byte s ++ map lower_byte t
to_lower-append [] t = refl
to_lower-append (c ∷ s) t = ap (λ r. lower_byte c ∷ r) (to_lower-append s t)

reverse-to_lower : (t : Text) → reverse (to_lower t) ≡ to_lower (reverse t)
unfolding to_lower
reverse-to_lower [] = refl
reverse-to_lower (c ∷ t) =
    reverse-cons (lower_byte c) (map lower_byte t)
    ∙ ap (λ r. r ++ lower_byte c ∷ []) (reverse-to_lower t)
    ∙ sym (ap (map lower_byte) (reverse-cons c t) ∙ to_lower-append (reverse t) (c ∷ []))

trim_space-to_lower : (t : Text) → trim_space (to_lower t) ≡ to_lower (trim_space t)
unfolding trim_space trim_by
trim_space-to_lower t = rw (
  drop_while-to_lower t,
  reverse-to_lower (drop_while is_space t),
  drop_while-to_lower (reverse (drop_while is_space t)),
  reverse-to_lower (drop_while is_space (reverse (drop_while is_space t))),
)

-- The search does not tell upper from lower case: a query finds the same rows in lower case.
pub filter_states-to_lower :
    (rows : List State) (query : Text)
    → filter_states rows (to_lower query) ≡ filter_states rows query
unfolding filter_states
filter_states-to_lower rows query = rw (trim_space-to_lower query, to_lower_idem (trim_space query))
