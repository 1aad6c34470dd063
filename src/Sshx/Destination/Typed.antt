-- ===== src/Sshx/Destination/Typed.antt =====
-- The forms of a destination (internal/sshx/destination.go) as they are typed.
use autotun.Base.{
  ℕ, ◌≡◌, refl, Bool, true, false, [], ◌∷◌, ◌++◌, arith, ◌==◌, nat_eq, All-append, All-map, zero,
  suc, ◌||◌, ◌&&◌, if◌then◌else◌,
}
use autotun.Text.{Text, codes, is_empty, is_space}
use autotun.Text.Decimal.{itoa, itoa-IsDigits, is_digit}
use autotun.Text.Splitting.{Without}

-- A host as it is typed: a name or an IPv4 address, or an address in brackets.
pub data TypedHost : Type 0 where
  named bracketed : Text → TypedHost

abbrev pub host_text : TypedHost → Text
host_text (named h) = h
host_text (bracketed h) = b'[' ∷ (h ++ b']' ∷ [])

abbrev pub bare : TypedHost → Text
bare (named h) = h
bare (bracketed h) = h

-- A port of 0 is one that is not typed, and so is an empty user.
abbrev pub port_text : ℕ → Text
port_text p = if p == 0 then [] else b':' ∷ itoa p

abbrev pub user_text : Text → Text
user_text [] = []
user_text (c ∷ u) = (c ∷ u) ++ b'@' ∷ []

abbrev pub scheme_prefix : Bool → Text
scheme_prefix true = codes "ssh://"
scheme_prefix false = []

abbrev pub typed_text : Bool → Text → TypedHost → ℕ → Text
typed_text scheme user host p =
    scheme_prefix scheme ++ (user_text user ++ (host_text host ++ port_text p))

-- White space, a slash or an @.
abbrev pub is_mark : ℕ → Bool
is_mark c = is_space c || (c == b'/' || c == b'@')

-- What the text of a host must not have beside these.
abbrev pub host_mark : TypedHost → ℕ → Bool
host_mark (named h) c = is_mark c || (c == b':' || c == b'[')
host_mark (bracketed h) c = is_mark c || c == b']'

-- A name may be empty only in front of a port.
abbrev pub HasHost : TypedHost → ℕ → Type 0
HasHost (named h) p = (is_empty h && (p == 0)) ≡ false
HasHost (bracketed h) p = Unit {0}

pub digits-Without :
    (f : ℕ → Bool) (p : ℕ) → ((c : ℕ) → is_digit c ≡ true → f c ≡ false) → Without f (itoa p)
digits-Without f p h = All-map _ _ (itoa p) h (itoa-IsDigits p)

-- The bytes that a test finds among the marks alone are in none of the parts.
module _ (f : ℕ → Bool) (sub : (c : ℕ) → is_mark c ≡ false → f c ≡ false) where
  port_text-Without : (p : ℕ) → Without f (port_text p)
  port_text-Without zero = tt
  port_text-Without (suc n) =
      let later : (suc n == 0) ≡ false = ground arith in
      rw later (sub b':' refl, digits-Without f (suc n) (λ c d. sub c (ground (arith, d))))

  host_text-Without : (h : TypedHost) → Without (host_mark h) (bare h) → Without f (host_text h)
  host_text-Without (named h) w = All-map _ _ h (λ c d. sub c (ground (arith, d))) w
  host_text-Without (bracketed h) w = (
    sub b'[' refl,
    All-append _ h (b']' ∷ []) (All-map _ _ h (λ c d. sub c (ground (arith, d))) w)
        (sub b']' refl, tt),
  )

  pub tail-Without :
      (h : TypedHost) (p : ℕ)
      → Without (host_mark h) (bare h)
      → Without f (host_text h ++ port_text p)
  tail-Without h p w =
      All-append _ (host_text h) (port_text p) (host_text-Without h w) (port_text-Without p)

  pub body-Without :
      (user : Text) (h : TypedHost) (p : ℕ)
      → f b'@' ≡ false
      → Without is_mark user
      → Without (host_mark h) (bare h)
      → Without f (user_text user ++ (host_text h ++ port_text p))
  body-Without [] h p a u w = tail-Without h p w
  body-Without (c ∷ user) h p a u w =
      All-append _ ((c ∷ user) ++ b'@' ∷ []) _
        (All-append _ (c ∷ user) (b'@' ∷ []) (All-map _ _ (c ∷ user) sub u) (a, tt))
        (tail-Without h p w)

pub typed_some :
    (scheme : Bool) (user : Text) (h : TypedHost) (p : ℕ)
    → HasHost h p
    → is_empty (typed_text scheme user h p) ≡ false
typed_some true user h p e = refl
typed_some false (c ∷ user) h p e = refl
typed_some false [] (bracketed h) p e = refl
typed_some false [] (named (c ∷ h)) p e = refl
typed_some false [] (named []) zero e = absurd (cc)
typed_some false [] (named []) (suc n) e =
    let later : (suc n == 0) ≡ false = ground arith in rw later refl

pub scheme_prefix-Without : (scheme : Bool) → Without is_space (scheme_prefix scheme)
scheme_prefix-Without true = (refl, (refl, (refl, (refl, (refl, (refl, tt))))))
scheme_prefix-Without false = tt
