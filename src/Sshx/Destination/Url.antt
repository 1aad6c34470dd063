-- ===== src/Sshx/Destination/Url.antt =====
-- How `ParseTarget` (internal/sshx/destination.go) takes the forms of Destination/Typed apart.
use mathlib.Core.List.{append_assoc, append-nil}
use autotun.Base.{
  ℕ, ◌≤◌, ◌≡◌, refl, Bool, true, false, [], ◌∷◌, ◌++◌, arith, ◌==◌, nat_eq, eqb_iff, All-append,
  All-map, ◌∙◌, ap, inl, inr, Bool-cases, none, zero, suc, ◌||◌,
}
use autotun.Text.{Text, codes, is_empty, is_space, trim_prefix, strip_prefix, trim_space}
use autotun.Text.Decimal.{itoa, atoi-itoa}
use autotun.Text.Splitting.{Without, cut-append, cut-Without, trim_by-Without}
use autotun.Sshx.Destination.{
  target, typed_port, with_port, after_bracket, count_byte, plain_host, host_part, user_part,
  parse_target,
}
use autotun.Sshx.Destination.Typed.{
  TypedHost, named, bracketed, host_text, bare, port_text, user_text, scheme_prefix, typed_text,
  is_mark, host_mark, HasHost, digits-Without, tail-Without, body-Without, typed_some,
  scheme_prefix-Without,
}

with_port-itoa :
    (user host : Text) (p : ℕ)
    → 1 ≤ p
    → p ≤ 65535
    → with_port user host (itoa p) ≡ target (record { user = user; host = host; port = p })
unfolding with_port typed_port
with_port-itoa user host p l h = rw (with_port, atoi-itoa p (omega arith)) (ground arith)

user_part-host_part :
    (user rest : Text)
    → is_empty user ≡ false
    → Without (λ c. c == b'@') user
    → user_part (user ++ b'@' ∷ rest) ≡ host_part user rest
unfolding user_part
user_part-host_part user rest e w = rw (user_part, cut-append b'@' user rest w, e) refl

count_byte-Without : (b : ℕ) (s : Text) → Without (λ c. c == b) s → count_byte b s ≡ 0
count_byte-Without b [] w = refl
count_byte-Without b (c ∷ s) w = rw w.0 (count_byte-Without b s w.1)

count_byte-append :
    (b : ℕ) (s t : Text)
    → Without (λ c. c == b) s
    → Without (λ c. c == b) t
    → count_byte b (s ++ b ∷ t) ≡ 1
count_byte-append b [] t w v = ground (arith, eqb_iff b b, count_byte-Without b t v)
count_byte-append b (c ∷ s) t w v = rw w.0 (count_byte-append b s t w.1 v)

itoa-no_colon : (p : ℕ) → Without (λ c. c == b':') (itoa p)
itoa-no_colon p = digits-Without (λ c. c == b':') p (λ c d. ground (arith, d))

plain_host-append :
    (user host : Text) (p : ℕ)
    → Without (λ c. c == b':') host
    → 1 ≤ p
    → p ≤ 65535
    → plain_host user (host ++ b':' ∷ itoa p)
      ≡ target (record { user = user; host = host; port = p })
unfolding plain_host
plain_host-append user host p w l h =
    rw
      (
        plain_host,
        count_byte-append b':' host (itoa p) w (itoa-no_colon p),
        cut-append b':' host (itoa p) w,
      )
      (with_port-itoa user host p l h)

host_part-append :
    (user host : Text) (p : ℕ)
    → Without (λ c. c == b':') host
    → Without (λ c. c == b'[') host
    → 1 ≤ p
    → p ≤ 65535
    → host_part user (host ++ b':' ∷ itoa p)
      ≡ target (record { user = user; host = host; port = p })
unfolding host_part
host_part-append user [] p w v l h = plain_host-append user [] p w l h
host_part-append user (c ∷ host) p w v l h = rw v.0 (plain_host-append user (c ∷ host) p w l h)

plain_host_alone :
    (user host : Text)
    → Without (λ c. c == b':') host
    → plain_host user host ≡ target (record { user = user; host = host; port = 0 })
unfolding plain_host
plain_host_alone user host w = rw (count_byte-Without b':' host w) refl

host_part_name :
    (user host : Text)
    → is_empty host ≡ false
    → Without (λ c. c == b':') host
    → Without (λ c. c == b'[') host
    → host_part user host ≡ target (record { user = user; host = host; port = 0 })
unfolding host_part
host_part_name user [] e w v = absurd (cc)
host_part_name user (c ∷ host) e w v = rw v.0 (plain_host_alone user (c ∷ host) w)

host_part_bracketed :
    (user h : Text) (p : ℕ)
    → Without (λ c. c == b']') h
    → p ≤ 65535
    → host_part user (host_text (bracketed h) ++ port_text p)
      ≡ target (record { user = user; host = h; port = p })
unfolding host_part after_bracket
host_part_bracketed user h zero w l =
    ap (λ t. host_part user (b'[' ∷ t)) (append_assoc h (b']' ∷ []) [])
    ∙ rw (host_part, cut-append b']' h [] w) refl
host_part_bracketed user h (suc n) w l =
    let later : (suc n == 0) ≡ false = ground arith in
    rw later (
      ap (λ t. host_part user (b'[' ∷ t)) (append_assoc h (b']' ∷ []) (b':' ∷ itoa (suc n)))
      ∙ rw (host_part, cut-append b']' h (b':' ∷ itoa (suc n)) w)
          (with_port-itoa user h (suc n) (omega arith) l))

host_part_typed :
    (user : Text) (h : TypedHost) (p : ℕ)
    → Without (host_mark h) (bare h)
    → HasHost h p
    → p ≤ 65535
    → host_part user (host_text h ++ port_text p)
      ≡ target (record { user = user; host = bare h; port = p })
host_part_typed user (bracketed h) p w e l =
    host_part_bracketed user h p (All-map _ _ h (λ c d. ground (arith, d)) w) l
host_part_typed user (named h) zero w e l =
    ap (host_part user) (append-nil h)
    ∙ host_part_name user h (ground (arith, e)) (All-map _ _ h (λ c d. ground (arith, d)) w)
        (All-map _ _ h (λ c d. ground (arith, d)) w)
host_part_typed user (named h) (suc n) w e l =
    let later : (suc n == 0) ≡ false = ground arith in
    rw later (
      host_part-append user h (suc n) (All-map _ _ h (λ c d. ground (arith, d)) w)
        (All-map _ _ h (λ c d. ground (arith, d)) w) (omega arith) l)

user_part_typed :
    (user rest : Text)
    → Without is_mark user
    → Without (λ c. c == b'@') rest
    → user_part (user_text user ++ rest) ≡ host_part user rest
unfolding user_part
user_part_typed [] rest u w = rw (user_part, cut-Without b'@' rest w) refl
user_part_typed (c ∷ user) rest u w =
    ap user_part (append_assoc (c ∷ user) (b'@' ∷ []) rest)
    ∙ user_part-host_part (c ∷ user) rest refl (All-map _ _ (c ∷ user) (λ d e. ground (arith, e)) u)

-- A text with no slash does not begin with the scheme.
abbrev has_slash : Text → Bool
has_slash [] = false
has_slash (c ∷ s) = c == b'/' || has_slash s

strip_prefix-Without :
    (pre s : Text) → has_slash pre ≡ true → Without (λ c. c == b'/') s → strip_prefix pre s ≡ none
unfolding strip_prefix
strip_prefix-Without [] s h w = absurd (cc)
strip_prefix-Without (d ∷ pre) [] h w = refl
strip_prefix-Without (d ∷ pre) (c ∷ s) h w = elim (Bool-cases (d == c)) [
  | inl q ↦
      let later : has_slash pre ≡ true = ground (arith, q, h, w.0, eqb_iff d c, eqb_iff d b'/') in
      rw q (strip_prefix-Without pre s later w.1)
  | inr q ↦ rw q refl
]

trim_scheme :
    (scheme : Bool) (s : Text)
    → Without (λ c. c == b'/') s
    → trim_prefix (codes "ssh://") (scheme_prefix scheme ++ s) ≡ s
unfolding trim_prefix strip_prefix
trim_scheme true s w = refl
trim_scheme false s w = rw (trim_prefix, strip_prefix-Without (codes "ssh://") s refl w) refl

-- A destination is taken apart into what was typed: with or without ssh:// in front, with a user or
-- with none, with a port from 1 to 65535 or with none, which reads as 0, and for a host a name, an
-- IPv4 address or an address in brackets. Neither the user nor the host may have white space, a
-- slash or an @, a name may have no colon and no opening bracket, and an address in brackets may
-- have no closing one. In front of a port the name may be empty: such a destination is accepted
-- with no host.
pub parse_target-typed_text :
    (scheme : Bool) (user : Text) (h : TypedHost) (p : ℕ)
    → Without is_mark user
    → Without (host_mark h) (bare h)
    → HasHost h p
    → p ≤ 65535
    → parse_target (typed_text scheme user h p)
      ≡ target (record { user = user; host = bare h; port = p })
unfolding parse_target trim_space
parse_target-typed_text scheme user h p u w e l =
    let body = user_text user ++ (host_text h ++ port_text p) in
    let no_slash = body-Without (λ c. c == b'/') (λ c d. ground (arith, d)) user h p refl u w in
    let no_space =
      All-append _ (scheme_prefix scheme) body (scheme_prefix-Without scheme)
        (body-Without is_space (λ c d. ground (arith, d)) user h p refl u w) in
    let no_at = tail-Without (λ c. c == b'@') (λ c d. ground (arith, d)) h p w in
    rw
      (trim_by-Without is_space (typed_text scheme user h p) no_space, typed_some scheme user h p e)
      (ap user_part (trim_scheme scheme body no_slash)
        ∙ user_part_typed user (host_text h ++ port_text p) u no_at
        ∙ host_part_typed user h p w e l)
