-- ===== src/Probe/Parse/Address.antt =====
-- `splitHostPort` (internal/probe/parse.go) on an address with its port.
use autotun.Base.{
  ℕ, ◌≤◌, ◌≡◌, refl, Bool, false, ◌||◌, [], ◌∷◌, ◌++◌, none, some, arith, eqb_iff, ◌==◌, nat_eq,
  if◌then◌else◌, All-map, ap, ◌∙◌,
}
use autotun.Text.{Text, codes, is_empty, cut_last, trim_brackets, is_bracket}
use autotun.Text.Decimal.{itoa, atoi-itoa, itoa-IsDigits}
use autotun.Text.Splitting.{Without, cut-Without, trim_by-Without}
use autotun.Probe.Parse.{port_in_range, drop_zone, clean_host, split_host_port}

cut_last-Without : (sep : ℕ) (s : Text) → Without (λ c. c == sep) s → cut_last sep s ≡ none
unfolding cut_last
cut_last-Without sep [] w = refl
cut_last-Without sep (c ∷ s) w = rw (cut_last-Without sep s w.1, w.0)

cut_last-append :
    (sep : ℕ) (a b : Text) → Without (λ c. c == sep) b → cut_last sep (a ++ sep ∷ b) ≡ some (a, b)
unfolding cut_last
cut_last-append sep [] b w = rw (cut_last-Without sep b w) (ground (arith, eqb_iff sep sep))
cut_last-append sep (c ∷ a) b w = rw (cut_last-append sep a b w)

-- A byte that the host of an address does not have: a bracket, or the sign before a zone.
abbrev pub is_mark : ℕ → Bool
is_mark c = is_bracket c || c == b'%'

trim_brackets-Without : (h : Text) → Without is_mark h → trim_brackets h ≡ h
unfolding trim_brackets
trim_brackets-Without h w =
    trim_by-Without is_bracket h (All-map _ _ h (λ c q. ground (arith, q)) w)

drop_zone-Without : (h : Text) → Without is_mark h → drop_zone h ≡ h
unfolding drop_zone
drop_zone-Without h w =
    rw (drop_zone, cut-Without b'%' h (All-map _ _ h (λ c q. ground (arith, q)) w)) refl

clean_host-Without : (h : Text) → Without is_mark h → is_empty h ≡ false → clean_host h ≡ h
unfolding clean_host
clean_host-Without h w e =
    ap (λ t. or_any (drop_zone t)) (trim_brackets-Without h w)
    ∙ ap or_any (drop_zone-Without h w)
    ∙ rw e
  where
    or_any : Text → Text
    or_any t = if is_empty t then codes "0.0.0.0" else t

-- An address and a port with a colon between them are split again, also where the address has
-- colons itself, if it is not empty and has neither a bracket nor a zone, and the port is at most
-- 65535.
pub split_host_port-append :
    (host : Text) (p : ℕ)
    → is_empty host ≡ false
    → Without is_mark host
    → p ≤ 65535
    → split_host_port (host ++ b':' ∷ itoa p) ≡ some (host, p)
unfolding split_host_port port_in_range
split_host_port-append host p e w l =
    rw
      (
        split_host_port,
        cut_last-append b':' host (itoa p)
            (All-map _ _ (itoa p) (λ c d. ground (arith, d)) (itoa-IsDigits p)),
        atoi-itoa p (omega arith),
      )
      (ground (arith, clean_host-Without host w e))
