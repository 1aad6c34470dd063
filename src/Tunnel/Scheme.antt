-- ===== src/Tunnel/Scheme.antt =====
-- internal/tunnel/scheme.go: what a forwarded port speaks. The program makes schemes by `ParseScheme`,
-- `Next`, `SniffScheme` and the constants alone, so the type has the three constants.
use autotun.Base.{
  ◌≡◌, refl, Bool, true, false, ◌||◌, [], ◌∷◌, ◌==◌, nat_eq, list_eq, list_beq, if◌then◌else◌,
}
use autotun.Text.{Text, codes, has_prefix}

pub data Scheme : Type 0 where
  unknown http https : Scheme

abbrev pub scheme_beq : Scheme → Scheme → Bool
scheme_beq unknown unknown = true
scheme_beq http http = true
scheme_beq https https = true
scheme_beq _ _ = false

-- `string(scheme)`.
abbrev pub scheme_text : Scheme → Text
scheme_text unknown = []
scheme_text http = codes "http"
scheme_text https = codes "https"

-- `Scheme.Next`, along `schemeCycle`.
unfoldable pub scheme_next : Scheme → Scheme
scheme_next unknown = http
scheme_next http = https
scheme_next https = unknown

unfoldable pub parse_scheme : Text → Scheme
unfolding list_beq
parse_scheme s = if s == codes "http" then http else if s == codes "https" then https else unknown

unfoldable pub url_scheme : Scheme → Text
url_scheme https = codes "https"
url_scheme _ = codes "http"

-- `Scheme.Label`.
unfoldable pub scheme_label : Scheme → Text
scheme_label unknown = codes "unknown"
scheme_label s = scheme_text s

-- `SniffScheme`, on the first bytes of a reply.
unfoldable pub sniff_scheme : Text → Scheme
unfolding has_prefix
sniff_scheme [] = unknown
sniff_scheme (b ∷ bs) =
    if b == 0x16 || b == 0x15
    then https
    else if has_prefix (codes "HTTP/") (b ∷ bs)
    then http
    else unknown

pub parse_scheme-scheme_text : (s : Scheme) → parse_scheme (scheme_text s) ≡ s
unfolding parse_scheme
parse_scheme-scheme_text unknown = refl
parse_scheme-scheme_text http = refl
parse_scheme-scheme_text https = refl
