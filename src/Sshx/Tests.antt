-- ===== src/Sshx/Tests.antt =====
-- Destinations as a user types them (internal/sshx/destination.go).
use autotun.Sshx.Resolve.{Config, Overrides, resolve}
use autotun.Sshx.Resolve.Precedence.{Takes, resolve-Takes}
use autotun.Base.{
  if◌then◌else◌, ◌==◌, nat_eq, list_eq, some, none, pos, ◌≡◌, refl, [], arith, true, false,
}
use autotun.Text.{codes}
use autotun.Sshx.Destination.Url.{parse_target-typed_text}
use autotun.Sshx.Destination.Typed.{named, typed_text}
use autotun.Sshx.Destination.{target, invalid, no_user, parse_target}

plain : parse_target (codes " box ") ≡ target (record { user = []; host = codes "box"; port = 0 })
unfolding parse_target
plain = refl

bare_v6 :
    parse_target (codes "fe80::1") ≡ target (record { user = []; host = codes "fe80::1"; port = 0 })
unfolding parse_target
bare_v6 = refl

no_name : parse_target (codes "@box") ≡ invalid no_user
unfolding parse_target
no_name = refl

parse_target-typed_text_example :
    parse_target (typed_text false (codes "dev") (named (codes "box")) 22)
    ≡ target (record { user = codes "dev"; host = codes "box"; port = 22 })
parse_target-typed_text_example =
    parse_target-typed_text false (codes "dev") (named (codes "box")) 22 (refl, (refl, (refl, tt)))
      (refl, (refl, (refl, tt))) refl (omega arith)

-- With a user and a port, but no host.
no_host :
    parse_target (codes "dev@:22") ≡ target (record { user = codes "dev"; host = []; port = 22 })
unfolding parse_target
no_host = refl

in_brackets :
    parse_target (codes "ssh://[::1]:2222")
    ≡ target (record { user = []; host = codes "::1"; port = 2222 })
unfolding parse_target
in_brackets = refl

-- A configuration with a user and a port, and a command line with nothing.
abbrev config : Config
config alias key =
    if key == codes "User"
    then some (codes "deploy")
    else if key == codes "Port"
    then some (codes "2200")
    else none

abbrev no_overrides : Overrides
no_overrides = record { user = []; port = pos 0; identity_files = []; proxy_jump = [] }

resolve-Takes_example :
    Takes
      (codes "deploy")
      (pos 2200)
      (resolve (λ p. p) (codes "me") (codes " box ") (some config) no_overrides)
unfolding autotun.Base.list_beq autotun.Text.Decimal.atoi
resolve-Takes_example =
    resolve-Takes (λ p. p) (codes "me") no_overrides
      (record { user = []; host = codes "box"; port = 0 }) (codes " box ") (some config) plain
