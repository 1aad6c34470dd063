-- ===== src/Sshx/Resolve/Precedence.antt =====
-- Which source `Resolve` (internal/sshx/destination.go) takes the user and the port from.
use autotun.Base.{
  subst, ◌≡◌, refl, true, false, List, [], ◌∷◌, Option, none, some, arith, ◌==◌, int_eq,
  if◌then◌else◌, ℤ, pos, eqb_ℤ_iff, inl, inr, Bool-cases,
}
use autotun.Text.{Text, codes, is_empty}
use autotun.Sshx.Destination.{Target, target, parse_target}
use autotun.Sshx.Resolve.{
  Destination, Overrides, Config, set_value, parsed_port, or_text, or_port, with_config,
  with_overrides, with_defaults, Resolved, resolved, bad_target, nameless, with_user,
  typed_destination, resolve_target, resolve,
}

-- The first text that is not empty, and the first port that is not 0.
abbrev pub first_text : List Text → Text
first_text [] = []
first_text (t ∷ ts) = if is_empty t then first_text ts else t

abbrev pub first_port : List ℤ → ℤ
first_port [] = pos 22
first_port (p ∷ ps) = if p == pos 0 then first_port ps else p

abbrev pub config_text : Option Config → Text → Text → Text
config_text none alias key = []
config_text (some get) alias key = or_text [] (set_value (get alias key))

abbrev pub config_port : Option Config → Text → ℤ
config_port none alias = pos 0
config_port (some get) alias = or_port (pos 0) (parsed_port (set_value (get alias (codes "Port"))))

-- The sources in the order in which they count: the command line, what was typed, the ssh
-- configuration, and the default.
abbrev pub user_sources : Text → Option Config → Overrides → Target → List Text
user_sources current cfg ov t =
    ov.user ∷ t.user ∷ config_text cfg t.host (codes "User") ∷ current ∷ []

abbrev pub port_sources : Option Config → Overrides → Target → List ℤ
port_sources cfg ov t = ov.port ∷ pos t.port ∷ config_port cfg t.host ∷ []

-- A destination has the user and the port that are given; it is refused if there is no user.
abbrev pub Takes : Text → ℤ → Resolved → Type 0
Takes user port (resolved d) = (d.user ≡ user) × (d.port ≡ port) × (is_empty user ≡ false)
Takes user port (bad_target e) = ⊥
Takes user port nameless = is_empty user ≡ true

with_user-Takes : (d : Destination) → Takes d.user d.port (with_user d)
with_user-Takes d = elim (Bool-cases (is_empty d.user)) [
  | inl q ↦ rw q q
  | inr q ↦ rw q (refl, refl, q)
]

is_empty-nil : (t : Text) → is_empty t ≡ true → t ≡ []
is_empty-nil [] h = refl
is_empty-nil (c ∷ t) h = cc

module _ (expand : Text → Text) (current : Text) (ov : Overrides) (t : Target) where
  abbrev settled : Option Config → Destination
  settled cfg =
      with_defaults current
        (with_overrides expand ov (with_config expand cfg (typed_destination t)))

  settled-user :
      (cfg : Option Config) → (settled cfg).user ≡ first_text (user_sources current cfg ov t)
  unfolding with_defaults with_overrides with_config
  settled-user none = ground (arith, is_empty-nil current, is_empty-nil t.user)
  settled-user (some get) = ground (
    arith,
    is_empty-nil current,
    is_empty-nil t.user,
    is_empty-nil (or_text [] (set_value (get t.host (codes "User")))),
  )

  settled-port : (cfg : Option Config) → (settled cfg).port ≡ first_port (port_sources cfg ov t)
  unfolding with_defaults with_overrides with_config
  settled-port none = ground (arith, eqb_ℤ_iff (pos t.port) (pos 0), eqb_ℤ_iff ov.port (pos 0))
  settled-port (some get) =
      ground (arith, eqb_ℤ_iff (pos t.port) (pos 0), eqb_ℤ_iff ov.port (pos 0))

  -- A destination that can be read gets the first user of the command line, what was typed, the ssh
  -- configuration and the current user that is not empty, and the first port of the first three that
  -- is not 0, or else 22. It is refused exactly if there is no user at all.
  pub resolve-Takes :
      (raw : Text) (cfg : Option Config)
      → parse_target raw ≡ target t
      → Takes
          (first_text (user_sources current cfg ov t))
          (first_port (port_sources cfg ov t))
          (resolve expand current raw cfg ov)
  unfolding resolve resolve_target
  resolve-Takes raw cfg h =
      rw (resolve, h)
        (subst (λ u. Takes u (first_port (port_sources cfg ov t)) (with_user (settled cfg)))
          (settled-user cfg)
          (subst (λ p. Takes (settled cfg).user p (with_user (settled cfg))) (settled-port cfg)
            (with_user-Takes (settled cfg))))
