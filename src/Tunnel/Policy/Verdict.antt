-- ===== src/Tunnel/Policy/Verdict.antt =====
-- What `Policy.Eval` (internal/tunnel/policy.go) lets through.
use autotun.Base.{◌≡◌, ◌↔◌, ◌⊎◌, Bool, true, false, [], arith, ◌<ℤ◌, pos}
use autotun.Probe.Service.{Service, loopback_only}
use autotun.Tunnel.PortSet.{contains}
use autotun.Tunnel.Policy.{Policy, skip_none, bind_any, eval}

-- Within the window of the flags, and not on the host before autotun was.
pub record InWindow (p : Policy) (svc : Service) (pre : Bool) : Type 0 where
  pub no_include : p.include ≡ []
  pub above : ¬ (pos svc.port <ℤ p.min_port)
  pub below : ¬ (p.max_port <ℤ pos svc.port)
  pub loop : (p.remote_bind ≡ bind_any) ⊎ (loopback_only svc ≡ true)
  pub fresh : (pre ≡ false) ⊎ (p.existing ≡ true)

-- A service is forwarded if and only if its port is not excluded, the policy does not pause, and
-- either an include entry names the port, or there are no include entries and the port is in the
-- window, the service listens where the policy asks it to, and it is new or existing ones count.
pub eval_forwards :
    (p : Policy) (svc : Service) (pre : Bool)
    → (eval p svc pre ≡ skip_none) ↔ (
        (contains p.exclude svc.port ≡ false)
        × (p.paused ≡ false)
        × ((contains p.include svc.port ≡ true) ⊎ InWindow p svc pre))
unfolding eval
eval_forwards p svc pre = ground arith
