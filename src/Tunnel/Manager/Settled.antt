-- ===== src/Tunnel/Manager/Settled.antt =====
-- When an entry is as it should be after `applyLocked` (internal/tunnel/manager.go).
use autotun.Tunnel.Manager.Frame.{close_if_open-closed}
use autotun.Base.{
  ℕ, ◌≡◌, ◌≢◌, refl, sym, ◌∙◌, ap, inl, inr, true, false, Option, none, some, arith, nat_eq,
  list_eq, list_beq_iff, Bool-cases,
}
use autotun.Text.{is_empty}
use autotun.Tunnel.Policy.{Policy, skip_none}
use autotun.Tunnel.Alloc.{Outcome, AllocError, conflict, joined, error_text}
use autotun.Tunnel.Forward.{Forwarder}
use autotun.Tunnel.Manager.{Manager, Entry, want}
use autotun.Tunnel.Manager.Apply.{take_outcome, open_entry, apply}
use autotun.Tunnel.Manager.Frame.{Framed, apply-Framed}

-- An unwanted entry has no tunnel, and none has one while the link is down. While it is up, a
-- wanted entry with no tunnel shows an error.
pub record Settled (p : Policy) (d : Option ℕ) (e : Entry) : Type 0 where
  pub unwanted : (want p e).forward ≡ false → e.fwd ≡ none
  pub offline : d ≡ none → e.fwd ≡ none
  pub wanted : (want p e).forward ≡ true → d ≢ none → e.fwd ≡ none → is_empty e.err ≡ false

-- The verdict depends on these four fields.
pub want_same :
    (p : Policy) (e d : Entry)
    → d.mode ≡ e.mode
    → d.svc ≡ e.svc
    → d.preexisting ≡ e.preexisting
    → d.paused_keep ≡ e.paused_keep
    → want p d ≡ want p e
unfolding want
want_same p e d a b c f = ground arith

pub Settled-same :
    (p : Policy) (o : Option ℕ) (e d : Entry)
    → want p d ≡ want p e
    → d.fwd ≡ e.fwd
    → d.err ≡ e.err
    → Settled p o e
    → Settled p o d
Settled-same p o e d w f r s = record {
  unwanted = λ h. f ∙ s.unwanted (ap (λ x. x.forward) (sym w) ∙ h);
  offline = λ h. f ∙ s.offline h;
  wanted = λ h u n. ap is_empty r ∙ s.wanted (ap (λ x. x.forward) (sym w) ∙ h) u (sym f ∙ n);
}

error_text-ne-nil : (x : AllocError) → is_empty (error_text x) ≡ false
unfolding error_text
error_text-ne-nil (conflict p) = refl
error_text-ne-nil (joined p e) = refl

-- After the allocator's answer there is a tunnel or an error.
take_outcome-done :
    (m : Manager) (e : Entry) (d now : ℕ) (x : Outcome)
    → (take_outcome m e d now x).entry.fwd ≡ none
    → is_empty (take_outcome m e d now x).entry.err ≡ false
unfolding take_outcome
take_outcome-done m e d now (Outcome.opened q r) h = cc
take_outcome-done m e d now (Outcome.failed x) h =
    ground (arith, list_beq_iff e.err (error_text x), error_text-ne-nil x)

open_entry-done :
    (m : Manager) (e : Entry) (o : Option Forwarder) (d : Option ℕ) (now : ℕ)
    → e.fwd ≡ o
    → d ≢ none
    → (open_entry m e o d now).entry.fwd ≡ none
    → is_empty (open_entry m e o d now).entry.err ≡ false
unfolding open_entry
open_entry-done m e (some f) d now q u n = cc
open_entry-done m e none none now q u n = absurd (u refl)
open_entry-done m e none (some d) now q u n = take_outcome-done _ e d now _ n

open_entry-offline :
    (m : Manager) (e : Entry) (o : Option Forwarder) (d : Option ℕ) (now : ℕ)
    → o ≡ none
    → e.fwd ≡ none
    → d ≡ none
    → (open_entry m e o d now).entry.fwd ≡ none
unfolding open_entry
open_entry-offline m e (some f) d now h q u = cc
open_entry-offline m e none none now h q u = q
open_entry-offline m e none (some d) now h q u = cc

abbrev cleared : Entry → Entry
cleared e = record e { skip = skip_none }

apply_wanted :
    (m : Manager) (e : Entry) (now : ℕ)
    → (want m.policy e).forward ≡ true
    → apply m e now ≡ open_entry m (cleared e) e.fwd m.dialer now
unfolding apply
apply_wanted m e now f = rw f

apply_unwanted :
    (m : Manager) (e : Entry) (now : ℕ)
    → (want m.policy e).forward ≡ false
    → (apply m e now).entry.fwd ≡ none
unfolding apply
apply_unwanted m e now f = rw f (close_if_open-closed m _ e.fwd _ now refl)

-- `applyLocked` leaves its entry settled, if no tunnel is open while the link is down.
pub apply-Settled :
    (m : Manager) (e : Entry) (now : ℕ)
    → (m.dialer ≡ none → e.fwd ≡ none)
    → Settled m.policy m.dialer (apply m e now).entry
apply-Settled m e now down = elim (Bool-cases (want m.policy e).forward) [
  | inl f ↦ record {
    unwanted = λ h. cc (f, h, verdict);
    offline = λ d.
        ap (λ a. a.entry.fwd) (apply_wanted m e now f)
        ∙ open_entry-offline m (cleared e) e.fwd m.dialer now (down d) (down d) d;
    wanted = λ h u n.
        ap (λ a. is_empty a.entry.err) (apply_wanted m e now f)
        ∙ open_entry-done m (cleared e) e.fwd m.dialer now refl u
            (sym (ap (λ a. a.entry.fwd) (apply_wanted m e now f)) ∙ n);
  }
  | inr f ↦ record {
    unwanted = λ h. apply_unwanted m e now f;
    offline = λ d. apply_unwanted m e now f;
    wanted = λ h u n. cc (f, h, verdict);
  }
]
  where
    a : Framed m e (apply m e now)
    a = apply-Framed m e now

    verdict : (want m.policy (apply m e now).entry).forward ≡ (want m.policy e).forward
    verdict =
        ap (λ w. w.forward)
          (want_same m.policy e (apply m e now).entry a.mode a.svc a.preexisting a.paused_keep)
