-- ===== src/Tunnel/Manager/Frame.antt =====
-- What `applyLocked` and `closeLocked` (internal/tunnel/manager.go) leave alone.
use autotun.Base.{ℕ, ◌≡◌, refl, Option, none, some, arith, nat_eq, list_eq}
use autotun.Text.{Text}
use autotun.Tunnel.Policy.{skip_none, skip_text}
use autotun.Tunnel.Alloc.{Outcome, allocate}
use autotun.Tunnel.Forward.{Forwarder}
use autotun.Tunnel.Manager.{Manager, Entry, want}
use autotun.Tunnel.Manager.Apply.{
  Applied, close, close_if_open, take_outcome, with_allocated, open_entry, apply,
}

-- Only the allocator and the system change of the manager, and only the forwarder, the skip reason
-- and the error of the entry.
pub record Framed (m : Manager) (e : Entry) (a : Applied) : Type 0 where
  pub entries : (a.mgr).entries ≡ m.entries
  pub policy : (a.mgr).policy ≡ m.policy
  pub dialer : (a.mgr).dialer ≡ m.dialer
  pub grace : (a.mgr).grace ≡ m.grace
  pub settings : (a.mgr).settings ≡ m.settings
  pub host : (a.mgr).host ≡ m.host
  pub svc : (a.entry).svc ≡ e.svc
  pub mode : (a.entry).mode ≡ e.mode
  pub preexisting : (a.entry).preexisting ≡ e.preexisting
  pub paused_keep : (a.entry).paused_keep ≡ e.paused_keep
  pub missing : (a.entry).missing ≡ e.missing
  pub label : (a.entry).label ≡ e.label
  pub scheme : (a.entry).scheme ≡ e.scheme
  pub pinned : (a.entry).pinned ≡ e.pinned
  pub pinned_local : (a.entry).pinned_local ≡ e.pinned_local

pub close_if_open-Framed :
    (m : Manager) (e : Entry) (o : Option Forwarder) (reason : Text) (now : ℕ)
    → Framed m e (close_if_open m e o reason now)
unfolding close_if_open close
close_if_open-Framed m e none reason now = ground arith
close_if_open-Framed m e (some f) reason now = ground arith

take_outcome-Framed :
    (m : Manager) (e : Entry) (d now : ℕ) (x : Outcome) → Framed m e (take_outcome m e d now x)
unfolding take_outcome
take_outcome-Framed m e d now (Outcome.opened q r) = ground arith
take_outcome-Framed m e d now (Outcome.failed x) = ground arith

open_entry-Framed :
    (m : Manager) (e : Entry) (o : Option Forwarder) (dialer : Option ℕ) (now : ℕ)
    → Framed m e (open_entry m e o dialer now)
unfolding open_entry
open_entry-Framed m e (some f) dialer now = ground arith
open_entry-Framed m e none none now = ground arith
open_entry-Framed m e none (some d) now =
    let r = allocate m.alloc m.os e.svc.port e.pinned_local in
    ground (arith, take_outcome-Framed (with_allocated m r) e d now r.outcome)

pub apply-Framed : (m : Manager) (e : Entry) (now : ℕ) → Framed m e (apply m e now)
unfolding apply
apply-Framed m e now = ground (
  arith,
  open_entry-Framed m (record e { skip = skip_none }) e.fwd m.dialer now,
  close_if_open-Framed m (record e { skip = (want m.policy e).skip }) e.fwd
      (skip_text (want m.policy e).skip) now,
)

pub close_if_open-closed :
    (m : Manager) (e : Entry) (o : Option Forwarder) (reason : Text) (now : ℕ)
    → e.fwd ≡ o
    → (close_if_open m e o reason now).entry.fwd ≡ none
unfolding close_if_open close
close_if_open-closed m e none reason now q = q
close_if_open-closed m e (some f) reason now q = refl
