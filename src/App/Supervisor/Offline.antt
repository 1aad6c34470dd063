-- ===== src/App/Supervisor/Offline.antt =====
-- The supervisor (internal/app/app.go) and the tunnels of the manager (internal/tunnel/manager.go).
use autotun.Base.{
  ℕ, ◌≡◌, refl, false, sym, ap, ◌∙◌, inl, inr, ◌||◌, List, [], ◌∷◌, Option, none, some, arith,
  nat_eq, count, All, Bool-cases,
}
use autotun.Text.{Text}
use autotun.Config.Store.{Store}
use autotun.Tunnel.Policy.{Policy}
use autotun.Tunnel.Alloc.{Allocator, Os}
use autotun.Assoc.{lookup, Finds, All-Finds}
use autotun.Tunnel.Manager.{Manager, Entry, new}
use autotun.Tunnel.Manager.Control.{set_dialer}
use autotun.Tunnel.Manager.Balance.{fwd_holds, holders}
use autotun.Tunnel.Manager.Invariant.{Inv}
use autotun.Tunnel.Manager.Switches.{set_dialer-Inv}
use autotun.Tunnel.Manager.Converge.{AllSettled}
use autotun.Tunnel.Manager.Outcome.{set_dialer-AllSettled}
use autotun.Tunnel.Manager.Link.{LeavesLink, run_link, set_dialer_link}
use autotun.Tunnel.Manager.Steps.{Call, IsCall, run}
use autotun.Tunnel.Manager.History.{run-Inv, run-AllSettled, new-Inv, new-AllSettled}
use autotun.App.Supervisor.{
  Connection, refused, linked, Pass, Supervisor, wait, session, take_answer, with_client, pass,
  passes, supervise,
}

-- The manager is in order, and its link is the given one.
pub record Up (m : Manager) (d : Option ℕ) : Type 0 where
  pub inv : Inv m
  pub settled : AllSettled m
  pub link : m.dialer ≡ d

abbrev pub Proper : List (ℕ × Call) → Type 0
Proper cs = All IsCall cs × All LeavesLink cs

run-Up : (m : Manager) (d : Option ℕ) (cs : List (ℕ × Call)) → Proper cs → Up m d → Up (run m cs) d
run-Up m d cs h u = record {
  inv = run-Inv m cs h.0 u.inv;
  settled = run-AllSettled m cs h.0 u.inv u.settled;
  link = run_link m cs h.1 ∙ u.link;
}

set_dialer-Up : (m : Manager) (o d : Option ℕ) (now : ℕ) → Up m o → Up (set_dialer m d now).mgr d
set_dialer-Up m o d now u = record {
  inv = set_dialer-Inv m d now u.inv;
  settled = set_dialer-AllSettled m d now;
  link = set_dialer_link m d now;
}

new-Up :
    (a : Allocator) (os : Os) (client : Option ℕ) (p : Policy) (g : ℕ) (h : Text)
    (st : Option Store)
    → os.ours ≡ []
    → Up (new a os client p g h st) client
unfolding new
new-Up a os client p g h st o = record {
  inv = new-Inv a os client p g h st o;
  settled = new-AllSettled a os client p g h st;
  link = refl;
}

-- The calls of a pass are the monitor's, the user's and the browser bridge's, with scans as the
-- monitor makes them.
abbrev pub IsPass : Pass → Type 0
IsPass p = Proper p.calls × Proper p.idle

abbrev pub Joined : Supervisor → Type 0
Joined s = Up s.mgr s.client

wait-Joined : (p : Pass) (s : Supervisor) → IsPass p → Joined s → Joined (wait p s)
unfolding wait
wait-Joined p s h u = elim (Bool-cases p.woken) [
  | inl q ↦ simp q (run-Up s.mgr s.client p.idle h.1 u)
  | inr q ↦ simp q (run-Up s.mgr s.client p.idle h.1 u)
]

session-Joined :
    (p : Pass) (s : Supervisor) (d : Option ℕ) → IsPass p → Up s.mgr d → Joined (session p s)
unfolding session
session-Joined p s d h u =
    let v = set_dialer-Up (run s.mgr p.calls) d none p.ended (run-Up s.mgr d p.calls h.0 u) in
    elim (Bool-cases p.quit) [ inl q ↦ simp q v | inr q ↦ simp q (wait-Joined p _ h v) ]

take_answer-Joined :
    (p : Pass) (a : Connection) (s : Supervisor) → IsPass p → Joined s → Joined (take_answer p a s)
unfolding take_answer
take_answer-Joined p (refused why) s h u = elim (Bool-cases p.gave_up) [
  | inl q ↦ simp q u
  | inr q ↦ simp q (wait-Joined p _ h u)
]
take_answer-Joined p (linked c) s h u =
    session-Joined p _ (some c) h (set_dialer-Up s.mgr s.client (some c) p.answered u)

with_client-Joined :
    (p : Pass) (s : Supervisor) (o : Option ℕ) → IsPass p → Joined s → Joined (with_client p s o)
with_client-Joined p s none h u = take_answer-Joined p p.answer _ h u
with_client-Joined p s (some c) h u = session-Joined p s s.client h u

pass-Joined : (p : Pass) (s : Supervisor) → IsPass p → Joined s → Joined (pass s p)
unfolding pass
pass-Joined p s h u = elim (Bool-cases (s.returned || p.canceled)) [
  | inl q ↦ simp q u
  | inr q ↦ simp q (with_client-Joined p s s.client h u)
]

passes-Joined : (ps : List Pass) (s : Supervisor) → All IsPass ps → Joined s → Joined (passes s ps)
unfolding passes
passes-Joined [] s h u = u
passes-Joined (p ∷ ps) s h u = passes-Joined ps (pass s p) h.1 (pass-Joined p s h.0 u)

-- A table with no tunnel holds no port.
holders-none :
    (p : ℕ) (es : List (ℕ × Entry)) → All (λ (q : ℕ × Entry). q.1.fwd ≡ none) es → holders p es ≡ 0
holders-none p [] h = refl
holders-none p ((k, e) ∷ es) h = omega (arith, ap (fwd_holds p) h.0, holders-none p es h.1)

closed_all :
    (m : Manager) (es : List (ℕ × Entry))
    → AllSettled m
    → m.dialer ≡ none
    → All (Finds m.entries) es
    → All (λ (q : ℕ × Entry). q.1.fwd ≡ none) es
closed_all m [] u d h = tt
closed_all m ((k, e) ∷ es) u d h = ((u k e h.0).offline d, closed_all m es u d h.1)

-- Between two passes there is no client.
wait-client : (p : Pass) (s : Supervisor) → (wait p s).client ≡ s.client
unfolding wait
wait-client p s = ground arith

session-client : (p : Pass) (s : Supervisor) → (session p s).client ≡ none
unfolding session
session-client p s = elim (Bool-cases p.quit) [
  | inl q ↦ simp q refl
  | inr q ↦ simp q (wait-client p _)
]

take_answer-client :
    (p : Pass) (a : Connection) (s : Supervisor)
    → s.client ≡ none
    → (take_answer p a s).client ≡ none
unfolding take_answer
take_answer-client p (refused why) s n = elim (Bool-cases p.gave_up) [
  | inl q ↦ simp q n
  | inr q ↦ simp q (wait-client p _ ∙ n)
]
take_answer-client p (linked c) s n = session-client p _

with_client-client :
    (p : Pass) (s : Supervisor) (o : Option ℕ) → s.client ≡ o → (with_client p s o).client ≡ none
with_client-client p s none n = take_answer-client p p.answer _ n
with_client-client p s (some c) n = session-client p s

pass-client : (p : Pass) (s : Supervisor) → (pass s p).returned ≡ false → (pass s p).client ≡ none
unfolding pass
pass-client p s h = elim (Bool-cases (s.returned || p.canceled)) [
  | inl q ↦ absurd (cc (rw (pass, q) at h))
  | inr q ↦ simp q (with_client-client p s s.client refl)
]

passes-client :
    (p : Pass) (ps : List Pass) (s : Supervisor)
    → (passes s (p ∷ ps)).returned ≡ false
    → (passes s (p ∷ ps)).client ≡ none
unfolding passes
passes-client p [] s h = pass-client p s h
passes-client p (q ∷ ps) s h = passes-client q ps (pass s p) h

-- Whatever happens to the connections of a supervisor, whose manager is a fresh one, of a process
-- that listens on nothing, on the client that the supervisor begins with: as long as the supervisor
-- has not returned, between two passes of its loop the manager has no tunnel, and the process
-- listens on no port.
pub passes_offline :
    (a : Allocator) (os : Os) (client : Option ℕ) (pol : Policy) (g : ℕ) (host : Text)
    (st : Option Store) (p : Pass) (ps : List Pass)
    → os.ours ≡ []
    → All IsPass (p ∷ ps)
    → (passes (supervise (new a os client pol g host st) client) (p ∷ ps)).returned ≡ false
    → let n = (passes (supervise (new a os client pol g host st) client) (p ∷ ps)).mgr in
      ((k : ℕ) (e : Entry) → lookup k n.entries ≡ some e → e.fwd ≡ none)
      × ((i : ℕ) → count i n.os.ours ≡ 0)
unfolding supervise
passes_offline a os client pol g host st p ps o h r =
    let s = supervise (new a os client pol g host st) client in
    let n = (passes s (p ∷ ps)).mgr in
    let j = passes-Joined (p ∷ ps) s h (new-Up a os client pol g host st o) in
    let d = j.link ∙ passes-client p ps s r in
    (
      λ k e l. (j.settled k e l).offline d,
      λ i.
          sym (j.inv.owned i)
          ∙ holders-none i n.entries
              (closed_all n n.entries j.settled d (All-Finds n.entries j.inv.is_map)),
    )
