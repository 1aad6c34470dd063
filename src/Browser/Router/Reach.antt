-- ===== src/Browser/Router/Reach.antt =====
-- What the router (internal/app/browser.go) finds in the table of the tunnel manager.
use autotun.Base.{
  ℕ, ◌≡◌, refl, ◌∙◌, inl, inr, true, false, ◌&&◌, List, [], ◌∷◌, Option, none, some, ◌==◌, nat_eq,
  arith, Bool-cases, Option-cases, All, subst,
}
use autotun.Assoc.{lookup, Finds, All-Finds}
use autotun.Sorting.{All-sort_by}
use autotun.Tunnel.Forward.{Forwarder}
use autotun.Tunnel.Manager.{Manager, Entry, State, hidden, state_of, status_is_active, idle_status}
use autotun.Tunnel.Manager.Control.{forward_now, forward_now_error}
use autotun.Tunnel.Manager.Rows.{states, rows, row_before}
use autotun.Tunnel.Manager.Invariant.{Inv, Keyed}
use autotun.Tunnel.Manager.Edits.{forward_now-Inv}
use autotun.Tunnel.Manager.Steps.{Call, IsCall, run}
use autotun.Tunnel.Manager.History.{run-Inv}
use autotun.Browser.Router.{active_row, tunnel_of, Found, poll, poll_later, await}

-- The table has an open tunnel from a local port to a remote one.
pub record Reaches (m : Manager) (p q : ℕ) : Type 0 where
  pub entry : Entry
  pub forwarder : Forwarder
  pub listed : lookup p m.entries ≡ some entry
  pub opened : entry.fwd ≡ some forwarder
  pub local : forwarder.local ≡ q

-- An active row shows an open tunnel.
abbrev Backed : Manager → State → Type 0
Backed m s = status_is_active s.status ≡ true → Reaches m s.remote_port s.local_port

idle_status_down : (m : Manager) (e : Entry) → status_is_active (idle_status m e) ≡ false
unfolding idle_status
idle_status_down m e = ground arith

state_of-Backed :
    (m : Manager) (k : ℕ) (e : Entry) (o : Option Forwarder)
    → e.fwd ≡ o
    → lookup k m.entries ≡ some e
    → e.svc.port ≡ k
    → Backed m (state_of m e)
unfolding state_of
state_of-Backed m k e none o l p h = absurd (cc (idle_status_down m e, h))
state_of-Backed m k e (some f) o l p h =
    rw (o, p) (record { entry = e; forwarder = f; listed = l; opened = o; local = refl })

rows-Backed :
    (m : Manager) (es : List (ℕ × Entry))
    → All (Finds m.entries) es
    → All Keyed es
    → All (Backed m) (rows m es)
unfolding rows
rows-Backed m [] a k = tt
rows-Backed m ((j, e) ∷ es) a k = elim (Bool-cases (hidden e)) [
  | inl q ↦ rw q (rows-Backed m es a.1 k.1)
  | inr q ↦ rw q (state_of-Backed m j e e.fwd refl a.0 k.0.0, rows-Backed m es a.1 k.1)
]

active_row-Reaches :
    (m : Manager) (p : ℕ) (st : State) (rs : List State)
    → All (Backed m) rs
    → active_row p rs ≡ some st
    → Reaches m p st.local_port
unfolding active_row
active_row-Reaches m p st [] a h = absurd (cc)
active_row-Reaches m p st (r ∷ rs) a h =
    elim (Bool-cases ((r.remote_port == p) && status_is_active r.status)) [
      | inl q ↦
          let shown : status_is_active r.status ≡ true = ground (arith, q) in
          let same : r.remote_port ≡ p = ground (arith, q, nat_eq.beq_iff r.remote_port p) in
          let row : r ≡ st = cc (rw (active_row, q) at h) in
          subst (λ s. Reaches m p s.local_port) row
            (subst (λ i. Reaches m i r.local_port) same (a.0 shown))
      | inr q ↦ active_row-Reaches m p st rs a.1 (rw (active_row, q) at h)
    ]

tunnel_of-Reaches :
    (m : Manager) (p : ℕ) (st : State) → Inv m → tunnel_of p m ≡ some st → Reaches m p st.local_port
unfolding states
tunnel_of-Reaches m p st v h =
    active_row-Reaches m p st (states m)
      (All-sort_by row_before (Backed m) _
        (rows-Backed m m.entries (All-Finds m.entries v.is_map) v.keyed))
      h

-- The polls, and the calls that come in before them, are the monitor's and the user's.
abbrev pub ArePolls : List (List (ℕ × Call)) → Type 0
ArePolls = All (All IsCall)

abbrev Good : ℕ → Found → Type 0
Good p f = Inv f.mgr × ((st : State) → f.row ≡ some st → Reaches f.mgr p st.local_port)

poll-Good :
    (p : ℕ) (polls : List (List (ℕ × Call))) (m : Manager)
    → ArePolls polls
    → Inv m
    → Good p (poll p polls m)
unfolding poll
poll-Good p [] m h v = (v, λ st q. tunnel_of-Reaches m p st v q)
poll-Good p (cs ∷ rest) m h v = elim (Option-cases (tunnel_of p m)) [
  | inl q ↦ rw (q, poll) (poll-Good p rest (run m cs) h.1 (run-Inv m cs h.0 v))
  | inr (st, q) ↦ rw (q, poll) (v, λ s r. tunnel_of-Reaches m p s v (q ∙ r))
]

poll_later-Good :
    (p : ℕ) (polls : List (List (ℕ × Call))) (m : Manager)
    → ArePolls polls
    → Inv m
    → Good p (poll_later p polls m)
poll_later-Good p [] m h v = (v, λ st q. absurd (cc))
poll_later-Good p (cs ∷ rest) m h v = poll-Good p rest (run m cs) h.1 (run-Inv m cs h.0 v)

-- While the router waits for the tunnel of a port, whatever comes in, the manager keeps its
-- invariant; and if the router finds a row, the table has an open tunnel for the port, on the local
-- port of that row.
pub await-Reaches :
    (p : ℕ) (polls : List (List (ℕ × Call))) (now : ℕ) (m : Manager)
    → ArePolls polls
    → Inv m
    → let f = await p polls now m in
      Inv f.mgr × ((st : State) → f.row ≡ some st → Reaches f.mgr p st.local_port)
unfolding await
await-Reaches p polls now m h v = elim (Option-cases (tunnel_of p m)) [
  | inl q ↦
      let m' = (forward_now m p now).mgr in
      let w = forward_now-Inv m p now v in
      elim (Option-cases (forward_now_error m p now)) [
        | inl n ↦ rw (q, n, await) (poll-Good p polls m' h w)
        | inr (e, n) ↦ rw (q, n, await) (poll_later-Good p polls m' h w)
      ]
  | inr (st, q) ↦ rw (q, await) (v, λ s r. tunnel_of-Reaches m p s v (q ∙ r))
]
