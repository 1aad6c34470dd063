-- ===== src/App/Supervisor/Backoff.antt =====
-- The waiting times of the supervisor (internal/app/app.go).
use autotun.Base.{
  ℕ, suc, ◌+◌, ◌*◌, ◌^◌, ◌≡◌, refl, ap, ◌∙◌, true, false, List, [], ◌∷◌, none, arith, if◌then◌else◌,
  ltb, length, All,
}
use native.Mathlib.Numerals.{unary_clauses}
use autotun.Text.{Text}
use autotun.Tunnel.Manager.{Manager}
use autotun.App.Supervisor.{
  backoff_start, backoff_max, next_backoff, refused, Pass, Supervisor, wait, take_answer, pass,
  passes, supervise,
}

-- A pass whose attempt to connect is refused, and after which the supervisor goes on.
pub record Refused (p : Pass) : Type 0 where
  pub canceled : p.canceled ≡ false
  pub gave_up : p.gave_up ≡ false
  pub why : Text
  pub answer : p.answer ≡ refused why
  pub woken : p.woken ≡ true

-- The waiting time after so many refusals: it doubles up to half a minute.
abbrev pub capped : ℕ → ℕ
capped n = let d = 2 ^ n * backoff_start in if ltb backoff_max d then backoff_max else d

capped_step : (n : ℕ) → next_backoff (capped n) ≡ capped (suc n)
unfolding next_backoff
capped_step n =
    let twice : 2 ^ suc n ≡ 2 ^ n + 2 ^ n = simp unary_clauses (omega arith) in
    rw twice (ground arith)

-- A supervisor that looks for a connection.
pub record Searching (n k : ℕ) (s : Supervisor) : Type 0 where
  pub running : s.returned ≡ false
  pub client : s.client ≡ none
  pub backoff : s.backoff ≡ capped n
  pub attempt : s.attempt ≡ k

pass-Searching :
    (n k : ℕ) (p : Pass) (s : Supervisor)
    → Refused p
    → Searching n k s
    → Searching (suc n) (suc k) (pass s p)
unfolding pass take_answer wait
pass-Searching n k p s h u =
    rw (u.running, h.canceled, u.client, h.answer, h.gave_up, h.woken)
      (record {
        running = refl;
        client = refl;
        backoff = ap next_backoff u.backoff ∙ capped_step n;
        attempt = ap suc u.attempt;
      })

passes-Searching :
    (n k : ℕ) (ps : List Pass) (s : Supervisor)
    → All Refused ps
    → Searching n k s
    → Searching (n + length ps) (k + length ps) (passes s ps)
unfolding passes
passes-Searching n k [] s h u = simp unary_clauses u
passes-Searching n k (p ∷ ps) s h u =
    let later : (i : ℕ) → i + suc (length ps) ≡ suc i + length ps = λ i. omega arith in
    rw (later n, later k)
      (passes-Searching (suc n) (suc k) ps (pass s p) h.1 (pass-Searching n k p s h.0 u))

-- As long as the attempts to connect are refused, a supervisor that begins with no client goes on,
-- has no client, counts the attempts, and will wait after the next one for a second, doubled for
-- each refusal before, but never longer than half a minute.
pub passes-Refused :
    (m : Manager) (ps : List Pass)
    → All Refused ps
    → Searching (length ps) (length ps) (passes (supervise m none) ps)
unfolding supervise
passes-Refused m ps h =
    let s = supervise m none in
    let first : Searching 0 0 s = record {
      running = refl;
      client = refl;
      backoff = refl;
      attempt = refl;
    } in
    let none_before : 0 + length ps ≡ length ps = omega arith in
    rw⁻¹ none_before (passes-Searching 0 0 ps s h first)
