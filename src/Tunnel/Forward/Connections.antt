-- ===== src/Tunnel/Forward/Connections.antt =====
-- internal/tunnel/forward.go: the connections of a forwarder. Each step is one that a goroutine of
-- `handle` makes on the shared counters, and they interleave in any order.
use autotun.Base.{
  ℕ, suc, ◌+◌, ◌-◌, ◌≡◌, refl, inl, inr, Bool, true, false, List, [], ◌∷◌, Option, none, some,
  arith, length, nat_eq, ◌==◌, if◌then◌else◌, Bool-cases,
}
use autotun.Assoc.{lookup, insert, delete}
use autotun.Text.{Text}
use autotun.Tunnel.Forward.{Forwarder, new_forwarder, u64}

-- Which of the two directions of a connection are still copied.
pub record Conn : Type 0 where
  pub outward : Bool
  pub inward : Bool

-- The forwarder, and its connections by the number of the accepted one.
pub record Link : Type 0 where
  pub fwd : Forwarder
  pub conns : List (ℕ × Conn)

-- `setErr` with an error.
unfoldable pub set_err : Forwarder → Text → Forwarder
set_err f e = record f { last_err = e }

-- A connection whose dial succeeded is counted.
unfoldable pub count_dial : Forwarder → Forwarder
count_dial f = record f { active = suc f.active; total = u64 (f.total + 1) }

-- The end of the two copies, with the time that `touch` stores.
unfoldable pub count_out : Forwarder → ℕ → ℕ → Forwarder
count_out f n now = record f { bytes_out = u64 (f.bytes_out + n); last = now }

unfoldable pub count_in : Forwarder → ℕ → ℕ → Forwarder
count_in f n now = record f { bytes_in = u64 (f.bytes_in + n); last = now }

-- The deferred decrement of `handle`.
unfoldable pub count_end : Forwarder → Forwarder
count_end f = record f { active = f.active - 1 }

-- A dial fails or succeeds; the copy of a direction ends, once for each; and when both have ended
-- the connection does.
pub data Step : Link → Link → Type 0 where
  fails : (l : Link) (e : Text) → Step l (record l { fwd = set_err l.fwd e })
  dials :
      (l : Link) (k : ℕ)
      → lookup k l.conns ≡ none
      → Step l (record {
        fwd = count_dial l.fwd;
        conns = insert k (record { outward = true; inward = true }) l.conns;
      })
  ends_out :
      (l : Link) (k : ℕ) (c : Conn) (n now : ℕ)
      → lookup k l.conns ≡ some c
      → c.outward ≡ true
      → Step l (record {
        fwd = count_out l.fwd n now;
        conns = insert k (record c { outward = false }) l.conns;
      })
  ends_in :
      (l : Link) (k : ℕ) (c : Conn) (n now : ℕ)
      → lookup k l.conns ≡ some c
      → c.inward ≡ true
      → Step l (record {
        fwd = count_in l.fwd n now;
        conns = insert k (record c { inward = false }) l.conns;
      })
  closes :
      (l : Link) (k : ℕ)
      → lookup k l.conns ≡ some (record { outward = false; inward = false })
      → Step l (record { fwd = count_end l.fwd; conns = delete k l.conns })

pub data Reach (s : Link) : Link → Type 0 where
  here : Reach s s
  next : {l m : Link} → Reach s l → Step l m → Reach s m

abbrev has : Option Conn → Bool
has none = false
has (some c) = true

length-insert :
    (k : ℕ) (c : Conn) (cs : List (ℕ × Conn))
    → length (insert k c cs) ≡ (if has (lookup k cs) then length cs else suc (length cs))
unfolding lookup insert
length-insert k c [] = refl
length-insert k c ((j, d) ∷ cs) = elim (Bool-cases (j == k)) [
  | inl q ↦ rw q
  | inr q ↦ rw q (ground (arith, length-insert k c cs))
]

length-delete :
    (k : ℕ) (cs : List (ℕ × Conn))
    → length cs ≡ (if has (lookup k cs) then suc (length (delete k cs)) else length (delete k cs))
unfolding lookup delete
length-delete k [] = refl
length-delete k ((j, d) ∷ cs) = elim (Bool-cases (j == k)) [
  | inl q ↦ rw q
  | inr q ↦ rw q (ground (arith, length-delete k cs))
]

abbrev IsCounted : Link → Type 0
IsCounted l = l.fwd.active ≡ length l.conns

Step-IsCounted : {l m : Link} → Step l m → IsCounted l → IsCounted m
unfolding set_err count_dial count_out count_in count_end
Step-IsCounted (fails l e) h = h
Step-IsCounted (dials l k q) h =
    ground (arith, h, length-insert k (record { outward = true; inward = true }) l.conns, q)
Step-IsCounted (ends_out l k c n now q o) h =
    ground (arith, h, length-insert k (record c { outward = false }) l.conns, q)
Step-IsCounted (ends_in l k c n now q o) h =
    ground (arith, h, length-insert k (record c { inward = false }) l.conns, q)
Step-IsCounted (closes l k q) h = ground (arith, h, length-delete k l.conns, q)

-- Whatever the connections of a new forwarder do, in whatever order, the number of active ones that
-- it reports is the number of those that are open: none is forgotten, and none is counted twice.
pub Reach-active :
    (local dialer now : ℕ) (addr : Text) (remapped : Bool) (l : Link)
    → Reach (record { fwd = new_forwarder local dialer addr remapped now; conns = [] }) l
    → l.fwd.active ≡ length l.conns
unfolding new_forwarder
Reach-active local dialer now addr remapped l here = refl
Reach-active local dialer now addr remapped l (next r s) =
    Step-IsCounted s (Reach-active local dialer now addr remapped _ r)
