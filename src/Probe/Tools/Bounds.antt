-- ===== src/Probe/Tools/Bounds.antt =====
-- What the parsers of internal/probe/parse.go report of a listener, whatever the tools print.
use autotun.Base.{
  ℕ, ◌≤◌, ◌≡◌, refl, inl, inr, false, not, ◌||◌, List, [], ◌∷◌, Option, none, some, arith, ◌==◌,
  nat_eq, int_eq, if◌then◌else◌, ltb, length, reverse, All, All-append, Bool-cases, Option-cases, ℤ,
  pos, negsuc, subst, sym,
}
use mathlib.Core.List.{reverse-cons}
use autotun.Text.{Text, codes, is_empty, trim_space, trim_brackets, cut_last, fields, contains}
use autotun.Text.Decimal.{atoi}
use autotun.Probe.Merge.{Listener}
use autotun.Probe.Parse.{
  port_in_range, drop_zone, clean_host, split_host_port, proto_for, trim_return, lines_of, field,
  is_listen, with_process, listener_at, push, drop_netid, parse_ss_users, ss_listener, amend,
  is_indented, ss_line, ss_lines, parse_ss,
}
use autotun.Probe.Tools.{
  netstat_process, netstat_proto, is_tcp, netstat_listener, netstat_lines, parse_netstat, LsofState,
  lsof_name, lsof_listener, lsof_step, lsof_found, lsof_lines, parse_lsof,
}

-- A port from 0 to 65535, and an address that is not empty.
abbrev pub IsReport : Listener → Type 0
IsReport l = ((n : ℕ) × (l.port ≡ pos n) × (n ≤ 65535)) × (is_empty l.addr ≡ false)

abbrev Reports : Option Listener → Type 0
Reports none = Unit {0}
Reports (some l) = IsReport l

abbrev IsAddress : Option (Text × ℕ) → Type 0
IsAddress none = Unit {0}
IsAddress (some (h, p)) = (p ≤ 65535) × (is_empty h ≡ false)

clean_host_full : (h : Text) → is_empty (clean_host h) ≡ false
unfolding clean_host
clean_host_full h = pick (drop_zone (trim_brackets h))
  where
    pick : (t : Text) → is_empty (if is_empty t then codes "0.0.0.0" else t) ≡ false
    pick [] = refl
    pick (c ∷ t) = refl

port_in_range-le : (o : Option ℤ) (n : ℕ) → port_in_range o ≡ some n → n ≤ 65535
unfolding port_in_range
port_in_range-le none n h = absurd (cc)
port_in_range-le (some (negsuc k)) n h = absurd (cc)
port_in_range-le (some (pos k)) n h = ground (arith, h)

split_host_port-IsAddress : (s : Text) → IsAddress (split_host_port s)
unfolding split_host_port
split_host_port-IsAddress s = elim (Option-cases (cut_last b':' s)) [
  | inl q ↦ simp (q, split_host_port) tt
  | inr ((h, p), q) ↦ elim (Option-cases (port_in_range (atoi p))) [
    | inl r ↦ simp (q, r, split_host_port) tt
    | inr (n, r) ↦ simp (q, r, split_host_port) (port_in_range-le (atoi p) n r, clean_host_full h)
  ]
]

with_process-IsReport :
    (u : Option (Text × ℤ)) (l : Listener) → IsReport l → IsReport (with_process u l)
with_process-IsReport none l r = r
with_process-IsReport (some (name, pid)) l r = r

amend-IsReport : (u : Option (Text × ℤ)) (l : Listener) → IsReport l → IsReport (amend u l)
amend-IsReport u l r = elim (Bool-cases (l.pid == pos 0)) [
  | inl q ↦ rw q (with_process-IsReport u l r)
  | inr q ↦ rw q r
]

push-IsReport :
    (o : Option Listener) (ls : List Listener)
    → Reports o
    → All IsReport ls
    → All IsReport (push o ls)
push-IsReport none ls r a = a
push-IsReport (some l) ls r a = (r, a)

-- What the three parsers do with the address of a line.
address-Reports :
    (f : Text → ℕ → Listener) (o : Option (Text × ℕ))
    → ((h : Text) (p : ℕ) → (p ≤ 65535) × (is_empty h ≡ false) → IsReport (f h p))
    → IsAddress o
    → Reports (elim o [ none ↦ none | some (h, p) ↦ some (f h p) ])
address-Reports f none g a = tt
address-Reports f (some (h, p)) g a = g h p a

ss_listener-Reports : (line : Text) → Reports (ss_listener line)
unfolding ss_listener
ss_listener-Reports line =
    elim (Bool-cases (
      ltb (length (fields line)) 4
      || (not (is_listen (field 0 (drop_netid (fields line))))
          || ltb (length (drop_netid (fields line))) 4))) [
            | inl q ↦ rw q tt
            | inr q ↦ rw q (
                address-Reports
                  (λ h p. with_process (parse_ss_users line) (listener_at (proto_for h) h p))
                  (split_host_port (field 3 (drop_netid (fields line))))
                  (λ h p a.
                    with_process-IsReport (parse_ss_users line) (listener_at (proto_for h) h p)
                      ((p, refl, a.0), a.1))
                  (split_host_port-IsAddress (field 3 (drop_netid (fields line)))))
          ]

ss_line-IsReport :
    (line : Text) (res : List Listener) → All IsReport res → All IsReport (ss_line line res)
unfolding ss_line
ss_line-IsReport line [] a = elim (Bool-cases (is_empty (trim_space line))) [
  | inl q ↦ rw q tt
  | inr q ↦ rw q (push-IsReport (ss_listener line) [] (ss_listener-Reports line) tt)
]
ss_line-IsReport line (l ∷ res) a = elim (Bool-cases (is_empty (trim_space line))) [
  | inl q ↦ rw q a
  | inr q ↦ elim (Bool-cases (is_indented line)) [
    | inl i ↦ rw (q, i) (amend-IsReport (parse_ss_users line) l a.0, a.1)
    | inr i ↦ rw (q, i) (push-IsReport (ss_listener line) (l ∷ res) (ss_listener-Reports line) a)
  ]
]

All-reverse {ℓ κ} : {A : Type ℓ} (P : A → Type κ) (xs : List A) → All P xs → All P (reverse xs)
All-reverse P [] a = tt
All-reverse P (x ∷ xs) a =
    subst (All P) (sym (reverse-cons x xs))
      (All-append P (reverse xs) (x ∷ []) (All-reverse P xs a.1) (a.0, tt))

ss_lines-IsReport :
    (ls : List Text) (res : List Listener) → All IsReport res → All IsReport (ss_lines ls res)
ss_lines-IsReport [] res a = All-reverse IsReport res a
ss_lines-IsReport (line ∷ ls) res a =
    ss_lines-IsReport ls (ss_line (trim_return line) res)
      (ss_line-IsReport (trim_return line) res a)

netstat_listener-Reports : (f : List Text) → Reports (netstat_listener f)
unfolding netstat_listener
netstat_listener-Reports f =
    elim (Bool-cases
      (ltb (length f) 6 || (not (is_tcp (field 0 f)) || not (is_listen (field 5 f))))) [
        | inl q ↦ rw q tt
        | inr q ↦ rw q (
            address-Reports
              (λ h p.
                with_process (netstat_process f) (listener_at (netstat_proto (field 0 f)) h p))
              (split_host_port (field 3 f))
              (λ h p a.
                with_process-IsReport (netstat_process f)
                  (listener_at (netstat_proto (field 0 f)) h p) ((p, refl, a.0), a.1))
              (split_host_port-IsAddress (field 3 f)))
      ]

netstat_lines-IsReport : (ls : List Text) → All IsReport (netstat_lines ls)
netstat_lines-IsReport [] = tt
netstat_lines-IsReport (line ∷ ls) =
    push-IsReport (netstat_listener (fields (trim_return line))) (netstat_lines ls)
      (netstat_listener-Reports (fields (trim_return line))) (netstat_lines-IsReport ls)

lsof_listener-Reports : (st : LsofState) (val : Text) → Reports (lsof_listener st val)
unfolding lsof_listener
lsof_listener-Reports st val = elim (Bool-cases (contains (lsof_name val) (codes "->"))) [
  | inl q ↦ rw q tt
  | inr q ↦ rw q (
      address-Reports
        (λ h p. record (listener_at (proto_for h) h p) { pid = st.pid; proc = st.cmd })
        (split_host_port (lsof_name val)) (λ h p a. ((p, refl, a.0), a.1))
        (split_host_port-IsAddress (lsof_name val)))
]

lsof_found-Reports : (st : LsofState) (line : Text) → Reports (lsof_found st line)
unfolding lsof_found
lsof_found-Reports st [] = tt
lsof_found-Reports st (c ∷ val) = elim (Bool-cases (c == b'n')) [
  | inl q ↦ rw q (lsof_listener-Reports st val)
  | inr q ↦ rw q tt
]

lsof_lines-IsReport : (st : LsofState) (ls : List Text) → All IsReport (lsof_lines st ls)
lsof_lines-IsReport st [] = tt
lsof_lines-IsReport st (line ∷ ls) =
    push-IsReport (lsof_found st (trim_return line)) _ (lsof_found-Reports st (trim_return line))
      (lsof_lines-IsReport (lsof_step st (trim_return line)) ls)

-- Whatever ss, netstat or lsof print, each listener that the parsers report has a port from 0 to
-- 65535 and an address that is not empty.
pub parse-IsReport :
    (out : Text)
    → All IsReport (parse_ss out) × All IsReport (parse_netstat out) × All IsReport (parse_lsof out)
unfolding parse_ss parse_netstat parse_lsof
parse-IsReport out = (
  ss_lines-IsReport (lines_of out) [] tt,
  netstat_lines-IsReport (lines_of out),
  lsof_lines-IsReport _ (lines_of out),
)
