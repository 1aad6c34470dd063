-- ===== src/Tunnel/Forward/Relay.antt =====
-- What `copyReply` (internal/tunnel/forward.go) gives the client.
use mathlib.Core.List.{append_assoc}
use autotun.Base.{
  ℕ, zero, suc, ◌+◌, ◌-◌, ◌≡◌, refl, sym, ap, ◌∙◌, inl, inr, Bool, not, ◌&&◌, List, [], ◌∷◌, ◌++◌,
  arith, ltb, if◌then◌else◌, length, take, drop, take-append-drop, Bool-cases,
}
use autotun.Text.{Text}
use autotun.Tunnel.Forward.{Forwarder, copy_chunks, copy_opening, copy_reply, u64}

-- All that the peer sends.
abbrev pub sent : List Text → Text
sent [] = []
sent (c ∷ cs) = c ++ sent cs

take-append :
    (n : ℕ) (xs ys : Text)
    → take n (xs ++ ys) ≡ (if ltb n (length xs) then take n xs else xs ++ take (n - length xs) ys)
take-append zero [] ys = refl
take-append zero (x ∷ xs) ys = ground arith
take-append (suc n) [] ys = ground arith
take-append (suc n) (x ∷ xs) ys = ground (arith, take-append n xs ys)

copy_chunks-eq : (room : ℕ) (cs : List Text) → copy_chunks room cs ≡ take room (sent cs)
unfolding copy_chunks
copy_chunks-eq zero [] = refl
copy_chunks-eq (suc n) [] = refl
copy_chunks-eq room (c ∷ cs) =
    ground (arith, take-append room c (sent cs), copy_chunks-eq (room - length c) cs)

copy_opening-eq : (room : ℕ) (cs : List Text) → copy_opening room cs ≡ take room (sent cs)
unfolding copy_opening
copy_opening-eq zero [] = refl
copy_opening-eq (suc n) [] = refl
copy_opening-eq room (c ∷ cs) = rw (copy_chunks-eq (room - length (take 8 c)) (drop 8 c ∷ cs)) (
    sym (take-append room (take 8 c) (drop 8 c ++ sent cs))
    ∙ ap (take room) (
        sym (append_assoc (take 8 c) (drop 8 c) (sent cs))
        ∙ ap (λ s. s ++ sent cs) (take-append-drop 8 c)))

-- Whatever the service sends, in whatever chunks, and however many bytes the client still takes:
-- the client is given exactly the bytes sent, in order, up to the first that it does not take, and
-- the counter of received bytes goes up by their number, modulo 2 to the 64.
pub copy_reply-sent :
    (watched : Bool) (f : Forwarder) (room : ℕ) (cs : List Text)
    → let r = copy_reply watched f room cs in
      (r.written ≡ take room (sent cs))
      × (r.fwd.bytes_in ≡ u64 (f.bytes_in + length (take room (sent cs))))
unfolding copy_reply
copy_reply-sent watched f room cs = elim (Bool-cases (watched && not f.sniffed)) [
  | inl e ↦ simp (e, copy_opening-eq room cs) (refl, refl)
  | inr e ↦ simp (e, copy_chunks-eq room cs) (refl, refl)
]
