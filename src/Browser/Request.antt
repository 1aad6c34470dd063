-- ===== src/Browser/Request.antt =====
-- Who can have a URL opened by the browser bridge (internal/browser/bridge.go).
use autotun.Base.{
  ℕ, ◌≡◌, refl, sym, ap, ◌∙◌, inl, inr, false, [], ◌∷◌, ◌++◌, Option, none, some, ◌==◌, nat_eq,
  list_eq, take, arith, Bool-cases, Option-cases,
}
use autotun.Text.{Text, is_empty, trim_space, cut}
use autotun.Browser.{
  ParsedRequest, url, bad, checked_url, checked, parse_request, read_line, max_request, call_open,
  respond, handle_conn,
}

cut-some : (sep : ℕ) (s a b : Text) → cut sep s ≡ some (a, b) → s ≡ a ++ (sep ∷ b)
unfolding cut
cut-some sep [] a b h = absurd (cc)
cut-some sep (c ∷ s) a b h = elim (Bool-cases (c == sep)) [
  | inl q ↦ ground (arith, q, h, nat_eq.beq_iff c sep)
  | inr q ↦ elim (Option-cases (cut sep s)) [
    | inl n ↦ absurd (cc (rw (cut, q, n) at h))
    | inr ((x, y), n) ↦
        let same : (c ∷ x, y) ≡ (a, b) = ground (arith, rw (cut, q, n) at h) in
        ap (λ t. c ∷ t) (cut-some sep s x y n) ∙ ap (λ (p : Text × Text). p.0 ++ (sep ∷ p.1)) same
  ]
]

checked_url-url : (v u : Text) → checked_url v ≡ url u → (v ≡ u) × (is_empty u ≡ false)
checked_url-url [] u h = absurd (cc)
checked_url-url (c ∷ v) u h = let e : c ∷ v ≡ u = cc in (e, sym (ap is_empty e))

call_open-opened : (u v : Text) (o : Option Text) → (call_open u o).opened ≡ some v → u ≡ v
call_open-opened u v none h = cc
call_open-opened u v (some why) h = cc

-- What a request that is not refused looks like.
pub record Authentic (secret line u : Text) : Type 0 where
  pub rest : Text
  pub request : trim_space line ≡ secret ++ (32 ∷ rest)
  pub url : u ≡ trim_space rest
  pub some_url : is_empty u ≡ false

checked-Authentic :
    (secret line u : Text) (o : Option (Text × Text))
    → cut 32 (trim_space line) ≡ o
    → checked secret o ≡ url u
    → Authentic secret line u
checked-Authentic secret line u none q h = absurd (cc)
checked-Authentic secret line u (some (nonce, rest)) q h = elim (Bool-cases (nonce == secret)) [
  | inl w ↦
      let v = checked_url-url (trim_space rest) u (rw (checked, w) at h) in
      record {
        rest = rest;
        request =
            cut-some 32 (trim_space line) nonce rest q
            ∙ ap (λ t. t ++ (32 ∷ rest)) ((list_eq.beq_iff nonce secret).0 w);
        url = sym v.0;
        some_url = v.1;
      }
  | inr w ↦ absurd (cc (rw (checked, w) at h))
]

respond-Authentic :
    (secret line u : Text) (open_url : Text → Option Text) (o : ParsedRequest)
    → parse_request secret line ≡ o
    → (respond open_url o).opened ≡ some u
    → Authentic secret line u
unfolding parse_request
respond-Authentic secret line u open_url (bad e) q h = absurd (cc)
respond-Authentic secret line u open_url (url v) q h =
    checked-Authentic secret line u _ refl (q ∙ ap url (call_open-opened v u (open_url v) h))

-- A connection has a URL opened only with a request whose first word is the nonce of the bridge,
-- and the URL is what follows on that line, which is not blank. The line ends at the limit.
pub handle_conn-Authentic :
    (secret sent u : Text) (open_url : Text → Option Text)
    → (handle_conn secret open_url sent).opened ≡ some u
    → Authentic secret (read_line (take max_request sent)) u
unfolding handle_conn
handle_conn-Authentic secret sent u open_url h =
    let line = read_line (take max_request sent) in
    elim (Bool-cases (is_empty line)) [
      | inl q ↦ absurd (cc (rw (handle_conn, q) at h))
      | inr q ↦ respond-Authentic secret line u open_url _ refl (rw (handle_conn, q) at h)
    ]
