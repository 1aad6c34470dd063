-- ===== src/Tunnel/Forward.antt =====
-- internal/tunnel/forward.go: a forwarder's counters, and the copying of a reply.
pub mod Relay
pub mod Connections
use autotun.Base.{
  ℕ, ◌+◌, ◌-◌, ◌%◌, ◌^◌, Bool, true, false, not, ◌&&◌, List, [], ◌∷◌, ◌++◌, ltb, if◌then◌else◌,
  length, take, drop,
}
use autotun.Text.{Text}
use autotun.Tunnel.Scheme.{Scheme, unknown, sniff_scheme}

-- The listener is its local port; the dialer is the number of the connection that it stands for.
pub record Forwarder : Type 0 where
  pub local : ℕ
  pub remapped : Bool
  pub created : ℕ
  pub dial_addr : Text
  pub dialer : ℕ
  pub bytes_in : ℕ  -- uint64
  pub bytes_out : ℕ  -- uint64
  pub active : ℕ
  pub total : ℕ  -- uint64
  pub last : ℕ
  pub last_err : Text
  pub sniffed : Bool

unfoldable pub new_forwarder : ℕ → ℕ → Text → Bool → ℕ → Forwarder
new_forwarder local dialer dial_addr remapped now = record {
  local = local;
  remapped = remapped;
  created = now;
  dial_addr = dial_addr;
  dialer = dialer;
  bytes_in = 0;
  bytes_out = 0;
  active = 0;
  total = 0;
  last = 0;
  last_err = [];
  sniffed = false;
}

abbrev pub u64 : ℕ → ℕ
u64 n = n % 2 ^ 64

-- `io.Copy` of what the peer still sends, chunk by chunk, to a writer that accepts `room` more
-- bytes: the bytes written.
unfoldable pub copy_chunks : ℕ → List Text → Text
copy_chunks room [] = []
copy_chunks room (c ∷ cs) =
    let rest = copy_chunks (room - length c) cs in
    if ltb room (length c) then take room c else c ++ rest

-- The bytes that a reply leaves with the client, and the scheme that is reported, unknown for none.
pub record Copied : Type 0 where
  pub fwd : Forwarder
  pub written : Text
  pub report : Scheme

-- The opening bytes, at most eight of one read, then the rest.
unfoldable pub copy_opening : ℕ → List Text → Text
copy_opening room [] = []
copy_opening room (c ∷ cs) =
    let head = take 8 c in
    if ltb room (length head)
    then take room head
    else head ++ copy_chunks (room - length head) (drop 8 c ∷ cs)

abbrev pub opening : List Text → Text
opening [] = []
opening (c ∷ cs) = take 8 c

-- `copyReply` with what its caller does with the count; `watched` is `f.onScheme != nil`.
unfoldable pub copy_reply : Bool → Forwarder → ℕ → List Text → Copied
copy_reply watched f room chunks =
    if watched && not f.sniffed
    then record {
      fwd = record f {
        sniffed = true;
        bytes_in = u64 (f.bytes_in + length (copy_opening room chunks));
      };
      written = copy_opening room chunks;
      report = sniff_scheme (opening chunks);
    }
    else record {
      fwd = record f { bytes_in = u64 (f.bytes_in + length (copy_chunks room chunks)) };
      written = copy_chunks room chunks;
      report = unknown;
    }
