-- ===== src/Browser.antt =====
-- internal/browser/bridge.go: a request of the shim on the remote host, which asks the bridge to
-- open a URL. `Open`, which the application passes to the bridge, is an argument: it gives the text
-- of its error, or none. The files of the shim and the socket are the remote host's.
pub mod Request
pub mod Router
mod Tests
use autotun.Base.{
  ℕ, suc, Bool, not, List, [], ◌∷◌, ◌++◌, Option, none, some, ◌==◌, nat_eq, list_eq, list_beq,
  if◌then◌else◌, take,
}
use autotun.Text.{Text, codes, is_empty, trim_space, cut}

abbrev pub max_request : ℕ
max_request = 8192

pub data RequestError : Type 0 where
  malformed stale empty_url : RequestError

unfoldable pub request_error_text : RequestError → Text
request_error_text malformed = codes "malformed request"
request_error_text stale = codes "stale shim: reinstall it by restarting autotun"
request_error_text empty_url = codes "empty url"

pub data ParsedRequest : Type 0 where
  url : Text → ParsedRequest
  bad : RequestError → ParsedRequest

abbrev pub checked_url : Text → ParsedRequest
checked_url u = if is_empty u then bad empty_url else url u

abbrev pub checked : Text → Option (Text × Text) → ParsedRequest
checked secret none = bad malformed
checked secret (some (nonce, u)) =
    if not (nonce == secret) then bad stale else checked_url (trim_space u)

-- `Bridge.parse`; `secret` is the nonce of the bridge.
unfoldable pub parse_request : Text → Text → ParsedRequest
unfolding list_beq
parse_request secret line = checked secret (cut 32 (trim_space line))

-- What `ReadString` reads, the newline included.
unfoldable pub read_line : Text → Text
read_line [] = []
read_line (c ∷ s) = let rest = read_line s in if c == 10 then c ∷ [] else c ∷ rest

-- What is opened, and what is answered.
pub record Handled : Type 0 where
  pub opened : Option Text
  pub answer : Text

abbrev pub err_line : Text → Text
err_line why = codes "err: " ++ (why ++ (10 ∷ []))

abbrev pub call_open : Text → Option Text → Handled
call_open u none = record { opened = some u; answer = codes "ok" ++ (10 ∷ []) }
call_open u (some why) = record { opened = some u; answer = err_line why }

abbrev pub respond : (Text → Option Text) → ParsedRequest → Handled
respond open_url (bad e) = record { opened = none; answer = err_line (request_error_text e) }
respond open_url (url u) = call_open u (open_url u)

-- `Bridge.handle` on what a connection sends.
unfoldable pub handle_conn : Text → (Text → Option Text) → Text → Handled
handle_conn secret open_url sent =
    let line = read_line (take max_request sent) in
    if is_empty line
    then record { opened = none; answer = [] }
    else respond open_url (parse_request secret line)
