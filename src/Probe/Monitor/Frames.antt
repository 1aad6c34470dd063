-- ===== src/Probe/Monitor/Frames.antt =====
-- The stream that the prober prints (internal/probe/script.go) and what `consume`
-- (internal/probe/monitor.go) makes of it.
use autotun.Base.{
  ◌≡◌, refl, ap, sym, ◌∙◌, Bool, true, false, List, [], ◌∷◌, ◌++◌, Option, none, some, ◌==◌, nat_eq,
  list_eq, list_beq, map, ℤ, All,
}
use autotun.Text.{Text, has_prefix, fields}
use autotun.Probe.Service.{Snapshot}
use autotun.Probe.Merge.{merge}
use autotun.Probe.Monitor.{
  Monitor, Info, ScanMode, mark_ready, mark_scan, mark_sock_map, mark_end, mark_error, Reading,
  fill, parse_body, deliver, line_read, Turn, line, turn, turns, reason, eof, start, reported_mode,
  reported_os,
}

-- A line of a listing tool is none of the markers.
pub record IsPlain (t : Text) : Type 0 where
  pub no_error : has_prefix mark_error t ≡ false
  pub no_ready : has_prefix mark_ready t ≡ false
  pub no_scan : (t == mark_scan) ≡ false
  pub no_sock_map : (t == mark_sock_map) ≡ false
  pub no_end : (t == mark_end) ≡ false

-- What the tool printed in one scan, and the index of sockets where there is one.
pub record Frame : Type 0 where
  pub body : List Text
  pub socks : Option (List Text)

-- The turns that read lines in a session that is not canceled.
abbrev pub reading : List Text → List Turn
reading = map λ t. line t false

abbrev pub socks_part : Option (List Text) → List Text
socks_part none = []
socks_part (some ls) = mark_sock_map ∷ ls

abbrev pub frame_lines : Frame → List Text
frame_lines f = mark_scan ∷ f.body ++ (socks_part f.socks ++ mark_end ∷ [])

abbrev pub stream : List Frame → List Text
stream [] = []
stream (f ∷ fs) = frame_lines f ++ stream fs

-- The text of a list of lines.
abbrev pub unlines : List Text → Text
unlines [] = []
unlines (l ∷ ls) = (l ++ 10 ∷ []) ++ unlines ls

abbrev pub lines_or_none : Option (List Text) → List Text
lines_or_none none = []
lines_or_none (some ls) = ls

-- The snapshot that a frame stands for.
abbrev pub snapshot_of : Option ScanMode → List (ℤ × Text) → Frame → Snapshot
snapshot_of mode cmdlines f =
    fill cmdlines (merge (parse_body mode (unlines f.body) (unlines (lines_or_none f.socks))))

abbrev pub PlainSocks : Option (List Text) → Type 0
PlainSocks none = Unit {0}
PlainSocks (some ls) = All IsPlain ls

abbrev pub IsFrame : Frame → Type 0
IsFrame f = All IsPlain f.body × PlainSocks f.socks

append_nil : {A : Type 0} (s : List A) → s ++ [] ≡ s
append_nil [] = refl
append_nil (c ∷ s) = ap (◌∷◌ c) (append_nil s)

append_assoc : {A : Type 0} (a b c : List A) → (a ++ b) ++ c ≡ a ++ (b ++ c)
append_assoc [] b c = refl
append_assoc (x ∷ a) b c = ap (◌∷◌ x) (append_assoc a b c)

turns-append : (ts us : List Turn) (r : Reading) → turns (ts ++ us) r ≡ turns us (turns ts r)
unfolding turns
turns-append [] us r = refl
turns-append (t ∷ ts) us r = turns-append ts us (turn t r)

-- What of a reading does not belong to the scan that is being read.
record Kept : Type 0 where
  monitor : Monitor
  mode : Option ScanMode
  ready : Bool
  infos : List Info
  scans : List Snapshot
  asked : List (List ℤ)

abbrev at : Kept → Bool → Bool → Text → Text → Reading
at k in_scan in_sock_map body sock_map = record {
  monitor = k.monitor;
  mode = k.mode;
  ready = k.ready;
  in_scan = in_scan;
  in_sock_map = in_sock_map;
  body = body;
  sock_map = sock_map;
  infos = k.infos;
  scans = k.scans;
  asked = k.asked;
  stop = none;
}

-- A plain line goes to the part that is being read.
body_line :
    (k : Kept) (b s t : Text)
    → IsPlain t
    → turn (line t false) (at k true false b s) ≡ at k true false (b ++ (t ++ 10 ∷ [])) s
unfolding turn line_read
body_line k b s t p = rw (p.no_error, p.no_ready, p.no_scan, p.no_sock_map, p.no_end) refl

sock_line :
    (k : Kept) (b s t : Text)
    → IsPlain t
    → turn (line t false) (at k true true b s) ≡ at k true true b (s ++ (t ++ 10 ∷ []))
unfolding turn line_read
sock_line k b s t p = rw (p.no_error, p.no_ready, p.no_scan, p.no_sock_map, p.no_end) refl

body_lines :
    (k : Kept) (b s : Text) (ls : List Text)
    → All IsPlain ls
    → turns (reading ls) (at k true false b s) ≡ at k true false (b ++ unlines ls) s
unfolding turns
body_lines k b s [] p = ap (λ u. at k true false u s) (sym (append_nil b))
body_lines k b s (l ∷ ls) p =
    ap (turns (reading ls)) (body_line k b s l p.0)
    ∙ (body_lines k (b ++ (l ++ 10 ∷ [])) s ls p.1
        ∙ ap (λ u. at k true false u s) (append_assoc b (l ++ 10 ∷ []) (unlines ls)))

sock_lines :
    (k : Kept) (b s : Text) (ls : List Text)
    → All IsPlain ls
    → turns (reading ls) (at k true true b s) ≡ at k true true b (s ++ unlines ls)
unfolding turns
sock_lines k b s [] p = ap (at k true true b) (sym (append_nil s))
sock_lines k b s (l ∷ ls) p =
    ap (turns (reading ls)) (sock_line k b s l p.0)
    ∙ (sock_lines k b (s ++ (l ++ 10 ∷ [])) ls p.1
        ∙ ap (at k true true b) (append_assoc s (l ++ 10 ∷ []) (unlines ls)))

-- The index of sockets, where there is one.
socks_lines :
    (k : Kept) (b : Text) (o : Option (List Text))
    → PlainSocks o
    → (flag : Bool) × (turns (reading (socks_part o)) (at k true false b [])
        ≡ at k true flag b (unlines (lines_or_none o)))
unfolding turns turn line_read has_prefix list_beq
socks_lines k b none p = (false, refl)
socks_lines k b (some ls) p = (true, sock_lines k b [] ls p)

-- What is kept after a scan.
after_scan : Kept → Text → Text → Kept
after_scan k b s =
    let r = deliver (at k true false b s) in
    record k { monitor = r.monitor; scans = r.scans; asked = r.asked }

end_line :
    (k : Kept) (flag : Bool) (b s : Text)
    → turns (reading (mark_end ∷ [])) (at k true flag b s) ≡ at (after_scan k b s) false false b s
unfolding turns turn line_read has_prefix list_beq deliver after_scan
end_line k flag b s = refl

scan_line :
    (k : Kept) (b s : Text)
    → turn (line mark_scan false) (at k false false b s) ≡ at k true false [] []
unfolding turn line_read has_prefix list_beq
scan_line k b s = refl

turns_lines :
    (xs ys : List Text) (r : Reading)
    → turns (reading (xs ++ ys)) r ≡ turns (reading ys) (turns (reading xs) r)
unfolding turns
turns_lines [] ys r = refl
turns_lines (x ∷ xs) ys r = turns_lines xs ys (turn (line x false) r)

-- A frame is one scan.
frame_turns :
    (k : Kept) (b s : Text) (f : Frame)
    → IsFrame f
    → let body = unlines f.body in
      let socks = unlines (lines_or_none f.socks) in
      turns (reading (frame_lines f)) (at k false false b s)
      ≡ at (after_scan k body socks) false false body socks
unfolding turns
frame_turns k b s f p =
    let body = unlines f.body in
    let part = socks_lines k body f.socks p.1 in
    let tail = socks_part f.socks ++ mark_end ∷ [] in
    ap (turns (reading (f.body ++ tail))) (scan_line k b s)
    ∙ (turns_lines f.body tail (at k true false [] [])
        ∙ (ap (turns (reading tail)) (body_lines k [] [] f.body p.0)
            ∙ (turns_lines (socks_part f.socks) (mark_end ∷ []) (at k true false body [])
                ∙ (ap (turns (reading (mark_end ∷ []))) part.1
                    ∙ end_line k part.0 body (unlines (lines_or_none f.socks))))))

stream_delivered :
    (k : Kept) (b s : Text) (fs : List Frame)
    → All IsFrame fs
    → let r = turns (reading (stream fs)) (at k false false b s) in
      (r.scans ≡ k.scans ++ map (snapshot_of k.mode k.monitor.cmdlines) fs)
      × (r.stop ≡ none)
      × (r.ready ≡ k.ready)
unfolding after_scan deliver turns
stream_delivered k b s [] p = (sym (append_nil k.scans), refl, refl)
stream_delivered k b s (f ∷ fs) p =
    let body = unlines f.body in
    let socks = unlines (lines_or_none f.socks) in
    let e =
      turns_lines (frame_lines f) (stream fs) (at k false false b s)
      ∙ ap (turns (reading (stream fs))) (frame_turns k b s f p.0) in
    let rest = stream_delivered (after_scan k body socks) body socks fs p.1 in
    (
      ap (λ r. r.scans) e
          ∙ (rest.0 ∙ append_assoc k.scans (snapshot_of k.mode k.monitor.cmdlines f ∷ []) _),
      ap (λ r. r.stop) e ∙ rest.1,
      ap (λ r. r.ready) e ∙ rest.2,
    )

abbrev first_kept : Text → ScanMode → Kept
first_kept l mode = record {
  monitor = record { cmdlines = []; unknown = [] };
  mode = some mode;
  ready = true;
  infos = record { mode = mode; os = reported_os (fields l) } ∷ [];
  scans = [];
  asked = [];
}

ready_line :
    (l : Text) (mode : ScanMode)
    → has_prefix mark_error l ≡ false
    → has_prefix mark_ready l ≡ true
    → reported_mode (fields l) ≡ some mode
    → turn (line l false) start ≡ at (first_kept l mode) false false [] []
unfolding turn line_read start
ready_line l mode e r m = rw (e, r, m) refl

reason_eof : (r : Reading) → r.stop ≡ none → r.ready ≡ true → reason none r ≡ eof
unfolding reason
reason_eof r s t = rw (s, t) refl

-- The monitor delivers a snapshot for each scan that the prober prints after it has reported its
-- mode, in order: what the parser of that mode finds in the lines of the scan, merged. It returns the
-- end of the stream then. No line of a scan may look like a marker, and the session is not canceled;
-- no answer to a lookup of command lines comes in between.
pub scans-stream :
    (l : Text) (mode : ScanMode) (fs : List Frame)
    → has_prefix mark_error l ≡ false
    → has_prefix mark_ready l ≡ true
    → reported_mode (fields l) ≡ some mode
    → All IsFrame fs
    → let r = turns (reading (l ∷ stream fs)) start in
      (r.scans ≡ map (snapshot_of (some mode) []) fs) × (reason none r ≡ eof)
unfolding turns
scans-stream l mode fs e p m h =
    let r = turns (reading (l ∷ stream fs)) start in
    let q = ap (turns (reading (stream fs))) (ready_line l mode e p m) in
    let rest = stream_delivered (first_kept l mode) [] [] fs h in
    (
      ap (λ r. r.scans) q ∙ rest.0,
      reason_eof r (ap (λ r. r.stop) q ∙ rest.1) (ap (λ r. r.ready) q ∙ rest.2),
    )
