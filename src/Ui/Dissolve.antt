-- ===== src/Ui/Dissolve.antt =====
-- internal/ui/dissolve.go: the length of the exit animation. The captured screen is given by the
-- lengths of its lines, and what `rng` draws by a stream of numbers, which `Intn` reduces modulo its
-- bound; the characters that are drawn are left out.
use autotun.Base.{
  ℕ, zero, suc, ◌+◌, ◌*◌, ◌/◌, ◌%◌, ◌≤◌, ◌<◌, Bool, ◌&&◌, List, [], ◌∷◌, arith, if◌then◌else◌, ltb,
  leb, length, take, All,
}

-- `dissolve`, without its characters.
pub record Dissolve : Type 0 where
  pub width : ℕ
  pub height : ℕ
  pub delay : List ℕ
  pub speed : List ℕ
  pub frame : ℕ
  pub frames : ℕ

abbrev pub fade_trail : ℕ
fade_trail = 7

abbrev pub max_delay : ℕ
max_delay = 14

-- The length of the longest line, and what the width of the terminal leaves of it.
unfoldable pub widest : List ℕ → ℕ
widest [] = 0
widest (n ∷ ns) = let rest = widest ns in if ltb rest n then n else rest

unfoldable pub screen_width : List ℕ → ℕ → ℕ
unfolding widest
screen_width lines width = let w = widest lines in if ltb 0 width && ltb width w then width else w

-- The delays and the speeds of `n` columns; a column draws its delay and then its speed.
unfoldable pub draw_delays : (ℕ → ℕ) → ℕ → ℕ → List ℕ
draw_delays rng c zero = []
draw_delays rng c (suc n) = rng (2 * c) % (max_delay + 1) ∷ draw_delays rng (suc c) n

unfoldable pub draw_speeds : (ℕ → ℕ) → ℕ → ℕ → List ℕ
draw_speeds rng c zero = []
draw_speeds rng c (suc n) = (1 + rng (2 * c + 1) % 3) ∷ draw_speeds rng (suc c) n

-- The loop for the frame at which the slowest column has cleared its trail. A division by zero
-- gives zero here; a speed is never zero.
unfoldable pub last_frame : ℕ → List ℕ → List ℕ → ℕ → ℕ
last_frame height (d ∷ ds) (s ∷ ss) frames =
    let n = d + (height + fade_trail) / s + 2 in
    last_frame height ds ss (if ltb frames n then n else frames)
last_frame height [] ss frames = frames
last_frame height (d ∷ ds) [] frames = frames

-- `newDissolve`.
unfoldable pub new_dissolve : List ℕ → ℕ → ℕ → (ℕ → ℕ) → Dissolve
unfolding screen_width draw_delays draw_speeds last_frame
new_dissolve view width height rng =
    let lines = if ltb 0 height && ltb height (length view) then take height view else view in
    let w = screen_width lines width in
    let delay = draw_delays rng 0 w in
    let speed = draw_speeds rng 0 w in
    record {
      width = w;
      height = length lines;
      delay = delay;
      speed = speed;
      frame = 0;
      frames = last_frame (length lines) delay speed 1;
    }

-- `Done` and `Advance`.
unfoldable pub done : Dissolve → Bool
done d = leb d.frames d.frame

unfoldable pub advance : Dissolve → Dissolve
advance d = record d { frame = suc d.frame }

-- The longest that an animation of a screen of `n` lines can take, in frames.
abbrev pub longest : ℕ → ℕ
longest n = max_delay + (n + fade_trail) + 2

draw_delays-bound : (rng : ℕ → ℕ) (c n : ℕ) → All (λ d. d ≤ max_delay) (draw_delays rng c n)
unfolding draw_delays
draw_delays-bound rng c zero = tt
draw_delays-bound rng c (suc n) = (omega arith, draw_delays-bound rng (suc c) n)

abbrev IsSpeed : ℕ → Type 0
IsSpeed s = (1 ≤ s) × (s ≤ 3)

draw_speeds-bound : (rng : ℕ → ℕ) (c n : ℕ) → All IsSpeed (draw_speeds rng c n)
unfolding draw_speeds
draw_speeds-bound rng c zero = tt
draw_speeds-bound rng c (suc n) = ((omega arith, omega arith), draw_speeds-bound rng (suc c) n)

-- A column is through in no more frames than it has rows.
div-IsSpeed : (n s : ℕ) → IsSpeed s → n / s ≤ n
div-IsSpeed n zero h = omega (arith, h.0)
div-IsSpeed n (suc zero) h = omega arith
div-IsSpeed n (suc (suc zero)) h = omega arith
div-IsSpeed n (suc (suc (suc zero))) h = omega arith
div-IsSpeed n (suc (suc (suc (suc s)))) h = omega (arith, h.1)

last_frame-bound :
    (h : ℕ) (ds ss : List ℕ) (f : ℕ)
    → All (λ d. d ≤ max_delay) ds
    → All IsSpeed ss
    → f ≤ longest h
    → last_frame h ds ss f ≤ longest h
unfolding last_frame
last_frame-bound h [] ss f a b l = l
last_frame-bound h (d ∷ ds) [] f a b l = l
last_frame-bound h (d ∷ ds) (s ∷ ss) f a b l =
    last_frame-bound h ds ss _ a.1 b.1 (ground (arith, l, a.0, div-IsSpeed (h + fade_trail) s b.0))

pub new_dissolve-frames :
    (view : List ℕ) (width height : ℕ) (rng : ℕ → ℕ)
    → let d = new_dissolve view width height rng in d.frames ≤ longest d.height
unfolding new_dissolve
new_dissolve-frames view width height rng =
    let d = new_dissolve view width height rng in
    last_frame-bound d.height d.delay d.speed 1 (draw_delays-bound rng 0 d.width)
      (draw_speeds-bound rng 0 d.width) (omega arith)

take_le : (n : ℕ) (xs : List ℕ) → length (take n xs) ≤ n
take_le zero xs = omega arith
take_le (suc n) [] = omega arith
take_le (suc n) (x ∷ xs) = omega (arith, take_le n xs)

pub new_dissolve-height :
    (view : List ℕ) (width height : ℕ) (rng : ℕ → ℕ)
    → 0 < height
    → (new_dissolve view width height rng).height ≤ height
unfolding new_dissolve
new_dissolve-height view width height rng z = ground (arith, z, take_le height view)

last_frame_ge : (h : ℕ) (ds ss : List ℕ) (f : ℕ) → f ≤ last_frame h ds ss f
unfolding last_frame
last_frame_ge h [] ss f = omega arith
last_frame_ge h (d ∷ ds) [] f = omega arith
last_frame_ge h (d ∷ ds) (s ∷ ss) f =
    let n = d + (h + fade_trail) / s + 2 in
    ground (arith, last_frame_ge h ds ss (if ltb f n then n else f))

pub new_dissolve_starts :
    (view : List ℕ) (width height : ℕ) (rng : ℕ → ℕ)
    → let d = new_dissolve view width height rng in d.frame < d.frames
unfolding new_dissolve
new_dissolve_starts view width height rng =
    let d = new_dissolve view width height rng in last_frame_ge d.height d.delay d.speed 1
