-- ===== src/Ui/Quit.antt =====
-- How the display ends (internal/ui/model.go): the animation that follows the confirmation.
use autotun.Base.{
  ℕ, suc, ◌+◌, ◌≤◌, ◌<◌, ◌≡◌, refl, subst, ◌⊎◌, inl, inr, Bool, true, false, not, ◌||◌, List, [],
  ◌∷◌, Option, some, arith, ◌==◌, nat_eq, if◌then◌else◌, leb, Bool-cases,
}
use autotun.Ui.Dissolve.{
  Dissolve, new_dissolve, longest, new_dissolve-frames, new_dissolve-height, new_dissolve_starts,
  done, advance,
}
use autotun.Ui.Model.{Model, Reply, silent, clamp_cursor, refreshed, reload, show_toast}
use autotun.Ui.Keys.{Env, is_dissolving, begin_quit, handle_key, quit_now}
use autotun.Ui.Click.{handle_mouse}
use autotun.Ui.Mouse.{Screen}
use autotun.Ui.Update.{
  Msg, window_size, fatal_msg, status_msg, toast_msg, toast_expired, refresh_msg, dissolve_msg,
  mouse_msg, key_msg, next_frame, handle, update, draw, Happening, updates, draws, happen, run,
}

-- How many frames of the animation a history has.
abbrev is_frame : Happening → ℕ
is_frame (updates env s dissolve_msg) = 1
is_frame (updates env s msg) = 0
is_frame (draws s) = 0

abbrev pub frames_in : List Happening → ℕ
frames_in [] = 0
frames_in (e ∷ es) = is_frame e + frames_in es

-- The animation is over, or it is over in `n` frames.
record Falling (n : ℕ) (quit : Bool) (o : Option Dissolve) : Type 0 where
  shape : Dissolve
  is_shape : o ≡ some shape
  ends : (quit ≡ true) ⊎ ((shape.frame < shape.frames) × (shape.frames ≤ shape.frame + n))

abbrev IsFalling : ℕ → Model → Type 0
IsFalling n m = Falling n m.quit m.dissolving

still : (n : ℕ) (q : Bool) (o : Option Dissolve) → Falling (0 + n) q o → Falling n q o
still n q o f = record {
  shape = f.shape;
  is_shape = f.is_shape;
  ends = elim f.ends [ inl e ↦ inl e | inr h ↦ inr (h.0, omega (arith, h.1)) ];
}

over : (n : ℕ) (o : Option Dissolve) (d : Dissolve) → o ≡ some d → Falling n true o
over n o d e = record { shape = d; is_shape = e; ends = inl refl }

if-Falling :
    (n : ℕ) (b : Bool) (m k : Model)
    → IsFalling n m
    → IsFalling n k
    → IsFalling n (if b then m else k)
if-Falling n true m k f g = f
if-Falling n false m k f g = g

first-Falling :
    (n : ℕ) (b : Bool) (r s : Reply)
    → b ≡ true
    → IsFalling n r.model
    → IsFalling n (if b then r else s).model
first-Falling n true r s e f = f
first-Falling n false r s e f = cc

dissolves : (m : Model) (d : Dissolve) → m.dissolving ≡ some d → is_dissolving m ≡ true
dissolves m d e = rw e refl

-- A frame brings the end nearer by one.
next_frame-Falling :
    (n : ℕ) (d : Dissolve) (m : Model)
    → (m.quit ≡ true) ⊎ ((d.frame < d.frames) × (d.frames ≤ d.frame + suc n))
    → IsFalling n (next_frame (some d) m).model
unfolding next_frame done advance
next_frame-Falling n d m h = elim (Bool-cases (leb d.frames (suc d.frame))) [
  | inl e ↦ rw e (over n (some (advance d)) (advance d) refl)
  | inr e ↦ rw e (record {
    shape = advance d;
    is_shape = refl;
    ends = elim h [ inl q ↦ inl q | inr l ↦ inr (ground (arith, e), omega (arith, l.1)) ];
  })
]

-- Any other message leaves the animation as it is, or ends it.
handle-Falling :
    (n : ℕ) (env : Env) (s : Screen) (msg : Msg) (m : Model)
    → IsFalling (is_frame (updates env s msg) + n) m
    → IsFalling n (handle env s msg m).model
unfolding handle handle_mouse handle_key show_toast clamp_cursor reload refreshed
handle-Falling n env s (window_size a b) m f = still n m.quit m.dissolving f
handle-Falling n env s (fatal_msg e) m f = still n m.quit m.dissolving f
handle-Falling n env s (status_msg st) m f = still n m.quit m.dissolving f
handle-Falling n env s (toast_msg t) m f = still n m.quit m.dissolving f
handle-Falling n env s (toast_expired id) m f =
    let g = still n m.quit m.dissolving f in
    if-Falling n (id == m.toast_id) (record m { has_toast = false }) m g g
handle-Falling n env s refresh_msg m f =
    let g = still n m.quit m.dissolving f in if-Falling n (is_dissolving m) m (reload m) g g
handle-Falling n env s dissolve_msg m f = rw f.is_shape (
    next_frame-Falling n f.shape m
      (elim f.ends [ inl q ↦ inl q | inr l ↦ inr (l.0, omega (arith, l.1)) ]))
handle-Falling n env s (mouse_msg msg) m f =
    first-Falling n (is_dissolving m) (silent m) _ (dissolves m f.shape f.is_shape)
      (still n m.quit m.dissolving f)
handle-Falling n env s (key_msg k) m f =
    first-Falling n (is_dissolving m) (quit_now m) _ (dissolves m f.shape f.is_shape)
      (over n m.dissolving f.shape f.is_shape)

happen-Falling :
    (n : ℕ) (e : Happening) (m : Model) → IsFalling (is_frame e + n) m → IsFalling n (happen e m)
unfolding happen update draw
happen-Falling n (updates env s msg) m f = handle-Falling n env s msg _ f
happen-Falling n (draws s) m f = still n m.quit m.dissolving f

run-Falling :
    (n : ℕ) (es : List Happening) (m : Model)
    → IsFalling (frames_in es + n) m
    → IsFalling n (run es m)
unfolding run
run-Falling n [] m f = still n m.quit m.dissolving f
run-Falling n (e ∷ es) m f =
    run-Falling n es (happen e m)
      (happen-Falling (frames_in es + n) e m (subst (λ k. IsFalling k m) (omega arith) f))

begin_quit-Falling :
    (n : ℕ) (env : Env) (m : Model)
    → (m.opts).dissolve ≡ true
    → 0 < m.width
    → 0 < m.height
    → longest m.height ≤ n
    → IsFalling n (begin_quit env m).model
unfolding begin_quit
begin_quit-Falling n env m a w z h =
    let animated : (not (m.opts).dissolve || leb m.width 0 || leb m.height 0) ≡ false =
      ground (arith, a, w, z) in
    let d = new_dissolve env.screen m.width m.height env.rng in
    let f = new_dissolve-frames env.screen m.width m.height env.rng in
    let g = new_dissolve-height env.screen m.width m.height env.rng z in
    rw animated (record {
      shape = d;
      is_shape = refl;
      ends = inr (new_dissolve_starts env.screen m.width m.height env.rng, omega (arith, f, g, h));
    })

ended : (q : Bool) (o : Option Dissolve) → Falling 0 q o → q ≡ true
ended q o f = elim f.ends [ inl e ↦ e | inr l ↦ ground (arith, l.0, l.1) ]

-- Once the user has confirmed to quit, with the animation on and a screen that is not empty, the
-- display has ended after as many frames of the animation as the screen has rows and 23 more,
-- whatever else happens between them.
pub run-begin_quit :
    (env : Env) (m : Model) (es : List Happening)
    → (m.opts).dissolve ≡ true
    → 0 < m.width
    → 0 < m.height
    → longest m.height ≤ frames_in es
    → (run es (begin_quit env m).model).quit ≡ true
run-begin_quit env m es a w z h =
    let start = begin_quit-Falling (frames_in es + 0) env m a w z (omega (arith, h)) in
    let m' = run es (begin_quit env m).model in
    ended m'.quit m'.dissolving (run-Falling 0 es (begin_quit env m).model start)
