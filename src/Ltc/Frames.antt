-- ===== src/Ltc/Frames.antt =====
-- The frame number of a time of day, by the rule that defines drop frames, and
-- `hdspe_ltc32_to_frames` of hdspe_ltc_math.c against it.
use snd_hdspe.Common.{
  ℕ, ◌+◌, ◌-◌, ◌*◌, ◌/◌, ◌%◌, ◌≤◌, ◌<◌, ◌≡◌, arith, Bool, true, false, inl, inr, ◌⊎◌, refl, suc, ap,
  sym, ◌∙◌,
}
use native.Mathlib.Decide.{dec_lt, ℕ_discrete}
use snd_hdspe.Common.Bits.{bit_and_three, bit_and_seven, bit_and_fifteen}
use snd_hdspe.Ltc.{Hmsf, fpd, to_frames, to_frames_df, to_frames_ndf}
use snd_hdspe.Ltc.Time.{IsFormat, IsTime, IsCode, time_of, code, time_of-code}

abbrev pub seconds_of_day : Hmsf → ℕ
seconds_of_day t = (t.h * 60 + t.m) * 60 + t.s

-- Frames dropped since midnight: two in each minute begun after the first of an hour, but for
-- each tenth minute.
abbrev pub dropped_before : Hmsf → ℕ
dropped_before t = 2 * (t.h * 60 + t.m - (t.h * 60 + t.m) / 10)

-- The number of frames of the format from midnight to a time.
abbrev pub frame_number : ℕ → Bool → Hmsf → ℕ
frame_number fps false t = seconds_of_day t * fps + t.f
frame_number fps true t = seconds_of_day t * fps + t.f - dropped_before t

mul_bound : (n m fps : ℕ) → n ≤ m → n * fps ≤ m * fps
mul_bound n m fps h = grind arith

ruleset digit_masks = (bit_and_three, bit_and_seven, bit_and_fifteen)

to_frames_ndf-eq :
    (x fps : ℕ)
    → IsFormat fps false
    → IsCode fps false x
    → to_frames_ndf x fps ≡ frame_number fps false (time_of x)
unfolding to_frames_ndf
to_frames_ndf-eq x fps r c =
    simp digit_masks (omega (arith, mul_bound (seconds_of_day (time_of x)) 86400 fps (omega arith)))

to_frames_df-eq : (x : ℕ) → IsCode 30 true x → to_frames_df x ≡ frame_number 30 true (time_of x)
unfolding to_frames_df
to_frames_df-eq x c = simp digit_masks (omega arith)

-- On each code of the format `to_frames` is the frame number of the code's time.
pub to_frames-eq-frame_number :
    (x fps : ℕ) (df : Bool)
    → IsFormat fps df
    → IsCode fps df x
    → to_frames x fps df ≡ frame_number fps df (time_of x)
unfolding to_frames
to_frames-eq-frame_number x fps false r c = to_frames_ndf-eq x fps r c
to_frames-eq-frame_number x fps true r c =
    let e : fps ≡ 30 = r.drops_at_30 refl in rw e (to_frames_df-eq x (rw e at c))

-- Each second starts where the one before it ends.
pub seconds-lt : (n m fps f : ℕ) → n < m → f < fps → n * fps + f < m * fps
seconds-lt n m fps f h k = omega (arith, mul_bound (suc n) m fps h)

frame_number-lt-ndf :
    (fps : ℕ) (t : Hmsf) → IsTime fps false t → frame_number fps false t < fpd fps false
unfolding fpd
frame_number-lt-ndf fps t v =
    omega (arith, seconds-lt (seconds_of_day t) 86400 fps t.f (omega arith) v.frames)

-- Every frame number is below the number of frames of a day.
pub frame_number-lt-fpd :
    (fps : ℕ) (df : Bool) (t : Hmsf)
    → IsFormat fps df
    → IsTime fps df t
    → frame_number fps df t < fpd fps df
unfolding fpd
frame_number-lt-fpd fps false t r v = frame_number-lt-ndf fps t v
frame_number-lt-fpd fps true t r v =
    let e : fps ≡ 30 = r.drops_at_30 refl in rw e (omega (arith, e))

-- Codes are compared as their times are.
lexicographic :
    (fps : ℕ) (df : Bool) (t u : Hmsf)
    → IsTime fps df t
    → IsTime fps df u
    → fps ≤ 40
    → code t < code u
    → (seconds_of_day t < seconds_of_day u) ⊎ ((seconds_of_day t ≡ seconds_of_day u) × (t.f < u.f))
lexicographic fps df t u v w r h = elim (dec_lt (seconds_of_day t) (seconds_of_day u)) [
  | yes below ↦ inl below
  | no above ↦
      let hours : t.h ≡ u.h = omega arith in
      let minutes : t.m ≡ u.m = omega (arith, hours) in
      let seconds : t.s ≡ u.s = omega (arith, hours, minutes) in inr (omega arith, omega arith)
]

mono_ndf :
    (fps : ℕ) (t u : Hmsf)
    → IsTime fps false t
    → IsTime fps false u
    → fps ≤ 40
    → code t < code u
    → frame_number fps false t < frame_number fps false u
mono_ndf fps t u v w r h = elim (lexicographic fps false t u v w r h) [
  | inl below ↦
      omega (arith, seconds-lt (seconds_of_day t) (seconds_of_day u) fps t.f below v.frames)
  | inr same ↦ omega (arith, ap (λ (n : ℕ). n * fps) same.0)
]

mono_df :
    (t u : Hmsf)
    → IsTime 30 true t
    → IsTime 30 true u
    → code t < code u
    → frame_number 30 true t < frame_number 30 true u
mono_df t u v w h = elim (lexicographic 30 true t u v w (omega arith) h) [
  | inl below ↦ elim (dec_lt 0 u.s) [
    | yes later ↦ omega arith
    | no start ↦ elim (ℕ_discrete (u.m % 10) 0) [
      | yes tenth ↦ omega arith
      | no other ↦ let b : 2 ≤ u.f = w.not_dropped refl (omega arith) other in omega arith
    ]
  ]
  | inr same ↦ omega arith
]

mono_30 :
    (fps : ℕ) (t u : Hmsf)
    → fps ≡ 30
    → IsTime fps true t
    → IsTime fps true u
    → code t < code u
    → frame_number fps true t < frame_number fps true u
mono_30 fps t u e v w h = rw e (mono_df t u (rw e at v) (rw e at w) h)

-- A later time has a greater frame number.
pub frame_number_mono :
    (fps : ℕ) (df : Bool) (t u : Hmsf)
    → IsFormat fps df
    → IsTime fps df t
    → IsTime fps df u
    → code t < code u
    → frame_number fps df t < frame_number fps df u
frame_number_mono fps false t u r v w h = mono_ndf fps t u v w r.fits h
frame_number_mono fps true t u r v w h = mono_30 fps t u (r.drops_at_30 refl) v w h

-- Two times of one frame number are one time.
pub frame_number_inj :
    (fps : ℕ) (df : Bool) (t u : Hmsf)
    → IsFormat fps df
    → IsTime fps df t
    → IsTime fps df u
    → frame_number fps df t ≡ frame_number fps df u
    → t ≡ u
frame_number_inj fps df t u r v w e = sym (decode t v) ∙ ap time_of same ∙ decode u w
  where
    same : code t ≡ code u
    same = elim (dec_lt (code t) (code u)) [
      | yes p ↦ absurd (omega (arith, frame_number_mono fps df t u r v w p))
      | no p ↦ elim (dec_lt (code u) (code t)) [
        | yes q ↦ absurd (omega (arith, frame_number_mono fps df u t r w v q))
        | no q ↦ omega arith
      ]
    ]

    decode : (a : Hmsf) → IsTime fps df a → time_of (code a) ≡ a
    decode a b = time_of-code a (omega arith) (omega arith) (omega arith) (omega (arith, r.fits))
