-- ===== src/Ltc/Previous.antt =====
-- One frame back: the predecessor of a time of day, and `hdspe_ltc32_decr` of hdspe_ltc_math.c as
-- the predecessor of codes. Its test for dropped frames also reads bits 6 and 7 of the code.
use native.Mathlib.Nat.{mod-eq_of_lt, mod_self}
use native.Mathlib.Decide.{dec_lt}
use snd_hdspe.Common.{
  ℕ, ◌+◌, ◌-◌, ◌%◌, ◌≤◌, ◌<◌, ◌≡◌, ◌≢◌, arith, Bool, true, false, refl, ap, sym, ◌∙◌, bit_and,
  if◌then◌else◌, ◌==◌, not, ◌&&◌, ◌||◌, Bool-cases, inl, inr,
}
use snd_hdspe.Common.Int.{pos, negsuc, ◌-ℤ◌, ◌+ℤ◌, is_negative, is_negative-pred}
use snd_hdspe.Common.FloorMod.{floor_mod, floor_mod_unique}
use snd_hdspe.Ltc.{Hmsf, fpd, time_mask, to_frames, add_frames}
use snd_hdspe.Ltc.Frames.{frame_number, to_frames-eq-frame_number, frame_number-lt-fpd}
use snd_hdspe.Ltc.Convert.{from_frames_of_time}
use snd_hdspe.Ltc.Time.{
  IsFormat, IsTime, IsCode, time_of, code, frames_part, time_of-code, code-IsCode, code-time_of,
}
use snd_hdspe.Ltc.Fields.{frames_units}
use snd_hdspe.Ltc.Step.{incr, decr, decr_frame_digit}
use snd_hdspe.Ltc.Step.DropRule.{
  spare_bits, after_drop, decr_frame_digit_ndf, decr_frame_digit-eq, decr_frame_digit-after_drop,
  decr_frame_digit_spare,
}
use snd_hdspe.Ltc.Step.Decrement.{second_before, decr-second, decr-frame}
use snd_hdspe.Ltc.Next.{next_time, next_time-IsTime, frame_number-next_time, incr-eq-code}

-- The first frame of a second, which is 2 where frames 0 and 1 are dropped.
abbrev pub is_first : Bool → Hmsf → Bool
is_first df t = (t.f == 0) || (df && after_drop t)

abbrev pub previous_time : ℕ → Bool → Hmsf → Hmsf
previous_time fps df t =
    if not (is_first df t)
    then record { h = t.h; m = t.m; s = t.s; f = t.f - 1 }
    else if not (t.s == 0)
    then record { h = t.h; m = t.m; s = t.s - 1; f = fps - 1 }
    else if not (t.m == 0)
    then record { h = t.h; m = t.m - 1; s = 59; f = fps - 1 }
    else record { h = (t.h + 23) % 24; m = 59; s = 59; f = fps - 1 }

pub previous_time-IsTime :
    (fps : ℕ) (df : Bool) (t : Hmsf)
    → IsFormat fps df
    → IsTime fps df t
    → IsTime fps df (previous_time fps df t)
previous_time-IsTime fps df t r v = ground arith

-- Counting on undoes counting back.
pub next_time-previous_time :
    (fps : ℕ) (df : Bool) (t : Hmsf)
    → IsFormat fps df
    → IsTime fps df t
    → next_time fps df (previous_time fps df t) ≡ t
next_time-previous_time fps df t r v = ground arith

code-previous_second :
    (fps : ℕ) (df : Bool) (t : Hmsf)
    → IsTime fps df t
    → is_first df t ≡ true
    → code (previous_time fps df t) ≡ second_before t + frames_part (fps - 1)
code-previous_second fps df t v h = ground arith

zero_borrows :
    (x : ℕ) → ((time_of x).f == 0) ≡ true → is_negative (pos (frames_units x) -ℤ pos 1) ≡ true
zero_borrows x h = is_negative-pred (frames_units x) ∙ ground arith

first_second :
    (fps : ℕ) (df : Bool) (x : ℕ)
    → IsFormat fps df
    → IsCode fps df x
    → is_first df (time_of x) ≡ true
    → is_negative (decr_frame_digit x df) ≡ true
    → decr x fps df ≡ code (previous_time fps df (time_of x))
first_second fps df x r c b n =
    decr-second fps df x c r.positive r.fits (ground (arith, c.time)) n
    ∙ sym (code-previous_second fps df (time_of x) c.time b)

within_second :
    (fps : ℕ) (df : Bool) (x : ℕ)
    → IsCode fps df x
    → is_first df (time_of x) ≡ false
    → decr_frame_digit x df ≡ pos (frames_units x) -ℤ pos 1
    → decr x fps df ≡ code (previous_time fps df (time_of x))
within_second fps df x c b n = rw b (decr-frame fps df x c (ground arith) n)

decr-eq-code_ndf :
    (fps : ℕ) (x : ℕ)
    → IsFormat fps false
    → IsCode fps false x
    → decr x fps false ≡ code (previous_time fps false (time_of x))
decr-eq-code_ndf fps x r c = elim (Bool-cases (is_first false (time_of x))) [
  | inl b ↦
      first_second fps false x r c b (rw (decr_frame_digit_ndf x) (zero_borrows x (ground arith)))
  | inr b ↦ within_second fps false x c b (decr_frame_digit_ndf x)
]

decr-eq-code_df :
    (x : ℕ)
    → IsCode 30 true x
    → spare_bits x ≡ 0
    → decr x 30 true ≡ code (previous_time 30 true (time_of x))
decr-eq-code_df x c z = elim (Bool-cases (after_drop (time_of x))) [
  | inl b ↦
      first_second 30 true x thirty c (ground (arith, b)) (decr_frame_digit-after_drop x z c b)
  | inr b ↦ elim (Bool-cases ((time_of x).f == 0)) [
    | inl q ↦
        first_second 30 true x thirty c (rw q) (rw (decr_frame_digit-eq x z c b) (zero_borrows x q))
    | inr q ↦ within_second 30 true x c (rw (q, b)) (decr_frame_digit-eq x z c b)
  ]
]
  where
    thirty : IsFormat 30 true
    thirty = record { positive = omega arith; fits = omega arith; drops_at_30 = λ _. refl }

pub decr-eq-code :
    (fps : ℕ) (df : Bool) (x : ℕ)
    → IsFormat fps df
    → IsCode fps df x
    → (df ≡ true → spare_bits x ≡ 0)
    → decr x fps df ≡ code (previous_time fps df (time_of x))
decr-eq-code fps false x r c z = decr-eq-code_ndf fps x r c
decr-eq-code fps true x r c z =
    let e : fps ≡ 30 = r.drops_at_30 refl in rw e (decr-eq-code_df x (rw e at c) (z refl))

-- From one frame on to the remainder one frame back.
back_one : (p k d : ℕ) → p < d → (p + 1) % d ≡ k → p ≡ floor_mod (pos k +ℤ negsuc 0) d
unfolding ◌+ℤ◌
back_one p k d h e = elim (dec_lt (p + 1) d) [
  | yes below ↦
      let q : k ≡ p + 1 = sym e ∙ mod-eq_of_lt below in
      sym (floor_mod_unique (pos k +ℤ negsuc 0) d p 0 0 h (rw q (ground arith)))
  | no last ↦
      let w : p + 1 ≡ d = omega arith in
      let q : k ≡ 0 = sym e ∙ ap (λ (n : ℕ). n % d) w ∙ mod_self d in
      sym (floor_mod_unique (pos k +ℤ negsuc 0) d p 1 0 h (rw q (omega arith)))
]

-- `decr` is `add_frames` by one frame back, on each code of the format. With drop frames bits 6
-- and 7 of the code must be 0.
pub decr-eq-add_frames :
    (fps : ℕ) (df : Bool) (x : ℕ)
    → IsFormat fps df
    → IsCode fps df x
    → (df ≡ true → spare_bits x ≡ 0)
    → decr x fps df ≡ add_frames (negsuc 0) x fps df
unfolding add_frames
decr-eq-add_frames fps df x r c z =
    let t : Hmsf = time_of x in
    let u : Hmsf = previous_time fps df t in
    let v : IsTime fps df u = previous_time-IsTime fps df t r c.time in
    let on : (frame_number fps df u + 1) % fpd fps df ≡ to_frames x fps df =
      sym (frame_number-next_time fps df u r v)
      ∙ ap (frame_number fps df) (next_time-previous_time fps df t r c.time)
      ∙ sym (to_frames-eq-frame_number x fps df r c) in
    decr-eq-code fps df x r c z
    ∙ sym (
        from_frames_of_time fps df r _ u v
          (back_one (frame_number fps df u) _ _ (frame_number-lt-fpd fps df u r v) on))

previous_time-next_time :
    (fps : ℕ) (df : Bool) (t : Hmsf)
    → IsFormat fps df
    → IsTime fps df t
    → previous_time fps df (next_time fps df t) ≡ t
previous_time-next_time fps df t r v = ground arith

spare_bits-code :
    (fps : ℕ) (df : Bool) (t : Hmsf) → IsFormat fps df → IsTime fps df t → spare_bits (code t) ≡ 0
spare_bits-code fps df t r v = omega (arith, r.fits)

-- `incr` and `decr` undo each other on each code of the format, the bits that hold no time
-- cleared. With drop frames the way back first needs bits 6 and 7 of the code to be 0.
pub decr-incr :
    (fps : ℕ) (df : Bool) (x : ℕ)
    → IsFormat fps df
    → IsCode fps df x
    → (decr (incr x fps df) fps df ≡ bit_and x time_mask)
      × ((df ≡ true → spare_bits x ≡ 0) → incr (decr x fps df) fps df ≡ bit_and x time_mask)
decr-incr fps df x r c = (there, back)
  where
    t : Hmsf
    t = time_of x

    roundtrip : (u : Hmsf) → IsTime fps df u → time_of (code u) ≡ u
    roundtrip u v = time_of-code u (omega arith) (omega arith) (omega arith) (omega (arith, r.fits))

    on : IsTime fps df (next_time fps df t)
    on = next_time-IsTime fps df t r c.time

    before : IsTime fps df (previous_time fps df t)
    before = previous_time-IsTime fps df t r c.time

    there : decr (incr x fps df) fps df ≡ bit_and x time_mask
    there =
        ap (λ y. decr y fps df) (incr-eq-code fps df x r c)
        ∙ decr-eq-code fps df _ r (code-IsCode fps df _ r on) (λ _. spare_bits-code fps df _ r on)
        ∙ ap (λ u. code (previous_time fps df u)) (roundtrip _ on)
        ∙ ap code (previous_time-next_time fps df t r c.time)
        ∙ code-time_of fps df x c

    back : (df ≡ true → spare_bits x ≡ 0) → incr (decr x fps df) fps df ≡ bit_and x time_mask
    back z =
        ap (λ y. incr y fps df) (decr-eq-code fps df x r c z)
        ∙ incr-eq-code fps df _ r (code-IsCode fps df _ r before)
        ∙ ap (λ u. code (next_time fps df u)) (roundtrip _ before)
        ∙ ap code (next_time-previous_time fps df t r c.time)
        ∙ code-time_of fps df x c

-- Where frames 0 and 1 of the minute are dropped and bit 6 or 7 of the code is set, `decr` of
-- frame 2 gives frame 1, which the format does not have.
pub decr_dropped_frame :
    (x : ℕ)
    → IsCode 30 true x
    → after_drop (time_of x) ≡ true
    → spare_bits x ≢ 0
    → ¬ IsCode 30 true (decr x 30 true)
decr_dropped_frame x c a z bad =
    let t : Hmsf = time_of x in
    let u : Hmsf = record { h = t.h; m = t.m; s = t.s; f = t.f - 1 } in
    let here : (t.s ≡ 0) × (t.m % 10 ≢ 0) × (t.f ≡ 2) = ground arith in
    let e : decr x 30 true ≡ code u =
      decr-frame 30 true x c (omega (arith, here.2)) (decr_frame_digit_spare x z) in
    let same : time_of (decr x 30 true) ≡ u =
      ap time_of e ∙ time_of-code u (omega arith) (omega arith) (omega arith) (omega arith) in
    let v : IsTime 30 true u = rw same at bad.time in
    let two : 2 ≤ t.f - 1 = v.not_dropped refl here.0 here.1 in absurd (omega (arith, two, here.2))
