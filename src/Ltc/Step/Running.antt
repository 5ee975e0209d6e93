-- ===== src/Ltc/Step/Running.antt =====
-- `hdspe_ltc32_running` of hdspe_ltc_math.c in frame numbers.

use snd_hdspe.Common.{
  ℕ, ◌+◌, ◌/◌, ◌%◌, ◌^◌, ◌≤◌, ◌<◌, ◌≡◌, ◌↔◌, arith, Bool, true, false, refl, ap, sym, ◌∙◌, bit_and,
  if◌then◌else◌, ◌==◌, ◌||◌, Bool-cases, inl, inr, lt→ltb, ==_iff, u32,
}
use snd_hdspe.Common.Int.{pos, negsuc, ℤ, ◌+ℤ◌}
use snd_hdspe.Common.FloorMod.{floor_mod}
use snd_hdspe.Ltc.{Hmsf, fpd, time_mask, cmp, to_frames}
use snd_hdspe.Ltc.Fields.{frames_units}
use snd_hdspe.Ltc.Time.{IsFormat, IsCode, time_of}
use snd_hdspe.Ltc.Frames.{frame_number, to_frames-eq-frame_number}
use snd_hdspe.Ltc.Order.{cmp-to_frames, time_of_masked}
use snd_hdspe.Ltc.Arithmetic.{to_frames-add_frames}
use snd_hdspe.Ltc.Next.{incr-eq-add_frames, frame_number-next_time, next_time}
use snd_hdspe.Ltc.Step.{incr, running, is_zero}

is_zero_iff : (z : ℤ) → (is_zero z ≡ true) ↔ (z ≡ pos 0)
is_zero_iff (pos n) = (λ h. ground arith, λ h. ground arith)
is_zero_iff (negsuc n) = (λ h. ground arith, λ h. ground arith)

same_truth : (a b : Bool) → (a ≡ true → b ≡ true) → (b ≡ true → a ≡ true) → a ≡ b
same_truth true b f g = sym (f refl)
same_truth false true f g = g refl
same_truth false false f g = refl

module _ (fps : ℕ) (df : Bool) (r : IsFormat fps df) where
  to_frames-incr :
      (x : ℕ)
      → IsCode fps df x
      → IsCode fps df (incr x fps df)
        × (to_frames (incr x fps df) fps df ≡ (to_frames x fps df + 1) % fpd fps df)
  unfolding ◌+ℤ◌
  to_frames-incr x c =
      let k : ℕ = to_frames x fps df in
      let e : pos k +ℤ pos 1 ≡ pos (k + 1) = ground arith in
      let (valid, moved) = to_frames-add_frames fps df r (pos 1) x in
      rw (incr-eq-add_frames fps df x r c) (valid, moved ∙ ap (λ z. floor_mod z (fpd fps df)) e)

  -- The test by `incr` of `running`.
  follows :
      (x y : ℕ)
      → IsCode fps df x
      → IsCode fps df y
      → is_zero (cmp (incr x fps df) y)
        ≡ ((to_frames x fps df + 1) % fpd fps df == to_frames y fps df)
  follows x y c d =
      let (valid, number) = to_frames-incr x c in
      let order : (cmp (incr x fps df) y ≡ pos 0)
          ↔ (to_frames (incr x fps df) fps df ≡ to_frames y fps df) =
        (cmp-to_frames fps df _ y r valid d).1 in
      same_truth _ _ (λ h. (==_iff _ _).1 (sym number ∙ order.0 ((is_zero_iff _).0 h)))
        (λ h. (is_zero_iff _).1 (order.1 (number ∙ (==_iff _ _).0 h)))

  time_of_plus_one :
      (x : ℕ)
      → frames_units x ≤ 9
      → time_of (x + 1)
        ≡ record { h = (time_of x).h; m = (time_of x).m; s = (time_of x).s; f = (time_of x).f + 1 }
  time_of_plus_one x h = let q : (x + 1) / 16 ≡ x / 16 = omega arith in ground arith

  plus_one_time :
      (x y : ℕ)
      → IsCode fps df x
      → IsCode fps df y
      → bit_and (u32 (x + 1)) time_mask ≡ bit_and y time_mask
      → x < 2 ^ 32
      → time_of y ≡ next_time fps df (time_of x)
  plus_one_time x y c d e w =
      let no_wrap : u32 (x + 1) ≡ x + 1 = omega (arith, c.frames_digit) in
      let same : time_of y ≡ record (time_of x) { f = (time_of x).f + 1 } =
        time_of_masked y (x + 1) (sym e ∙ ap (λ n. bit_and n time_mask) no_wrap)
        ∙ time_of_plus_one x c.frames_digit in
      let within : (time_of x).f + 1 < fps = omega (arith, d.time.frames, ap Hmsf.f same) in
      rw (lt→ltb _ _ within) same

  -- The test without `incr` of `running` never passes where the other one fails.
  plus_one_follows :
      (x y : ℕ)
      → IsCode fps df x
      → IsCode fps df y
      → x < 2 ^ 32
      → bit_and (u32 (x + 1)) time_mask ≡ bit_and y time_mask
      → (to_frames x fps df + 1) % fpd fps df ≡ to_frames y fps df
  plus_one_follows x y c d w e =
      ap (λ n. (n + 1) % fpd fps df) (to_frames-eq-frame_number x fps df r c)
      ∙ sym (frame_number-next_time fps df (time_of x) r c.time)
      ∙ ap (frame_number fps df) (sym (plus_one_time x y c d e w))
      ∙ sym (to_frames-eq-frame_number y fps df r d)

  first_test :
      (x y : ℕ)
      → IsCode fps df x
      → IsCode fps df y
      → x < 2 ^ 32
      → ((bit_and (u32 (x + 1)) time_mask == bit_and y time_mask)
          || is_zero (cmp (incr x fps df) y))
        ≡ ((to_frames x fps df + 1) % fpd fps df == to_frames y fps df)
  first_test x y c d w =
      rw (follows x y c d)
        (elim (Bool-cases (bit_and (u32 (x + 1)) time_mask == bit_and y time_mask)) [
          | inl b ↦ rw (b, (==_iff _ _).1 (plus_one_follows x y c d w ((==_iff _ _).0 b)))
          | inr b ↦ rw b
        ])

  -- `running` is 1 where the second code is one frame ahead of the first, else -1 where the first
  -- is one frame ahead of the second, and 0 in all other cases.
  pub running-eq :
      (x y : ℕ)
      → IsCode fps df x
      → IsCode fps df y
      → x < 2 ^ 32
      → running x y fps df ≡ (
          if (to_frames x fps df + 1) % fpd fps df == to_frames y fps df
          then pos 1
          else if (to_frames y fps df + 1) % fpd fps df == to_frames x fps df
          then negsuc 0
          else pos 0)
  unfolding running
  running-eq x y c d w = rw (first_test x y c d w, follows y x d c)
