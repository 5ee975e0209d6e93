-- ===== src/Ltc/Convert.antt =====
-- Codes to frame numbers and back, over every frame count, and the arithmetic of codes:
-- `hdspe_ltc32_from_frames`, `hdspe_ltc32_add_frames` and `hdspe_ltc32_diff_frames` of
-- hdspe_ltc_math.c.
use snd_hdspe.Common.{ℕ, ◌*◌, ◌≤◌, ◌<◌, ◌≡◌, arith, Bool, true, false, refl, ap, sym, ◌∙◌, bit_and}
use snd_hdspe.Common.Int.{ℤ}
use snd_hdspe.Common.FloorMod.{floor_mod, floor_mod-lt, wrap-eq-floor_mod}
use snd_hdspe.Ltc.{Hmsf, fpd, time_mask, to_frames, from_frames, wrap_frames}
use snd_hdspe.Ltc.Time.{
  IsFormat, IsTime, IsCode, time_of, code, code-IsCode, code-time_of, time_of-code,
}
use snd_hdspe.Ltc.Frames.{
  frame_number, to_frames-eq-frame_number, frame_number_inj, frame_number-lt-fpd,
}
use snd_hdspe.Ltc.FromFrames.{
  time_at_ndf, time_at_df, from_frames_ndf-code, time_at_ndf-IsTime, frame_number-time_at_ndf,
  from_frames_df-code, time_at_df-IsTime, frame_number-time_at_df,
}

pub fpd_pos : (fps : ℕ) (df : Bool) → IsFormat fps df → 1 ≤ fpd fps df
unfolding fpd
fpd_pos fps false r = omega (arith, r.positive)
fpd_pos fps true r = omega arith

pub wrap_frames-eq : (z : ℤ) (d : ℕ) → 1 ≤ d → wrap_frames z d ≡ floor_mod z d
unfolding wrap_frames
wrap_frames-eq z d h = wrap-eq-floor_mod z d h

-- The time of day with frame number f.
abbrev pub time_at : ℕ → Bool → ℕ → Hmsf
time_at fps false f = time_at_ndf fps f
time_at fps true f = time_at_df f

module _ (fps : ℕ) where
  time_at-IsTime :
      (df : Bool) (f : ℕ) → IsFormat fps df → f < fpd fps df → IsTime fps df (time_at fps df f)
  unfolding fpd
  time_at-IsTime false f r h = time_at_ndf-IsTime f fps r h
  time_at-IsTime true f r h = let e : fps ≡ 30 = r.drops_at_30 refl in rw e (time_at_df-IsTime f h)

  frame_number-time_at :
      (df : Bool) (f : ℕ)
      → IsFormat fps df
      → f < fpd fps df
      → frame_number fps df (time_at fps df f) ≡ f
  unfolding fpd
  frame_number-time_at false f r h = frame_number-time_at_ndf f fps
  frame_number-time_at true f r h =
      let e : fps ≡ 30 = r.drops_at_30 refl in rw e (frame_number-time_at_df f h)

  -- The code that `from_frames` makes is that of the time whose frame number is the frame count
  -- modulo a day.
  from_frames-code :
      (df : Bool) (z : ℤ)
      → IsFormat fps df
      → from_frames z fps df ≡ code (time_at fps df (floor_mod z (fpd fps df)))
  unfolding from_frames fpd
  from_frames-code false z r = rw (wrap_frames-eq z (86400 * fps) (fpd_pos fps false r)) (
      from_frames_ndf-code (floor_mod z (86400 * fps)) fps r
        (floor_mod-lt z (86400 * fps) (fpd_pos fps false r)))
  from_frames-code true z r =
      rw (wrap_frames-eq z 2589408 (omega arith))
        (from_frames_df-code (floor_mod z 2589408) (floor_mod-lt z 2589408 (omega arith)))

module _ (fps : ℕ) (df : Bool) (r : IsFormat fps df) where
  -- `from_frames` gives a code of the format for every frame count.
  pub from_frames-IsCode : (z : ℤ) → IsCode fps df (from_frames z fps df)
  from_frames-IsCode z = rw (from_frames-code fps df z r) (
      code-IsCode fps df _ r
        (time_at-IsTime fps df _ r (floor_mod-lt z (fpd fps df) (fpd_pos fps df r))))

  -- `to_frames` after `from_frames` reduces a frame count to a day, also a negative one.
  pub to_frames-from_frames :
      (z : ℤ) → to_frames (from_frames z fps df) fps df ≡ floor_mod z (fpd fps df)
  to_frames-from_frames z =
      let below : floor_mod z (fpd fps df) < fpd fps df =
        floor_mod-lt z (fpd fps df) (fpd_pos fps df r) in
      let t : IsTime fps df (time_at fps df (floor_mod z (fpd fps df))) =
        time_at-IsTime fps df _ r below in
      to_frames-eq-frame_number _ fps df r (from_frames-IsCode z)
      ∙ ap (λ x. frame_number fps df (time_of x)) (from_frames-code fps df z r)
      ∙ ap (frame_number fps df) (
          time_of-code _ (omega (arith, t.hours)) (omega (arith, t.minutes))
            (omega (arith, t.seconds)) (omega (arith, t.frames, r.fits)))
      ∙ frame_number-time_at fps df _ r below

  -- `from_frames` sets no bit that holds no time.
  pub from_frames-time_mask :
      (z : ℤ) → bit_and (from_frames z fps df) time_mask ≡ from_frames z fps df
  from_frames-time_mask z =
      let below : floor_mod z (fpd fps df) < fpd fps df = floor_mod-lt z _ (fpd_pos fps df r) in
      let t : IsTime fps df (time_at fps df (floor_mod z (fpd fps df))) =
        time_at-IsTime fps df _ r below in
      sym (code-time_of fps df _ (from_frames-IsCode z))
      ∙ ap (λ x. code (time_of x)) (from_frames-code fps df z r)
      ∙ ap code (
          time_of-code _ (omega (arith, t.hours)) (omega (arith, t.minutes))
            (omega (arith, t.seconds)) (omega (arith, t.frames, r.fits)))
      ∙ sym (from_frames-code fps df z r)

  -- `from_frames` does not tell frame counts apart that differ by whole days.
  pub from_frames_whole_days :
      (z w : ℤ)
      → floor_mod z (fpd fps df) ≡ floor_mod w (fpd fps df)
      → from_frames z fps df ≡ from_frames w fps df
  from_frames_whole_days z w e =
      from_frames-code fps df z r
      ∙ ap (λ k. code (time_at fps df k)) e
      ∙ sym (from_frames-code fps df w r)

  -- The time with the frame number of a reduced frame count is the one `from_frames` codes.
  pub from_frames_of_time :
      (z : ℤ) (t : Hmsf)
      → IsTime fps df t
      → frame_number fps df t ≡ floor_mod z (fpd fps df)
      → from_frames z fps df ≡ code t
  from_frames_of_time z t v e =
      let below : floor_mod z (fpd fps df) < fpd fps df = floor_mod-lt z _ (fpd_pos fps df r) in
      from_frames-code fps df z r
      ∙ ap code (
          frame_number_inj fps df _ t r (time_at-IsTime fps df _ r below) v
            (frame_number-time_at fps df _ r below ∙ sym e))

  -- Two codes of the format with one frame number agree in the bits of the time.
  pub codes_agree :
      (x y : ℕ)
      → IsCode fps df x
      → IsCode fps df y
      → to_frames x fps df ≡ to_frames y fps df
      → bit_and x time_mask ≡ bit_and y time_mask
  codes_agree x y c d e =
      let same : time_of x ≡ time_of y = frame_number_inj fps df _ _ r c.time d.time (
        sym (to_frames-eq-frame_number x fps df r c)
        ∙ e
        ∙ to_frames-eq-frame_number y fps df r d) in
      sym (code-time_of fps df x c) ∙ ap code same ∙ code-time_of fps df y d

  pub to_frames-lt : (x : ℕ) → IsCode fps df x → to_frames x fps df < fpd fps df
  to_frames-lt x c =
      rw (to_frames-eq-frame_number x fps df r c) (frame_number-lt-fpd fps df _ r c.time)
