-- ===== src/Ltc/Next.antt =====
-- One frame on: the successor of a time of day, its frame number, and `hdspe_ltc32_incr` of
-- hdspe_ltc_math.c as the successor of codes.
use native.Mathlib.Nat.{mod-eq_of_lt, mod_self}
use native.Mathlib.Decide.{dec_lt}
use snd_hdspe.Common.{
  ℕ, ◌+◌, ◌*◌, ◌%◌, ◌≤◌, ◌<◌, ◌≡◌, arith, Bool, true, false, refl, ap, sym, ◌∙◌, if◌then◌else◌, ltb,
  Bool-cases, inl, inr, ltb→lt, ltb_false→le,
}
use snd_hdspe.Common.Int.{pos, ◌+ℤ◌}
use snd_hdspe.Common.FloorMod.{floor_mod}
use snd_hdspe.Ltc.{Hmsf, fpd, to_frames, add_frames}
use snd_hdspe.Ltc.Time.{IsFormat, IsTime, IsCode, time_of, code}
use snd_hdspe.Ltc.Frames.{frame_number, to_frames-eq-frame_number, seconds-lt, seconds_of_day}
use snd_hdspe.Ltc.Convert.{from_frames_of_time}
use snd_hdspe.Ltc.Step.{incr}
use snd_hdspe.Ltc.Step.Increment.{first_frame, second_after, incr-second, incr-frame}

abbrev pub next_second : Bool → Hmsf → Hmsf
next_second df t =
    if ltb t.s 59
    then record { h = t.h; m = t.m; s = t.s + 1; f = 0 }
    else if ltb t.m 59
    then record { h = t.h; m = t.m + 1; s = 0; f = first_frame df t }
    else record { h = (t.h + 1) % 24; m = 0; s = 0; f = 0 }

abbrev pub next_time : ℕ → Bool → Hmsf → Hmsf
next_time fps df t = if ltb (t.f + 1) fps then record t { f = t.f + 1 } else next_second df t

code-next_second :
    (fps : ℕ) (df : Bool) (t : Hmsf)
    → IsTime fps df t
    → code (next_second df t) ≡ second_after t + first_frame df t
code-next_second fps df t v = ground arith

pub incr-eq-code :
    (fps : ℕ) (df : Bool) (x : ℕ)
    → IsFormat fps df
    → IsCode fps df x
    → incr x fps df ≡ code (next_time fps df (time_of x))
incr-eq-code fps df x r c = elim (Bool-cases (ltb ((time_of x).f + 1) fps)) [
  | inl b ↦ rw (b, incr-frame fps df x c (ltb→lt _ _ b) r.fits)
  | inr b ↦
      rw (b, incr-second fps df x c (ltb_false→le _ _ b))
        (sym (code-next_second fps df (time_of x) c.time))
]

pub next_time-IsTime :
    (fps : ℕ) (df : Bool) (t : Hmsf)
    → IsFormat fps df
    → IsTime fps df t
    → IsTime fps df (next_time fps df t)
next_time-IsTime fps df t r v = ground arith

-- Without drop frames the next second starts with frame 0.
next_second_ndf :
    (fps : ℕ) (t : Hmsf)
    → IsTime fps false t
    → (seconds_of_day (next_second false t) ≡ (seconds_of_day t + 1) % 86400)
      × ((next_second false t).f ≡ 0)
next_second_ndf fps t v = ground arith

-- The frame number at the end of a second.
end_of_second :
    (n f fps : ℕ)
    → n < 86400
    → 1 ≤ fps
    → f + 1 ≡ fps
    → (n + 1) % 86400 * fps ≡ (n * fps + f + 1) % (86400 * fps)
end_of_second n f fps h p e = elim (dec_lt n 86399) [
  | yes q ↦
      let below : n * fps + f < 86399 * fps = seconds-lt n 86399 fps f q (omega arith) in
      let a : (n + 1) % 86400 ≡ n + 1 = omega arith in
      let b : (n * fps + f + 1) % (86400 * fps) ≡ n * fps + f + 1 = mod-eq_of_lt (omega arith) in
      rw (a, b) (omega arith)
  | no q ↦
      let a : n ≡ 86399 = omega arith in
      let b : 86399 * fps + f + 1 ≡ 86400 * fps = omega arith in
      rw (a, b, mod_self (86400 * fps)) (omega arith)
]

next_ndf :
    (fps : ℕ) (t : Hmsf)
    → 1 ≤ fps
    → IsTime fps false t
    → frame_number fps false (next_time fps false t)
      ≡ (frame_number fps false t + 1) % (86400 * fps)
next_ndf fps t p v = elim (Bool-cases (ltb (t.f + 1) fps)) [
  | inl b ↦
      let q : t.f + 1 < fps = ltb→lt _ _ b in
      let below : seconds_of_day t * fps + (t.f + 1) < 86400 * fps =
        seconds-lt (seconds_of_day t) 86400 fps (t.f + 1) (omega arith) q in
      rw (b, mod-eq_of_lt {n = seconds_of_day t * fps + t.f + 1} {m = 86400 * fps} (omega arith))
        (omega arith)
  | inr b ↦
      let q : t.f + 1 ≡ fps = omega (arith, ltb_false→le _ _ b) in
      let (second, first) = next_second_ndf fps t v in
      rw (b, first, second)
        (omega (arith, end_of_second (seconds_of_day t) t.f fps (omega arith) p q))
]

next_df :
    (t : Hmsf)
    → IsTime 30 true t
    → frame_number 30 true (next_time 30 true t) ≡ (frame_number 30 true t + 1) % 2589408
next_df t v = ground arith

-- One frame on, the frame number is one greater, and 0 after the last frame of the day.
pub frame_number-next_time :
    (fps : ℕ) (df : Bool) (t : Hmsf)
    → IsFormat fps df
    → IsTime fps df t
    → frame_number fps df (next_time fps df t) ≡ (frame_number fps df t + 1) % fpd fps df
unfolding fpd
frame_number-next_time fps false t r v = next_ndf fps t r.positive v
frame_number-next_time fps true t r v =
    let e : fps ≡ 30 = r.drops_at_30 refl in rw e (next_df t (rw e at v))

-- `incr` is `add_frames` by one frame, on each code of the format.
pub incr-eq-add_frames :
    (fps : ℕ) (df : Bool) (x : ℕ)
    → IsFormat fps df
    → IsCode fps df x
    → incr x fps df ≡ add_frames (pos 1) x fps df
unfolding add_frames ◌+ℤ◌
incr-eq-add_frames fps df x r c =
    let k : ℕ = to_frames x fps df in
    let e : pos k +ℤ pos 1 ≡ pos (k + 1) = ground arith in
    incr-eq-code fps df x r c
    ∙ sym (
        from_frames_of_time fps df r (pos k +ℤ pos 1) (next_time fps df (time_of x))
          (next_time-IsTime fps df (time_of x) r c.time)
          (frame_number-next_time fps df (time_of x) r c.time
            ∙ ap (λ n. (n + 1) % fpd fps df) (sym (to_frames-eq-frame_number x fps df r c))
            ∙ ap (λ z. floor_mod z (fpd fps df)) (sym e)))
