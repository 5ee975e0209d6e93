-- ===== src/Ltc/Tests.antt =====
-- Runs of the time code functions of hdspe_ltc_math.c, and their theorems at concrete codes.
use snd_hdspe.Common.{◌≡◌, ◌%◌, ◌+◌, ℕ, refl, true, false, arith, ◌==◌, if◌then◌else◌}
use snd_hdspe.Common.Int.{pos, negsuc, ◌+ℤ◌, ◌-ℤ◌, rem_ℤ}
use snd_hdspe.Common.FloorMod.{floor_mod}
use snd_hdspe.Ltc.{
  fpd, parse, compose, to_frames, to_frames_df, to_frames_ndf, assemble, from_frames,
  from_frames_ndf, from_frames_df, from_frames_seconds, wrap_frames, add_frames, diff_frames,
}
use snd_hdspe.Ltc.Time.{IsFormat, IsCode, time_of}
use snd_hdspe.Ltc.Frames.{frame_number, to_frames-eq-frame_number}
use snd_hdspe.Ltc.Convert.{to_frames-from_frames}
use snd_hdspe.Ltc.Next.{incr-eq-add_frames}
use snd_hdspe.Ltc.Previous.{decr-eq-add_frames}
use snd_hdspe.Ltc.Step.{incr, decr, running}
use snd_hdspe.Ltc.Step.Running.{running-eq}

conversions : Unit {0}
unfolding fpd parse compose to_frames to_frames_df to_frames_ndf from_frames from_frames_ndf
    from_frames_df from_frames_seconds assemble wrap_frames add_frames diff_frames rem_ℤ ◌+ℤ◌ ◌-ℤ◌
conversions = tt

runs :
    (compose 23 59 58 29 ≡ 0x23595829)
    × (to_frames 0x00010002 30 true ≡ 1800)
    × (from_frames (pos 1800) 30 true ≡ 0x00010002)
    × (from_frames (negsuc 0) 24 false ≡ 0x23595923)
    × (add_frames (negsuc 1799) 0x00010002 30 true ≡ 0)
    × (diff_frames 0 0x00010002 30 true ≡ 2587608)
unfolding conversions
runs = (refl, refl, refl, refl, refl, refl)

thirty_df : IsFormat 30 true
thirty_df = record { positive = omega arith; fits = omega arith; drops_at_30 = λ _. refl }

twenty_five : IsFormat 25 false
twenty_five = record { positive = omega arith; fits = omega arith; drops_at_30 = λ e. absurd cc }

-- 10:01:00:02, the first frame of its minute, and 10:00:59:29, the frame before.
abbrev first_kept : ℕ
first_kept = 0x10010002

abbrev last_of_minute : ℕ
last_of_minute = 0x10005929

first_kept-IsCode : IsCode 30 true first_kept
first_kept-IsCode = ground arith

last_of_minute-IsCode : IsCode 30 true last_of_minute
last_of_minute-IsCode = ground arith

-- The same code with the sync bit 7 set.
abbrev with_sync : ℕ
with_sync = 0x10010082

with_sync-IsCode : IsCode 30 true with_sync
with_sync-IsCode = ground arith

to_frames-from_frames_example :
    to_frames (from_frames (negsuc 0) 30 true) 30 true ≡ floor_mod (negsuc 0) (fpd 30 true)
to_frames-from_frames_example = to_frames-from_frames 30 true thirty_df (negsuc 0)

to_frames-eq-frame_number_example :
    to_frames first_kept 30 true ≡ frame_number 30 true (time_of first_kept)
to_frames-eq-frame_number_example =
    to_frames-eq-frame_number first_kept 30 true thirty_df first_kept-IsCode

incr-eq-add_frames_example : incr last_of_minute 30 true ≡ add_frames (pos 1) last_of_minute 30 true
incr-eq-add_frames_example =
    incr-eq-add_frames 30 true last_of_minute thirty_df last_of_minute-IsCode

decr-eq-add_frames_example : decr first_kept 30 true ≡ add_frames (negsuc 0) first_kept 30 true
decr-eq-add_frames_example =
    decr-eq-add_frames 30 true first_kept thirty_df first_kept-IsCode (λ _. refl)

running-eq_example : running last_of_minute first_kept 30 true ≡ (
    if (to_frames last_of_minute 30 true + 1) % fpd 30 true == to_frames first_kept 30 true
    then pos 1
    else if (to_frames first_kept 30 true + 1) % fpd 30 true == to_frames last_of_minute 30 true
    then negsuc 0
    else pos 0)
running-eq_example =
    running-eq 30 true thirty_df last_of_minute first_kept last_of_minute-IsCode first_kept-IsCode
      (omega arith)
