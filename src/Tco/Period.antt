-- ===== src/Tco/Period.antt =====
-- The period interrupt in hdspe_tco.c: reading the incoming time code, starting the outgoing one,
-- and `hdspe_tco_period_elapsed`. The notifications to ALSA and the locks are left out.
pub mod Start
pub mod Elapsed
mod Tests
use snd_hdspe.Common.{
  ℕ, ◌+◌, ◌-◌, ◌*◌, ◌/◌, ◌%◌, ◌^◌, bit_and, bit_or, Bool, true, false, not, ◌&&◌, ltb, ◌==◌,
  if◌then◌else◌, u32, Option, none, some,
}
use snd_hdspe.Common.Int.{ℤ, pos, negsuc}
use snd_hdspe.Clock.{sample_rate_freq}
use snd_hdspe.Ltc.{compose, add_frames}
use snd_hdspe.Ltc.Step.{incr}
use snd_hdspe.Tco.{
  Settings, Tco, field_get, write_tco, read_offset, tco_get_sample_rate, set_timecode,
  reset_timecode,
}
use snd_hdspe.Tco.Mtc.{LtcIn, u64, sub_u64, ltc_cache_size}

-- `struct hdspe_ltc`
pub record LtcFrame : Type 0 where
  pub fc : ℕ
  pub tc : ℕ
  pub scale : ℕ
  pub fps : ℕ
  pub df : Bool

pub fps_tab : ℕ → ℕ
fps_tab i = if i == 0 then 24 else if i == 1 then 25 else 30

pub scale_tab : ℕ → ℕ
scale_tab i = if i == 2 then 999 else 1000

pub ltc_offset : ℕ → ℕ → ℕ
ltc_offset fps f =
    if fps == 24
    then (if f == 2 then 13 else if f == 3 then 16 else 0)
    else if fps == 25
    then (if f == 2 then 15 else if f == 3 then 16 else 0)
    else if fps == 30
    then (if f == 2 then 13 else if f == 3 then 14 else 0)
    else 0

-- What the interrupt finds: the frame count, the period size and the speed factor of the card, the
-- two readings of the registers 0 and 1 (of the second reading of register 1 only where register 0
-- changed), and the kernel's clock with `time64_to_tm`, which gives hours, minutes and seconds.
pub record Environment : Type 0 where
  pub frame_count : ℕ
  pub period_size : ℕ
  pub speed_factor : ℕ
  pub tc_first : ℕ
  pub tco1_first : ℕ
  pub tc_second : ℕ
  pub tco1_second : ℕ
  pub tv_sec : ℕ
  pub tv_nsec : ℕ
  pub time64_to_tm : ℕ → ℕ × ℕ × ℕ

-- The conversion of u64 to int.
pub s32 : ℕ → ℤ
s32 x = if ltb (u32 x) (2 ^ 31) then pos (u32 x) else negsuc (2 ^ 32 - 1 - u32 x)

-- The invalid time code that means the real time.
pub is_real_time : ℕ → Bool
is_real_time tc = bit_and tc 0x3f7f7f3f == 0x3f7f7f3f

pub real_time : Environment → ℕ → ℕ → ℕ → ℕ × ℕ
real_time e sr cfc fc =
    let (hours, minutes, seconds) = e.time64_to_tm (u64 (e.tv_sec + fc)) in
    (compose hours minutes seconds 0, sub_u64 cfc (e.tv_nsec / (1000000000 / sr)))

-- The frames to compensate, as the u64 that is converted to the int n. The negation is that of u64.
pub compensation : ℕ → ℕ → ℕ → ℕ
compensation fc pickup fs =
    if ltb (pickup + fs) fc
    then sub_u64 0 (fc - pickup) / fs
    else if ltb fc pickup
    then (pickup - fc) / fs + 1
    else 0

-- The samples of a frame of the outgoing time code, at single speed.
pub frame_samples : Tco → ℕ
frame_samples t =
    tco_get_sample_rate t * 1000 / (fps_tab t.settings.ltc_fps * scale_tab t.settings.ltc_fps)

-- The time code and frame count, at single speed, to start at.
pub target : Tco → Environment → ℕ × ℕ
target t e =
    let sr = tco_get_sample_rate t in
    let cfc = e.frame_count / e.speed_factor in
    let fc = t.ltc_out_frame_count / e.speed_factor in
    let (tc, fc') = if is_real_time t.ltc_out then real_time e sr cfc fc else (t.ltc_out, fc) in
    (tc, if fc' == 2 ^ 64 - 1 then cfc else fc')

-- n * fs is a u32, and so is the offset, of which `set_timecode` takes 14 bits.
pub start_timecode : Tco → Environment → Tco
start_timecode t e =
    let sr = tco_get_sample_rate t in
    let cfc = e.frame_count / e.speed_factor in
    let ps = e.period_size / e.speed_factor in
    let fps = fps_tab t.settings.ltc_fps in
    let fs = frame_samples t in
    let (tc, fc) = target t e in
    let n = compensation fc (u64 (cfc + 2 * ps)) fs in
    let fc' = u64 (fc + u32 (u32 n * fs)) in
    let tc' = add_frames (s32 n) tc fps (not (t.settings.ltc_drop == 0)) in
    let offset = u32 (sub_u64 fc' (u64 (cfc + ps))) in
    let offset' = u32 (offset + (2 ^ 32 - ltc_offset fps (sample_rate_freq sr))) in
    let set = record (set_timecode t tc' (offset' % 2 ^ 16)) { ltc_out = 0xffffffff } in
    let reg2 = bit_or set.reg2 0x10000 in
    record (write_tco 2 reg2 (record set { reg2 = reg2 })) { ltc_run = true }

pub read_ltc : Environment → LtcFrame
read_ltc e =
    let tco1 = if not (e.tc_second == e.tc_first) then e.tco1_second else e.tco1_first in
    let framerate = field_get 10 2 tco1 in
    record {
      tc = e.tc_second;
      fc = sub_u64 e.frame_count (read_offset tco1 * e.speed_factor);
      fps = fps_tab framerate;
      scale = scale_tab framerate;
      df = not (field_get 9 1 tco1 == 0);
    }

-- The estimated pull factor in thousandths; none where the C code divides by 0.
pub pull_factor : ℕ → ℕ → Option ℕ
pull_factor duration_sum fps =
    let average = u32 (duration_sum / (ltc_cache_size * 1000)) in
    if duration_sum == 0
    then some ((fps * 1000 + fps / 2) / fps)
    else if average == 0
    then none
    else some ((1000000000 / average + fps / 2) / fps)

with_pull_factor : LtcIn → Option ℕ → Option LtcIn
with_pull_factor c none = none
with_pull_factor c (some pull) =
    some (record c { ltc_in_pullfac = pull; last_ltc_in_pullfac = pull })

-- The incoming time code with a flagged change.
pub changed_ltc_in : LtcIn → Environment → Option LtcIn
changed_ltc_in c e =
    let ltc = read_ltc e in
    with_pull_factor
      (record c {
        ltc_time = e.frame_count;
        ltc_in = incr ltc.tc ltc.fps ltc.df;
        ltc_in_frame_count = ltc.fc;
        ltc_changed = false;
      })
      (pull_factor c.ltc_duration_sum ltc.fps)

pub period_ltc_in : LtcIn → Environment → Option LtcIn
period_ltc_in c e =
    if c.ltc_changed then changed_ltc_in c e else some (record c { ltc_time = e.frame_count })

-- What the card has picked up is reset.
pub reset_picked_up : Tco → Tco
reset_picked_up t = if t.ltc_set then reset_timecode t else t

pub start_requested : Tco → Environment → Tco
start_requested t e = if not (t.ltc_out == 0xffffffff) then start_timecode t e else t

-- The outgoing time code.
pub period_ltc_out : Tco → Environment → Tco
period_ltc_out t e = start_requested (reset_picked_up t) e

with_out : Tco → Environment → Option LtcIn → Option (Tco × LtcIn)
with_out t e none = none
with_out t e (some c) = some (period_ltc_out t e, c)

pub period_elapsed : Tco → LtcIn → Environment → Option (Tco × LtcIn)
period_elapsed t c e = with_out t e (period_ltc_in c e)
