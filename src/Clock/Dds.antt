-- ===== src/Clock/Dds.antt =====
-- The DDS frequency synthesizer of hdspe_common.c. The card's clock at single speed is the
-- constant of the card model over the DDS value. An int result or argument of the pitch functions
-- is its 32 bits. A divisor is not 0 where the kernel's div_u64 is called: the class in the
-- control register is 1 to 3, and a requested rate is at least 4.
pub mod Rate
pub mod System
pub mod Pitch
pub mod Put
mod Tests
use snd_hdspe.Common.{
  ℕ, ◌+◌, ◌*◌, ◌/◌, ◌%◌, ◌^◌, Bool, true, false, ◌&&◌, ◌||◌, not, ltb, ◌==◌, if◌then◌else◌, u32,
  ◌∷◌,
}
use snd_hdspe.Common.Int.{ℤ, pos, negsuc}
use snd_hdspe.Device.{
  IoType, madi, madiface, aio, aes, raydat, aio_pro, single, wr_pll_freq, Device,
}
use snd_hdspe.Clock.{
  freq_sample_rate, sample_rate_adapt, sample_rate_freq, speed_factor, write_internal_freq,
}

unfoldable pub freq_const : IoType → ℕ
freq_const madi = 110069313433624
freq_const madiface = 131072000000000
freq_const aio = 104857600000000
freq_const aes = 110069313433624
freq_const raydat = 104857600000000
freq_const aio_pro = 104857600000000

pub dds2ppm : Device → ℕ → ℕ
dds2ppm d dds =
    let refdds = 1000000 * (freq_const d.io_type / freq_sample_rate d.control.freq) in
    if not (dds == 0) then u32 (refdds / dds) else 1000000

pub ppm2dds : Device → ℕ → ℕ
ppm2dds d ppm =
    let refdds = freq_const d.io_type / freq_sample_rate d.control.freq in
    if not (ppm == 0) then u32 (1000000 * refdds / ppm) else u32 refdds

unfoldable pub dds_sample_rate : Device → ℕ → ℕ
dds_sample_rate d dds =
    if not (dds == 0)
    then u32 (freq_const d.io_type * speed_factor d / dds)
    else freq_sample_rate d.control.freq

pub dds_min : Device → ℕ
dds_min d = u32 (freq_const d.io_type / 51750)

pub dds_max : Device → ℕ
dds_max d = u32 (freq_const d.io_type / 27000)

-- 1 if the register changed, 0 if it did not, and -EINVAL out of range.
pub write_dds : Device → ℕ → Device × ℤ
write_dds d dds =
    if ltb dds (dds_min d) || ltb (dds_max d) dds
    then (d, negsuc 21)
    else if dds == d.pll_freq
    then (d, pos 0)
    else (record d { pll_freq = dds; writes = wr_pll_freq dds ∷ d.writes }, pos 1)

pub internal_pitch : Device → ℕ
internal_pitch d = dds2ppm d d.pll_freq

pub write_internal_pitch : Device → ℕ → Device × ℤ
write_internal_pitch d ppm = write_dds d (ppm2dds d ppm)

abbrev is_nonzero : ℤ → Bool
is_nonzero (pos n) = not (n == 0)
is_nonzero (negsuc n) = true

-- The dds of type u64 is cut to 32 bits where it is passed on. At rate 0, which ALSA's limits exclude,
-- the code divides by 0 and the quotient is 0 here.
pub write_system_sample_rate : Device → ℕ → Device × Bool
write_system_sample_rate d rate =
    let dds = freq_const d.io_type / sample_rate_adapt rate single in
    let (d1, changed) = write_internal_freq d (sample_rate_freq rate) in
    let (d2, rc) = write_dds d1 (u32 dds) in (d2, if is_nonzero rc then true else changed)
