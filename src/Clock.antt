-- ===== src/Clock.antt =====
-- hdspe_common.c: frequency classes, speed modes, the DDS frequency synthesizer and the sample
-- rate, with `hdspe_tco_set_app_sample_rate` of hdspe_tco.c, which a change of the frequency
-- calls. An enum is its number; u64 products and quotients stay below 2 ^ 64.
pub mod Dds
pub mod Freq
use snd_hdspe.Common.{
  ℕ, zero, suc, ◌+◌, ◌-◌, ◌*◌, ◌/◌, ◌%◌, ◌^◌, bit_and, bit_or, Bool, true, false, not, ◌&&◌, ◌||◌,
  ltb, leb, ◌==◌, if◌then◌else◌, u32, Option, none, some, List, [], ◌∷◌,
}
use snd_hdspe.Common.Int.{ℤ, pos, negsuc}
use snd_hdspe.Device.{
  IoType, madi, madiface, aio, aes, raydat, aio_pro, SpeedMode, single, double, quad, invalid,
  Control, TcoClock, Write, wr_control, wr_pll_freq, wr_tco, Device,
}

-- The table has entries for the classes 0 to 8 only; C fills the tenth with 0.
unfoldable pub freq_sample_rate : ℕ → ℕ
freq_sample_rate f =
    if f == 1
    then 32000
    else if f == 2
    then 44100
    else if f == 3
    then 48000
    else if f == 4
    then 64000
    else if f == 5
    then 88200
    else if f == 6
    then 96000
    else if f == 7
    then 128000
    else if f == 8
    then 176400
    else 0

unfoldable pub sample_rate_speed_mode : ℕ → SpeedMode
sample_rate_speed_mode rate =
    if ltb rate 56000 then single else if ltb rate 112000 then double else quad

pub freq_speed : ℕ → SpeedMode
freq_speed f =
    if (f == 1) || (f == 2) || (f == 3)
    then single
    else if (f == 4) || (f == 5) || (f == 6)
    then double
    else if (f == 7) || (f == 8) || (f == 9)
    then quad
    else invalid

-- The class of a rate at single speed.
abbrev single_class : ℕ → ℕ
single_class rate = if ltb rate 38050 then 1 else if ltb rate 46050 then 2 else 3

pub sample_rate_freq : ℕ → ℕ
sample_rate_freq rate =
    if leb 112000 rate
    then single_class (rate / 4) + 6
    else if leb 56000 rate
    then single_class (rate / 2) + 3
    else single_class rate

-- The inner switch of `speed_adapt` for a class at single speed.
adapt_single : ℕ → SpeedMode → ℕ
adapt_single f double = f + 3
adapt_single f quad = f + 6
adapt_single f _ = f

-- The inner switch for a class at double speed.
adapt_double : ℕ → SpeedMode → ℕ
adapt_double f single = f - 3
adapt_double f quad = f + 3
adapt_double f _ = f

-- The inner switch for a class at quad speed.
adapt_quad : ℕ → SpeedMode → ℕ
adapt_quad f single = f - 6
adapt_quad f double = f - 3
adapt_quad f _ = f

-- The two nested switches of `sample_rate_adapt`.
adapt_from : SpeedMode → SpeedMode → ℕ → ℕ
adapt_from single double rate = u32 (rate * 2)
adapt_from single quad rate = u32 (rate * 4)
adapt_from double single rate = rate / 2
adapt_from double quad rate = u32 (rate * 2)
adapt_from quad single rate = rate / 4
adapt_from quad double rate = rate / 2
adapt_from _ _ rate = rate

abbrev pub is_double : SpeedMode → Bool
is_double double = true
is_double _ = false

abbrev pub is_quad : SpeedMode → Bool
is_quad quad = true
is_quad _ = false

-- The class of f's family at another speed; 11 is HDSPE_FREQ_INVALID.
pub speed_adapt : ℕ → SpeedMode → ℕ
unfolding adapt_single adapt_double adapt_quad
speed_adapt f speed =
    if f == 0
    then f
    else if (f == 1) || (f == 2) || (f == 3)
    then adapt_single f speed
    else if (f == 4) || (f == 5) || (f == 6)
    then adapt_double f speed
    else if (f == 7) || (f == 8) || (f == 9)
    then adapt_quad f speed
    else 11

pub sample_rate_adapt : ℕ → SpeedMode → ℕ
sample_rate_adapt rate speed = adapt_from (sample_rate_speed_mode rate) speed rate

pub speed_mode : Device → SpeedMode
speed_mode d = if d.control.qs then quad else if d.control.ds then double else single

pub speed_factor : Device → ℕ
speed_factor d = if d.control.qs then 4 else if d.control.ds then 2 else 1

pub internal_freq : Device → ℕ
internal_freq d = d.control.freq + (if d.control.qs then 6 else if d.control.ds then 3 else 0)

-- HDSPE_TCO2_set_freq
abbrev set_freq : ℕ
set_freq = 0x08000000

abbrev is_48khz : Bool → ℕ
is_48khz b = if b then set_freq else 0

-- The body of `tco_set_app_sample_rate` once the module is there; 2 is
-- HDSPE_TCO_SAMPLE_RATE_FROM_APP. `hdspe_write_tco` clears the sync bits of what it writes.
tco_follow : TcoClock → Device → Device
tco_follow c d =
    let tco_48khz = not (bit_and c.reg2 set_freq == 0) in
    let sys_48khz = d.control.freq == 3 in
    let reg2 = bit_or (bit_and c.reg2 (2 ^ 32 - 1 - set_freq)) (is_48khz sys_48khz) in
    if not (c.sample_rate == 2)
    then d
    else if (tco_48khz && sys_48khz) || (not tco_48khz && not sys_48khz)
    then d
    else record d {
      tco = some (record c { reg2 = reg2 });
      writes = wr_tco 2 (bit_and reg2 0x7f7f7f7f) ∷ d.writes;
    }

pub tco_set_app_sample_rate : Device → Device
unfolding tco_follow
tco_set_app_sample_rate d = elim d.tco [ none ↦ d | some c ↦ tco_follow c d ]

-- Two bits of the control register hold the class at single speed.
pub set_internal_freq : Device → ℕ → Device
set_internal_freq d f =
    let control = record (d.control) {
      freq = speed_adapt f single % 4;
      ds = is_double (freq_speed f);
      qs = is_quad (freq_speed f);
    } in
    record d { control = control; writes = wr_control control ∷ d.writes }

pub write_internal_freq : Device → ℕ → Device × Bool
write_internal_freq d f =
    if f == internal_freq d
    then (d, false)
    else (tco_set_app_sample_rate (set_internal_freq d f), true)
