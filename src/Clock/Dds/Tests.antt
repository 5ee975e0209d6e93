-- ===== src/Clock/Dds/Tests.antt =====
-- The clock of hdspe_common.c at concrete inputs.
use snd_hdspe.Common.{◌/◌, ◌%◌, ◌-◌, ◌≡◌, ◌≢◌, arith, false, not, ◌==◌, some, [], refl}
use snd_hdspe.Device.{IoType, madiface, aio, single, quad, invalid, Control, Device}
use snd_hdspe.Clock.{
  freq_sample_rate, sample_rate_speed_mode, sample_rate_freq, sample_rate_adapt, speed_mode,
  speed_factor, internal_freq, write_internal_freq, adapt_from,
}
use snd_hdspe.Clock.Freq.{IsClocked}
use snd_hdspe.Clock.Dds.{
  dds_sample_rate, write_dds, internal_pitch, write_internal_pitch, write_system_sample_rate,
  freq_const, dds_min, dds_max,
}
use snd_hdspe.Clock.Dds.Rate.{InRange}
use snd_hdspe.Clock.Dds.System.{write_system_sample_rate_lem}
use snd_hdspe.Clock.Dds.Put.{
  get_internal_freq_idx, put_internal_freq_idx, put_internal_freq_idx_lem,
}
use snd_hdspe.Clock.Dds.Pitch.{nominal_period}

abbrev control_48 : Control
control_48 = record { lat = 3; freq = 3; ds = false; qs = false }

abbrev card : IoType → Device
card t = record {
  io_type = t;
  control = control_48;
  pll_freq = 2293110696;
  tco = some (record { sample_rate = 2; reg2 = 0 });
  writes = [];
}

card-IsClocked : (t : IoType) → IsClocked (card t)
card-IsClocked t = (record { least = omega arith; most = omega arith }, omega arith)

quad-valid : quad ≢ invalid
quad-valid = ground arith

aio-other : aio ≢ madiface
aio-other = ground arith

adapted : sample_rate_adapt 96001 single ≡ 48000
unfolding sample_rate_adapt sample_rate_speed_mode adapt_from
adapted = refl

write_system_sample_rate_lem_example :
    let d' = (write_system_sample_rate (card aio) 96001).0 in
    (speed_mode d' ≡ sample_rate_speed_mode 96001)
    × (internal_freq d' ≡ sample_rate_freq 96001)
    × (dds_sample_rate d' d'.pll_freq ≡ 96001 - 96001 % speed_factor d')
    × IsClocked d'
write_system_sample_rate_lem_example =
    write_system_sample_rate_lem (card aio) 96001 (card-IsClocked aio) aio-other
      (omega (arith, adapted)) (omega (arith, adapted))

pitch-InRange : InRange (card aio) (nominal_period (card aio) / 1010000)
unfolding dds_min dds_max freq_const freq_sample_rate
pitch-InRange = (omega arith, omega arith)

-- At 48 kHz with a pitch of 962177 parts per million.
abbrev pitched : Device
pitched = record (card aio) { pll_freq = 2270406629 }

put_internal_freq_idx_lem_example :
    let (d2, changed, notified) = put_internal_freq_idx pitched 1 in
    (get_internal_freq_idx d2 ≡ 1)
    × (changed ≡ not (1 == get_internal_freq_idx pitched))
    × (internal_pitch d2 ≡ internal_pitch pitched)
    × IsClocked d2
unfolding internal_pitch snd_hdspe.Clock.Dds.dds2ppm write_internal_freq
    snd_hdspe.Clock.set_internal_freq snd_hdspe.Clock.tco_set_app_sample_rate freq_const
    freq_sample_rate snd_hdspe.Clock.speed_adapt dds_min dds_max internal_freq
put_internal_freq_idx_lem_example =
    put_internal_freq_idx_lem pitched 1 (card-IsClocked aio) aio-other (omega arith) (omega arith)
      (omega arith, omega arith)
