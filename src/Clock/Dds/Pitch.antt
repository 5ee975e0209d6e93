-- ===== src/Clock/Dds/Pitch.antt =====
-- The pitch of hdspe_common.c, in parts per million: what is set is what is read back.
use snd_hdspe.Common.{
  ℕ, ◌*◌, ◌/◌, ◌^◌, ◌≤◌, ◌<◌, ◌≡◌, ◌≢◌, arith, true, refl, ◌∙◌, u32, ap, ne_zero,
}
use native.Mathlib.Nat.{mod-eq_of_lt, lt_of_le_of_lt, mul-le-mul_right, div-mul-le_self}
use snd_hdspe.Common.Quotient.{div_quotient, div-le_of_le}
use snd_hdspe.Device.{IoType, madiface, Device, Control, single}
use snd_hdspe.Clock.{freq_sample_rate, sample_rate_adapt, sample_rate_freq, write_internal_freq}
use snd_hdspe.Clock.Freq.{IsClocked, write_internal_freq_lem}
use snd_hdspe.Clock.Dds.System.{sample_rate_freq-IsClass}
use snd_hdspe.Clock.Dds.{
  freq_const, dds2ppm, ppm2dds, write_dds, internal_pitch, write_internal_pitch,
  write_system_sample_rate,
}
use snd_hdspe.Clock.Dds.Rate.{
  InRange, range_reference, write_dds-InRange, write_dds_madiface, freq_const-IsReference,
}

-- The DDS period of the nominal rate, in units of 10^-6.
abbrev pub nominal_period : Device → ℕ
nominal_period d = 1000000 * (freq_const d.io_type / freq_sample_rate d.control.freq)

freq_sample_rate-most : (f : ℕ) → 1 ≤ f → f ≤ 3 → 32000 ≤ freq_sample_rate f
unfolding freq_sample_rate
freq_sample_rate-most f l m = ground arith

nominal_period_bound :
    (d : Device) → IsClocked d → d.io_type ≢ madiface → nominal_period d ≤ 3439666044000000
nominal_period_bound d w h =
    let reference = freq_const-IsReference d.io_type h in
    let rate = freq_sample_rate-most d.control.freq w.0.least w.1 in
    let period =
      div-le_of_le (freq_const d.io_type) 32000 (freq_sample_rate d.control.freq) (omega arith)
        rate in
    omega (arith, reference.most, period)

-- A pitch whose period the card accepts is far below that period.
pitch_bound :
    (d : Device) (ppm : ℕ)
    → IsClocked d
    → d.io_type ≢ madiface
    → InRange d (nominal_period d / ppm)
    → ppm ≤ 1697567
pitch_bound d ppm w h r =
    let (_, _, least, _) = range_reference d h in
    let product : 2026233043 * ppm ≤ nominal_period d / ppm * ppm =
      mul-le-mul_right ppm (omega (arith, least, r.0)) in
    omega (arith, product, div-mul-le_self (nominal_period d) ppm, nominal_period_bound d w h)

ppm2dds-eq :
    (d : Device) (ppm : ℕ)
    → 1 ≤ ppm
    → nominal_period d / ppm < 2 ^ 32
    → ppm2dds d ppm ≡ nominal_period d / ppm
unfolding ppm2dds
ppm2dds-eq d ppm l m = rw (ne_zero ppm l) (mod-eq_of_lt m)

dds2ppm-div :
    (d : Device) (n ppm : ℕ)
    → nominal_period d ≡ n
    → 1 ≤ ppm
    → ppm ≤ n / ppm
    → ppm < 2 ^ 32
    → dds2ppm d (n / ppm) ≡ ppm
unfolding dds2ppm
dds2ppm-div d n ppm e l m b =
    rw (ne_zero (n / ppm) (omega arith))
      (ap (λ (t : ℕ). u32 (t / (n / ppm))) e ∙ ap u32 (div_quotient n ppm l m) ∙ mod-eq_of_lt b)

-- Where the card accepts the period of a pitch, the pitch that is read back is the pitch that was
-- written, without a loss by the two divisions.
pub internal_pitch-write_internal_pitch :
    (d : Device) (ppm : ℕ)
    → IsClocked d
    → d.io_type ≢ madiface
    → 1 ≤ ppm
    → InRange d (nominal_period d / ppm)
    → internal_pitch (write_internal_pitch d ppm).0 ≡ ppm
unfolding write_internal_pitch internal_pitch
internal_pitch-write_internal_pitch d ppm w h l r =
    let (_, _, least, most) = range_reference d h in
    let bound : ppm ≤ 1697567 = pitch_bound d ppm w h r in
    let q : ℕ = nominal_period d / ppm in
    let (pll, control, io, _) = write_dds-InRange d q r in
    let d' : Device = (write_dds d q).0 in
    let period : nominal_period d' ≡ nominal_period d =
      ap (λ (t : IoType). 1000000 * (freq_const t / freq_sample_rate d'.control.freq)) io
      ∙ ap (λ (c : Control). 1000000 * (freq_const d.io_type / freq_sample_rate c.freq)) control in
    rw (ppm2dds-eq d ppm l (lt_of_le_of_lt r.1 most)) (
      ap (dds2ppm d') pll
      ∙ dds2ppm-div d' (nominal_period d) ppm period l (omega (arith, least, r.0)) (omega arith))

-- On the MADIface a write of the system sample rate never reaches the DDS register, and it reports
-- a change all the same.
pub write_system_sample_rate_madiface :
    (d : Device) (rate : ℕ)
    → IsClocked d
    → d.io_type ≡ madiface
    → ((write_system_sample_rate d rate).0.pll_freq ≡ d.pll_freq)
      × ((write_system_sample_rate d rate).1 ≡ true)
unfolding write_system_sample_rate
write_system_sample_rate_madiface d rate w h =
    let (is_class, _) = sample_rate_freq-IsClass rate in
    let (_, _, pll, io) = write_internal_freq_lem d (sample_rate_freq rate) w is_class in
    let d1 : Device = (write_internal_freq d (sample_rate_freq rate)).0 in
    rw (write_dds_madiface d1 (u32 (freq_const d.io_type / sample_rate_adapt rate single)) (io ∙ h))
      (pll, refl)
