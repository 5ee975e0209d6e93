-- ===== src/Clock/Dds/System.antt =====
-- The system sample rate of hdspe_common.c: what is set is what is read back.
use snd_hdspe.Common.{
  ℕ, ◌-◌, ◌*◌, ◌/◌, ◌%◌, ◌≤◌, ◌≡◌, ◌≢◌, arith, ◌∙◌, u32, ap, sym, ne_zero, refl, Bool, true, false,
  ltb, ◌||◌, ◌==◌, if◌then◌else◌, ◌∷◌,
}
use native.Mathlib.Nat.{mul-le-mul, mod-eq_of_lt, lt_of_le_of_lt}
use snd_hdspe.Common.Quotient.{mul-div_quotient, div-le_of_le}
use snd_hdspe.Common.Int.{ℤ, pos, negsuc}
use snd_hdspe.Device.{wr_pll_freq, madiface, SpeedMode, single, double, quad, invalid, Device}
use snd_hdspe.Clock.{
  sample_rate_speed_mode, freq_speed, sample_rate_freq, sample_rate_adapt, speed_mode, speed_factor,
  internal_freq, write_internal_freq, adapt_from,
}
use snd_hdspe.Clock.Freq.{
  IsClass, IsClocked, Clocked, Clocked-same_control, write_internal_freq_lem,
}
use snd_hdspe.Clock.Dds.{
  freq_const, dds_sample_rate, dds_min, dds_max, write_dds, write_system_sample_rate,
}
use snd_hdspe.Clock.Dds.Rate.{InRange, range_reference, write_dds-InRange}

abbrev mode_factor : SpeedMode → ℕ
mode_factor double = 2
mode_factor quad = 4
mode_factor _ = 1

speed_factor-eq : (d : Device) → speed_factor d ≡ mode_factor (speed_mode d)
unfolding speed_factor speed_mode
speed_factor-eq d = ground arith

-- Any rate has a class, of the rate's own speed mode.
pub sample_rate_freq-IsClass :
    (rate : ℕ)
    → IsClass (sample_rate_freq rate)
      × (freq_speed (sample_rate_freq rate) ≡ sample_rate_speed_mode rate)
unfolding sample_rate_freq freq_speed sample_rate_speed_mode
sample_rate_freq-IsClass rate = ground arith

-- The rate at single speed, times the factor of its mode.
adapt_from-single :
    (m : SpeedMode) (rate : ℕ)
    → adapt_from m single rate * mode_factor m ≡ rate - rate % mode_factor m
unfolding adapt_from
adapt_from-single single rate = omega arith
adapt_from-single double rate = omega arith
adapt_from-single quad rate = omega arith
adapt_from-single invalid rate = omega arith

mode_factor_range : (m : SpeedMode) → (1 ≤ mode_factor m) × (mode_factor m ≤ 4)
mode_factor_range single = (omega arith, omega arith)
mode_factor_range double = (omega arith, omega arith)
mode_factor_range quad = (omega arith, omega arith)
mode_factor_range invalid = (omega arith, omega arith)

-- The DDS value of a rate at single speed between the two bounds is in the range of the card.
dds-InRange :
    (d : Device) (s : ℕ)
    → d.io_type ≢ madiface
    → 27000 ≤ s
    → s ≤ 51750
    → InRange d (freq_const d.io_type / s)
dds-InRange d s h l m =
    let (least, most, _, _) = range_reference d h in
    (
      rw least (div-le_of_le (freq_const d.io_type) s 51750 (omega arith) m),
      rw most (div-le_of_le (freq_const d.io_type) 27000 s (omega arith) l),
    )

-- The rate that is read back from a DDS value that was computed for s.
dds_sample_rate-div :
    (d : Device) (s : ℕ)
    → d.io_type ≢ madiface
    → 27000 ≤ s
    → s ≤ 51750
    → dds_sample_rate d (freq_const d.io_type / s) ≡ s * speed_factor d
unfolding dds_sample_rate
dds_sample_rate-div d s h l m =
    let q : ℕ = freq_const d.io_type / s in
    let k : ℕ = speed_factor d in
    let (factor_least, factor_most) : (1 ≤ k) × (k ≤ 4) =
      rw (speed_factor-eq d) (mode_factor_range (speed_mode d)) in
    let small : s * k ≤ 51750 * 4 = mul-le-mul m factor_most in
    let (_, _, least, _) = range_reference d h in
    let above : dds_min d ≤ q = (dds-InRange d s h l m).0 in
    rw (ne_zero q (omega arith)) (
      ap u32 (mul-div_quotient (freq_const d.io_type) k s (omega arith) factor_least (omega arith))
      ∙ mod-eq_of_lt (omega arith))

-- The DDS value of a rate passes the cut to 32 bits and the range test.
write_dds-dds :
    (d : Device) (c s f : ℕ)
    → c ≡ freq_const d.io_type
    → d.io_type ≢ madiface
    → 27000 ≤ s
    → s ≤ 51750
    → Clocked d f
    → let d' = (write_dds d (u32 (c / s))).0 in
      Clocked d' f × (dds_sample_rate d' d'.pll_freq ≡ s * speed_factor d')
write_dds-dds d c s f e h l m k =
    let (_, _, _, most) = range_reference d h in
    let accepted : InRange d (c / s) = rw e (dds-InRange d s h l m) in
    let fits : u32 (c / s) ≡ c / s = mod-eq_of_lt (lt_of_le_of_lt accepted.1 most) in
    let (pll, control, io, _) = write_dds-InRange d (c / s) accepted in
    let d' : Device = (write_dds d (c / s)).0 in
    let period : d'.pll_freq ≡ freq_const d'.io_type / s =
      pll ∙ ap (λ (t : ℕ). t / s) (e ∙ ap freq_const (sym io)) in
    rw fits (
      Clocked-same_control d d' f control k,
      ap (dds_sample_rate d') period ∙ dds_sample_rate-div d' s (λ x. h (sym io ∙ x)) l m,
    )

rounded_rate :
    (rate k : ℕ)
    → k ≡ mode_factor (sample_rate_speed_mode rate)
    → sample_rate_adapt rate single * k ≡ rate - rate % k
unfolding sample_rate_adapt
rounded_rate rate k e = rw e (adapt_from-single (sample_rate_speed_mode rate) rate)

-- Setting the system sample rate to a rate that is, at single speed, between 27 and 51.75 kHz
-- sets the rate's class and speed mode, and the rate that is read back is the rate rounded down
-- to a multiple of the speed mode's factor.
pub write_system_sample_rate_lem :
    (d : Device) (rate : ℕ)
    → IsClocked d
    → d.io_type ≢ madiface
    → 27000 ≤ sample_rate_adapt rate single
    → sample_rate_adapt rate single ≤ 51750
    → let d' = (write_system_sample_rate d rate).0 in
      (speed_mode d' ≡ sample_rate_speed_mode rate)
      × (internal_freq d' ≡ sample_rate_freq rate)
      × (dds_sample_rate d' d'.pll_freq ≡ rate - rate % speed_factor d')
      × IsClocked d'
unfolding write_system_sample_rate
write_system_sample_rate_lem d rate w h l m =
    let f : ℕ = sample_rate_freq rate in
    let s : ℕ = sample_rate_adapt rate single in
    let (is_class, mode) = sample_rate_freq-IsClass rate in
    let (k, _, _, io) = write_internal_freq_lem d f w is_class in
    let d1 : Device = (write_internal_freq d f).0 in
    let c : ℕ = freq_const d.io_type in
    let (k', read) = write_dds-dds d1 c s f (ap freq_const (sym io)) (λ x. h (sym io ∙ x)) l m k in
    let d2 : Device = (write_dds d1 (u32 (c / s))).0 in
    let factor : speed_factor d2 ≡ mode_factor (sample_rate_speed_mode rate) =
      speed_factor-eq d2 ∙ ap mode_factor (k'.mode ∙ mode) in
    (k'.mode ∙ mode, k'.class, read ∙ rounded_rate rate (speed_factor d2) factor, k'.is_clocked)

write_dds-io_type : (d : Device) (dds : ℕ) → (write_dds d dds).0.io_type ≡ d.io_type
unfolding write_dds
write_dds-io_type d dds = by_tests (ltb dds (dds_min d) || ltb (dds_max d) dds) (dds == d.pll_freq)
  where
    written : Device
    written = record d { pll_freq = dds; writes = wr_pll_freq dds ∷ d.writes }

    result : Bool → Bool → Device × ℤ
    result out same = if out then (d, negsuc 21) else if same then (d, pos 0) else (written, pos 1)

    by_tests : (out same : Bool) → (result out same).0.io_type ≡ d.io_type
    by_tests true same = refl
    by_tests false true = refl
    by_tests false false = refl

-- Setting the sample rate does not change the card model.
pub write_system_sample_rate-io_type :
    (d : Device) (rate : ℕ) → IsClocked d → (write_system_sample_rate d rate).0.io_type ≡ d.io_type
unfolding write_system_sample_rate
write_system_sample_rate-io_type d rate w =
    let (is_class, mode) = sample_rate_freq-IsClass rate in
    let (k, changed, pll, io) = write_internal_freq_lem d (sample_rate_freq rate) w is_class in
    write_dds-io_type _ _ ∙ io
