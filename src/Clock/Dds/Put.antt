-- ===== src/Clock/Dds/Put.antt =====
-- The control of the internal frequency in hdspe_control.c, which keeps the pitch.
use snd_hdspe.Common.{
  ℕ, ◌-◌, ◌+◌, ◌/◌, ◌≤◌, ◌<◌, ◌≡◌, ◌≢◌, arith, Bool, not, ◌||◌, ◌==◌, ltb, Bool-cases, inl, inr,
  refl, sym, ap, ◌∙◌,
}
use snd_hdspe.Device.{madiface, Device}
use snd_hdspe.Clock.{internal_freq, write_internal_freq}
use snd_hdspe.Clock.Freq.{IsClocked, Clocked-same_control, write_internal_freq_lem}
use snd_hdspe.Clock.Dds.{
  write_dds, dds_min, dds_max, internal_pitch, write_internal_pitch, is_nonzero,
}
use snd_hdspe.Clock.Dds.Rate.{InRange}
use snd_hdspe.Clock.Dds.Pitch.{nominal_period, internal_pitch-write_internal_pitch}

-- The control's items begin with 32 kHz, whose class is 1.
pub get_internal_freq_idx : Device → ℕ
get_internal_freq_idx d = internal_freq d - 1

-- The result, and whether ALSA is notified of another DDS value.
pub put_internal_freq_idx : Device → ℕ → Device × Bool × Bool
put_internal_freq_idx d val =
    let pitch = internal_pitch d in
    let (d1, changed) = write_internal_freq d (val + 1) in
    let (d2, rc) = write_internal_pitch d1 pitch in (d2, changed, is_nonzero rc)

write_dds-control : (d : Device) (dds : ℕ) → (write_dds d dds).0.control ≡ d.control
unfolding write_dds
write_dds-control d dds = elim (Bool-cases (ltb dds (dds_min d) || ltb (dds_max d) dds)) [
  | inl out ↦ rw out refl
  | inr in_range ↦ elim (Bool-cases (dds == d.pll_freq)) [
    | inl same ↦ rw (in_range, same) refl
    | inr other ↦ rw (in_range, other) refl
  ]
]

internal_freq_least : (d : Device) → IsClocked d → 1 ≤ internal_freq d
unfolding internal_freq
internal_freq_least d w = omega (arith, w.0.least)

shifted : (val f : ℕ) → 1 ≤ f → (val + 1 == f) ≡ (val == f - 1)
shifted val f l = ground arith

-- On a card other than the MADIface, whose control register holds one of the three classes at single
-- speed, and where the pitch can be set at the new frequency too: after a put of an item the control
-- gives that item, the result says whether the frequency has changed, the pitch is exactly what it
-- was, and the register holds such a class again.
pub put_internal_freq_idx_lem :
    (d : Device) (val : ℕ)
    → IsClocked d
    → d.io_type ≢ madiface
    → val < 9
    → 1 ≤ internal_pitch d
    → let d1 = (write_internal_freq d (val + 1)).0 in
      InRange d1 (nominal_period d1 / internal_pitch d)
      → let (d2, changed, notified) = put_internal_freq_idx d val in
        (get_internal_freq_idx d2 ≡ val)
        × (changed ≡ not (val == get_internal_freq_idx d))
        × (internal_pitch d2 ≡ internal_pitch d)
        × IsClocked d2
unfolding put_internal_freq_idx get_internal_freq_idx write_internal_pitch
put_internal_freq_idx_lem d val w h l p r =
    let (clocked, changed, _, io) =
      write_internal_freq_lem d (val + 1) w (record { least = omega arith; most = omega arith }) in
    let d1 : Device = (write_internal_freq d (val + 1)).0 in
    let kept =
      Clocked-same_control d1 (write_internal_pitch d1 (internal_pitch d)).0 (val + 1)
        (write_dds-control d1 _) clocked in
    (
      rw (kept.class) (omega arith),
      changed ∙ ap not (shifted val (internal_freq d) (internal_freq_least d w)),
      internal_pitch-write_internal_pitch d1 (internal_pitch d) clocked.is_clocked
          (λ e. h (sym io ∙ e)) p r,
      kept.is_clocked,
    )
