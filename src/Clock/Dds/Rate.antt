-- ===== src/Clock/Dds/Rate.antt =====
-- The sample rate that the DDS of hdspe_common.c is set to, and read back.
use snd_hdspe.Common.{
  ℕ, ◌/◌, ◌^◌, ◌≤◌, ◌<◌, ◌≡◌, ◌≢◌, arith, ltb, ◌==◌, if◌then◌else◌, refl, inl, inr, Bool-cases,
  ==_iff, le→ltb_false, ltb_false→le, lt→ltb, u32, sym,
}
use snd_hdspe.Common.Int.{pos, negsuc}
use snd_hdspe.Device.{IoType, madi, madiface, aio, aes, raydat, aio_pro, Device}
use snd_hdspe.Clock.Dds.{freq_const, dds_min, dds_max, write_dds}

-- The reference constants of the cards other than the MADIface.
pub record IsReference (c : ℕ) : Type 0 where
  pub least : 104857600000000 ≤ c
  pub most : c ≤ 110069313433624

pub freq_const-IsReference : (t : IoType) → t ≢ madiface → IsReference (freq_const t)
unfolding freq_const
freq_const-IsReference madi h = record { least = omega arith; most = omega arith }
freq_const-IsReference madiface h = absurd (h refl)
freq_const-IsReference aio h = record { least = omega arith; most = omega arith }
freq_const-IsReference aes h = record { least = omega arith; most = omega arith }
freq_const-IsReference raydat h = record { least = omega arith; most = omega arith }
freq_const-IsReference aio_pro h = record { least = omega arith; most = omega arith }

-- A DDS value that the card accepts.
abbrev pub InRange : Device → ℕ → Type 0
InRange d dds = (dds_min d ≤ dds) × (dds ≤ dds_max d)

no_wrap :
    (c : ℕ)
    → 104857600000000 ≤ c
    → c ≤ 110069313433624
    → (u32 (c / 51750) ≡ c / 51750)
      × (u32 (c / 27000) ≡ c / 27000)
      × (2026233043 ≤ u32 (c / 51750))
      × (u32 (c / 27000) < 2 ^ 32)
no_wrap c l m = (omega arith, omega arith, omega arith, omega arith)

pub range_reference :
    (d : Device)
    → d.io_type ≢ madiface
    → (dds_min d ≡ freq_const d.io_type / 51750)
      × (dds_max d ≡ freq_const d.io_type / 27000)
      × (2026233043 ≤ dds_min d)
      × (dds_max d < 2 ^ 32)
unfolding dds_min dds_max
range_reference d h =
    let reference = freq_const-IsReference d.io_type h in
    no_wrap (freq_const d.io_type) reference.least reference.most

-- A value in range is the register's content afterwards, and nothing but its write happens; it
-- counts as a change where the register had another value. Out of range is -EINVAL.
pub write_dds-InRange :
    (d : Device) (dds : ℕ)
    → InRange d dds
    → ((write_dds d dds).0.pll_freq ≡ dds)
      × ((write_dds d dds).0.control ≡ d.control)
      × ((write_dds d dds).0.io_type ≡ d.io_type)
      × ((write_dds d dds).1 ≡ pos (if dds == d.pll_freq then 0 else 1))
unfolding write_dds
write_dds-InRange d dds h =
    rw (le→ltb_false dds (dds_min d) h.0, le→ltb_false (dds_max d) dds h.1)
      (elim (Bool-cases (dds == d.pll_freq)) [
        | inl same ↦ rw same (sym ((==_iff dds d.pll_freq).0 same), refl, refl, refl)
        | inr other ↦ rw other (refl, refl, refl, refl)
      ])

-- On the MADIface every DDS value is refused: the upper bound is cut to 32 bits and is below the
-- lower one.
pub write_dds_madiface :
    (d : Device) (dds : ℕ) → d.io_type ≡ madiface → write_dds d dds ≡ (d, negsuc 21)
unfolding write_dds dds_min dds_max freq_const
write_dds_madiface d dds h = rw h (elim (Bool-cases (ltb dds 2532792270)) [
  | inl below ↦ rw below refl
  | inr above ↦
      rw (above, lt→ltb 559551222 dds (omega (arith, ltb_false→le dds 2532792270 above))) refl
])
