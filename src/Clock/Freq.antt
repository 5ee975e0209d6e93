-- ===== src/Clock/Freq.antt =====
-- Frequency classes and speed modes of hdspe_common.c: conversions and the control register.
use snd_hdspe.Common.{
  ℕ, ◌+◌, ◌%◌, ◌≤◌, ◌≡◌, ◌≢◌, arith, Bool, true, false, not, ◌==◌, if◌then◌else◌, ◌∙◌, Option, none,
  some, refl, ◌⊎◌, inl, inr, Bool-cases, ==_iff,
}
use snd_hdspe.Device.{SpeedMode, single, double, quad, invalid, TcoClock, Device}
use snd_hdspe.Clock.{
  freq_sample_rate, sample_rate_speed_mode, freq_speed, sample_rate_freq, speed_adapt, is_double,
  is_quad, set_internal_freq, speed_mode, internal_freq, write_internal_freq,
  tco_set_app_sample_rate,
}

-- The classes that stand for a frequency.
pub record IsClass (f : ℕ) : Type 0 where
  pub least : 1 ≤ f
  pub most : f ≤ 9

-- A class adapted to a speed mode has that speed, and adapting it back gives the class again.
pub freq_speed-speed_adapt :
    (f : ℕ) (s : SpeedMode)
    → IsClass f
    → s ≢ invalid
    → (freq_speed (speed_adapt f s) ≡ s) × (speed_adapt (speed_adapt f s) (freq_speed f) ≡ f)
unfolding freq_speed speed_adapt
freq_speed-speed_adapt f single c h = ground arith
freq_speed-speed_adapt f double c h = ground arith
freq_speed-speed_adapt f quad c h = ground arith
freq_speed-speed_adapt f invalid c h = absurd (h refl)

-- The rate of a class has that class and that class's speed mode, but for class 9.
pub sample_rate_freq-freq_sample_rate :
    (f : ℕ)
    → IsClass f
    → f ≢ 9
    → (sample_rate_freq (freq_sample_rate f) ≡ f)
      × (sample_rate_speed_mode (freq_sample_rate f) ≡ freq_speed f)
unfolding sample_rate_freq freq_sample_rate sample_rate_speed_mode freq_speed
sample_rate_freq-freq_sample_rate f c h = ground arith

-- The control register has one of the three classes at single speed.
abbrev pub IsClocked : Device → Type 0
IsClocked d = IsClass d.control.freq × (d.control.freq ≤ 3)

tco_option : (o : Option TcoClock) → (o ≡ none) ⊎ ((c : TcoClock) × (o ≡ some c))
tco_option none = inl refl
tco_option (some c) = inr (c, refl)

-- A change of the frequency reaches the TCO module in its own register only.
pub tco_set_app_sample_rate_keeps :
    (d : Device)
    → ((tco_set_app_sample_rate d).control ≡ d.control)
      × ((tco_set_app_sample_rate d).pll_freq ≡ d.pll_freq)
      × ((tco_set_app_sample_rate d).io_type ≡ d.io_type)
unfolding tco_set_app_sample_rate
tco_set_app_sample_rate_keeps d = ground arith

-- What a class writes into the control register stands for that class.
register_freq-written :
    (f : ℕ)
    → IsClass f
    → (speed_adapt f single % 4
          + (if is_quad (freq_speed f) then 6 else if is_double (freq_speed f) then 3 else 0)
        ≡ f)
      × ((if is_quad (freq_speed f)
            then quad
            else if is_double (freq_speed f)
            then double
            else single)
          ≡ freq_speed f)
      × IsClass (speed_adapt f single % 4)
      × (speed_adapt f single % 4 ≤ 3)
unfolding freq_speed speed_adapt
register_freq-written f c = ground arith

-- The clock state that the control register holds.
pub record Clocked (d : Device) (f : ℕ) : Type 0 where
  pub class : internal_freq d ≡ f
  pub mode : speed_mode d ≡ freq_speed f
  pub is_clocked : IsClocked d

pub Clocked-same_control :
    (d e : Device) (f : ℕ) → e.control ≡ d.control → Clocked d f → Clocked e f
unfolding internal_freq speed_mode
Clocked-same_control d e f h k = record {
  class = rw h k.class;
  mode = rw h k.mode;
  is_clocked = rw h k.is_clocked;
}

set_internal_freq-Clocked : (d : Device) (f : ℕ) → IsClass f → Clocked (set_internal_freq d f) f
unfolding set_internal_freq internal_freq speed_mode
set_internal_freq-Clocked d f c =
    let (number, mode, is_class, most) = register_freq-written f c in
    record { class = number; mode = mode; is_clocked = (is_class, most) }

set_internal_freq_keeps :
    (d : Device) (f : ℕ)
    → ((set_internal_freq d f).pll_freq ≡ d.pll_freq)
      × ((set_internal_freq d f).io_type ≡ d.io_type)
unfolding set_internal_freq
set_internal_freq_keeps d f = (refl, refl)

-- The class of a register adds its factor's offset to the class at single speed.
register_mode :
    (r : ℕ) (ds qs : Bool)
    → 1 ≤ r
    → r ≤ 3
    → (if qs then quad else if ds then double else single)
      ≡ freq_speed (r + (if qs then 6 else if ds then 3 else 0))
unfolding freq_speed
register_mode r false false l h = ground arith
register_mode r true false l h = ground arith
register_mode r ds true l h = ground arith

Clocked-internal_freq : (d : Device) → IsClocked d → Clocked d (internal_freq d)
unfolding internal_freq speed_mode
Clocked-internal_freq d w = record {
  class = refl;
  mode = register_mode d.control.freq d.control.ds d.control.qs w.0.least w.1;
  is_clocked = w;
}

-- After a write of a class the control register holds that class, in its speed mode; the write
-- reports a change exactly where the class was another one, and touches no other clock setting.
pub write_internal_freq_lem :
    (d : Device) (f : ℕ)
    → IsClocked d
    → IsClass f
    → let (d', changed) = write_internal_freq d f in
      Clocked d' f
      × (changed ≡ not (f == internal_freq d))
      × (d'.pll_freq ≡ d.pll_freq)
      × (d'.io_type ≡ d.io_type)
unfolding write_internal_freq
write_internal_freq_lem d f w c = elim (Bool-cases (f == internal_freq d)) [
  | inl same ↦
      rw same
        let e : f ≡ internal_freq d = (==_iff f (internal_freq d)).0 same in
          (rw e (Clocked-internal_freq d w), refl, refl, refl)
  | inr other ↦
      rw other
        let d1 : Device = set_internal_freq d f in
          let (control, pll, io) = tco_set_app_sample_rate_keeps d1 in
          let (pll1, io1) = set_internal_freq_keeps d f in
          let k = set_internal_freq-Clocked d f c in
          (
            Clocked-same_control d1 (tco_set_app_sample_rate d1) f control k,
            refl,
            pll ∙ pll1,
            io ∙ io1,
          )
]
