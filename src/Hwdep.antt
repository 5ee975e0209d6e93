-- ===== src/Hwdep.antt =====
-- The ioctl requests of hdspe_hwdep.c: the level meters, the configuration, and the results. What the
-- card's registers read, and whether the copies from and to user space succeed, are arguments. What
-- is copied as it is, the status of the card and of the TCO and the mixer, is modelled with its part.
pub mod Meters
pub mod Tests
use snd_hdspe.Common.{
  ℕ, zero, suc, ◌+◌, ◌*◌, ◌/◌, ◌%◌, ◌^◌, Bool, true, false, not, ◌&&◌, if◌then◌else◌, bit_or, shl,
  u32, List, [], ◌∷◌,
}
use snd_hdspe.Common.Int.{ℤ, pos, negsuc}
use snd_hdspe.Clock.{freq_sample_rate}
use snd_hdspe.Cards.Status.{Status, SyncStatus, flag}

pub data IoctlCommand : Type 0 where
  get_card_info get_status get_ltc get_peak_rms get_config get_version get_mixer unknown :
      IoctlCommand

-- -EFAULT is -14.
copied : Bool → ℤ
copied ok = if ok then pos 0 else negsuc 13

-- The result, with whether there is a TCO, and whether the copies from and to user space succeed;
-- -EINVAL is -22.
pub ioctl : IoctlCommand → Bool → Bool → Bool → ℤ
ioctl get_ltc tco from_user to_user = if tco then copied to_user else negsuc 21
ioctl get_mixer tco from_user to_user = copied (from_user && to_user)
ioctl unknown tco from_user to_user = negsuc 21
ioctl _ tco from_user to_user = copied to_user

-- HDSPE_MAX_CHANNELS
abbrev pub max_channels : ℕ
max_channels = 64

-- The levels of n channels from the channel i on.
pub levels_from : (ℕ → ℕ) → ℕ → ℕ → List ℕ
levels_from level i zero = []
levels_from level i (suc n) = level i ∷ levels_from level (suc i) n

pub peak : (ℕ → ℕ) → ℕ → ℕ → ℕ
peak readl base i = readl (base + i * 4)

-- The halves of 32 bits of a u64.
pub rms : (ℕ → ℕ) → ℕ → ℕ → ℕ → ℕ
rms readl high low i = bit_or (shl (readl (high + i * 4)) 32) (readl (low + i * 4))

pub record PeakRms : Type 0 where
  pub input_peaks : List ℕ
  pub playback_peaks : List ℕ
  pub output_peaks : List ℕ
  pub input_rms : List ℕ
  pub playback_rms : List ℕ
  pub output_rms : List ℕ

-- The registers of the MADI's meters, HDSPE_MADI_INPUT_PEAK to HDSPE_MADI_OUTPUT_RMS_H.
pub read_levels : (ℕ → ℕ) → PeakRms
read_levels readl = record {
  input_peaks = levels_from (peak readl 4096) 0 max_channels;
  playback_peaks = levels_from (peak readl 4352) 0 max_channels;
  output_peaks = levels_from (peak readl 4608) 0 max_channels;
  input_rms = levels_from (rms readl 7168 6144) 0 max_channels;
  playback_rms = levels_from (rms readl 7424 6400) 0 max_channels;
  output_rms = levels_from (rms readl 7680 6656) 0 max_channels;
}

-- `struct hdspe_config`; the fields that are not filled are 0.
pub record Config : Type 0 where
  pub pref_sync_ref : ℕ
  pub wordclock_sync_check : SyncStatus
  pub system_sample_rate : ℕ
  pub autosync_sample_rate : ℕ
  pub system_clock_mode : Bool
  pub clock_source : ℕ
  pub autosync_ref : ℕ
  pub line_out : Bool

-- From the status and the control register.
pub config : Status → ℕ → Config
config s control = record {
  pref_sync_ref = s.preferred_ref % 256;
  wordclock_sync_check = s.sources.sync_of 0;
  system_sample_rate = u32 (s.shared.sample_rate_numerator / s.shared.sample_rate_denominator);
  autosync_sample_rate = freq_sample_rate s.external_freq;
  system_clock_mode = s.clock_mode;
  clock_source = s.shared.internal_freq % 256;
  autosync_ref = s.autosync_ref % 256;
  line_out = flag control 24;
}
