-- ===== src/Cards/Status.antt =====
-- What the cards' status registers say: the fields of the registers in hdspe_core.h, `struct
-- hdspe_status` of hdspe.h, and the parts of the status that all cards share. A register is the
-- number of its 32 bits; a field of several bits is a number, one of a single bit a Bool. The
-- registers that are read are arguments.
pub mod Registers
pub mod Read
use snd_hdspe.Common.{
  ℕ, ◌+◌, ◌*◌, ◌%◌, ◌^◌, Bool, true, false, not, ◌==◌, shr, if◌then◌else◌, Option,
}
use snd_hdspe.Common.Int.{ℤ}
use snd_hdspe.Device.{Device, SpeedMode, single}
use snd_hdspe.Clock.{speed_mode, speed_factor, internal_freq}
use snd_hdspe.Clock.Dds.{freq_const}
use snd_hdspe.Pcm.{period_size}

-- The field of `width` bits from bit `first` on.
unfoldable pub field : ℕ → ℕ → ℕ → ℕ
field register first width = shr register first % 2 ^ width

unfoldable pub flag : ℕ → ℕ → Bool
flag register bit = not (field register bit 1 == 0)

-- enum hdspe_sync_status
pub data SyncStatus : Type 0 where
  sync_no_lock sync_lock sync_sync sync_not_available : SyncStatus

-- HDSPE_MAKE_SYNC_STATUS
pub make_sync_status : Bool → Bool → Bool → SyncStatus
make_sync_status is_locked is_synced present =
    if not present
    then sync_not_available
    else if not is_locked
    then sync_no_lock
    else if not is_synced
    then sync_lock
    else sync_sync

-- HDSPE_FBITS_FREQ
pub fbits_freq : ℕ → ℕ → ℕ
fbits_freq fbits i = field fbits (i * 4) 4

-- The levels of the analog inputs and outputs, which the AIO and the AIO Pro have.
pub data Levels : Type 0 where
  no_levels : Levels
  aio_levels : (input_level output_level phones_level : ℕ) → (xlr : Bool) → Levels
  aio_pro_levels : (input_level output_level phones_level : ℕ) → Levels

-- The card specific status.
pub data Special : Type 0 where
  madi_special : (input_select auto_select tx_64ch smux input_source rx_64ch : Bool) → Special
  aes_special : (pro emp dolby lineout ds_mode : Bool) → (qs_mode aes_mode : ℕ) → Special
  raio_special :
      (aebo aebi aeb1 aeb2 : Bool)
      → (spdif_in : ℕ) → (spdif_opt spdif_pro : Bool) → Levels
      → Special

-- The parts that all cards fill alike: the sample rate, the streams, and the clock.
pub record SharedStatus : Type 0 where
  pub sample_rate_numerator : ℕ
  pub sample_rate_denominator : ℕ
  pub internal_sample_rate_denominator : ℕ
  pub buffer_size : Option ℕ
  pub running : ℕ
  pub capture_pid : ℤ
  pub playback_pid : ℤ
  pub internal_freq : ℕ
  pub speed_mode : SpeedMode

pub record Sources : Type 0 where
  pub freq_of : ℕ → ℕ
  pub sync_of : ℕ → SyncStatus

pub record Status : Type 0 where
  pub shared : SharedStatus
  pub clock_mode : Bool
  pub preferred_ref : ℕ
  pub autosync_ref : ℕ
  pub sources : Sources
  pub external_freq : ℕ
  pub wck48 : Bool
  pub clr_tms : Bool
  pub special : Special

-- The driver's state that the status tells of.
pub record Running : Type 0 where
  pub device : Device
  pub running : ℕ
  pub capture_pid : ℤ
  pub playback_pid : ℤ

unfoldable pub read_sample_rate_status : Running → ℕ → SharedStatus
read_sample_rate_status r pll_freq = record {
  sample_rate_numerator = freq_const r.device.io_type * speed_factor r.device;
  sample_rate_denominator = pll_freq;
  internal_sample_rate_denominator = r.device.pll_freq;
  buffer_size = period_size r.device;
  running = r.running;
  capture_pid = r.capture_pid;
  playback_pid = r.playback_pid;
  internal_freq = internal_freq r.device;
  speed_mode = speed_mode r.device;
}

pub set_sync_source : ℕ → ℕ → Bool → Bool → Bool → Sources → Sources
set_sync_source i freq is_locked is_synced present s = record {
  freq_of = λ j. if j == i then freq else s.freq_of j;
  sync_of = λ j. if j == i then make_sync_status is_locked is_synced present else s.sync_of j;
}
