-- ===== src/Device.antt =====
-- The parts of `struct hdspe` (hdspe_core.h) and the enumerations of hdspe.h that the components
-- share, with the register writes that reach the card.
use snd_hdspe.Common.{ℕ, Bool, true, false, List, Option}

-- enum hdspe_io_type: the card models.
pub data IoType : Type 0 where
  madi madiface aio aes raydat aio_pro : IoType

-- enum hdspe_speed
pub data SpeedMode : Type 0 where
  single double quad invalid : SpeedMode

-- SNDRV_PCM_STREAM_PLAYBACK and SNDRV_PCM_STREAM_CAPTURE
pub data Direction : Type 0 where
  playback capture : Direction

-- The fields of the control register that the driver's clock and stream code uses. LAT has 3
-- bits, freq has 2.
pub record Control : Type 0 where
  pub lat : ℕ
  pub freq : ℕ
  pub ds : Bool
  pub qs : Bool

-- The fields of `struct hdspe_tco` that a change of the sample rate touches: the TCO's own sample
-- rate setting and the cached register 2.
pub record TcoClock : Type 0 where
  pub sample_rate : ℕ
  pub reg2 : ℕ

-- A register write that reaches the card.
pub data Write : Type 0 where
  wr_control : Control → Write
  wr_pll_freq : ℕ → Write
  wr_tco : ℕ → ℕ → Write

-- The cached registers and the writes so far, the latest first. The byte order of a register is
-- that of the card; the model has the number that it stands for.
pub record Device : Type 0 where
  pub io_type : IoType
  pub control : Control
  pub pll_freq : ℕ
  pub tco : Option TcoClock
  pub writes : List Write

-- true for the RayDAT, the AIO and the AIO Pro.
unfoldable pub is_raydat_or_aio : IoType → Bool
is_raydat_or_aio aio = true
is_raydat_or_aio raydat = true
is_raydat_or_aio aio_pro = true
is_raydat_or_aio _ = false
