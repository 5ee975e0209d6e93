-- ===== src/Cards/Counts.antt =====
-- The channel counts of the cards at the three speeds.
use snd_hdspe.Common.{ℕ, ◌<◌, ◌≡◌, ◌≢◌, arith, refl, Bool, true, false}
use snd_hdspe.Device.{
  IoType, madi, madiface, aio, aes, raydat, aio_pro, Direction, playback, capture, SpeedMode,
  single, double, quad, invalid,
}
use snd_hdspe.Mixer.{Mixer}
use snd_hdspe.Cards.{
  Tables, Channels, speed_channels, set_channel_map, max_channels, madi_tables, aes_tables,
  raydat_tables, aio_tables, with_ai4s, with_ao4s, aio_init_tables, init_tables,
}

-- The channel count of a direction at a speed.
unfoldable pub count : Tables → SpeedMode → Direction → ℕ
count t single playback = t.ss_out_channels
count t double playback = t.ds_out_channels
count t quad playback = t.qs_out_channels
count t invalid playback = 0
count t single capture = t.ss_in_channels
count t double capture = t.ds_in_channels
count t quad capture = t.qs_in_channels
count t invalid capture = 0

pub max_channels-set_channel_map :
    (t : Tables) (speed : SpeedMode) (d : Direction) (c : Channels) (m : Mixer)
    → speed ≢ invalid
    → max_channels (set_channel_map t speed c m).0 d ≡ count t speed d
unfolding max_channels set_channel_map speed_channels count
max_channels-set_channel_map t single playback c m h = refl
max_channels-set_channel_map t double playback c m h = refl
max_channels-set_channel_map t quad playback c m h = refl
max_channels-set_channel_map t single capture c m h = refl
max_channels-set_channel_map t double capture c m h = refl
max_channels-set_channel_map t quad capture c m h = refl
max_channels-set_channel_map t invalid d c m h = absurd (h refl)

-- The three counts of a direction, the least at quad speed.
pub record AreOrdered (t : Tables) (d : Direction) : Type 0 where
  pub lower : count t quad d < count t double d
  pub upper : count t double d < count t single d

aio-AreOrdered :
    (aebi_d aebo_d : Bool) (d : Direction) → AreOrdered (aio_init_tables aebi_d aebo_d) d
unfolding count aio_init_tables with_ai4s with_ao4s aio_tables
aio-AreOrdered true true playback = record { lower = omega arith; upper = omega arith }
aio-AreOrdered true false playback = record { lower = omega arith; upper = omega arith }
aio-AreOrdered false true playback = record { lower = omega arith; upper = omega arith }
aio-AreOrdered false false playback = record { lower = omega arith; upper = omega arith }
aio-AreOrdered true true capture = record { lower = omega arith; upper = omega arith }
aio-AreOrdered true false capture = record { lower = omega arith; upper = omega arith }
aio-AreOrdered false true capture = record { lower = omega arith; upper = omega arith }
aio-AreOrdered false false capture = record { lower = omega arith; upper = omega arith }

-- Every card but the AES card has another count at each speed.
pub init_tables-AreOrdered :
    (io : IoType) (aebi_d aebo_d : Bool) (d : Direction)
    → io ≢ aes
    → AreOrdered (init_tables io aebi_d aebo_d) d
unfolding count init_tables madi_tables raydat_tables
init_tables-AreOrdered madi i o playback h = record { lower = omega arith; upper = omega arith }
init_tables-AreOrdered madi i o capture h = record { lower = omega arith; upper = omega arith }
init_tables-AreOrdered madiface i o playback h = record { lower = omega arith; upper = omega arith }
init_tables-AreOrdered madiface i o capture h = record { lower = omega arith; upper = omega arith }
init_tables-AreOrdered raydat i o playback h = record { lower = omega arith; upper = omega arith }
init_tables-AreOrdered raydat i o capture h = record { lower = omega arith; upper = omega arith }
init_tables-AreOrdered aio i o d h = aio-AreOrdered i o d
init_tables-AreOrdered aio_pro i o d h = aio-AreOrdered i o d
init_tables-AreOrdered aes i o d h = absurd (h refl)

-- The AES card has 16 channels at each speed.
pub init_tables_aes :
    (i o : Bool) (speed : SpeedMode) (d : Direction)
    → speed ≢ invalid
    → count (init_tables aes i o) speed d ≡ 16
unfolding count init_tables aes_tables
init_tables_aes i o single playback h = refl
init_tables_aes i o double playback h = refl
init_tables_aes i o quad playback h = refl
init_tables_aes i o single capture h = refl
init_tables_aes i o double capture h = refl
init_tables_aes i o quad capture h = refl
init_tables_aes i o invalid d h = absurd (h refl)

pub raydat_counts :
    (count (init_tables raydat true true) single playback ≡ 36)
    × (count (init_tables raydat true true) double playback ≡ 20)
    × (count (init_tables raydat true true) quad playback ≡ 12)
unfolding count init_tables raydat_tables
raydat_counts = (refl, refl, refl)
