-- ===== src/Cards.antt =====
-- The card models: the channel maps and channel counts of hdspe_raio.c, hdspe_madi.c and hdspe_aes.c,
-- `hdspe_set_channel_map` of hdspe_common.c, and `snd_hdspe_channel_info` of hdspe_pcm.c. The names of
-- the ports are left out.
pub mod Buffers
pub mod Counts
pub mod References
pub mod Status
mod Tests
use snd_hdspe.Common.{
  ℕ, zero, suc, ◌+◌, ◌*◌, Bool, true, false, leb, if◌then◌else◌, Option, none, some, List, [], ◌∷◌,
}
use snd_hdspe.Common.Int.{ℤ, pos, negsuc}
use snd_hdspe.Device.{
  IoType, madi, madiface, aio, aes, raydat, aio_pro, SpeedMode, single, double, quad, invalid,
  Direction, playback, capture,
}
use snd_hdspe.Mixer.{Mixer}
use snd_hdspe.Mixer.Channels.{update_channel_map}

-- A channel map of 64 entries, given by those before the first -1.
pub channel_map_raydat_ss : List ℕ
channel_map_raydat_ss =
    4 ∷ 5 ∷ 6 ∷ 7 ∷ 8 ∷ 9 ∷ 10 ∷ 11 ∷ 12 ∷ 13 ∷ 14 ∷ 15 ∷ 16 ∷ 17 ∷ 18 ∷ 19 ∷ 20 ∷ 21 ∷ 22 ∷ 23 ∷ 24
    ∷ 25 ∷ 26 ∷ 27 ∷ 28 ∷ 29 ∷ 30 ∷ 31 ∷ 32 ∷ 33 ∷ 34 ∷ 35 ∷ 0 ∷ 1 ∷ 2 ∷ 3 ∷ []

pub channel_map_raydat_ds : List ℕ
channel_map_raydat_ds =
    4 ∷ 5 ∷ 6 ∷ 7 ∷ 8 ∷ 9 ∷ 10 ∷ 11 ∷ 12 ∷ 13 ∷ 14 ∷ 15 ∷ 16 ∷ 17 ∷ 18 ∷ 19 ∷ 0 ∷ 1 ∷ 2 ∷ 3 ∷ []

pub channel_map_raydat_qs : List ℕ
channel_map_raydat_qs = 4 ∷ 5 ∷ 6 ∷ 7 ∷ 8 ∷ 9 ∷ 10 ∷ 11 ∷ 0 ∷ 1 ∷ 2 ∷ 3 ∷ []

pub channel_map_aio_in_ss : List ℕ
channel_map_aio_in_ss =
    0 ∷ 1 ∷ 8 ∷ 9 ∷ 10 ∷ 11 ∷ 12 ∷ 13 ∷ 14 ∷ 15 ∷ 16 ∷ 17 ∷ 18 ∷ 19 ∷ 2 ∷ 3 ∷ 4 ∷ 5 ∷ []

pub channel_map_aio_out_ss : List ℕ
channel_map_aio_out_ss =
    0 ∷ 1 ∷ 8 ∷ 9 ∷ 10 ∷ 11 ∷ 12 ∷ 13 ∷ 14 ∷ 15 ∷ 16 ∷ 17 ∷ 18 ∷ 19 ∷ 6 ∷ 7 ∷ 2 ∷ 3 ∷ 4 ∷ 5 ∷ []

pub channel_map_aio_in_ds : List ℕ
channel_map_aio_in_ds = 0 ∷ 1 ∷ 8 ∷ 9 ∷ 10 ∷ 11 ∷ 12 ∷ 13 ∷ 14 ∷ 15 ∷ 2 ∷ 3 ∷ 4 ∷ 5 ∷ []

pub channel_map_aio_out_ds : List ℕ
channel_map_aio_out_ds = 0 ∷ 1 ∷ 8 ∷ 9 ∷ 10 ∷ 11 ∷ 12 ∷ 13 ∷ 14 ∷ 15 ∷ 6 ∷ 7 ∷ 2 ∷ 3 ∷ 4 ∷ 5 ∷ []

pub channel_map_aio_in_qs : List ℕ
channel_map_aio_in_qs = 0 ∷ 1 ∷ 8 ∷ 9 ∷ 10 ∷ 11 ∷ 12 ∷ 13 ∷ 2 ∷ 3 ∷ 4 ∷ 5 ∷ []

pub channel_map_aio_out_qs : List ℕ
channel_map_aio_out_qs = 0 ∷ 1 ∷ 8 ∷ 9 ∷ 10 ∷ 11 ∷ 12 ∷ 13 ∷ 6 ∷ 7 ∷ 2 ∷ 3 ∷ 4 ∷ 5 ∷ []

pub channel_map_unity_ss : List ℕ
channel_map_unity_ss =
    0 ∷ 1 ∷ 2 ∷ 3 ∷ 4 ∷ 5 ∷ 6 ∷ 7 ∷ 8 ∷ 9 ∷ 10 ∷ 11 ∷ 12 ∷ 13 ∷ 14 ∷ 15 ∷ 16 ∷ 17 ∷ 18 ∷ 19 ∷ 20
    ∷ 21 ∷ 22 ∷ 23 ∷ 24 ∷ 25 ∷ 26 ∷ 27 ∷ 28 ∷ 29 ∷ 30 ∷ 31 ∷ 32 ∷ 33 ∷ 34 ∷ 35 ∷ 36 ∷ 37 ∷ 38 ∷ 39
    ∷ 40 ∷ 41 ∷ 42 ∷ 43 ∷ 44 ∷ 45 ∷ 46 ∷ 47 ∷ 48 ∷ 49 ∷ 50 ∷ 51 ∷ 52 ∷ 53 ∷ 54 ∷ 55 ∷ 56 ∷ 57 ∷ 58
    ∷ 59 ∷ 60 ∷ 61 ∷ 62 ∷ 63 ∷ []

pub channel_map_aes : List ℕ
channel_map_aes = 0 ∷ 1 ∷ 2 ∷ 3 ∷ 4 ∷ 5 ∷ 6 ∷ 7 ∷ 8 ∷ 9 ∷ 10 ∷ 11 ∷ 12 ∷ 13 ∷ 14 ∷ 15 ∷ []

pub channel_map : List ℕ → ℕ → ℤ
channel_map [] i = negsuc 0
channel_map (c ∷ map) zero = pos c
channel_map (c ∷ map) (suc i) = channel_map map i

-- The channel maps and channel counts of `struct hdspe_tables`.
pub record Tables : Type 0 where
  pub ss_in_channels : ℕ
  pub ds_in_channels : ℕ
  pub qs_in_channels : ℕ
  pub ss_out_channels : ℕ
  pub ds_out_channels : ℕ
  pub qs_out_channels : ℕ
  pub channel_map_in_ss : List ℕ
  pub channel_map_in_ds : List ℕ
  pub channel_map_in_qs : List ℕ
  pub channel_map_out_ss : List ℕ
  pub channel_map_out_ds : List ℕ
  pub channel_map_out_qs : List ℕ

pub madi_tables : Tables
madi_tables = record {
  ss_in_channels = 64;
  ss_out_channels = 64;
  ds_in_channels = 32;
  ds_out_channels = 32;
  qs_in_channels = 16;
  qs_out_channels = 16;
  channel_map_in_ss = channel_map_unity_ss;
  channel_map_out_ss = channel_map_unity_ss;
  channel_map_in_ds = channel_map_unity_ss;
  channel_map_out_ds = channel_map_unity_ss;
  channel_map_in_qs = channel_map_unity_ss;
  channel_map_out_qs = channel_map_unity_ss;
}

pub aes_tables : Tables
aes_tables = record {
  ss_in_channels = 16;
  ss_out_channels = 16;
  ds_in_channels = 16;
  ds_out_channels = 16;
  qs_in_channels = 16;
  qs_out_channels = 16;
  channel_map_in_ss = channel_map_aes;
  channel_map_out_ss = channel_map_aes;
  channel_map_in_ds = channel_map_aes;
  channel_map_out_ds = channel_map_aes;
  channel_map_in_qs = channel_map_aes;
  channel_map_out_qs = channel_map_aes;
}

pub raydat_tables : Tables
raydat_tables = record {
  ss_in_channels = 36;
  ss_out_channels = 36;
  ds_in_channels = 20;
  ds_out_channels = 20;
  qs_in_channels = 12;
  qs_out_channels = 12;
  channel_map_in_ss = channel_map_raydat_ss;
  channel_map_out_ss = channel_map_raydat_ss;
  channel_map_in_ds = channel_map_raydat_ds;
  channel_map_out_ds = channel_map_raydat_ds;
  channel_map_in_qs = channel_map_raydat_qs;
  channel_map_out_qs = channel_map_raydat_qs;
}

pub aio_tables : Tables
aio_tables = record {
  ss_in_channels = 14;
  ds_in_channels = 10;
  qs_in_channels = 8;
  ss_out_channels = 16;
  ds_out_channels = 12;
  qs_out_channels = 10;
  channel_map_out_ss = channel_map_aio_out_ss;
  channel_map_out_ds = channel_map_aio_out_ds;
  channel_map_out_qs = channel_map_aio_out_qs;
  channel_map_in_ss = channel_map_aio_in_ss;
  channel_map_in_ds = channel_map_aio_in_ds;
  channel_map_in_qs = channel_map_aio_in_qs;
}

-- An AI4S or AO4S board adds four channels. The status bits AEBI_D and AEBO_D say that a board is
-- not there.
with_ai4s : Bool → Tables → Tables
with_ai4s true t = t
with_ai4s false t = record t {
  ss_in_channels = t.ss_in_channels + 4;
  ds_in_channels = t.ds_in_channels + 4;
  qs_in_channels = t.qs_in_channels + 4;
}

with_ao4s : Bool → Tables → Tables
with_ao4s true t = t
with_ao4s false t = record t {
  ss_out_channels = t.ss_out_channels + 4;
  ds_out_channels = t.ds_out_channels + 4;
  qs_out_channels = t.qs_out_channels + 4;
}

aio_init_tables : Bool → Bool → Tables
aio_init_tables aebi_d aebo_d = with_ao4s aebo_d (with_ai4s aebi_d aio_tables)

pub init_tables : IoType → Bool → Bool → Tables
init_tables madi aebi_d aebo_d = madi_tables
init_tables madiface aebi_d aebo_d = madi_tables
init_tables aes aebi_d aebo_d = aes_tables
init_tables raydat aebi_d aebo_d = raydat_tables
init_tables aio aebi_d aebo_d = aio_init_tables aebi_d aebo_d
init_tables aio_pro aebi_d aebo_d = aio_init_tables aebi_d aebo_d

-- The channel maps and channel counts in use.
pub record Channels : Type 0 where
  pub channel_map_in : List ℕ
  pub channel_map_out : List ℕ
  pub max_channels_in : ℕ
  pub max_channels_out : ℕ

-- The switch of `hdspe_set_channel_map`; it does nothing at an invalid speed.
pub speed_channels : Tables → SpeedMode → Channels → Channels
speed_channels t single c = record {
  channel_map_in = t.channel_map_in_ss;
  channel_map_out = t.channel_map_out_ss;
  max_channels_in = t.ss_in_channels;
  max_channels_out = t.ss_out_channels;
}
speed_channels t double c = record {
  channel_map_in = t.channel_map_in_ds;
  channel_map_out = t.channel_map_out_ds;
  max_channels_in = t.ds_in_channels;
  max_channels_out = t.ds_out_channels;
}
speed_channels t quad c = record {
  channel_map_in = t.channel_map_in_qs;
  channel_map_out = t.channel_map_out_qs;
  max_channels_in = t.qs_in_channels;
  max_channels_out = t.qs_out_channels;
}
speed_channels t invalid c = c

unfoldable pub set_channel_map : Tables → SpeedMode → Channels → Mixer → Channels × Mixer
set_channel_map t speed c m =
    let channels = speed_channels t speed c in
    (
      channels,
      update_channel_map m (channel_map channels.channel_map_out)
          (channel_map channels.channel_map_in),
    )

pub map_of : Channels → Direction → List ℕ
map_of c playback = c.channel_map_out
map_of c capture = c.channel_map_in

pub max_channels : Channels → Direction → ℕ
max_channels c playback = c.max_channels_out
max_channels c capture = c.max_channels_in

-- HDSPE_CHANNEL_BUFFER_BYTES and HDSPE_DMA_AREA_BYTES
abbrev pub channel_buffer_bytes : ℕ
channel_buffer_bytes = 65536

abbrev pub dma_area_bytes : ℕ
dma_area_bytes = 64 * channel_buffer_bytes

buffer_offset : ℤ → Option ℕ
buffer_offset (pos c) = some (c * channel_buffer_bytes)
buffer_offset (negsuc n) = none

-- The offset of a channel's buffer; none is -EINVAL. `array_index_nospec` keeps an index in range.
pub channel_info : Channels → Direction → ℕ → Option ℕ
channel_info c direction channel =
    if leb (max_channels c direction) channel
    then none
    else buffer_offset (channel_map (map_of c direction) channel)
