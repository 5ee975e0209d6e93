-- ===== src/Cards/Tests.antt =====
-- Runs of the card tables.
use snd_hdspe.Common.{ℕ, ◌+◌, ◌≤◌, ◌≡◌, ◌≢◌, ap, ◌⊎◌, refl, Bool, true, false, arith, some, []}
use mathlib.Core.Bool.{false≢true}
use snd_hdspe.Common.Int.{negsuc}
use snd_hdspe.Device.{aio, SpeedMode, quad, invalid, playback}
use snd_hdspe.Mixer.{Mixer}
use snd_hdspe.Cards.{
  init_tables, aio_init_tables, with_ai4s, with_ao4s, aio_tables, Channels, speed_channels,
  set_channel_map, max_channels, channel_buffer_bytes, dma_area_bytes, channel_info,
}
use snd_hdspe.Cards.Buffers.{channel_info-set_channel_map}

abbrev nothing : Channels
nothing = record {
  channel_map_in = [];
  channel_map_out = [];
  max_channels_in = 0;
  max_channels_out = 0;
}

abbrev mixer : Mixer
mixer = record {
  in_gain = λ _ _. 0;
  pb_gain = λ _ _. 0;
  card = λ _. 0;
  playback_pid = negsuc 0;
  capture_pid = negsuc 0;
}

abbrev quad_aio : Channels
quad_aio = (set_channel_map (init_tables aio true false) quad nothing mixer).0

fourteen : max_channels quad_aio playback ≡ 14
unfolding set_channel_map init_tables aio_init_tables with_ai4s with_ao4s aio_tables speed_channels
    max_channels
fourteen = refl

abbrev is_invalid : SpeedMode → Bool
is_invalid invalid = true
is_invalid _ = false

valid : quad ≢ invalid
valid e = false≢true (ap is_invalid e)

channel_info-set_channel_map_example :
    (offset offset' : ℕ) × (channel_info quad_aio playback 6 ≡ some offset)
    × (channel_info quad_aio playback 13 ≡ some offset')
    × (offset + channel_buffer_bytes ≤ dma_area_bytes)
    × ((offset + channel_buffer_bytes ≤ offset') ⊎ (offset' + channel_buffer_bytes ≤ offset))
channel_info-set_channel_map_example =
    channel_info-set_channel_map aio true false quad nothing mixer playback 6 13 valid
      (rw fourteen (omega arith)) (rw fourteen (omega arith)) (λ e. absurd (omega (arith, e)))
