-- ===== src/Setup/Tests.antt =====
-- Runs of `snd_hdspe_hw_params`.
use snd_hdspe.Common.{◌≡◌, inl, inr, Bool-cases, ◌==◌, arith, true, false, none, some, [], refl}
use snd_hdspe.Common.Int.{pos, negsuc, is_negative}
use snd_hdspe.Device.{madi, playback, capture, is_raydat_or_aio}
use snd_hdspe.Clock.Dds.{dds_sample_rate}
use snd_hdspe.Pcm.{Stream}
use snd_hdspe.Cards.{madi_tables}
use snd_hdspe.Setup.{Card, Request, is_busy, pid_of, other_of, is_positive, same_pid, hw_params}
use snd_hdspe.Setup.Parameters.{IsMet, SetUp, hw_params_lem}

abbrev stream : Stream
stream = record {
  device = record {
    io_type = madi;
    control = record { lat = 3; freq = 3; ds = false; qs = false };
    pll_freq = 2293110696;
    tco = none;
    writes = [];
  };
  buf_ptr = 0;
  frame_count = 0;
  hw_pointer_wrap_count = 0;
  last_hw_pointer = 0;
  hw_buffer_size = 16384;
  period_size = 512;
}

-- Captured by process 4711, and played by none.
abbrev card : Card
card = record {
  stream = stream;
  tables = madi_tables;
  channels = record {
    channel_map_in = [];
    channel_map_out = [];
    max_channels_in = 0;
    max_channels_out = 0;
  };
  mixer = record {
    in_gain = λ _ _. 0;
    pb_gain = λ _ _. 0;
    card = λ _. 0;
    playback_pid = negsuc 0;
    capture_pid = pos 4711;
  };
  enabled = λ _ _. false;
  pages = λ _ _. 0;
  float_format = false;
  has_buffer = λ _. false;
}

abbrev request : Request
request = record {
  rate = 96000;
  period = 1000;
  channels = 2;
  float = false;
  malloc_pages = pos 1;
  page_address = λ offset. offset;
  pll_freq = 2293110696;
}

taken : is_busy card playback request ≡ true
unfolding is_busy pid_of other_of is_positive same_pid
taken = elim (Bool-cases (96000 == dds_sample_rate stream.device 2293110696)) [
  | inl equal ↦ rw equal refl
  | inr other ↦ rw other refl
]

own : is_busy card capture request ≡ false
unfolding is_busy pid_of other_of is_positive
own = refl

request-IsMet : IsMet card request
unfolding is_negative is_raydat_or_aio
request-IsMet = record {
  clocked = (record { least = omega arith; most = omega arith }, omega arith);
  period_low = omega arith;
  period_high = omega arith;
  period_new = inr refl;
  memory = refl;
}

hw_params_lem_example :
    (c' : Card) × (hw_params card capture request ≡ some (c', pos 0))
    × SetUp card capture request c'
hw_params_lem_example = hw_params_lem card capture request own request-IsMet
