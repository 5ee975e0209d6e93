-- ===== src/Setup.antt =====
-- Setting up a stream, where the clock, the channel maps, the mixer and the stream timing meet:
-- `hdspe_set_sample_rate` of hdspe_common.c, and `snd_hdspe_hw_params` and `snd_hdspe_hw_free` of
-- hdspe_pcm.c. ALSA's parameters, the DMA pages that it allocates and the card's PLL register are
-- arguments; the notifications, the locks and the float format's write are left out.
pub mod Parameters
pub mod Rules
mod Tests
use snd_hdspe.Common.{
  ℕ, zero, suc, ◌+◌, ◌*◌, Bool, true, false, not, ◌&&◌, ◌||◌, ltb, leb, ◌==◌, if◌then◌else◌, Option,
  none, some,
}
use snd_hdspe.Common.Int.{ℤ, pos, negsuc, is_negative}
use snd_hdspe.Device.{Device, Direction, playback, capture}
use snd_hdspe.Clock.{sample_rate_speed_mode}
use snd_hdspe.Clock.Dds.{dds_sample_rate, write_system_sample_rate}
use snd_hdspe.Mixer.{Mixer}
use snd_hdspe.Pcm.{Stream, set_interrupt_interval}
use snd_hdspe.Cards.{Tables, Channels, channel_map, map_of, set_channel_map}

-- The processes of the two streams are in the mixer. The registers are those of the DMA: which
-- channels are enabled, and the addresses of the 16 pages of each channel's buffer.
pub record Card : Type 0 where
  pub stream : Stream
  pub tables : Tables
  pub channels : Channels
  pub mixer : Mixer
  pub enabled : Direction → ℕ → Bool
  pub pages : Direction → ℕ → ℕ
  pub float_format : Bool
  pub has_buffer : Direction → Bool

-- What ALSA asks for, the result of its allocation with the address of each 4096 bytes of the buffer,
-- and the PLL register.
pub record Request : Type 0 where
  pub rate : ℕ
  pub period : ℕ
  pub channels : ℕ
  pub float : Bool
  pub malloc_pages : ℤ
  pub page_address : ℕ → ℕ
  pub pll_freq : ℕ

pub set_sample_rate : Card → ℕ → Card × Bool
set_sample_rate c desired_rate =
    let speed = sample_rate_speed_mode desired_rate in
    let (device, changed) = write_system_sample_rate c.stream.device desired_rate in
    let (channels, mixer) = set_channel_map c.tables speed c.channels c.mixer in
    (
      record c {
        stream = record (c.stream) { device = device };
        channels = channels;
        mixer = mixer;
      },
      changed,
    )

-- The pids of a stream and of the other one.
pid_of : Card → Direction → ℤ
pid_of c playback = c.mixer.playback_pid
pid_of c capture = c.mixer.capture_pid

other_of : Direction → Direction
other_of playback = capture
other_of capture = playback

is_positive : ℤ → Bool
is_positive (pos n) = not (n == 0)
is_positive (negsuc n) = false

same_pid : ℤ → ℤ → Bool
same_pid (pos n) (pos m) = n == m
same_pid (negsuc n) (negsuc m) = n == m
same_pid _ _ = false

-- The other stream belongs to another process, which wants other parameters.
pub is_busy : Card → Direction → Request → Bool
is_busy c d r =
    let other_pid = pid_of c (other_of d) in
    (is_positive other_pid && not (same_pid (pid_of c d) other_pid))
    && (not (r.rate == dds_sample_rate c.stream.device r.pll_freq)
        || not (r.period == c.stream.period_size))

is_direction : Direction → Direction → Bool
is_direction playback playback = true
is_direction capture capture = true
is_direction _ _ = false

-- A register of one direction: a write to the registers from `first` on, `count` of them.
pub set_dma_pages : ℕ → (ℕ → ℕ) → (ℕ → ℕ) → ℕ → ℕ
set_dma_pages channel address pages i =
    if leb (channel * 16) i && ltb i (channel * 16 + 16) then address (4096 * i) else pages i

enable : Direction → ℤ → (ℕ → ℕ) → Card → Card
enable d (negsuc n) address c = c
enable d (pos channel) address c = record c {
  pages =
      λ e i. if is_direction e d then set_dma_pages channel address (c.pages e) i else c.pages e i;
  enabled = λ e i. if is_direction e d && (i == channel) then true else c.enabled e i;
}

-- The loop over the first n channels of a map. ALSA's limits keep n to the map's 64 channels, behind
-- which the code reads past the map and a channel is -1 here.
enable_channels : ℕ → (ℕ → ℤ) → Direction → (ℕ → ℕ) → Card → Card
enable_channels zero map d address c = c
enable_channels (suc n) map d address c =
    enable d (map n) address (enable_channels n map d address c)

set_float_format : Bool → Card → Card
set_float_format val c = record c { float_format = val }

-- After the interrupt interval is set: the allocation, and the DMA channels.
allocated : Card → Direction → Request → Card × ℤ
allocated c d r =
    let buffer =
      enable_channels r.channels (channel_map (map_of c.channels d)) d r.page_address c in
    let held = record buffer {
      has_buffer = λ e. if is_direction e d then true else c.has_buffer e;
    } in
    if is_negative r.malloc_pages
    then (c, r.malloc_pages)
    else (set_float_format r.float held, pos 0)

with_interval : Card → Direction → Request → Option Stream → Option (Card × ℤ)
with_interval c d r none = none
with_interval c d r (some stream) = some (allocated (record c { stream = stream }) d r)

-- -EBUSY is -16. The result of `hdspe_set_sample_rate` is never negative, and that of
-- `hdspe_set_interrupt_interval` is 0; none where its shift is undefined.
pub hw_params : Card → Direction → Request → Option (Card × ℤ)
hw_params c d r =
    let rated = (set_sample_rate c r.rate).0 in
    let done = with_interval rated d r (set_interrupt_interval rated.stream r.period) in
    if is_busy c d r then some (c, negsuc 15) else done

pub hw_free : Card → Direction → Card
hw_free c d = record c {
  enabled = λ e i. if is_direction e d && ltb i 64 then false else c.enabled e i;
  has_buffer = λ e. if is_direction e d then false else c.has_buffer e;
}
