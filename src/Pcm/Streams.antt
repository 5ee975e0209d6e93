-- ===== src/Pcm/Streams.antt =====
-- The two streams of hdspe_pcm.c: the trigger, with the silencing of the playback buffer, opening and
-- closing. ALSA's substreams are left out: a stream is open or not, and the two are linked or not.
pub mod Silence
pub mod Trigger
mod Tests
use snd_hdspe.Common.{
  ℕ, zero, suc, ◌+◌, ◌-◌, ◌*◌, ◌^◌, bit_and, bit_or, Bool, true, false, not, ◌&&◌, leb, ltb, ◌==◌,
  if◌then◌else◌, shl, Option, none, some,
}
use snd_hdspe.Common.Int.{ℤ, pos, negsuc}
use snd_hdspe.Device.{Direction, playback, capture}

-- The commands that ALSA knows; other stands for the rest.
pub data Command : Type 0 where
  start resume stop suspend pause_push pause_release other : Command

-- `running` has bit 0 for playback and bit 1 for capture. A pid is -1 where no stream is open.
pub record Streams : Type 0 where
  pub running : ℕ
  pub playback_open : Bool
  pub capture_open : Bool
  pub playback_pid : ℤ
  pub capture_pid : ℤ
  pub linked : Bool
  pub period_size : ℕ
  pub playback_buffer : Option (ℕ → ℕ)

-- memset of n zero bytes from byte `buf` on.
pub zero_bytes : ℕ → ℕ → (ℕ → ℕ) → ℕ → ℕ
zero_bytes buf n bytes i = if leb buf i && ltb i (buf + n) then 0 else bytes i

-- The loop over the first channels' buffers of 65536 bytes.
pub silence_channels : ℕ → ℕ → (ℕ → ℕ) → ℕ → ℕ
silence_channels zero n bytes = bytes
silence_channels (suc i) n bytes = zero_bytes (i * 65536) n (silence_channels i n bytes)

pub silence_playback : ℕ → Option (ℕ → ℕ) → Option (ℕ → ℕ)
silence_playback period_size none = none
silence_playback period_size (some bytes) = some (silence_channels 64 (period_size * 4) bytes)

bit_of : Direction → ℕ
bit_of playback = shl 1 0
bit_of capture = shl 1 1

other_of : Direction → Direction
other_of playback = capture
other_of capture = playback

is_playback : Direction → Bool
is_playback playback = true
is_playback capture = false

is_start : Command → Bool
is_start start = true
is_start resume = true
is_start _ = false

with_bit : Direction → ℕ → ℕ
with_bit d running = bit_or running (bit_of d)

without_bit : Direction → ℕ → ℕ
without_bit d running = bit_and running (2 ^ 32 - 1 - bit_of d)

-- The first switch.
own_bit : Direction → Command → ℕ → ℕ
own_bit d start running = with_bit d running
own_bit d resume running = with_bit d running
own_bit d stop running = without_bit d running
own_bit d suspend running = without_bit d running
own_bit d _ running = running

-- The other stream's bit, where it is linked.
next_running : Bool → Bool → Direction → Command → ℕ → ℕ
next_running other_open linked d cmd running =
    let own = own_bit d cmd running in
    if other_open && linked
    then (if is_start cmd then with_bit (other_of d) own else without_bit (other_of d) own)
    else own

silences : Bool → Bool → Direction → Command → ℕ → Bool
silences other_open linked d cmd running =
    let own = own_bit d cmd running in
    if other_open
    then (if linked
        then false
        else if is_start cmd
        then (bit_and own 1 == 0) && not (is_playback d)
        else not (own == 0) && is_playback d)
    else not (is_playback d)

pub is_open : Streams → Direction → Bool
is_open s playback = s.playback_open
is_open s capture = s.capture_open

-- The trigger of a command that ALSA knows.
pub triggered : Streams → Direction → Command → Streams
triggered s d cmd =
    let other_open = is_open s (other_of d) in
    record s {
      running = next_running other_open s.linked d cmd s.running;
      playback_buffer =
          if silences other_open s.linked d cmd s.running
          then silence_playback s.period_size s.playback_buffer
          else s.playback_buffer;
    }

-- -EINVAL is -22.
pub trigger : Streams → Direction → Command → Streams × ℤ
trigger s d other = (s, negsuc 21)
trigger s d cmd = (triggered s d cmd, pos 0)

pub pcm_open : Streams → Direction → ℤ → Streams
pcm_open s playback pid = record s { playback_pid = pid; playback_open = true }
pcm_open s capture pid = record s { capture_pid = pid; capture_open = true }

pub pcm_release : Streams → Direction → Streams
pcm_release s playback = record s { playback_pid = negsuc 0; playback_open = false }
pcm_release s capture = record s { capture_pid = negsuc 0; capture_open = false }
