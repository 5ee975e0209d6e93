-- ===== src/Mixer.antt =====
-- The hardware mixer of hdspe_mixer.c: the cached gains of 64 outputs for 64 inputs and 64
-- playbacks, and the card's registers that they are written to. The host has the card's byte order.
pub mod Gains
pub mod Channels
mod Tests
use snd_hdspe.Common.{
  ℕ, ◌+◌, ◌-◌, ◌*◌, ◌/◌, ◌%◌, Bool, true, false, not, ◌&&◌, ◌||◌, leb, ◌==◌, if◌then◌else◌,
}
use snd_hdspe.Common.Int.{ℤ, pos, negsuc, pos_part, is_negative}
use snd_hdspe.Common.FloorMod.{floor_mod}

-- The gains by output channel and source, the registers by byte address, and the processes that
-- have opened the two streams, -1 for none.
pub record Mixer : Type 0 where
  pub in_gain : ℕ → ℕ → ℕ
  pub pb_gain : ℕ → ℕ → ℕ
  pub card : ℕ → ℕ
  pub playback_pid : ℤ
  pub capture_pid : ℤ

abbrev pub set_gain : (ℕ → ℕ → ℕ) → ℕ → ℕ → ℕ → ℕ → ℕ → ℕ
set_gain f chan src v c s = if (c == chan) && (s == src) then v else f c s

abbrev pub set_register : (ℕ → ℕ) → ℕ → ℕ → ℕ → ℕ
set_register f a v b = if b == a then v else f b

-- The byte addresses from HDSPE_MADI_mixerBase on.
abbrev pub in_address : ℕ → ℕ → ℕ
in_address chan inp = 32768 + (inp + 128 * chan) * 4

abbrev pub pb_address : ℕ → ℕ → ℕ
pb_address chan pb = 32768 + (64 + pb + 128 * chan) * 4

-- The results are of type u16.
pub read_in_gain : Mixer → ℕ → ℕ → ℕ
read_in_gain m chan inp = if leb 64 chan || leb 64 inp then 0 else m.in_gain chan inp % 65536

pub read_pb_gain : Mixer → ℕ → ℕ → ℕ
read_pb_gain m chan pb = if leb 64 chan || leb 64 pb then 0 else m.pb_gain chan pb % 65536

-- The new gain is of type u16.
pub write_in_gain : Mixer → ℕ → ℕ → ℕ → Mixer × ℤ
write_in_gain m chan inp gain = if leb 64 chan || leb 64 inp then (m, negsuc 0) else (
  record m {
    in_gain = set_gain m.in_gain chan inp (gain % 65536);
    card = set_register m.card (in_address chan inp) (gain % 65536);
  },
  pos 0,
)

pub write_pb_gain : Mixer → ℕ → ℕ → ℕ → Mixer × ℤ
write_pb_gain m chan pb gain = if leb 64 chan || leb 64 pb then (m, negsuc 0) else (
  record m {
    pb_gain = set_gain m.pb_gain chan pb (gain % 65536);
    card = set_register m.card (pb_address chan pb) (gain % 65536);
  },
  pos 0,
)

abbrev pub same_pid : ℤ → ℤ → Bool
same_pid (pos a) (pos b) = a == b
same_pid (negsuc a) (negsuc b) = a == b
same_pid _ _ = false

pub use_is_exclusive : Mixer → Bool
use_is_exclusive m = not (
    not (same_pid m.playback_pid m.capture_pid)
    && not (is_negative m.playback_pid)
    && not (is_negative m.capture_pid))

clamp : ℤ → ℕ → ℕ
clamp z n = if is_negative z then 0 else if leb n (pos_part z) then n - 1 else pos_part z

-- A source from 64 on is a playback.
pub read_gain : Mixer → ℕ → ℕ → ℕ
read_gain m destination source =
    if leb 64 source
    then read_pb_gain m destination (source - 64)
    else read_in_gain m destination source

pub write_gain : Mixer → ℕ → ℕ → ℕ → Mixer
write_gain m destination source gain =
    if leb 64 source
    then (write_pb_gain m destination (source - 64) gain).0
    else (write_in_gain m destination source gain).0

pub get_mixer : Mixer → ℤ → ℤ → ℕ
get_mixer m source destination = read_gain m (clamp destination 64) (clamp source 128)

-- The comparison of the int gain with a u16.
pub gain_differs : ℤ → ℕ → Bool
gain_differs (pos n) old = not (n == old)
gain_differs (negsuc n) old = true

abbrev out_of_range : ℤ → ℕ → Bool
out_of_range z n = is_negative z || leb n (pos_part z)

-- 1 for a change, 0 for none; -EBUSY, or -1 out of range.
pub put_mixer : Mixer → ℤ → ℤ → ℤ → Mixer × ℤ
put_mixer m source destination gain =
    let s = pos_part source in
    let d = pos_part destination in
    if not (use_is_exclusive m)
    then (m, negsuc 15)
    else if out_of_range source 128
    then (m, negsuc 0)
    else if out_of_range destination 64
    then (m, negsuc 0)
    else if gain_differs gain (read_gain m d s)
    then (write_gain m d s (floor_mod gain 65536), pos 1)
    else (m, pos 0)

-- The simple control of a channel, from 0 to 64, against the unity gain 32768. The channel is
-- the index of the control less 1.
pub get_playback_mixer : Mixer → ℕ → ℕ
get_playback_mixer m channel = read_pb_gain m channel channel * 64 / 32768

-- For a value that is not negative; the product is an int.
pub put_playback_mixer : Mixer → ℕ → ℕ → Mixer × ℤ
put_playback_mixer m channel value =
    let gain = value * 32768 / 64 in
    if not (use_is_exclusive m)
    then (m, negsuc 15)
    else if leb 64 channel
    then (m, negsuc 21)
    else if not (gain == read_pb_gain m channel channel)
    then ((write_pb_gain m channel channel (gain % 65536)).0, pos 1)
    else (m, pos 0)
