-- ===== src/Pcm.antt =====
-- The stream timing of hdspe_pcm.c: period size, interrupt interval, hardware pointer and frame
-- count. The latency field of the control register has 3 bits, BUF_PTR of the status has 10.
pub mod Period
mod Tests
pub mod FrameCount
pub mod Streams
use snd_hdspe.Common.{
  ℕ, zero, suc, ◌+◌, ◌-◌, ◌*◌, ◌/◌, ◌%◌, ◌^◌, bit_and, Bool, ◌&&◌, ltb, leb, ◌==◌, if◌then◌else◌,
  shr, shl, u32, Option, none, some, ◌∷◌,
}
use snd_hdspe.Device.{Device, Control, is_raydat_or_aio, wr_control}

-- The device with the fields of `struct hdspe` that are about the stream, and the BUF_PTR that
-- the interrupt handler has read into the status register.
pub record Stream : Type 0 where
  pub device : Device
  pub buf_ptr : ℕ
  pub frame_count : ℕ
  pub hw_pointer_wrap_count : ℕ
  pub last_hw_pointer : ℕ
  pub hw_buffer_size : ℕ
  pub period_size : ℕ

-- none where the C code shifts by -1, which C leaves undefined.
pub period_size : Device → Option ℕ
period_size d =
    let n = d.control.lat in
    if (7 == n) && is_raydat_or_aio d.io_type then none else some (u32 (shl 64 n))

with_period : Stream → Option ℕ → Option Stream
with_period s none = none
with_period s (some size) = some (record s {
  period_size = size;
  hw_buffer_size = if is_raydat_or_aio s.device.io_type then 16384 else u32 (2 * size);
})

pub set_period_size : Stream → Option Stream
set_period_size s = with_period s (period_size s.device)

-- The loop that counts the digits of frames, n the count so far. 32 passes are enough for a u32.
latency_loop : ℕ → ℕ → ℕ → ℕ
latency_loop zero frames n = n
latency_loop (suc fuel) frames n =
    let rest = latency_loop fuel (shr frames 1) (n + 1) in if frames == 0 then n else rest

latency : ℕ → ℕ
latency frames = if 32 == frames then 7 else latency_loop 32 (shr frames 7) 0

set_latency : Stream → ℕ → Stream
set_latency s n =
    let control = record (s.device.control) { lat = n % 8 } in
    let device = record (s.device) {
      control = control;
      writes = wr_control control ∷ s.device.writes;
    } in
    record s { device = device }

-- The result of the C function is always 0.
pub set_interrupt_interval : Stream → ℕ → Option Stream
set_interrupt_interval s frames = set_period_size (set_latency s (latency frames))

-- hw_buffer_size - 1 is that of u32.
pub hw_pointer : Stream → ℕ
hw_pointer s = bit_and (shl s.buf_ptr 4) (u32 (s.hw_buffer_size + (2 ^ 32 - 1)))

-- `snd_hdspe_reset`: the hw_ptr of the stream and that of the other stream, which follows where it is
-- in the same group.
pub reset : Stream → Bool → Bool → ℕ × ℕ → ℕ × ℕ
reset s running same_group (own, other) =
    let pointer = if running then hw_pointer s else 0 in
    (pointer, if same_group then pointer else other)

-- The wrap count is a u32, the frame count a u64. The mask is the complement of period_size - 1.
pub update_frame_count : Stream → Stream
update_frame_count s =
    let pointer = shl s.buf_ptr 4 in
    let wraps =
      if ltb pointer s.last_hw_pointer
      then u32 (s.hw_pointer_wrap_count + 1)
      else s.hw_pointer_wrap_count in
    let mask = 2 ^ 32 - 1 - u32 (s.period_size + (2 ^ 32 - 1)) in
    record s {
      hw_pointer_wrap_count = wraps;
      last_hw_pointer = pointer;
      frame_count = wraps * 16384 + bit_and pointer mask;
    }
