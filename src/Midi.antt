-- ===== src/Midi.antt =====
-- One MIDI port of hdspe_midi.c, its registers, and its share of the interrupt handler of
-- hdspe_core.c. The locks and ALSA's substreams are left out; what the port is given by ALSA, the
-- kernel's clock and the card is an argument.
pub mod Input
pub mod Timer
pub mod Output
mod Tests
use snd_hdspe.Common.{
  ℕ, zero, suc, ◌+◌, ◌-◌, ◌*◌, ◌/◌, ◌%◌, ◌^◌, bit_and, bit_or, min, Bool, true, false, not, ◌&&◌,
  ltb, ◌==◌, if◌then◌else◌, u32, Option, none, some, List, [], ◌∷◌, ◌++◌,
}
use snd_hdspe.Tco.Mtc.{LtcIn, mtc}

-- The fields of `struct hdspe_midi`, with the kernel's timer: armed, or its handler running. `ie`
-- is the mask of the port's bit of the control register, `irq` that of the status register.
pub record Port : Type 0 where
  pub readwrite : Bool
  pub ie : ℕ
  pub irq : ℕ
  pub has_input : Bool
  pub has_output : Bool
  pub pending : Bool
  pub istimer : ℕ
  pub timer_armed : Bool

-- The port with the control register, the bytes read so far, the buffers that ALSA received, the
-- bytes written to the card, and the incoming time code of the TCO module.
pub record Midi : Type 0 where
  pub port : Port
  pub control : ℕ
  pub control_writes : List ℕ
  pub position : ℕ
  pub received : List (List ℕ)
  pub sent : List ℕ
  pub ltc_in : LtcIn

-- The byte that each reading of the data register gives, the status registers (that of the input
-- after so many bytes), the kernel's clock, and ALSA's output: whether it is empty, and the bytes
-- that it transmits for a number of free bytes.
pub record Environment : Type 0 where
  pub byte : ℕ → ℕ
  pub status_in : ℕ → ℕ
  pub status_out : ℕ
  pub now : ℕ → ℕ
  pub transmit_empty : Bool
  pub transmit : ℕ → List ℕ

-- The complement of a u32.
abbrev pub complement : ℕ → ℕ
complement x = 2 ^ 32 - 1 - x

pub read_bytes : (ℕ → ℕ) → ℕ → ℕ → List ℕ
read_bytes byte position zero = []
read_bytes byte position (suc n) = byte position ∷ read_bytes byte (suc position) n

pub input_available : Environment → ℕ → ℕ
input_available e position = bit_and (e.status_in position) 0xff

pub output_possible : ℕ → ℕ
output_possible status =
    let fifo_bytes_used = bit_and status 0xff in
    if ltb fifo_bytes_used 128 then 128 - fifo_bytes_used else 0

-- The loop ends if the card's FIFO becomes empty; on fuel, none where it does not.
pub flush_input : ℕ → Environment → Midi → Option Midi
flush_input zero e m = if input_available e m.position == 0 then some m else none
flush_input (suc fuel) e m =
    let rest = flush_input fuel e (record m { position = suc m.position }) in
    if input_available e m.position == 0 then some m else rest

send_if : Bool → Environment → Midi → Midi
send_if true e m = record m { sent = m.sent ++ e.transmit (min (output_possible e.status_out) 128) }
send_if false e m = m

pub output_write : Environment → Midi → Midi
output_write e m =
    let n_pending = min (output_possible e.status_out) 128 in
    send_if (m.port.has_output && not e.transmit_empty && not (n_pending == 0)) e m

-- The TCO module's port, which is not read-write, is MIDI time code.
hear : Bool → Environment → List ℕ → Midi → Midi
hear true e buf m = m
hear false e buf m = record m { ltc_in = mtc m.ltc_in (e.now m.position) buf }

hand_over : Bool → List ℕ → Midi → Midi
hand_over true buf m = record m { received = m.received ++ (buf ∷ []) }
hand_over false buf m = m

-- One buffer of the loop below; it is never empty.
pub receive : Environment → List ℕ → Midi → Midi
receive e buf m = hand_over m.port.has_input buf (hear m.port.readwrite e buf m)

-- The loop over the pending bytes; the buffer has 128.
pub input_loop : ℕ → Environment → ℕ → Midi → Option Midi
input_loop zero e n_pending m = if n_pending == 0 then some m else none
input_loop (suc fuel) e n_pending m =
    let i = min n_pending 128 in
    let buf = read_bytes e.byte m.position i in
    let rest =
      input_loop fuel e (n_pending - i) (record (receive e buf m) { position = m.position + i }) in
    if n_pending == 0 then some m else rest

write_control : ℕ → Midi → Midi
write_control control m = record m {
  control = control;
  control_writes = control ∷ m.control_writes;
}

-- After the loop the interrupt, which the handler had disabled, is enabled again.
input_done : Environment → Option Midi → Option Midi
input_done e none = none
input_done e (some m) =
    let cleared = record m { port = record (m.port) { pending = false } } in
    some (output_write e (write_control (bit_or m.control m.port.ie) cleared))

-- Two passes are enough for the 255 bytes that the status can tell of.
pub input_read : Environment → Midi → Option Midi
input_read e m = input_done e (input_loop 2 e (input_available e m.position) m)

-- The work that the interrupt handler queues, for one port.
pub midi_work : Environment → Midi → Option Midi
midi_work e m = if m.port.pending then input_read e m else some m

-- The interrupt handler's part: a port with bytes to read is disabled until the work is done.
pub midi_interrupt : Environment → ℕ → Midi → Midi
midi_interrupt e status0 m =
    if not (input_available e m.position == 0) && not (bit_and status0 m.port.irq == 0)
    then write_control (bit_and m.control (complement m.port.ie))
        (record m { port = record (m.port) { pending = true } })
    else m

enabled_by : ℕ → Option Midi → Option Midi
enabled_by ie none = none
enabled_by ie (some m) = some (write_control (bit_or m.control ie) m)

pub input_trigger : ℕ → Environment → Bool → Midi → Option Midi
input_trigger fuel e true m =
    let flushed = flush_input fuel e m in
    if not m.port.readwrite
    then some m
    else if bit_and m.control m.port.ie == 0
    then enabled_by m.port.ie flushed
    else some m
input_trigger fuel e false m =
    if not m.port.readwrite
    then some m
    else if not (bit_and m.control m.port.ie == 0)
    then some (write_control (bit_and m.control (complement m.port.ie)) m)
    else some m

opened : Option Midi → Option Midi
opened none = none
opened (some m) = some (record m { port = record (m.port) { has_input = true } })

pub input_open : ℕ → Environment → Midi → Option Midi
input_open fuel e m = opened (flush_input fuel e m)

closed : Option Midi → Option Midi
closed none = none
closed (some m) = some (record m { port = record (m.port) { has_input = false } })

pub input_close : Environment → Midi → Option Midi
input_close e m = closed (input_trigger 0 e false m)

-- The output's timer runs while `istimer` is not 0.
start_timer : Port → Port
start_timer p = if p.istimer == 0 then record p { timer_armed = true; istimer = 1 } else p

stop_timer : Port → Port
stop_timer p = if p.istimer == 0 then p else record p {
  istimer = p.istimer - 1;
  timer_armed = if p.istimer - 1 == 0 then false else p.timer_armed;
}

pub output_trigger : Environment → Bool → Midi → Midi
output_trigger e true m = output_write e (record m { port = start_timer m.port })
output_trigger e false m = record m { port = stop_timer m.port }

-- The timer's handler, after the kernel has removed the timer: the write, and then the decision to
-- add it back.
pub rearm : Midi → Midi
rearm m =
    if m.port.istimer == 0 then m else record m { port = record (m.port) { timer_armed = true } }

pub output_timer : Environment → Midi → Midi
output_timer e m = rearm (output_write e m)

pub output_open : Midi → Midi
output_open m = record m { port = record (m.port) { has_output = true } }

pub output_close : Environment → Midi → Midi
output_close e m =
    let stopped = output_trigger e false m in
    record stopped { port = record (stopped.port) { has_output = false } }
