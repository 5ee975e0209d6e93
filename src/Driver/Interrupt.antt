-- ===== src/Driver/Interrupt.antt =====
-- The interrupt handler of hdspe_core.c, in which the stream, the TCO, the polling of the status and
-- the MIDI ports meet, and the work on the MIDI ports that it queues. What the card's registers read,
-- ALSA's substreams and the kernel's clock are arguments. `irq_count` is left out.
pub mod Control
pub mod Tests
use snd_hdspe.Common.{
  ℕ, zero, suc, ◌+◌, bit_and, bit_or, Bool, true, false, not, ◌&&◌, ◌||◌, ◌==◌, if◌then◌else◌, shr,
  ◌%◌, ◌^◌, Option, none, some, List, [], ◌∷◌, ◌++◌,
}
use snd_hdspe.Pcm.{Stream, update_frame_count}
use snd_hdspe.Clock.{speed_factor}
use snd_hdspe.Tco.{Tco}
use snd_hdspe.Tco.Mtc.{LtcIn}
use snd_hdspe.Tco.Period.{Environment, period_elapsed}
use snd_hdspe.Polling.{Polling, schedule}
use snd_hdspe.Driver.{
  Hardware, hdspe_write, write_control, set_control, complement, interrupt_confirmation,
}
use snd_hdspe.Driver.Ports.{MidiPort}

-- The TCO module with the incoming time code.
pub record TcoModule : Type 0 where
  pub tco : Tco
  pub ltc_in : LtcIn

pub record Card : Type 0 where
  pub hardware : Hardware
  pub stream : Stream
  pub tco : Option TcoModule
  pub polling : Polling
  pub midi : List MidiPort
  pub irq_pending_mask : ℕ
  pub capture_open : Bool
  pub playback_open : Bool

-- The status register, the MIDI input status registers by their address, the time in jiffies, and what
-- the TCO's part reads.
pub record Readings : Type 0 where
  pub status0 : ℕ
  pub midi_status : ℕ → ℕ
  pub jiffies : ℕ
  pub hz : ℕ
  pub tco : Environment

-- What the handler sets off in the kernel.
pub data Effect : Type 0 where
  capture_elapsed playback_elapsed status_work_scheduled midi_work_queued : Effect

-- The field BUF_PTR of the status register.
buf_ptr_of : ℕ → ℕ
buf_ptr_of status0 = shr status0 6 % 2 ^ 10

tco_module : Option (Tco × LtcIn) → Option (Option TcoModule)
tco_module none = none
tco_module (some (t, c)) = some (some (record { tco = t; ltc_in = c }))

-- The TCO's part, where there is a TCO, after the frame count is updated. Its period size, which the
-- code computes anew, is the stream's: that is computed whenever the latency is set.
tco_elapsed : Stream → Environment → Option TcoModule → Option (Option TcoModule)
tco_elapsed s e none = some none
tco_elapsed s e (some m) = tco_module (
    period_elapsed m.tco m.ltc_in (record e {
      frame_count = s.frame_count;
      period_size = s.period_size;
      speed_factor = speed_factor s.device;
    }))

when : {A : Type 0} → Bool → A → List A
when true a = a ∷ []
when false a = []

audio_done : Readings → Card → Stream → Option (Option TcoModule) → Option (Card × List Effect)
audio_done r c s none = none
audio_done r c s (some tco) =
    let (polling, due) = schedule r.hz r.jiffies c.polling in
    some (
      record c {
        stream = s;
        tco = tco;
        polling = polling;
        hardware = hdspe_write interrupt_confirmation 0 c.hardware;
      },
      when c.capture_open capture_elapsed
          ++ (when c.playback_open playback_elapsed ++ when due status_work_scheduled),
    )

-- The audio interrupt; none where the TCO's arithmetic is undefined.
pub audio_interrupt : Readings → Card → Option (Card × List Effect)
audio_interrupt r c =
    let s = update_frame_count c.stream in audio_done r c s (tco_elapsed s r.tco c.tco)

-- A port with bytes to read whose interrupt is pending.
pub is_raised : Readings → MidiPort → Bool
is_raised r m =
    not (bit_and (r.midi_status m.table.status_in) 0xff == 0)
    && not (bit_and r.status0 m.table.irq == 0)

pub raise : Readings → MidiPort → MidiPort
raise r m = if is_raised r m then record m { pending = true } else m

-- The loop over the ports: what it makes of the control register, of the ports, and whether it
-- schedules the work.
pub disable_raised : Readings → List MidiPort → ℕ → ℕ
disable_raised r [] control = control
disable_raised r (m ∷ ms) control =
    disable_raised r ms (if is_raised r m then bit_and control (complement m.table.ie) else control)

pub raise_all : Readings → List MidiPort → List MidiPort
raise_all r [] = []
raise_all r (m ∷ ms) = raise r m ∷ raise_all r ms

pub any_raised : Readings → List MidiPort → Bool
any_raised r [] = false
any_raised r (m ∷ ms) = is_raised r m || any_raised r ms

pub midi_interrupt : Readings → Card → Card × List Effect
midi_interrupt r c =
    let control = disable_raised r c.midi c.hardware.reg.control in
    let due = any_raised r c.midi in
    let changed = set_control control c.hardware in
    (
      record c {
        midi = raise_all r c.midi;
        hardware = if due then write_control changed else changed;
      },
      when due midi_work_queued,
    )

midi_part : Bool → Readings → Option (Card × List Effect) → Option (Card × List Effect)
midi_part midi r none = none
midi_part false r (some (c, effects)) = some (c, effects)
midi_part true r (some (c, effects)) =
    let (c', more) = midi_interrupt r c in some (c', effects ++ more)

-- The status register is kept, with the BUF_PTR that the stream uses.
cached : Readings → Card → Card
cached r c = record c {
  hardware = record (c.hardware) { reg = record (c.hardware.reg) { status0 = r.status0 } };
  stream = record (c.stream) { buf_ptr = buf_ptr_of r.status0 };
}

handled : Option (Card × List Effect) → Option (Card × List Effect × Bool)
handled none = none
handled (some (c, effects)) = some (c, effects, true)

-- The result is false for IRQ_NONE, true for IRQ_HANDLED.
pub interrupt : Readings → Card → Option (Card × List Effect × Bool)
interrupt r c =
    let audio = not (bit_and r.status0 1 == 0) in
    let midi = not (bit_and r.status0 c.irq_pending_mask == 0) in
    let start = cached r c in
    let heard = if audio then audio_interrupt r start else some (start, []) in
    if not audio && not midi then some (start, [], false) else handled (midi_part midi r heard)

-- The work on a port whose interrupt is pending: what Midi.input_read leaves of the control register,
-- the interrupt enabled again. The bytes that it reads are in Midi.antt.
pub read_port : MidiPort → Hardware → Hardware
read_port m h =
    if m.pending then write_control (set_control (bit_or h.reg.control m.table.ie) h) else h

pub read_ports : List MidiPort → Hardware → Hardware
read_ports [] h = h
read_ports (m ∷ ms) h = read_ports ms (read_port m h)

pub settled : List MidiPort → List MidiPort
settled [] = []
settled (m ∷ ms) = record m { pending = false } ∷ settled ms

pub midi_work : Card → Card
midi_work c = record c { hardware = read_ports c.midi c.hardware; midi = settled c.midi }
