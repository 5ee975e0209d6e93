-- ===== src/Driver/Init/Start.antt =====
-- What the initialisation of a card sets up, and what starting its interrupts makes of it.
use snd_hdspe.Common.{
  ℕ, ◌≡◌, ◌==◌, refl, bit_and, Bool, true, false, if◌then◌else◌, Option, none, some, List, [], ◌∷◌,
}
use snd_hdspe.Common.Bits.Fields.{get_field, put_field}
use snd_hdspe.Device.{IoType, madi, madiface, aio, aes, raydat, aio_pro}
use snd_hdspe.Driver.{
  Hardware, hdspe_write, write_control, write_settings, set_control, is_running, start_interrupts,
  wr_control,
}
use snd_hdspe.Driver.Ports.{
  MidiPort, MidiPorts, init_midi, init_ports, midi_count, midi_ports, port_0, port_1, port_2, mtc_1,
  mtc_2, mtc_2_aes, mtc_3, madi_midi_ports, madiface_midi_ports, aes_midi_ports, raydat_midi_ports,
  aio_midi_ports,
}
use snd_hdspe.Driver.Init.{
  init, init_card, init_common, init_madi, init_aes, init_raio, set_settings,
}
use snd_hdspe.Controls.{
  get_clock_mode, clock_mode_place, madi_clock_mode, aes_clock_mode, raio_clock_mode,
  get_float_format, float_format_place, madi_float_format, aes_float_format, raio_float_format,
  in_control, in_settings, get_reg, raw_of,
}

-- The value that a register of the card was last written.
pub last_write : ℕ → List (ℕ × ℕ) → Option ℕ
last_write register [] = none
last_write register ((r, value) ∷ ws) = if r == register then some value else last_write register ws

-- The enable bit of the last port.
pub last_ie : List MidiPort → ℕ
last_ie [] = 0
last_ie (m ∷ []) = m.table.ie
last_ie (m ∷ (n ∷ ms)) = last_ie (n ∷ ms)

-- What a card is after its initialisation: the clock's master, without float samples, at 44.1 kHz with
-- the latency 6, stopped and with no MIDI port enabled; the card's control register is the cached one.
pub record IsInitial (io : IoType) (h : Hardware) (ports : MidiPorts) : Type 0 where
  pub master : get_clock_mode io h ≡ 1
  pub integer : get_float_format io h ≡ 0
  pub freq : get_field 6 2 h.reg.control ≡ 2
  pub lat : get_field 1 3 h.reg.control ≡ 6
  pub stopped : is_running h ≡ false
  pub no_ports : bit_and h.reg.control ports.interrupt_enable_mask ≡ 0
  pub control_written : last_write wr_control h.written ≡ some h.reg.control

-- What it is after its interrupts are started: it runs, and of the MIDI ports the TCO's is enabled
-- where there is one, and no other.
pub record IsStarted (tco : Bool) (h : Hardware) (ports : MidiPorts) : Type 0 where
  pub runs : is_running h ≡ true
  pub tco_port :
      bit_and h.reg.control ports.interrupt_enable_mask ≡ (if tco then last_ie ports.midi else 0)
  pub start_written : last_write wr_control h.written ≡ some h.reg.control

-- Each card model, with a TCO or without, whatever the registers were before.
pub start_interrupts-init :
    (io : IoType) (tco : Bool) (before : Hardware)
    → let (h, ports) = init io tco before in
      IsInitial io h ports
      × IsStarted tco (start_interrupts (if tco then some (last_ie ports.midi) else none) h) ports
unfolding init init_card init_common init_madi init_aes init_raio set_settings write_control
    write_settings set_control hdspe_write is_running start_interrupts last_write last_ie put_field
    get_field get_clock_mode clock_mode_place madi_clock_mode aes_clock_mode raio_clock_mode
    get_float_format float_format_place madi_float_format aes_float_format raio_float_format
    in_control in_settings get_reg raw_of init_ports init_midi midi_count midi_ports port_0 port_1
    port_2 mtc_1 mtc_2 mtc_2_aes mtc_3 madi_midi_ports madiface_midi_ports aes_midi_ports
    raydat_midi_ports aio_midi_ports
start_interrupts-init madi true before = (
  record {
    master = refl;
    integer = refl;
    freq = refl;
    lat = refl;
    stopped = refl;
    no_ports = refl;
    control_written = refl;
  },
  record { runs = refl; tco_port = refl; start_written = refl },
)
start_interrupts-init madi false before = (
  record {
    master = refl;
    integer = refl;
    freq = refl;
    lat = refl;
    stopped = refl;
    no_ports = refl;
    control_written = refl;
  },
  record { runs = refl; tco_port = refl; start_written = refl },
)
start_interrupts-init madiface true before = (
  record {
    master = refl;
    integer = refl;
    freq = refl;
    lat = refl;
    stopped = refl;
    no_ports = refl;
    control_written = refl;
  },
  record { runs = refl; tco_port = refl; start_written = refl },
)
start_interrupts-init madiface false before = (
  record {
    master = refl;
    integer = refl;
    freq = refl;
    lat = refl;
    stopped = refl;
    no_ports = refl;
    control_written = refl;
  },
  record { runs = refl; tco_port = refl; start_written = refl },
)
start_interrupts-init aes true before = (
  record {
    master = refl;
    integer = refl;
    freq = refl;
    lat = refl;
    stopped = refl;
    no_ports = refl;
    control_written = refl;
  },
  record { runs = refl; tco_port = refl; start_written = refl },
)
start_interrupts-init aes false before = (
  record {
    master = refl;
    integer = refl;
    freq = refl;
    lat = refl;
    stopped = refl;
    no_ports = refl;
    control_written = refl;
  },
  record { runs = refl; tco_port = refl; start_written = refl },
)
start_interrupts-init raydat true before = (
  record {
    master = refl;
    integer = refl;
    freq = refl;
    lat = refl;
    stopped = refl;
    no_ports = refl;
    control_written = refl;
  },
  record { runs = refl; tco_port = refl; start_written = refl },
)
start_interrupts-init raydat false before = (
  record {
    master = refl;
    integer = refl;
    freq = refl;
    lat = refl;
    stopped = refl;
    no_ports = refl;
    control_written = refl;
  },
  record { runs = refl; tco_port = refl; start_written = refl },
)
start_interrupts-init aio true before = (
  record {
    master = refl;
    integer = refl;
    freq = refl;
    lat = refl;
    stopped = refl;
    no_ports = refl;
    control_written = refl;
  },
  record { runs = refl; tco_port = refl; start_written = refl },
)
start_interrupts-init aio false before = (
  record {
    master = refl;
    integer = refl;
    freq = refl;
    lat = refl;
    stopped = refl;
    no_ports = refl;
    control_written = refl;
  },
  record { runs = refl; tco_port = refl; start_written = refl },
)
start_interrupts-init aio_pro true before = (
  record {
    master = refl;
    integer = refl;
    freq = refl;
    lat = refl;
    stopped = refl;
    no_ports = refl;
    control_written = refl;
  },
  record { runs = refl; tco_port = refl; start_written = refl },
)
start_interrupts-init aio_pro false before = (
  record {
    master = refl;
    integer = refl;
    freq = refl;
    lat = refl;
    stopped = refl;
    no_ports = refl;
    control_written = refl;
  },
  record { runs = refl; tco_port = refl; start_written = refl },
)
