-- ===== src/Driver/Ports/Tests.antt =====
-- Runs of the port tables.
use snd_hdspe.Common.{◌≡◌, ◌≤◌, ◌||◌, ◌&&◌, not, true, [], arith}
use snd_hdspe.Common.Bits.Test.{bit}
use snd_hdspe.Device.{madi, aes}
use snd_hdspe.Driver.{Hardware, start_bit, ie_audio, stop_interrupts}
use snd_hdspe.Driver.Ports.{init_ports, midi_count}
use snd_hdspe.Driver.Ports.Masks.{
  count, are_apart, has_bit, init_ports-are_apart, stop_interrupts-init_ports,
}

abbrev hardware : Hardware
hardware = record {
  reg = record { control = 0xe00021; settings = 0; pll_freq = 2293110696; status0 = 0 };
  written = [];
}

init_ports-are_apart_example :
    (count (init_ports aes true).midi ≡ midi_count aes true)
    × (1 ≤ midi_count aes true)
    × (midi_count aes true ≤ 4)
    × (are_apart (init_ports aes true).midi ≡ true)
init_ports-are_apart_example = init_ports-are_apart aes true

stop_interrupts-init_ports_example :
    bit 21 (stop_interrupts (init_ports madi true).interrupt_enable_mask hardware).reg.control ≡ (
      bit 21 hardware.reg.control
      && not (bit 21 start_bit || (bit 21 ie_audio || has_bit 21 (init_ports madi true).midi)))
stop_interrupts-init_ports_example = stop_interrupts-init_ports madi true hardware 21 (omega arith)
