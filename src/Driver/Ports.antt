-- ===== src/Driver/Ports.antt =====
-- The MIDI ports of the card models: the tables of hdspe_madi.c, hdspe_aes.c and hdspe_raio.c, and
-- `hdspe_init_midi` of hdspe_midi.c. The names of the ports are left out.
pub mod Masks
pub mod Tests
use snd_hdspe.Common.{ℕ, zero, suc, ◌+◌, bit_or, Bool, true, false, if◌then◌else◌, List, [], ◌∷◌}
use snd_hdspe.Common.Int.{ℤ, pos, negsuc}
use snd_hdspe.Device.{IoType, madi, madiface, aio, aes, raydat, aio_pro}

-- The registers of a port, with -1 for those that it does not have, and its masks in the control and
-- in the status register.
pub record PortTable : Type 0 where
  pub data_in : ℕ
  pub status_in : ℕ
  pub data_out : ℤ
  pub status_out : ℤ
  pub ie : ℕ
  pub irq : ℕ

-- Ports 0, 1 and 2 with an output.
unfoldable pub port_0 : PortTable
port_0 = record {
  data_in = 360;
  status_in = 392;
  data_out = pos 352;
  status_out = pos 384;
  ie = 0x00400000;
  irq = 0x40000000;
}

unfoldable pub port_1 : PortTable
port_1 = record {
  data_in = 364;
  status_in = 396;
  data_out = pos 356;
  status_out = pos 388;
  ie = 0x00800000;
  irq = 0x80000000;
}

unfoldable pub port_2 : PortTable
port_2 = record {
  data_in = 372;
  status_in = 404;
  data_out = pos 368;
  status_out = pos 400;
  ie = 0x00200000;
  irq = 0x20000000;
}

-- The ports of the TCO, which only read.
unfoldable pub mtc_1 : PortTable
mtc_1 = record {
  data_in = 364;
  status_in = 396;
  data_out = negsuc 0;
  status_out = negsuc 0;
  ie = 0x00800000;
  irq = 0x80000000;
}

unfoldable pub mtc_2 : PortTable
mtc_2 = record {
  data_in = 372;
  status_in = 404;
  data_out = negsuc 0;
  status_out = negsuc 0;
  ie = 0x00200000;
  irq = 0x20000000;
}

unfoldable pub mtc_2_aes : PortTable
mtc_2_aes = record {
  data_in = 372;
  status_in = 404;
  data_out = negsuc 0;
  status_out = negsuc 0;
  ie = 0x00200000;
  irq = 0x00000020;
}

unfoldable pub mtc_3 : PortTable
mtc_3 = record {
  data_in = 376;
  status_in = 408;
  data_out = negsuc 0;
  status_out = negsuc 0;
  ie = 0x04000000;
  irq = 0x00200000;
}

unfoldable pub madi_midi_ports : List PortTable
madi_midi_ports = port_0 ∷ port_1 ∷ port_2 ∷ mtc_3 ∷ []

unfoldable pub madiface_midi_ports : List PortTable
madiface_midi_ports = port_2 ∷ []

unfoldable pub aes_midi_ports : List PortTable
aes_midi_ports = port_0 ∷ port_1 ∷ mtc_2_aes ∷ []

unfoldable pub raydat_midi_ports : List PortTable
raydat_midi_ports = port_0 ∷ port_1 ∷ mtc_2 ∷ []

unfoldable pub aio_midi_ports : List PortTable
aio_midi_ports = port_0 ∷ mtc_1 ∷ []

unfoldable pub midi_ports : IoType → List PortTable
midi_ports madi = madi_midi_ports
midi_ports madiface = madiface_midi_ports
midi_ports aes = aes_midi_ports
midi_ports raydat = raydat_midi_ports
midi_ports aio = aio_midi_ports
midi_ports aio_pro = aio_midi_ports

-- The number of ports, with a TCO or without. The MADIface has no TCO.
unfoldable pub midi_count : IoType → Bool → ℕ
midi_count madi tco = 3 + (if tco then 1 else 0)
midi_count madiface tco = 1
midi_count aes tco = 2 + (if tco then 1 else 0)
midi_count raydat tco = 2 + (if tco then 1 else 0)
midi_count aio tco = 1 + (if tco then 1 else 0)
midi_count aio_pro tco = 1 + (if tco then 1 else 0)

-- A port in use: its table, and whether its interrupt is to be worked on.
pub record MidiPort : Type 0 where
  pub table : PortTable
  pub pending : Bool

-- The ports and masks that `hdspe_init_midi` sets up.
pub record MidiPorts : Type 0 where
  pub midi : List MidiPort
  pub interrupt_enable_mask : ℕ
  pub irq_pending_mask : ℕ

-- The loop over the first n ports of a list.
unfoldable pub init_midi : ℕ → List PortTable → MidiPorts
init_midi zero list = record { midi = []; interrupt_enable_mask = 0; irq_pending_mask = 0 }
init_midi (suc n) [] = record { midi = []; interrupt_enable_mask = 0; irq_pending_mask = 0 }
init_midi (suc n) (t ∷ list) =
    let rest = init_midi n list in
    record {
      midi = record { table = t; pending = false } ∷ rest.midi;
      interrupt_enable_mask = bit_or t.ie rest.interrupt_enable_mask;
      irq_pending_mask = bit_or t.irq rest.irq_pending_mask;
    }

unfoldable pub init_ports : IoType → Bool → MidiPorts
init_ports io tco = init_midi (midi_count io tco) (midi_ports io)
