-- ===== src/Driver/Init.antt =====
-- The registers that `hdspe_init` of hdspe_core.c and the init functions of the card drivers set. The
-- names, the methods, the tables and the pitch, which the clock's files model, are left out.
pub mod Start
pub mod Tests
use snd_hdspe.Common.{ℕ, Bool, true, false}
use snd_hdspe.Common.Bits.Fields.{put_field}
use snd_hdspe.Device.{IoType, madi, madiface, aio, aes, raydat, aio_pro}
use snd_hdspe.Driver.{Reg, Hardware, set_control, write_control, write_settings}
use snd_hdspe.Driver.Ports.{MidiPorts, init_ports}

set_settings : ℕ → Hardware → Hardware
set_settings settings h = record h { reg = record (h.reg) { settings = settings } }

-- Master, tx_64ch, and HDSPE_MADI_INPUT_COAXIAL.
init_madi : Hardware → Hardware
init_madi h =
    write_control
      (set_control (put_field 14 1 1 (put_field 10 1 1 (put_field 4 1 1 h.reg.control))) h)

-- Master and PRO.
init_aes : Hardware → Hardware
init_aes h = write_control (set_control (put_field 9 1 1 (put_field 4 1 1 h.reg.control)) h)

-- Master, HDSPE_RAIO_SPDIF_INPUT_COAXIAL and LineOut.
init_raio : Hardware → Hardware
init_raio h =
    write_settings
      (set_settings (put_field 19 1 1 (put_field 12 2 1 (put_field 0 1 1 h.reg.settings))) h)

-- All registers are cleared; LAT is 6, freq is HDSPE_FREQ_44_1KHZ, and LineOut is on.
init_common : Hardware → Hardware
init_common h = write_control (record h {
  reg = record {
    control = put_field 24 1 1 (put_field 6 2 2 (put_field 1 3 6 0));
    settings = 0;
    pll_freq = 0;
    status0 = 0;
  };
})

init_card : IoType → Hardware → Hardware
init_card madi h = init_madi h
init_card madiface h = init_madi h
init_card aes h = init_aes h
init_card _ h = init_raio h

-- With a TCO or without.
pub init : IoType → Bool → Hardware → Hardware × MidiPorts
init io tco h = (init_card io (init_common h), init_ports io tco)

terminate_raio : IoType → Hardware → Hardware
terminate_raio aio_pro h = write_settings (set_settings (put_field 19 1 0 h.reg.settings) h)
terminate_raio _ h = h

-- `hdspe_terminate`; the other drivers have nothing to do.
pub terminate : IoType → Hardware → Hardware
terminate madi h = h
terminate madiface h = h
terminate aes h = h
terminate io h = terminate_raio io h
