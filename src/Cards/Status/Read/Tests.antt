-- ===== src/Cards/Status/Read/Tests.antt =====
-- Runs of the status of a RayDAT.
use snd_hdspe.Common.{◌≡◌, arith, refl, false, none, []}
use snd_hdspe.Common.Int.{negsuc}
use snd_hdspe.Device.{raydat}
use snd_hdspe.Cards.Status.{
  sync_sync, sync_not_available, Sources, Running, set_sync_source, make_sync_status, fbits_freq,
  field,
}
use snd_hdspe.Cards.Status.Registers.{status1_raio}
use snd_hdspe.Cards.Status.Read.{
  Registers, read_status, read_method, raio_read_status, raio_sources, raio_inputs, nr_inputs,
  bit_is_set,
}
use snd_hdspe.Cards.Status.Read.Loops.{available}
use snd_hdspe.Cards.Status.Read.Available.{is_there, tco_detected, available-read_status}

abbrev card : Running
card = record {
  device = record {
    io_type = raydat;
    control = record { lat = 3; freq = 3; ds = false; qs = false };
    pll_freq = 2184533333;
    tco = none;
    writes = [];
  };
  running = 0;
  capture_pid = negsuc 0;
  playback_pid = negsuc 0;
}

-- ADAT1 is in sync at 48 kHz, and there is no TCO.
abbrev registers : Registers
registers = record {
  pll_freq = 2184533333;
  control = 0;
  settings = 0;
  status0 = 0;
  status1 = 0x0404;
  status2 = 0;
  fbits = 0x300;
}

abbrev unset : Sources
unset = record { freq_of = λ _. 0; sync_of = λ _. sync_not_available }

adat1_sync : (read_status card registers unset).sources.sync_of 3 ≡ sync_sync
unfolding read_status read_method raio_read_status raio_sources raio_inputs nr_inputs
    set_sync_source make_sync_status bit_is_set status1_raio field
adat1_sync = refl

adat1_freq : (read_status card registers unset).sources.freq_of 3 ≡ 3
unfolding read_status read_method raio_read_status raio_sources raio_inputs nr_inputs
    set_sync_source fbits_freq field
adat1_freq = refl

available-read_status_example :
    available ((read_status card registers unset).sources.sync_of 0)
    ≡ is_there raydat (tco_detected raydat registers) 0
available-read_status_example = available-read_status card registers unset 0 (omega arith)
