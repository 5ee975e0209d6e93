-- ===== src/Driver/Init/Tests.antt =====
-- A run of the initialisation.
use snd_hdspe.Common.{true, some, none, [], if◌then◌else◌}
use snd_hdspe.Device.{madi}
use snd_hdspe.Driver.{Hardware, start_interrupts}
use snd_hdspe.Driver.Init.{init}
use snd_hdspe.Driver.Init.Start.{IsInitial, IsStarted, last_ie, start_interrupts-init}

abbrev hardware : Hardware
hardware = record {
  reg = record { control = 0xffffffff; settings = 0x5; pll_freq = 7; status0 = 9 };
  written = [];
}

start_interrupts-init_example :
    let (h, ports) = init madi true hardware in
    IsInitial madi h ports
    × IsStarted true (start_interrupts (if true then some (last_ie ports.midi) else none) h) ports
start_interrupts-init_example = start_interrupts-init madi true hardware
