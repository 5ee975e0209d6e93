-- ===== src/Midi/Tests.antt =====
-- Runs of a MIDI port.
use snd_hdspe.Common.{
  ℕ, ◌-◌, ◌%◌, ◌≤◌, ◌≡◌, arith, refl, true, false, leb, if◌then◌else◌, List, [], ◌∷◌, ◌++◌, some,
}
use snd_hdspe.Tco.Mtc.{LtcIn}
use snd_hdspe.Midi.{Port, Midi, Environment, input_read, output_write, output_trigger, output_close}
use snd_hdspe.Midi.Input.{InputRead, input_read_lem}
use snd_hdspe.Midi.Output.{length, Fits, output_write_lem}
use snd_hdspe.Midi.Timer.{Output, starts, Steps, none_taken, one_more, IsTimed, steps_timer_lem}

abbrev port : Port
port = record {
  readwrite = true;
  ie = 0x400000;
  irq = 0x40000000;
  has_input = true;
  has_output = true;
  pending = true;
  istimer = 0;
  timer_armed = false;
}

abbrev no_code : LtcIn
no_code = record {
  ltc_changed = false;
  ltc_in = 0;
  ltc_time = 0;
  ltc_in_frame_count = 0;
  prev_ltc_time = 0;
  ltc_duration_sum = 0;
  ltc_duration = λ i. 0;
  ltc_count = 0;
  ltc_in_pullfac = 0;
  last_ltc_in_pullfac = 0;
}

abbrev midi : Midi
midi = record {
  port = port;
  control = 0;
  control_writes = [];
  position = 0;
  received = [];
  sent = [];
  ltc_in = no_code;
}

abbrev three : ℕ → List ℕ
three n = if leb 3 n then 0x90 ∷ 60 ∷ 100 ∷ [] else []

-- 200 bytes wait to be read, 100 of the output's 128 bytes are used.
abbrev busy : Environment
busy = record {
  byte = λ i. i % 256;
  status_in = λ i. 200 - i;
  status_out = 100;
  now = λ i. 0;
  transmit_empty = false;
  transmit = three;
}

input_read_lem_example : (m' : Midi) × (input_read busy midi ≡ some m') × InputRead busy midi m'
input_read_lem_example = input_read_lem busy midi refl

three-length : (n : ℕ) → length (three n) ≤ n
three-length n = ground arith

output_write_lem_example :
    (bytes : List ℕ) × ((output_write busy midi).sent ≡ [] ++ bytes) × Fits busy midi bytes
output_write_lem_example = output_write_lem busy midi three-length

abbrev at_rest : Output
at_rest = record { midi = midi; running = false }

abbrev started : Output
started = record { midi = output_trigger busy true midi; running = false }

start_only : Steps at_rest started
start_only = one_more at_rest at_rest started (none_taken at_rest) (starts busy midi false)

steps_timer_lem_example :
    IsTimed started.midi.port false
    × ((output_close busy started.midi).port.istimer ≡ 0)
    × ((output_close busy started.midi).port.timer_armed ≡ false)
steps_timer_lem_example = steps_timer_lem at_rest started busy refl refl start_only
