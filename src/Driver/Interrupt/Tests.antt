-- ===== src/Driver/Interrupt/Tests.antt =====
-- Runs of the interrupt handler and of the work that it queues.
use snd_hdspe.Common.{◌≡◌, arith, refl, true, false, none, some, [], ◌∷◌}
use snd_hdspe.Common.Int.{negsuc}
use snd_hdspe.Common.Bits.Test.{bit}
use snd_hdspe.Device.{madi, single}
use snd_hdspe.Cards.Status.{sync_no_lock, madi_special, Status}
use snd_hdspe.Driver.{hdspe_write, write_control, set_control}
use snd_hdspe.Driver.Ports.{port_0, port_1}
use snd_hdspe.Driver.Interrupt.{
  Card, Readings, midi_work_queued, interrupt, handled, midi_part, midi_interrupt, disable_raised,
  raise_all, any_raised, is_raised, raise, when, cached, buf_ptr_of, midi_work,
}
use snd_hdspe.Driver.Interrupt.Control.{no_ports, next_port, at_first, interrupted, Steps-midi_work}

abbrev status : Status
status = record {
  shared = record {
    sample_rate_numerator = 110069313433624;
    sample_rate_denominator = 2293110696;
    internal_sample_rate_denominator = 2293110696;
    buffer_size = some 512;
    running = 0;
    capture_pid = negsuc 0;
    playback_pid = negsuc 0;
    internal_freq = 3;
    speed_mode = single;
  };
  clock_mode = false;
  preferred_ref = 0;
  autosync_ref = 0;
  sources = record { freq_of = λ _. 0; sync_of = λ _. sync_no_lock };
  external_freq = 3;
  wck48 = false;
  clr_tms = false;
  special = madi_special false false true false false true;
}

-- Two ports, both enabled.
abbrev card : Card
card = record {
  hardware = record {
    reg = record { control = 0xc00021; settings = 0; pll_freq = 2293110696; status0 = 0 };
    written = [];
  };
  stream = record {
    device = record {
      io_type = madi;
      control = record { lat = 3; freq = 3; ds = false; qs = false };
      pll_freq = 2293110696;
      tco = none;
      writes = [];
    };
    buf_ptr = 0;
    frame_count = 0;
    hw_pointer_wrap_count = 0;
    last_hw_pointer = 0;
    hw_buffer_size = 16384;
    period_size = 512;
  };
  tco = none;
  polling = record {
    status_polling = 0;
    last_status_jiffies = 0;
    last_status_change_jiffies = 0;
    last_status = status;
  };
  midi =
      record { table = port_0; pending = false }
      ∷ (record { table = port_1; pending = false } ∷ []);
  irq_pending_mask = 0xc0000000;
  capture_open = true;
  playback_open = false;
}

-- Port 1 has three bytes to read and raises its interrupt.
abbrev readings : Readings
readings = record {
  status0 = 0x80000000;
  midi_status = λ _. 3;
  jiffies = 1000;
  hz = 250;
  tco = record {
    frame_count = 0;
    period_size = 0;
    speed_factor = 1;
    tc_first = 0;
    tco1_first = 0;
    tc_second = 0;
    tco1_second = 0;
    tv_sec = 0;
    tv_nsec = 0;
    time64_to_tm = λ _. (0, 0, 0);
  };
}

-- The card after that interrupt: port 1 is disabled and waits for the work.
abbrev raised : Card
raised = record card {
  hardware = record {
    reg = record { control = 0x400021; settings = 0; pll_freq = 2293110696; status0 = 0x80000000 };
    written = (64, 0x400021) ∷ [];
  };
  midi =
      record { table = port_0; pending = false } ∷ (record { table = port_1; pending = true } ∷ []);
}

one_interrupt : interrupt readings card ≡ some (raised, midi_work_queued ∷ [], true)
unfolding interrupt handled midi_part midi_interrupt disable_raised raise_all any_raised is_raised
    raise when cached buf_ptr_of write_control set_control hdspe_write port_0 port_1
one_interrupt = refl

Steps-midi_work_example : bit 23 (midi_work raised).hardware.reg.control ≡ true
unfolding bit port_0 port_1
Steps-midi_work_example =
    Steps-midi_work card raised 23 (next_port (omega arith) (next_port (omega arith) no_ports))
      (omega arith)
      (interrupted card raised readings (midi_work_queued ∷ []) true at_first one_interrupt) refl
