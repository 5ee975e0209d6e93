-- ===== src/Driver/Lifecycle/Tests.antt =====
-- Runs of the probe, of suspend and of resume.
use snd_hdspe.Common.{◌≡◌, refl, true, false, none, some, [], ◌∷◌}
use snd_hdspe.Common.Int.{ℤ, pos, negsuc, is_negative}
use snd_hdspe.Driver.{Hardware, is_running, wr_control, wr_settings, wr_pll_freq}
use snd_hdspe.Driver.Lifecycle.{
  Card, Calls, create, enable_device, set_dma_mask, request_regions, ioremap, probe, freed, suspend,
  free, then_free, work_stop, with_mapping, resume, is_zero,
}
use snd_hdspe.Driver.Lifecycle.Release.{new_card, probe_lem, Ends}
use snd_hdspe.Driver.Lifecycle.Resume.{InUse, IsListening, resume-suspend, free-suspend}

-- A card with a TCO for which the interrupt cannot be requested.
abbrev busy : Calls
busy = record {
  known_model = true;
  enable_device = pos 0;
  set_dma_mask = pos 0;
  request_regions = pos 0;
  resource_start = 0xf0000000;
  ioremap = true;
  irq = 17;
  request_irq = false;
  mixer_memory = true;
  has_tco = true;
  tco_memory = true;
  create_alsa_devices = pos 0;
  card_register = pos 0;
}

abbrev hardware : Hardware
hardware = record {
  reg = record { control = 0x600021; settings = 0x5; pll_freq = 2293110696; status0 = 0x40 };
  written = [];
}

-- A running card with the TCO's port enabled.
abbrev card : Card
card = record {
  irq = pos 17;
  port = 0xf0000000;
  iobase = true;
  hardware = hardware;
  saved_registers = hardware.reg;
  midi_mask = 0x600000;
  tco_ie = some 0x200000;
  held = record {
    enabled = true;
    regions = true;
    mapped = true;
    interrupt = true;
    mixer = true;
    tco = true;
  };
}

card-InUse : InUse card
unfolding is_negative
card-InUse = record { based = refl; mapped = refl; irq = refl; held = refl }

-- Where the registers cannot be mapped, freeing the card writes through the null address.
not_mapped :
    probe (record busy { ioremap = false }) (new_card hardware (hardware.reg) 0 none) ≡ none
unfolding probe create enable_device set_dma_mask request_regions ioremap freed free then_free
    work_stop with_mapping is_negative new_card is_zero
not_mapped = refl

probe_lem_example :
    (o : Card × ℤ) × (probe busy (new_card hardware (hardware.reg) 0x600000 none) ≡ some o)
    × Ends busy o
probe_lem_example = probe_lem busy hardware (hardware.reg) 0x600000 none refl refl

resume-suspend_example :
    (d : Card) × (e : Card) × (suspend card ≡ some d)
    × (d.held.interrupt ≡ false)
    × (resume 18 true d ≡ some (e, pos 0))
    × (e.held ≡ card.held)
    × (e.hardware.reg ≡ card.hardware.reg)
    × (e.hardware.written
        ≡ (wr_control, card.hardware.reg.control)
          ∷ ((wr_pll_freq, card.hardware.reg.pll_freq)
              ∷ ((wr_control, card.hardware.reg.control)
                  ∷ ((wr_settings, card.hardware.reg.settings) ∷ d.hardware.written))))
unfolding is_running IsListening
resume-suspend_example = resume-suspend card 18 card-InUse refl refl

free-suspend_example :
    (d : Card) × (suspend card ≡ some d)
    × (resume 18 false d ≡ some (d, negsuc 15))
    × (free d ≡ none)
free-suspend_example = free-suspend card 18 card-InUse
