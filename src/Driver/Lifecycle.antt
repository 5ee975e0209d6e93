-- ===== src/Driver/Lifecycle.antt =====
-- What the driver acquires and releases: `snd_hdspe_create`, the probe, `snd_hdspe_free`, suspend and
-- resume of hdspe_core.c. The results of the kernel's functions are arguments. A step that writes
-- through a null address, or frees an interrupt that is not requested, has no result. The names and
-- the identity of the card, and ALSA's power state, are left out.
pub mod Release
pub mod Resume
pub mod Tests
use snd_hdspe.Common.{
  ℕ, ◌+◌, ◌==◌, Bool, true, false, not, ◌&&◌, ◌||◌, if◌then◌else◌, Option, none, some,
}
use snd_hdspe.Common.Int.{ℤ, pos, negsuc, is_negative}
use snd_hdspe.Driver.{
  Reg, Hardware, write_control, write_settings, write_pll_freq, start_interrupts, stop_interrupts,
}

-- What the kernel has given: the device enabled, its memory regions, the mapping, the interrupt, and
-- the memory of the mixer and of the TCO.
pub record Held : Type 0 where
  pub enabled : Bool
  pub regions : Bool
  pub mapped : Bool
  pub interrupt : Bool
  pub mixer : Bool
  pub tco : Bool

abbrev pub nothing_held : Held
nothing_held = record {
  enabled = false;
  regions = false;
  mapped = false;
  interrupt = false;
  mixer = false;
  tco = false;
}

-- The fields of `struct hdspe`: irq is -1 and port 0 where there is none; `iobase` is whether the
-- address is not null.
pub record Card : Type 0 where
  pub irq : ℤ
  pub port : ℕ
  pub iobase : Bool
  pub hardware : Hardware
  pub saved_registers : Reg
  pub midi_mask : ℕ
  pub tco_ie : Option ℕ
  pub held : Held

-- The results of the calls of a probe, in their order.
pub record Calls : Type 0 where
  pub known_model : Bool
  pub enable_device : ℤ
  pub set_dma_mask : ℤ
  pub request_regions : ℤ
  pub resource_start : ℕ
  pub ioremap : Bool
  pub irq : ℕ
  pub request_irq : Bool
  pub mixer_memory : Bool
  pub has_tco : Bool
  pub tco_memory : Bool
  pub create_alsa_devices : ℤ
  pub card_register : ℤ

-- `snd_hdspe_init_all` and the ALSA devices; -ENOMEM is -12. A TCO without memory is left out.
init_all : Calls → Card → Card × ℤ
init_all k c =
    let with_mixer = record c { held = record (c.held) { mixer = true } } in
    let with_tco = record with_mixer {
      held = record (with_mixer.held) { tco = k.has_tco && k.tco_memory };
    } in
    if not k.mixer_memory
    then (c, negsuc 11)
    else if is_negative k.create_alsa_devices
    then (with_tco, k.create_alsa_devices)
    else (with_tco, pos 0)

-- -EBUSY is -16.
request_irq : Calls → Card → Card × ℤ
request_irq k c =
    let requested =
      init_all k (record c { irq = pos k.irq; held = record (c.held) { interrupt = true } }) in
    if k.request_irq then requested else (c, negsuc 15)

ioremap : Calls → Card → Card × ℤ
ioremap k c =
    let mapped =
      request_irq k (record c { iobase = true; held = record (c.held) { mapped = true } }) in
    if k.ioremap then mapped else (c, negsuc 15)

request_regions : Calls → Card → Card × ℤ
request_regions k c =
    let requested =
      ioremap k (record c { port = k.resource_start; held = record (c.held) { regions = true } }) in
    if is_negative k.request_regions then (c, k.request_regions) else requested

is_zero : ℤ → Bool
is_zero (pos n) = n == 0
is_zero (negsuc n) = false

-- -ENODEV is -19.
set_dma_mask : Calls → Card → Card × ℤ
set_dma_mask k c = if is_zero k.set_dma_mask then request_regions k c else (c, negsuc 18)

enable_device : Calls → Card → Card × ℤ
enable_device k c =
    let enabled = set_dma_mask k (record c { held = record (c.held) { enabled = true } }) in
    if is_negative k.enable_device then (c, k.enable_device) else enabled

pub create : Calls → Card → Card × ℤ
create k c =
    let start = record c { irq = negsuc 0; port = 0; iobase = false } in
    let created = enable_device k start in if k.known_model then created else (start, negsuc 18)

-- A write to the card needs its mapping.
with_mapping : (Hardware → Hardware) → Card → Option Card
with_mapping write c = if c.iobase then some (record c { hardware = write c.hardware }) else none

-- The works that are cancelled are left out.
pub work_stop : Card → Option Card
work_stop c =
    let stopped = with_mapping (stop_interrupts c.midi_mask) c in
    if c.port == 0 then some c else stopped

-- The TCO's last writes, and those of the AIO Pro, are left out.
pub deinit_all : Card → Card
deinit_all c =
    if c.port == 0 then c else record c { held = record (c.held) { mixer = false; tco = false } }

free_irq : Card → Option Card
free_irq c =
    if is_negative c.irq
    then some c
    else if c.held.interrupt
    then some (record c { held = record (c.held) { interrupt = false } })
    else none

unmap_and_disable : Card → Card
unmap_and_disable c = record c {
  held = record (c.held) {
    mapped = if c.iobase then false else c.held.mapped;
    regions = if c.port == 0 then c.held.regions else false;
    enabled = false;
  };
}

then_free : Option Card → Option Card
then_free none = none
then_free (some c) = after (free_irq (deinit_all c))
  where
    after : Option Card → Option Card
    after none = none
    after (some d) = some (unmap_and_disable d)

-- `snd_hdspe_free`, which ALSA calls when the card is freed.
pub free : Card → Option Card
free c = then_free (work_stop c)

started : Card → Card
started c = record c { hardware = start_interrupts c.tco_ie c.hardware }

freed : ℤ → Option Card → Option (Card × ℤ)
freed err none = none
freed err (some c) = some (c, err)

-- The probe of a card: on failure the card is freed.
pub probe : Calls → Card → Option (Card × ℤ)
probe k c =
    let (created, err) = create k c in
    let failed = freed err (free created) in
    let not_registered = freed k.card_register (free created) in
    if is_negative err
    then failed
    else if is_negative k.card_register
    then not_registered
    else some (started created, pos 0)

suspended : Option Card → Option Card
suspended none = none
suspended (some c) = free_irq c

-- The interrupt is freed, and the number of it stays.
pub suspend : Card → Option Card
suspend c = suspended (work_stop (record c { saved_registers = c.hardware.reg }))

restored : Card → Hardware
restored c =
    write_pll_freq
      (write_control (write_settings (record (c.hardware) { reg = c.saved_registers })))

-- With the number of the PCI device's interrupt, and whether it can be requested.
pub resume : ℕ → Bool → Card → Option (Card × ℤ)
resume irq requested c =
    let held = record c { irq = pos irq; held = record (c.held) { interrupt = true } } in
    if requested
    then freed (pos 0) (
        with_mapping (λ h. start_interrupts c.tco_ie (restored (record held { hardware = h })))
          held)
    else some (c, negsuc 15)
