-- ===== src/Driver/Lifecycle/Resume.antt =====
-- Suspend and resume, and what a suspended card no longer holds.
use snd_hdspe.Common.{
  ℕ, ◌≡◌, ◌==◌, bit_or, arith, refl, ap, sym, ◌∙◌, true, false, Option, none, some, ◌∷◌,
}
use snd_hdspe.Common.Int.{pos, negsuc, is_negative}
use snd_hdspe.Common.Bits.Masks.{bit_and_field}
use snd_hdspe.Common.Bits.Test.{bit, bit_or_set}
use snd_hdspe.Driver.{
  Hardware, hdspe_write, write_control, write_settings, write_pll_freq, set_control, is_running,
  start_interrupts, stop_interrupts, wr_control, wr_settings, wr_pll_freq,
}
use snd_hdspe.Driver.Lifecycle.{
  Card, with_mapping, free_irq, suspended, suspend, restored, freed, resume, free, then_free,
}
use snd_hdspe.Driver.Lifecycle.Release.{work_stop_lem, deinit_all_lem}

-- A card in use: mapped, and its interrupt requested.
pub record InUse (c : Card) : Type 0 where
  pub based : (c.port == 0) ≡ false
  pub mapped : c.iobase ≡ true
  pub irq : is_negative c.irq ≡ false
  pub held : c.held.interrupt ≡ true

-- The TCO's enable bit, where there is a TCO, is set.
unfoldable pub IsListening : Option ℕ → ℕ → Type 0
IsListening none control = Unit
IsListening (some ie) control = bit_or control ie ≡ control

is_running-set :
    (h : Hardware)
    → is_running h ≡ true
    → (bit 0 h.reg.control ≡ true) × (bit 5 h.reg.control ≡ true)
unfolding is_running bit
is_running-set h running = (
  ground (arith, bit_and_field 0 1 0x1 h.reg.control refl),
  ground (arith, bit_and_field 5 1 0x20 h.reg.control refl),
)

start_interrupts-running :
    (tco_ie : Option ℕ) (h : Hardware)
    → is_running h ≡ true
    → IsListening tco_ie h.reg.control
    → start_interrupts tco_ie h ≡ write_control h
unfolding start_interrupts IsListening write_control set_control hdspe_write
start_interrupts-running none h running listening =
    let (start, audio) = is_running-set h running in
    ap (λ c. write_control (set_control c h))
      (ap (λ c. bit_or c 0x20) (bit_or_set 0 _ start) ∙ bit_or_set 5 _ audio)
start_interrupts-running (some ie) h running listening =
    let (start, audio) = is_running-set h running in
    ap (λ c. write_control (set_control c h))
      (ap (λ c. bit_or (bit_or c 0x1) 0x20) listening
        ∙ (ap (λ c. bit_or c 0x20) (bit_or_set 0 _ start) ∙ bit_or_set 5 _ audio))

-- The card while it is suspended.
pub asleep : Card → Card
asleep c = record c {
  hardware = stop_interrupts c.midi_mask c.hardware;
  saved_registers = c.hardware.reg;
  held = record (c.held) { interrupt = false };
}

suspend_lem : (c : Card) → InUse c → suspend c ≡ some (asleep c)
unfolding suspend suspended free_irq asleep
suspend_lem c q =
    rw (work_stop_lem (record c { saved_registers = c.hardware.reg }) q.based q.mapped)
      (rw (q.irq) (rw (q.held) refl))

-- A card in use that runs, with the TCO's port enabled where there is one: after suspend and resume
-- the interrupt is requested again, the registers are what they were, and the last writes to the card
-- are the settings, the control register, the PLL frequency and the control register again.
pub resume-suspend :
    (c : Card) (irq : ℕ)
    → InUse c
    → is_running c.hardware ≡ true
    → IsListening c.tco_ie c.hardware.reg.control
    → (d : Card) × (e : Card) × (suspend c ≡ some d)
      × (d.held.interrupt ≡ false)
      × (resume irq true d ≡ some (e, pos 0))
      × (e.held ≡ c.held)
      × (e.hardware.reg ≡ c.hardware.reg)
      × (e.hardware.written
          ≡ (wr_control, c.hardware.reg.control)
            ∷ ((wr_pll_freq, c.hardware.reg.pll_freq)
                ∷ ((wr_control, c.hardware.reg.control)
                    ∷ ((wr_settings, c.hardware.reg.settings) ∷ d.hardware.written))))
unfolding resume freed with_mapping asleep restored write_control write_settings write_pll_freq
    hdspe_write is_running
resume-suspend c irq q running listening =
    let restored_hardware =
      restored (record (asleep c) { hardware = stop_interrupts c.midi_mask c.hardware }) in
    (
      asleep c,
      record (asleep c) {
        irq = pos irq;
        hardware = write_control restored_hardware;
        held = record (c.held) { interrupt = true };
      },
      suspend_lem c q,
      refl,
      rw (q.mapped) (
          ap
            (λ h. some (
              record c {
                irq = pos irq;
                iobase = true;
                saved_registers = c.hardware.reg;
                hardware = h;
                held = record (c.held) { interrupt = true };
              },
              pos 0,
            ))
            (start_interrupts-running c.tco_ie restored_hardware running listening)),
      ap (λ b. record (c.held) { interrupt = b }) (sym q.held),
      refl,
      refl,
    )

-- While a card is suspended, and after a resume that cannot request the interrupt, freeing the card
-- frees an interrupt that is not requested: it has no result.
pub free-suspend :
    (c : Card) (irq : ℕ)
    → InUse c
    → (d : Card) × (suspend c ≡ some d)
      × (resume irq false d ≡ some (d, negsuc 15))
      × (free d ≡ none)
unfolding resume asleep free then_free free_irq
free-suspend c irq q = (
  _,
  suspend_lem c q,
  refl,
  rw (work_stop_lem (asleep c) q.based q.mapped)
      (rw (deinit_all_lem (record (asleep c) { hardware = _ }) q.based) (rw (q.irq) refl)),
)
