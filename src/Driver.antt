-- ===== src/Driver.antt =====
-- hdspe_core.c: the card's register cache, the interrupts, what the driver acquires and releases, and
-- the identity of a card. A register is the number of its 32 bits.
pub mod Ports
pub mod Identity
pub mod Init
pub mod Interrupt
pub mod Lifecycle
use snd_hdspe.Common.{
  ℕ, ◌-◌, ◌^◌, bit_and, bit_or, Bool, true, false, not, ◌&&◌, ◌==◌, if◌then◌else◌, List, [], ◌∷◌,
  Option, none, some,
}

-- `struct reg`: the registers that the driver keeps.
pub record Reg : Type 0 where
  pub control : ℕ
  pub settings : ℕ
  pub pll_freq : ℕ
  pub status0 : ℕ

-- The register cache with the writes to the card so far, a register's address and the value, the
-- latest first.
pub record Hardware : Type 0 where
  pub reg : Reg
  pub written : List (ℕ × ℕ)

-- HDSPE_WR_SETTINGS, HDSPE_WR_CONTROL, HDSPE_interruptConfirmation and HDSPE_WR_PLL_FREQ.
abbrev pub wr_settings : ℕ
wr_settings = 0

abbrev pub wr_control : ℕ
wr_control = 64

abbrev pub interrupt_confirmation : ℕ
interrupt_confirmation = 96

abbrev pub wr_pll_freq : ℕ
wr_pll_freq = 256

-- The bits START and IE_AUDIO of the control register.
abbrev pub start_bit : ℕ
start_bit = 0x1

abbrev pub ie_audio : ℕ
ie_audio = 0x20

unfoldable pub hdspe_write : ℕ → ℕ → Hardware → Hardware
hdspe_write register value h = record h { written = (register, value) ∷ h.written }

unfoldable pub write_control : Hardware → Hardware
write_control h = hdspe_write wr_control h.reg.control h

unfoldable pub write_settings : Hardware → Hardware
write_settings h = hdspe_write wr_settings h.reg.settings h

pub write_pll_freq : Hardware → Hardware
write_pll_freq h = hdspe_write wr_pll_freq h.reg.pll_freq h

pub set_control : ℕ → Hardware → Hardware
set_control control h = record h { reg = record (h.reg) { control = control } }

-- The complement of a u32.
abbrev pub complement : ℕ → ℕ
complement x = 2 ^ 32 - 1 - x

pub is_running : Hardware → Bool
is_running h =
    not (bit_and h.reg.control start_bit == 0) && not (bit_and h.reg.control ie_audio == 0)

-- The status register, which the interrupt handler keeps while the card runs; else it is read.
pub read_status0 : ℕ → Hardware → ℕ
read_status0 nocache h = if is_running h then h.reg.status0 else nocache

-- The interrupt enable bit of the last port, which is the TCO's where there is one.
pub start_interrupts : Option ℕ → Hardware → Hardware
start_interrupts tco_ie h =
    let with_tco : ℕ = elim tco_ie [ none ↦ h.reg.control | some ie ↦ bit_or h.reg.control ie ] in
    write_control (set_control (bit_or (bit_or with_tco start_bit) ie_audio) h)

pub stop_interrupts : ℕ → Hardware → Hardware
stop_interrupts midi_mask h =
    let stopped = bit_and (bit_and h.reg.control (complement start_bit)) (complement ie_audio) in
    write_control (set_control (bit_and stopped (complement midi_mask)) h)
