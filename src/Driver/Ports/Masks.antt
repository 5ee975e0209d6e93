-- ===== src/Driver/Ports/Masks.antt =====
-- The masks of the MIDI ports in the control register and in the status register.
use snd_hdspe.Common.{
  ℕ, zero, suc, ◌^◌, ◌<◌, ◌≤◌, ◌≡◌, ◌==◌, bit_and, arith, refl, ap, ◌∙◌, Bool, true, false, not,
  ◌&&◌, ◌||◌, List, [], ◌∷◌,
}
use snd_hdspe.Common.Bits.Test.{bit, bit-bit_and, bit-bit_or, bit-complement}
use snd_hdspe.Device.{IoType, madi, madiface, aio, aes, raydat, aio_pro}
use snd_hdspe.Driver.{
  Hardware, start_bit, ie_audio, complement, stop_interrupts, write_control, set_control,
  hdspe_write,
}
use snd_hdspe.Driver.Ports.{
  PortTable, MidiPort, init_midi, init_ports, midi_count, midi_ports, port_0, port_1, port_2, mtc_1,
  mtc_2, mtc_2_aes, mtc_3, madi_midi_ports, madiface_midi_ports, aes_midi_ports, raydat_midi_ports,
  aio_midi_ports,
}

-- The port is apart from the others in both registers, and from the audio's bits.
pub is_apart : MidiPort → List MidiPort → Bool
is_apart m [] = (bit_and m.table.ie 0x21 == 0) && (bit_and m.table.irq 0x1 == 0)
is_apart m (n ∷ ms) =
    (bit_and m.table.ie n.table.ie == 0)
    && ((bit_and m.table.irq n.table.irq == 0) && is_apart m ms)

pub are_apart : List MidiPort → Bool
are_apart [] = true
are_apart (m ∷ ms) = is_apart m ms && are_apart ms

pub count : List MidiPort → ℕ
count [] = 0
count (m ∷ ms) = suc (count ms)

pub has_bit : ℕ → List MidiPort → Bool
has_bit k [] = false
has_bit k (m ∷ ms) = bit k m.table.ie || has_bit k ms

-- Of each card model, with a TCO or without: every port that the model counts is in its table, at
-- least one and at most four; no two ports share an enable bit of the control register or a pending
-- bit of the status register; and no port has a bit of the audio interrupt.
pub init_ports-are_apart :
    (io : IoType) (tco : Bool)
    → (count (init_ports io tco).midi ≡ midi_count io tco)
      × (1 ≤ midi_count io tco)
      × (midi_count io tco ≤ 4)
      × (are_apart (init_ports io tco).midi ≡ true)
unfolding init_ports init_midi midi_count midi_ports count are_apart is_apart madi_midi_ports
    madiface_midi_ports aes_midi_ports raydat_midi_ports aio_midi_ports port_0 port_1 port_2 mtc_1
    mtc_2 mtc_2_aes mtc_3
init_ports-are_apart madi true = (refl, omega arith, omega arith, refl)
init_ports-are_apart madi false = (refl, omega arith, omega arith, refl)
init_ports-are_apart madiface true = (refl, omega arith, omega arith, refl)
init_ports-are_apart madiface false = (refl, omega arith, omega arith, refl)
init_ports-are_apart aes true = (refl, omega arith, omega arith, refl)
init_ports-are_apart aes false = (refl, omega arith, omega arith, refl)
init_ports-are_apart raydat true = (refl, omega arith, omega arith, refl)
init_ports-are_apart raydat false = (refl, omega arith, omega arith, refl)
init_ports-are_apart aio true = (refl, omega arith, omega arith, refl)
init_ports-are_apart aio false = (refl, omega arith, omega arith, refl)
init_ports-are_apart aio_pro true = (refl, omega arith, omega arith, refl)
init_ports-are_apart aio_pro false = (refl, omega arith, omega arith, refl)

bit-zero : (k : ℕ) → bit k 0 ≡ false
unfolding bit
bit-zero zero = refl
bit-zero (suc k) = bit-zero k

bit-init_midi :
    (k n : ℕ) (list : List PortTable)
    → bit k (init_midi n list).interrupt_enable_mask ≡ has_bit k (init_midi n list).midi
unfolding init_midi has_bit
bit-init_midi k zero list = bit-zero k
bit-init_midi k (suc n) [] = bit-zero k
bit-init_midi k (suc n) (t ∷ list) =
    bit-bit_or k t.ie _ ∙ ap (λ b. bit k t.ie || b) (bit-init_midi k n list)

mask-bound : (io : IoType) (tco : Bool) → (init_ports io tco).interrupt_enable_mask < 2 ^ 32
unfolding init_ports init_midi midi_count midi_ports madi_midi_ports madiface_midi_ports
    aes_midi_ports raydat_midi_ports aio_midi_ports port_0 port_1 port_2 mtc_1 mtc_2 mtc_2_aes mtc_3
mask-bound madi true = omega arith
mask-bound madi false = omega arith
mask-bound madiface true = omega arith
mask-bound madiface false = omega arith
mask-bound aes true = omega arith
mask-bound aes false = omega arith
mask-bound raydat true = omega arith
mask-bound raydat false = omega arith
mask-bound aio true = omega arith
mask-bound aio false = omega arith
mask-bound aio_pro true = omega arith
mask-bound aio_pro false = omega arith

without : (b s a m : Bool) → (((b && not s) && not a) && not m) ≡ (b && not (s || (a || m)))
without b s a m = ground arith

-- Stopping the interrupts of a card clears START, IE_AUDIO and the enable bits of its MIDI ports in
-- the control register, and no other of its 32 bits.
pub stop_interrupts-init_ports :
    (io : IoType) (tco : Bool) (h : Hardware) (k : ℕ)
    → k < 32
    → bit k (stop_interrupts (init_ports io tco).interrupt_enable_mask h).reg.control ≡ (
        bit k h.reg.control
        && not (bit k start_bit || (bit k ie_audio || has_bit k (init_ports io tco).midi)))
unfolding stop_interrupts write_control set_control hdspe_write init_ports
stop_interrupts-init_ports io tco h k l =
    let ports = init_ports io tco in
    rw
      (
        bit-bit_and k _ (complement ports.interrupt_enable_mask),
        bit-bit_and k _ (complement ie_audio),
        bit-bit_and k h.reg.control (complement start_bit),
        bit-complement 32 k ports.interrupt_enable_mask l (mask-bound io tco),
        bit-complement 32 k ie_audio l (omega arith),
        bit-complement 32 k start_bit l (omega arith),
        bit-init_midi k (midi_count io tco) (midi_ports io),
      )
      (without (bit k h.reg.control) _ _ _)
