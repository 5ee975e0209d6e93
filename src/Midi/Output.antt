-- ===== src/Midi/Output.antt =====
-- `snd_hdspe_midi_output_write`: the card's output FIFO of 128 bytes.
use snd_hdspe.Common.{
  ℕ, suc, ◌+◌, ◌≤◌, ◌≡◌, ◌⊎◌, arith, refl, bit_and, min, Bool, true, false, not, ◌&&◌, ◌==◌, List,
  [], ◌∷◌, ◌++◌, sym, inl, inr,
}
use mathlib.Core.List.{append-nil}
use snd_hdspe.Common.Finite.{&&-split}
use snd_hdspe.Midi.{Midi, Environment, output_possible, send_if, output_write}

abbrev pub length {ℓ} : {A : Type ℓ} → List A → ℕ
length [] = 0
length (x ∷ xs) = suc (length xs)

output_possible-bound :
    (status : ℕ)
    → (min (output_possible status) 128 == 0) ≡ false
    → bit_and status 0xff + min (output_possible status) 128 ≤ 128
unfolding output_possible
output_possible-bound status h = ground arith

-- What a write adds: nothing, or bytes that ALSA has, on an open output, and that fit in the FIFO.
pub Fits : Environment → Midi → List ℕ → Type 0
Fits e m bytes =
    (bytes ≡ [])
    ⊎ ((m.port.has_output ≡ true)
        × (e.transmit_empty ≡ false)
        × (bit_and e.status_out 0xff + length bytes ≤ 128))

false_of_not : (b : Bool) → not b ≡ true → b ≡ false
false_of_not b h = ground arith

-- If ALSA transmits no more bytes than it is asked for, a write appends to what the card was sent
-- bytes that fit in the card's FIFO, and none where no output is open or where it is empty.
pub output_write_lem :
    (e : Environment) (m : Midi)
    → ((n : ℕ) → length (e.transmit n) ≤ n)
    → (bytes : List ℕ) × ((output_write e m).sent ≡ m.sent ++ bytes) × Fits e m bytes
unfolding output_write send_if Fits
output_write_lem e m asked = by_test _ refl
  where
    n : ℕ
    n = min (output_possible e.status_out) 128

    by_test :
        (b : Bool)
        → (m.port.has_output && not e.transmit_empty && not (n == 0)) ≡ b
        → (bytes : List ℕ) × ((send_if b e m).sent ≡ m.sent ++ bytes) × Fits e m bytes
    by_test false _ = ([], sym (append-nil m.sent), inl refl)
    by_test true h =
        let (open_full, some_free) = &&-split _ _ h in
        let (is_open, full) = &&-split _ _ open_full in
        let bound = output_possible-bound e.status_out (false_of_not _ some_free) in
        (e.transmit n, refl, inr (is_open, false_of_not _ full, omega (arith, bound, asked n)))
