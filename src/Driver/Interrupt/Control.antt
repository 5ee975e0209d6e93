-- ===== src/Driver/Interrupt/Control.antt =====
-- The enable bits of the MIDI ports under the interrupt handler and the work that it queues.
use snd_hdspe.Common.{
  ℕ, ◌^◌, ◌<◌, ◌≡◌, bit_and, arith, refl, sym, ◌∙◌, Bool, true, false, not, ◌&&◌, ◌||◌, Bool-cases,
  inl, inr, if◌then◌else◌, ◌==◌, Option, none, some, List, [], ◌∷◌,
}
use mathlib.Core.Path.{subst}
use snd_hdspe.Common.Bits.Test.{bit, bit-bit_and, bit-bit_or, bit-complement}
use snd_hdspe.Driver.{Hardware, write_control, set_control, complement, hdspe_write}
use snd_hdspe.Driver.Ports.{MidiPort}
use snd_hdspe.Driver.Interrupt.{
  Card, Readings, Effect, TcoModule, is_raised, raise, disable_raised, raise_all, any_raised,
  midi_interrupt, midi_part, audio_interrupt, audio_done, tco_elapsed, cached, handled, interrupt,
  read_port, read_ports, settled, midi_work,
}
use snd_hdspe.Pcm.{Stream}

not_either : (a b c : Bool) → ((a && not b) && not c) ≡ (a && not (b || c))
not_either a b c = ground arith

absorb : (p b w x : Bool) → (b || (w || x)) ≡ (((p && b) || w) || (b || x))
absorb p b w x = ground arith

or_assoc : (a b c : Bool) → (a || (b || c)) ≡ ((a || b) || c)
or_assoc a b c = ground arith

-- The masks of the ports are words.
pub data AreMasks : List MidiPort → Type 0 where
  no_ports : AreMasks []
  next_port :
      {m : MidiPort} {ms : List MidiPort} → m.table.ie < 2 ^ 32 → AreMasks ms → AreMasks (m ∷ ms)

-- Whether a port that is raised, or that waits for the work, has the bit k of the control register.
raises : ℕ → Readings → List MidiPort → Bool
raises k r [] = false
raises k r (m ∷ ms) = (is_raised r m && bit k m.table.ie) || raises k r ms

waits : ℕ → List MidiPort → Bool
waits k [] = false
waits k (m ∷ ms) = (m.pending && bit k m.table.ie) || waits k ms

bit-disabled :
    (k control ie : ℕ) (raised : Bool)
    → k < 32
    → ie < 2 ^ 32
    → bit k (if raised then bit_and control (complement ie) else control)
      ≡ (bit k control && not (raised && bit k ie))
bit-disabled k control ie true l h =
    bit-bit_and k control (complement ie) ∙ rw (bit-complement 32 k ie l h) refl
bit-disabled k control ie false l h = ground arith

bit-disable_raised :
    (k : ℕ) (r : Readings) (ms : List MidiPort) (control : ℕ)
    → k < 32
    → AreMasks ms
    → bit k (disable_raised r ms control) ≡ (bit k control && not (raises k r ms))
unfolding disable_raised raises
bit-disable_raised k r [] control l no_ports = ground arith
bit-disable_raised k r (m ∷ ms) control l (next_port h hs) =
    bit-disable_raised k r ms _ l hs
    ∙ rw (bit-disabled k control m.table.ie (is_raised r m) l h) (not_either (bit k control) _ _)

waits-raise_all :
    (k : ℕ) (r : Readings) (ms : List MidiPort)
    → waits k (raise_all r ms) ≡ (waits k ms || raises k r ms)
unfolding waits raises raise_all raise
waits-raise_all k r [] = refl
waits-raise_all k r (m ∷ ms) = elim (Bool-cases (is_raised r m)) [
  | inl e ↦
      rw (e, waits-raise_all k r ms)
        (absorb m.pending (bit k m.table.ie) (waits k ms) (raises k r ms))
  | inr e ↦
      rw (e, waits-raise_all k r ms)
        (or_assoc (m.pending && bit k m.table.ie) (waits k ms) (raises k r ms))
]

bit-read_ports :
    (k : ℕ) (ms : List MidiPort) (h : Hardware)
    → bit k (read_ports ms h).reg.control ≡ (bit k h.reg.control || waits k ms)
unfolding read_ports read_port waits write_control set_control hdspe_write
bit-read_ports k [] h = ground arith
bit-read_ports k (m ∷ ms) h = bit-read_ports k ms (read_port m h) ∙ elim (Bool-cases m.pending) [
  | inl e ↦
      rw (e, bit-bit_or k h.reg.control m.table.ie)
        (sym (or_assoc (bit k h.reg.control) (bit k m.table.ie) (waits k ms)))
  | inr e ↦ rw e refl
]

waits-settled : (k : ℕ) (ms : List MidiPort) → waits k (settled ms) ≡ false
unfolding waits settled
waits-settled k [] = refl
waits-settled k (m ∷ ms) = waits-settled k ms

AreMasks-raise_all : (r : Readings) (ms : List MidiPort) → AreMasks ms → AreMasks (raise_all r ms)
unfolding raise_all raise
AreMasks-raise_all r [] no_ports = no_ports
AreMasks-raise_all r (m ∷ ms) (next_port h hs) =
    next_port (table_kept (is_raised r m)) (AreMasks-raise_all r ms hs)
  where
    table_kept : (b : Bool) → (if b then record m { pending = true } else m).table.ie < 2 ^ 32
    table_kept true = h
    table_kept false = h

AreMasks-settled : (ms : List MidiPort) → AreMasks ms → AreMasks (settled ms)
unfolding settled
AreMasks-settled [] no_ports = no_ports
AreMasks-settled (m ∷ ms) (next_port h hs) = next_port h (AreMasks-settled ms hs)

-- The bit k is enabled, or will be by the work.
Kept : ℕ → Card → Type 0
Kept k c = AreMasks c.midi × ((bit k c.hardware.reg.control || waits k c.midi) ≡ true)

Gives : {A : Type 0} → (A → Type 0) → Option A → Type 0
Gives P none = Unit
Gives P (some a) = P a

midi_interrupt-Kept :
    (k : ℕ) (r : Readings) (c : Card) → k < 32 → Kept k c → Kept k (midi_interrupt r c).0
unfolding Kept midi_interrupt write_control set_control hdspe_write
midi_interrupt-Kept k r c l (masks, kept) = (
  AreMasks-raise_all r c.midi masks,
  elim (Bool-cases (any_raised r c.midi)) [
    | inl e ↦
        rw
          (
            e,
            bit-disable_raised k r c.midi c.hardware.reg.control l masks,
            waits-raise_all k r c.midi,
          )
          (still (bit k c.hardware.reg.control) (waits k c.midi) (raises k r c.midi) kept)
    | inr e ↦
        rw
          (
            e,
            bit-disable_raised k r c.midi c.hardware.reg.control l masks,
            waits-raise_all k r c.midi,
          )
          (still (bit k c.hardware.reg.control) (waits k c.midi) (raises k r c.midi) kept)
  ],
)
  where
    still : (b w x : Bool) → (b || w) ≡ true → ((b && not x) || (w || x)) ≡ true
    still b w x h = ground arith

midi_work-Kept :
    (k : ℕ) (c : Card)
    → Kept k c
    → Kept k (midi_work c) × (bit k (midi_work c).hardware.reg.control ≡ true)
unfolding Kept midi_work
midi_work-Kept k c (masks, kept) =
    let enabled = bit-read_ports k c.midi c.hardware ∙ kept in
    ((AreMasks-settled c.midi masks, rw enabled refl), enabled)

audio_done-Kept :
    (k : ℕ) (r : Readings) (c : Card) (t : Stream) (tco : Option (Option TcoModule))
    → Kept k c
    → Gives (λ (o : Card × List Effect). Kept k o.0) (audio_done r c t tco)
unfolding audio_done Gives Kept hdspe_write
audio_done-Kept k r c t none kept = record {}
audio_done-Kept k r c t (some tco) kept = kept

audio_interrupt-Kept :
    (k : ℕ) (r : Readings) (c : Card)
    → Kept k c
    → Gives (λ (o : Card × List Effect). Kept k o.0) (audio_interrupt r c)
unfolding audio_interrupt
audio_interrupt-Kept k r c kept = audio_done-Kept k r c _ (tco_elapsed _ r.tco c.tco) kept

midi_part-Kept :
    (k : ℕ) (midi : Bool) (r : Readings) (heard : Option (Card × List Effect))
    → k < 32
    → Gives (λ (o : Card × List Effect). Kept k o.0) heard
    → Gives (λ (o : Card × List Effect). Kept k o.0) (midi_part midi r heard)
unfolding midi_part Gives
midi_part-Kept k true r none l kept = record {}
midi_part-Kept k false r none l kept = record {}
midi_part-Kept k false r (some (c, effects)) l kept = kept
midi_part-Kept k true r (some (c, effects)) l kept = midi_interrupt-Kept k r c l kept

handled-Kept :
    (k : ℕ) (o : Option (Card × List Effect))
    → Gives (λ (x : Card × List Effect). Kept k x.0) o
    → Gives (λ (x : Card × List Effect × Bool). Kept k x.0) (handled o)
unfolding handled Gives
handled-Kept k none kept = kept
handled-Kept k (some (c, effects)) kept = kept

cached-Kept : (k : ℕ) (r : Readings) (c : Card) → Kept k c → Kept k (cached r c)
unfolding Kept cached
cached-Kept k r c kept = kept

interrupt-Kept :
    (k : ℕ) (r : Readings) (c : Card)
    → k < 32
    → Kept k c
    → Gives (λ (x : Card × List Effect × Bool). Kept k x.0) (interrupt r c)
unfolding interrupt Gives
interrupt-Kept k r c l kept =
    let start = cached-Kept k r c kept in
    let audio = not (bit_and r.status0 1 == 0) in
    let midi = not (bit_and r.status0 c.irq_pending_mask == 0) in
    let heard : Gives (λ (o : Card × List Effect). Kept k o.0)
        (if audio then audio_interrupt r (cached r c) else some (cached r c, [])) =
      elim (Bool-cases audio) [
        | inl e ↦ rw e (audio_interrupt-Kept k r (cached r c) start)
        | inr e ↦ rw e start
      ] in
    let done = handled-Kept k _ (midi_part-Kept k midi r _ l heard) in
    elim (Bool-cases (not audio && not midi)) [ inl e ↦ rw e start | inr e ↦ rw e done ]

-- The cards that interrupts and works lead to, in any order.
pub data Steps (c : Card) : Card → Type 0 where
  at_first : Steps c c
  interrupted :
      (c' c'' : Card) (r : Readings) (effects : List Effect) (was_handled : Bool)
      → Steps c c'
      → interrupt r c' ≡ some (c'', effects, was_handled)
      → Steps c c''
  worked : (c' : Card) → Steps c c' → Steps c (midi_work c')

Steps-Kept : (k : ℕ) (c c' : Card) → k < 32 → Kept k c → Steps c c' → Kept k c'
unfolding Gives
Steps-Kept k c c' l kept at_first = kept
Steps-Kept k c c' l kept (interrupted d e r effects was before gives) =
    subst (Gives (λ (x : Card × List Effect × Bool). Kept k x.0)) gives
      (interrupt-Kept k r d l (Steps-Kept k c d l kept before))
Steps-Kept k c c' l kept (worked d before) = (midi_work-Kept k d (Steps-Kept k c d l kept before)).0

-- Whatever interrupts and works come in whatever order, after a work each bit of the control register
-- that was set at first is set again: no MIDI port stays disabled, and the audio interrupt stays
-- enabled.
pub Steps-midi_work :
    (c c' : Card) (k : ℕ)
    → AreMasks c.midi
    → k < 32
    → Steps c c'
    → bit k c.hardware.reg.control ≡ true
    → bit k (midi_work c').hardware.reg.control ≡ true
unfolding Kept
Steps-midi_work c c' k masks l steps set =
    (midi_work-Kept k c' (Steps-Kept k c c' l (masks, rw set refl) steps)).1
