-- ===== src/Midi/Input.antt =====
-- `snd_hdspe_midi_input_read`: what ALSA receives, and that the loop ends.
use snd_hdspe.Common.{
  ℕ, zero, suc, ◌+◌, ◌-◌, ◌*◌, ◌≤◌, ◌<◌, ◌≡◌, arith, refl, bit_or, min, Bool, true, false, ◌==◌,
  ==_iff, some, List, [], ◌∷◌, ◌++◌, ap, sym, ◌∙◌, Bool-cases, inl, inr,
}
use mathlib.Core.Path.{subst, ap₂}
use mathlib.Core.List.{flatten, append_assoc, append-nil}
use snd_hdspe.Common.Bits.Masks.{bit_and_ones}
use snd_hdspe.Midi.{
  Port, Midi, Environment, read_bytes, input_available, hear, hand_over, receive, input_loop,
  input_done, output_write, write_control, input_read, send_if,
}

read_bytes-add :
    (byte : ℕ → ℕ) (p a b : ℕ)
    → read_bytes byte p (a + b) ≡ read_bytes byte p a ++ read_bytes byte (p + a) b
unfolding read_bytes
read_bytes-add byte p zero b =
    let same : zero + b ≡ b = omega arith in
    let start : p + zero ≡ p = omega arith in rw (same, start) refl
read_bytes-add byte p (suc a) b =
    let same : suc a + b ≡ suc (a + b) = omega arith in
    let start : p + suc a ≡ suc p + a = omega arith in
    rw (same, start) (ap (λ (l : List ℕ). byte p ∷ l) (read_bytes-add byte (suc p) a b))

-- Each buffer has at least one byte and at most the buffer's 128.
abbrev pub AreBuffers : (ℕ → ℕ) → ℕ → List (List ℕ) → Type 0
AreBuffers byte p [] = Unit {0}
AreBuffers byte p (buf ∷ rest) =
    (n : ℕ) × (1 ≤ n) × (n ≤ 128) × (buf ≡ read_bytes byte p n) × AreBuffers byte (p + n) rest

-- What the loop does to a port that ALSA listens to.
record Received (e : Environment) (n : ℕ) (m m' : Midi) : Type 0 where
  buffers : List (List ℕ)
  are_buffers : AreBuffers e.byte m.position buffers
  bytes : flatten buffers ≡ read_bytes e.byte m.position n
  received : m'.received ≡ m.received ++ buffers
  position : m'.position ≡ m.position + n
  port : m'.port ≡ m.port
  control : m'.control ≡ m.control

record Kept (buf : List ℕ) (m m' : Midi) : Type 0 where
  received : m'.received ≡ m.received ++ (buf ∷ [])
  port : m'.port ≡ m.port
  control : m'.control ≡ m.control

receive-Kept :
    (e : Environment) (buf : List ℕ) (m : Midi)
    → m.port.has_input ≡ true
    → Kept buf m (receive e buf m)
unfolding receive hand_over hear
receive-Kept e buf m listens =
    subst (λ (b : Bool). Kept buf m (hand_over b buf (hear m.port.readwrite e buf m))) (sym listens)
      (by_kind m.port.readwrite)
  where
    by_kind : (b : Bool) → Kept buf m (hand_over true buf (hear b e buf m))
    by_kind true = record { received = refl; port = refl; control = refl }
    by_kind false = record { received = refl; port = refl; control = refl }

loop_end : (e : Environment) (m : Midi) → Received e 0 m m
unfolding read_bytes flatten
loop_end e m = record {
  buffers = [];
  are_buffers = tt;
  bytes = refl;
  received = sym (append-nil m.received);
  position = omega arith;
  port = refl;
  control = refl;
}

loop_step :
    (e : Environment) (n k : ℕ) (m next m' : Midi)
    → 1 ≤ k
    → k ≤ 128
    → k ≤ n
    → Kept (read_bytes e.byte m.position k) m next
    → next.position ≡ m.position + k
    → Received e (n - k) next m'
    → Received e n m m'
unfolding flatten
loop_step e n k m next m' h1 h2 h3 kept moved rest = record {
  buffers = read_bytes e.byte m.position k ∷ rest.buffers;
  are_buffers =
      (k, h1, h2, refl, subst (λ (p : ℕ). AreBuffers e.byte p rest.buffers) moved rest.are_buffers);
  bytes =
      ap (λ (l : List ℕ). read_bytes e.byte m.position k ++ l)
        (rest.bytes ∙ ap (λ (p : ℕ). read_bytes e.byte p (n - k)) moved)
      ∙ sym (read_bytes-add e.byte m.position k (n - k))
      ∙ ap (λ (i : ℕ). read_bytes e.byte m.position i) (omega arith);
  received =
      rest.received
      ∙ ap (λ (l : List (List ℕ)). l ++ rest.buffers) kept.received
      ∙ append_assoc m.received _ rest.buffers;
  position = omega (arith, rest.position, moved);
  port = rest.port ∙ kept.port;
  control = rest.control ∙ kept.control;
}

-- One pass of the loop: 128 bytes or the rest.
abbrev pass : Environment → ℕ → Midi → Midi
pass e k m = record (receive e (read_bytes e.byte m.position k) m) { position = m.position + k }

pass-Received :
    (e : Environment) (n : ℕ) (m m' : Midi)
    → m.port.has_input ≡ true
    → (n == 0) ≡ false
    → Received e (n - min n 128) (pass e (min n 128) m) m'
    → Received e n m m'
pass-Received e n m m' listens some_left rest =
    let positive : 1 ≤ min n 128 = ground arith in
    let kept = receive-Kept e (read_bytes e.byte m.position (min n 128)) m listens in
    loop_step e n (min n 128) m (pass e (min n 128) m) m' positive (omega arith) (omega arith)
      (record { received = kept.received; port = kept.port; control = kept.control }) refl rest

pass-listens :
    (e : Environment) (k : ℕ) (m : Midi)
    → m.port.has_input ≡ true
    → (pass e k m).port.has_input ≡ true
pass-listens e k m listens =
    ap (λ (p : Port). p.has_input) (receive-Kept e (read_bytes e.byte m.position k) m listens).port
    ∙ listens

input_loop-Received :
    (fuel : ℕ) (e : Environment) (n : ℕ) (m : Midi)
    → m.port.has_input ≡ true
    → n ≤ 128 * fuel
    → (m' : Midi) × (input_loop fuel e n m ≡ some m') × Received e n m m'
unfolding input_loop
input_loop-Received zero e n m listens h =
    let none_left : n ≡ 0 = omega arith in rw none_left (m, refl, loop_end e m)
input_loop-Received (suc fuel) e n m listens h =
    let (m', ends, rest) =
      input_loop-Received fuel e (n - min n 128) (pass e (min n 128) m)
        (pass-listens e (min n 128) m listens) (omega arith) in
    elim (Bool-cases (n == 0)) [
      | inl e0 ↦
          rw e0
            (m, refl, subst (λ (i : ℕ). Received e i m m) (sym ((==_iff n 0).0 e0)) (loop_end e m))
      | inr some_left ↦ rw some_left (m', ends, pass-Received e n m m' listens some_left rest)
    ]

output_write-Same :
    (e : Environment) (m : Midi)
    → ((output_write e m).received ≡ m.received)
      × ((output_write e m).position ≡ m.position)
      × ((output_write e m).port ≡ m.port)
      × ((output_write e m).control ≡ m.control)
unfolding output_write send_if
output_write-Same e m = by_test _
  where
    by_test :
        (b : Bool)
        → ((send_if b e m).received ≡ m.received)
          × ((send_if b e m).position ≡ m.position)
          × ((send_if b e m).port ≡ m.port)
          × ((send_if b e m).control ≡ m.control)
    by_test true = (refl, refl, refl, refl)
    by_test false = (refl, refl, refl, refl)

-- What the handler leaves: ALSA has the buffers, the port waits for no more work, and its interrupt
-- is enabled again.
pub record InputRead (e : Environment) (m m' : Midi) : Type 0 where
  pub buffers : List (List ℕ)
  pub are_buffers : AreBuffers e.byte m.position buffers
  pub bytes : flatten buffers ≡ read_bytes e.byte m.position (input_available e m.position)
  pub received : m'.received ≡ m.received ++ buffers
  pub position : m'.position ≡ m.position + input_available e m.position
  pub pending : m'.port.pending ≡ false
  pub enabled : m'.control ≡ bit_or m.control m.port.ie

-- On a port that ALSA listens to the handler ends; ALSA receives the bytes that the status tells of,
-- in their order, in buffers of 1 to 128 bytes.
pub input_read_lem :
    (e : Environment) (m : Midi)
    → m.port.has_input ≡ true
    → (m' : Midi) × (input_read e m ≡ some m') × InputRead e m m'
unfolding input_read input_done write_control input_available
input_read_lem e m listens =
    let n : ℕ = input_available e m.position in
    let small : n < 256 = omega (arith, bit_and_ones 8 (e.status_in m.position)) in
    let (after, ends, r) = input_loop-Received 2 e n m listens (omega arith) in
    rw ends (
      _,
      refl,
      record {
        buffers = r.buffers;
        are_buffers = r.are_buffers;
        bytes = r.bytes;
        received = (output_write-Same e _).0 ∙ r.received;
        position = (output_write-Same e _).1 ∙ r.position;
        pending = ap (λ (p : Port). p.pending) (output_write-Same e _).2;
        enabled = (output_write-Same e _).3 ∙ ap₂ bit_or r.control (ap (λ (p : Port). p.ie) r.port);
      },
    )
