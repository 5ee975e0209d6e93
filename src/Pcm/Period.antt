-- ===== src/Pcm/Period.antt =====
-- The period size of hdspe_pcm.c: what set_interrupt_interval makes of a number of frames.
use snd_hdspe.Common.{
  ℕ, zero, suc, ◌+◌, ◌*◌, ◌/◌, ◌%◌, ◌^◌, ◌≤◌, ◌<◌, ◌≡◌, ◌≢◌, arith, Bool, true, false, ◌&&◌, ◌==◌,
  if◌then◌else◌, u32, none, some, refl, ◌∙◌, ap, sym, ◌⊎◌, inl, inr, Bool-cases, ==_iff,
}
use native.Mathlib.Nat.{pow-suc, mod-eq_of_lt}
use native.Mathlib.Decide.{dec_lt}
use snd_hdspe.Device.{Device, is_raydat_or_aio}
use snd_hdspe.Common.Powers.{pow_mono}
use snd_hdspe.Pcm.{
  Stream, with_period, set_latency, period_size, set_period_size, latency_loop, latency,
  set_interrupt_interval,
}

-- What the loop adds to the count: the number of binary digits.
record Digits (m j : ℕ) : Type 0 where
  below : m < 2 ^ j
  above : (j ≡ 0) ⊎ (2 ^ j ≤ 2 * m)

ne_of_test : (m : ℕ) → (m == 0) ≡ false → 1 ≤ m
ne_of_test m h = ground arith

Digits-suc : (m j : ℕ) → 1 ≤ m → Digits (m / 2) j → Digits m (suc j)
Digits-suc m j h d = record {
  below = omega (arith, d.below, pow-suc 2 j);
  above = inr (elim d.above [
    | inl none_left ↦ rw none_left (omega arith)
    | inr some_left ↦ omega (arith, some_left, pow-suc 2 j)
  ]);
}

-- Enough fuel is one pass for each digit.
latency_loop-Digits :
    (fuel m n : ℕ) → m < 2 ^ fuel → (j : ℕ) × (latency_loop fuel m n ≡ n + j) × Digits m j
unfolding latency_loop
latency_loop-Digits zero m n h = (0, omega arith, record { below = h; above = inl refl })
latency_loop-Digits (suc fuel) m n h =
    let (j, count, d) = latency_loop-Digits fuel (m / 2) (n + 1) (omega (arith, pow-suc 2 fuel)) in
    elim (Bool-cases (m == 0)) [
      | inl none_left ↦ rw none_left (
        0,
        omega arith,
        record { below = omega (arith, (==_iff m 0).0 none_left); above = inl refl },
      )
      | inr left ↦ rw left (suc j, omega (arith, count), Digits-suc m j (ne_of_test m left) d)
    ]

shift_defined : (n : ℕ) (b : Bool) → (n ≢ 7) ⊎ (b ≡ false) → ((7 == n) && b) ≡ false
shift_defined n b h = ground arith

-- A latency of the control register stands for 64 * 2 ^ n frames.
period_size-eq :
    (d : Device)
    → d.control.lat < 8
    → (d.control.lat ≢ 7) ⊎ (is_raydat_or_aio d.io_type ≡ false)
    → period_size d ≡ some (64 * 2 ^ d.control.lat)
unfolding period_size
period_size-eq d l h =
    let small : 2 ^ d.control.lat ≤ 2 ^ 7 = pow_mono d.control.lat 7 (omega arith) in
    let fits : u32 (64 * 2 ^ d.control.lat) ≡ 64 * 2 ^ d.control.lat =
      mod-eq_of_lt (omega (arith, small)) in
    let defined : ((7 == d.control.lat) && is_raydat_or_aio d.io_type) ≡ false =
      shift_defined d.control.lat (is_raydat_or_aio d.io_type) h in
    rw (defined, fits) refl

-- The latency of a number of frames from 64 to 16383 has 3 bits, and the power of two that it
-- stands for is the largest one not above the frames.
record Latency (frames n : ℕ) : Type 0 where
  three_bits : n < 8
  below : 64 * 2 ^ n ≤ frames
  above : frames < 128 * 2 ^ n

Digits-Latency :
    (frames j : ℕ) → 64 ≤ frames → frames < 16384 → Digits (frames / 128) j → Latency frames j
Digits-Latency frames j l m d =
    let small : j < 8 = elim (dec_lt j 8) [
      | yes p ↦ p
      | no p ↦ elim d.above [
        | inl none_left ↦ omega (arith, none_left)
        | inr some_left ↦ omega (arith, some_left, pow_mono 8 j (omega arith))
      ]
    ] in
    record {
      three_bits = small;
      below = elim d.above [
        | inl none_left ↦ rw none_left (omega arith)
        | inr some_left ↦ omega (arith, some_left)
      ];
      above = omega (arith, d.below);
    }

not_32 : (frames : ℕ) → 64 ≤ frames → (32 == frames) ≡ false
not_32 frames h = ground arith

latency-Latency : (frames : ℕ) → 64 ≤ frames → frames < 16384 → Latency frames (latency frames)
unfolding latency
latency-Latency frames l m =
    let other : (32 == frames) ≡ false = not_32 frames l in
    let (j, count, d) = latency_loop-Digits 32 (frames / 128) 0 (omega arith) in
    let counted : latency_loop 32 (frames / 128) 0 ≡ j = omega (arith, count) in
    rw (other, counted) (Digits-Latency frames j l m d)

set_latency_lem :
    (s : Stream) (n : ℕ)
    → ((set_latency s n).device.control.lat ≡ n % 8)
      × ((set_latency s n).device.io_type ≡ s.device.io_type)
unfolding set_latency
set_latency_lem s n = (refl, refl)

set_period_size_lem :
    (s : Stream) (p : ℕ)
    → period_size s.device ≡ some p
    → (s' : Stream) × (set_period_size s ≡ some s') × (s'.period_size ≡ p)
unfolding set_period_size with_period
set_period_size_lem s p h =
    let size : ℕ = if is_raydat_or_aio s.device.io_type then 16384 else u32 (2 * p) in
    (record s { period_size = p; hw_buffer_size = size }, ap (with_period s) h, refl)

period_size_undefined : (s : Stream) → period_size s.device ≡ none → set_period_size s ≡ none
unfolding set_period_size with_period
period_size_undefined s h = ap (with_period s) h

not_seven : (n frames : ℕ) → 64 * 2 ^ n ≤ frames → frames < 8192 → n ≢ 7
not_seven n frames l m e = let power : 2 ^ n ≡ 128 = ap (λ (t : ℕ). 2 ^ t) e in omega (arith, power)

-- For 64 to 16383 frames, on the RayDAT and AIO cards below 8192, set_interrupt_interval succeeds
-- and the period size is then the largest power of two that is not above the frames.
pub set_interrupt_interval_lem :
    (s : Stream) (frames : ℕ)
    → 64 ≤ frames
    → frames < 16384
    → (frames < 8192) ⊎ (is_raydat_or_aio s.device.io_type ≡ false)
    → (s' : Stream) × (n : ℕ) × (set_interrupt_interval s frames ≡ some s')
      × (s'.period_size ≡ 64 * 2 ^ n)
      × (s'.period_size ≤ frames)
      × (frames < 2 * s'.period_size)
unfolding set_interrupt_interval
set_interrupt_interval_lem s frames l m h =
    let n : ℕ = latency frames in
    let r : Latency frames n = latency-Latency frames l m in
    let kept : n % 8 ≡ n = mod-eq_of_lt r.three_bits in
    let latched : Stream = set_latency s n in
    let (lat, io) = set_latency_lem s n in
    let e : latched.device.control.lat ≡ n = lat ∙ kept in
    let size : period_size latched.device ≡ some (64 * 2 ^ n) =
      period_size-eq latched.device (omega (arith, e, r.three_bits)) (elim h [
        | inl less ↦ inl (λ q. not_seven n frames r.below less (sym e ∙ q))
        | inr old ↦ inr (ap is_raydat_or_aio io ∙ old)
      ])
      ∙ ap (λ (t : ℕ). some (64 * 2 ^ t)) e in
    let (s', done, p) = set_period_size_lem latched (64 * 2 ^ n) size in
    (s', n, done, p, rw p r.below, rw p (omega (arith, r.above)))

-- On the RayDAT and AIO cards an interval of 32 frames makes the code shift by -1.
pub set_interrupt_interval_32 :
    (s : Stream) → is_raydat_or_aio s.device.io_type ≡ true → set_interrupt_interval s 32 ≡ none
unfolding set_interrupt_interval set_latency period_size latency
set_interrupt_interval_32 s h = period_size_undefined (set_latency s 7) (rw h refl)
