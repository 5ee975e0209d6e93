-- ===== src/Pcm/FrameCount.antt =====
-- The frame counter of hdspe_pcm.c against the number of frames that the card has run through.
use snd_hdspe.Common.{
  ℕ, suc, ◌+◌, ◌-◌, ◌*◌, ◌/◌, ◌%◌, ◌^◌, ◌≤◌, ◌<◌, ◌≡◌, arith, ltb, if◌then◌else◌, shl, u32, refl,
  ◌∙◌, ap, sym, inl, inr, Bool-cases, bit_and, ltb→lt, ltb_false→le,
}
use native.Mathlib.Nat.{
  mul-suc, mod-eq_of_lt, mul_comm, div-le_self, add-mul-mod_self_right, mul_assoc, div-add-mod',
}
use snd_hdspe.Common.Bits.Masks.{bit_and_high, bit_and_ones}
use snd_hdspe.Common.Powers.{pow_mono, power_split}
use snd_hdspe.Pcm.{Stream, hw_pointer, update_frame_count}

-- The period sizes of the cards: 64 to 8192 frames.
pub record IsPeriod (p : ℕ) : Type 0 where
  pub exponent : ℕ
  pub most : exponent ≤ 13
  pub is_power : p ≡ 2 ^ exponent

-- The mask of the code keeps the bits from the period size on.
bit_and_period :
    (x p : ℕ) → IsPeriod p → x < 16384 → bit_and x (2 ^ 32 - 1 - u32 (p + (2 ^ 32 - 1))) ≡ x - x % p
bit_and_period x p h l =
    let j : ℕ = h.exponent in
    let m : ℕ = 2 ^ j in
    let w : ℕ = 32 - j in
    let n : ℕ = 2 ^ w in
    let product : m * n ≡ 2 ^ 32 = power_split j 32 (omega (arith, h.most)) in
    let m_least : 1 ≤ m = pow_mono 0 j (omega arith) in
    let m_most : m ≤ 2 ^ 13 = pow_mono j 13 h.most in
    let n_least : 2 ^ 14 ≤ n = pow_mono 14 w (omega (arith, h.most)) in
    let last : n ≡ suc (n - 1) = omega arith in
    let mask : 2 ^ 32 - 1 - u32 (p + (2 ^ 32 - 1)) ≡ m * (n - 1) =
      omega (arith, h.is_power, product, ap (λ (t : ℕ). m * t) last, mul-suc m (n - 1)) in
    let small : x / m % n ≡ x / m = mod-eq_of_lt (omega (arith, div-le_self x m)) in
    rw (mask, bit_and_high j w x, small, h.is_power) (omega (arith, div-add-mod' x m))

-- A power of two up to 2 ^ 14 divides the length of the buffer.
mod-power : (t j : ℕ) → j ≤ 14 → t % 16384 % 2 ^ j ≡ t % 2 ^ j
mod-power t j h =
    let n : ℕ = 2 ^ j in
    let c : ℕ = 2 ^ (14 - j) in
    let x : ℕ = t % 16384 in
    let q : ℕ = t / 16384 in
    let whole : q * c * n ≡ q * 16384 =
      mul_assoc q c n ∙ ap (λ (k : ℕ). q * k) (mul_comm c n ∙ power_split j 14 h) in
    let split : x + q * c * n ≡ t = omega (arith, whole) in
    sym (add-mul-mod_self_right x (q * c) n) ∙ ap (λ (k : ℕ). k % n) split

mod-period : (t p : ℕ) → IsPeriod p → t % 16384 % p ≡ t % p
mod-period t p h = rw (h.is_power, mod-power t h.exponent (omega (arith, h.most)))

-- The driver's state knows the position t: the frames of the card since the count was at 0.
pub record Tracks (s : Stream) (t : ℕ) : Type 0 where
  pub wraps : s.hw_pointer_wrap_count ≡ t / 16384
  pub last : s.last_hw_pointer ≡ t % 16384

-- The card's pointer at position t, in units of 16 frames.
abbrev pub at_position : Stream → ℕ → Stream
at_position s t = record s { buf_ptr = t / 16 % 1024 }

-- The hardware pointer at position t is the place of t in the buffer, whose length is a power of
-- two up to 16384.
pub hw_pointer-at_position :
    (s : Stream) (t j : ℕ)
    → j ≤ 14
    → s.hw_buffer_size ≡ 2 ^ j
    → 16 * (t / 16) ≡ t
    → hw_pointer (at_position s t) ≡ t % s.hw_buffer_size
unfolding hw_pointer
hw_pointer-at_position s t j h e g =
    let pointer : shl (t / 16 % 1024) 4 ≡ t % 16384 = omega (arith, g) in
    let least : 1 ≤ 2 ^ j = pow_mono 0 j (omega arith) in
    let most : 2 ^ j ≤ 2 ^ 14 = pow_mono j 14 h in
    let mask : u32 (2 ^ j + (2 ^ 32 - 1)) ≡ 2 ^ j - 1 = omega (arith, least, most) in
    rw (pointer, e, mask) (bit_and_ones j (t % 16384) ∙ mod-power t j h)

-- What the code takes as the number of wraps is right if less than one buffer has gone by.
wrap_count_lem :
    (w last t t' : ℕ)
    → w ≡ t / 16384
    → last ≡ t % 16384
    → t ≤ t'
    → t' < t + 16384
    → t' / 16384 < 2 ^ 32
    → (if ltb (t' % 16384) last then u32 (w + 1) else w) ≡ t' / 16384
wrap_count_lem w last t t' e f l m b = elim (Bool-cases (ltb (t' % 16384) last)) [
  | inl wrapped ↦
      rw wrapped
        let lower : t' % 16384 < last = ltb→lt (t' % 16384) last wrapped in
          let next : w + 1 ≡ t' / 16384 = omega (arith, e, f, lower) in ap u32 next ∙ mod-eq_of_lt b
  | inr same ↦
      rw same
        let upper : last ≤ t' % 16384 = ltb_false→le (t' % 16384) last same in
          omega (arith, e, f, upper)
]

-- The position of an interrupt after the one at t: a multiple of 16, less than one buffer later,
-- with a wrap count that fits into 32 bits.
pub record Follows (t t' : ℕ) : Type 0 where
  pub grain : 16 * (t' / 16) ≡ t'
  pub forward : t ≤ t'
  pub within_buffer : t' < t + 16384
  pub fits : t' / 16384 < 2 ^ 32

-- If the card has run through less than one buffer since the interrupt before, the driver's
-- frame count after an interrupt is the card's position rounded down to a period, and the driver
-- knows the new position.
pub update_frame_count_lem :
    (s : Stream) (t t' : ℕ)
    → Tracks s t
    → IsPeriod s.period_size
    → Follows t t'
    → let s' = update_frame_count (at_position s t') in
      (s'.frame_count ≡ t' - t' % s.period_size) × Tracks s' t' × (s'.period_size ≡ s.period_size)
unfolding update_frame_count
update_frame_count_lem s t t' k p f =
    let pointer : shl (t' / 16 % 1024) 4 ≡ t' % 16384 = omega (arith, f.grain) in
    let wraps =
      wrap_count_lem s.hw_pointer_wrap_count s.last_hw_pointer t t' k.wraps k.last f.forward
        f.within_buffer f.fits in
    let masked = bit_and_period (t' % 16384) s.period_size p (omega arith) in
    let rest = mod-period t' s.period_size p in
    let below = div-add-mod' (t' % 16384) s.period_size in
    rw pointer (
      rw (wraps, masked, rest) (omega (arith, rest, below)),
      record { wraps = wraps; last = refl },
      refl,
    )

-- The states of the driver with period size p, and the positions of the card, from the start of
-- the count on: each interrupt updates the count, late ones and lost ones included.
pub data Run (p : ℕ) : Stream → ℕ → Type 0 where
  start :
      {s : Stream}
      → s.period_size ≡ p
      → s.frame_count ≡ 0
      → s.hw_pointer_wrap_count ≡ 0
      → s.last_hw_pointer ≡ 0
      → Run p s 0
  interrupt :
      {s : Stream} {t t' : ℕ}
      → Run p s t
      → Follows t t'
      → Run p (update_frame_count (at_position s t')) t'

-- After any run the frame count is the position of the last interrupt, rounded down to a period.
pub Run-frame_count :
    (p : ℕ) (s : Stream) (t : ℕ)
    → IsPeriod p
    → Run p s t
    → (s.frame_count ≡ t - t % p) × Tracks s t × (s.period_size ≡ p)
Run-frame_count p s t h (start size count wraps last) =
    (count ∙ omega arith, record { wraps = wraps; last = last }, size)
Run-frame_count p s t h (interrupt {s = s'} {t = t0} r f) =
    let (_, k, size) = Run-frame_count p s' t0 h r in
    let (count, k', size') = update_frame_count_lem s' t0 t k (rw size h) f in
    (count ∙ ap (λ (n : ℕ). t - t % n) size, k', size' ∙ size)
