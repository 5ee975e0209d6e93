-- ===== src/Ltc/Time.antt =====
-- Times of day and their codes: what `hdspe_ltc32_parse` and `hdspe_ltc32_compose` of
-- hdspe_ltc_math.c translate between. A code may carry anything in the bits that hold no time.
use snd_hdspe.Common.{
  ℕ, ◌+◌, ◌-◌, ◌*◌, ◌/◌, ◌%◌, ◌≤◌, ◌<◌, ◌≡◌, ◌≢◌, arith, bit_and, Bool, true, shr, ap, ◌∙◌, shl,
}
use snd_hdspe.Common.Bits.{bit_and_three, bit_and_seven, bit_and_fifteen, bit_or-add_of_eq}
use snd_hdspe.Ltc.{Hmsf, parse, compose, assemble, time_mask}
use snd_hdspe.Ltc.Fields.{
  hours_tens, hours_units, minutes_tens, minutes_units, seconds_tens, seconds_units, frames_tens,
  frames_units, mask_time,
}

-- A frame rate, with drop frames at 30 frames a second only.
pub record IsFormat (fps : ℕ) (df : Bool) : Type 0 where
  pub positive : 1 ≤ fps
  pub fits : fps ≤ 40
  pub drops_at_30 : df ≡ true → fps ≡ 30

-- A time of day that the format has: the first two frames of a minute are dropped, but for each
-- tenth minute.
pub record IsTime (fps : ℕ) (df : Bool) (t : Hmsf) : Type 0 where
  pub hours : t.h < 24
  pub minutes : t.m < 60
  pub seconds : t.s < 60
  pub frames : t.f < fps
  pub not_dropped : df ≡ true → t.s ≡ 0 → t.m % 10 ≢ 0 → 2 ≤ t.f

abbrev pub time_of : ℕ → Hmsf
time_of x = record {
  h = hours_tens x * 10 + hours_units x;
  m = minutes_tens x * 10 + minutes_units x;
  s = seconds_tens x * 10 + seconds_units x;
  f = frames_tens x * 10 + frames_units x;
}

-- A code whose digits are decimal and whose time the format has.
pub record IsCode (fps : ℕ) (df : Bool) (x : ℕ) : Type 0 where
  pub hours_digit : hours_units x ≤ 9
  pub minutes_digit : minutes_units x ≤ 9
  pub seconds_digit : seconds_units x ≤ 9
  pub frames_digit : frames_units x ≤ 9
  pub time : IsTime fps df (time_of x)

abbrev pub hours_part : ℕ → ℕ
hours_part n = n / 10 * 0x10000000 + n % 10 * 0x1000000

abbrev pub minutes_part : ℕ → ℕ
minutes_part n = n / 10 * 0x100000 + n % 10 * 0x10000

abbrev pub seconds_part : ℕ → ℕ
seconds_part n = n / 10 * 0x1000 + n % 10 * 0x100

abbrev pub frames_part : ℕ → ℕ
frames_part n = n / 10 * 0x10 + n % 10

-- The code of a time.
abbrev pub code : Hmsf → ℕ
code t = hours_part t.h + minutes_part t.m + seconds_part t.s + frames_part t.f

pub parse-eq-time_of : (x : ℕ) → parse x ≡ time_of x
unfolding parse
parse-eq-time_of x =
    let e : shr x 0 % 16 ≡ x % 16 = omega arith in
    simp (bit_and_three, bit_and_seven, bit_and_fifteen, e)

-- Digits in range are put side by side.
pub assemble_sum :
    (ht h mt m st s ft f : ℕ)
    → ht < 4
    → h < 16
    → mt < 8
    → m < 16
    → st < 8
    → s < 16
    → ft < 4
    → f < 16
    → assemble ht h mt m st s ft f
      ≡ ht * 0x10000000
        + h * 0x1000000
        + mt * 0x100000
        + m * 0x10000
        + st * 0x1000
        + s * 0x100
        + ft * 0x10
        + f
unfolding assemble
assemble_sum ht h mt m st s ft f a b c d e g i j =
    bit_or-add_of_eq 4
      (bit_or-add_of_eq 8
        (bit_or-add_of_eq 12
          (bit_or-add_of_eq 16
            (bit_or-add_of_eq 20
              (bit_or-add_of_eq 24 (bit_or-add_of_eq 28 top (omega arith) (omega arith))
                (omega arith) (omega arith))
              (omega arith) (omega arith))
            (omega arith) (omega arith))
          (omega arith) (omega arith))
        (omega arith) (omega arith))
      (omega arith) (omega arith)
  where
    top : shl (bit_and ht 3) 28 ≡ ht * 0x10000000
    top = omega (arith, bit_and_three ht)

compose-eq-assemble :
    (h m s f : ℕ)
    → h < 40
    → m < 80
    → s < 80
    → f < 40
    → compose h m s f
      ≡ assemble (h / 10) (h % 10) (m / 10) (m % 10) (s / 10) (s % 10) (f / 10) (f % 10)
unfolding compose assemble
compose-eq-assemble h m s f a b c d =
    let digit : (n : ℕ) → bit_and (n - n / 10 * 10) 0xf ≡ n % 10 =
      λ n. omega (arith, bit_and_fifteen (n - n / 10 * 10)) in
    let mt : bit_and (m / 10) 0x7 ≡ m / 10 = omega (arith, bit_and_seven (m / 10)) in
    let st : bit_and (s / 10) 0x7 ≡ s / 10 = omega (arith, bit_and_seven (s / 10)) in
    let ft : bit_and (f / 10) 0x3 ≡ f / 10 = omega (arith, bit_and_three (f / 10)) in
    rw (digit h, digit m, digit s, digit f, mt, st, ft)

-- `compose` gives the code of a time, and no digit overlaps another.
pub compose-eq-code :
    (h m s f : ℕ)
    → h < 40
    → m < 80
    → s < 80
    → f < 40
    → compose h m s f ≡ code (record { h = h; m = m; s = s; f = f })
compose-eq-code h m s f a b c d = omega (
  arith,
  compose-eq-assemble h m s f a b c d,
  assemble_sum (h / 10) (h % 10) (m / 10) (m % 10) (s / 10) (s % 10) (f / 10) (f % 10),
)

pub time_of-code : (t : Hmsf) → t.h < 40 → t.m < 80 → t.s < 80 → t.f < 40 → time_of (code t) ≡ t
time_of-code t a b c d = ground arith

-- The code of a time of the format is a code of the format.
pub code-IsCode :
    (fps : ℕ) (df : Bool) (t : Hmsf) → IsFormat fps df → IsTime fps df t → IsCode fps df (code t)
code-IsCode fps df t r v = record {
  hours_digit = omega arith;
  minutes_digit = omega arith;
  seconds_digit = omega (arith, r.fits);
  frames_digit = omega (arith, r.fits);
  time = rw (time_of-code t (omega arith) (omega arith) (omega arith) (omega (arith, r.fits))) v;
}

-- The time of a code of the format has the code's bits.
pub code-time_of :
    (fps : ℕ) (df : Bool) (x : ℕ) → IsCode fps df x → code (time_of x) ≡ bit_and x time_mask
code-time_of fps df x c = omega (arith, mask_time x)

-- `compose` and then `parse` gives back a time in the range of the digits.
pub parse-compose :
    (h m s f : ℕ)
    → h < 40
    → m < 80
    → s < 80
    → f < 40
    → parse (compose h m s f) ≡ record { h = h; m = m; s = s; f = f }
parse-compose h m s f a b c d =
    parse-eq-time_of (compose h m s f)
    ∙ ap time_of (compose-eq-code h m s f a b c d)
    ∙ time_of-code (record { h = h; m = m; s = s; f = f }) a b c d

abbrev pub compose_time : Hmsf → ℕ
compose_time t = compose t.h t.m t.s t.f

-- `parse` and then `compose` clears the bits of a code that hold no time.
pub compose-parse :
    (fps : ℕ) (df : Bool) (x : ℕ)
    → IsFormat fps df
    → IsCode fps df x
    → compose_time (parse x) ≡ bit_and x time_mask
compose-parse fps df x r c = rw (parse-eq-time_of x) (
    compose-eq-code _ _ _ _ (omega arith) (omega arith) (omega arith) (omega (arith, r.fits))
    ∙ code-time_of fps df x c)
