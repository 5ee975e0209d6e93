-- ===== src/Ltc/FromFrames.antt =====
-- `hdspe_ltc32_from_frames` of hdspe_ltc_math.c, from the frame count reduced to a day.
use snd_hdspe.Common.{
  ℕ, ◌+◌, ◌-◌, ◌*◌, ◌/◌, ◌%◌, ◌≤◌, ◌<◌, ◌≡◌, arith, true, false, ltb, ◌∙◌, tests, ltb→lt,
  ltb_false→le, if◌then◌else◌, Bool-cases, inl, inr,
}
use snd_hdspe.Ltc.{Hmsf, from_frames_ndf, from_frames_df, from_frames_seconds}
use snd_hdspe.Ltc.Time.{IsFormat, IsTime, code, assemble_sum, seconds_part, frames_part}
use snd_hdspe.Ltc.Frames.{frame_number, seconds_of_day}

-- The time of day with frame number f.
abbrev pub time_at_ndf : ℕ → ℕ → Hmsf
time_at_ndf fps f = record {
  h = f / fps / 60 / 60;
  m = f / fps / 60 % 60;
  s = f / fps % 60;
  f = f % fps;
}

div_bound : (f fps n : ℕ) → 1 ≤ fps → f < n * fps → f / fps < n
div_bound f fps n p h = grind arith

-- What the source writes for a remainder.
sub-div-mul : (n d : ℕ) → n - n / d * d ≡ n % d
sub-div-mul n d = omega arith

pub from_frames_ndf-code :
    (f fps : ℕ)
    → IsFormat fps false
    → f < 86400 * fps
    → from_frames_ndf f fps ≡ code (time_at_ndf fps f)
unfolding from_frames_ndf
from_frames_ndf-code f fps r h =
    let q : f / fps < 86400 = div_bound f fps 86400 r.positive h in
    let g : f % fps < fps = omega (arith, r.positive) in
    simp sub-div-mul (
      assemble_sum (f / fps / 60 / 60 / 10) (f / fps / 60 / 60 % 10) (f / fps / 60 % 60 / 10)
        (f / fps / 60 % 60 % 10) (f / fps % 60 / 10) (f / fps % 60 % 10) (f % fps / 10)
        (f % fps % 10) (omega arith) (omega arith) (omega arith) (omega arith) (omega arith)
        (omega arith) (omega (arith, r.fits)) (omega arith)
      ∙ omega arith)

pub time_at_ndf-IsTime :
    (f fps : ℕ) → IsFormat fps false → f < 86400 * fps → IsTime fps false (time_at_ndf fps f)
time_at_ndf-IsTime f fps r h = record {
  hours = omega (arith, div_bound f fps 86400 r.positive h);
  minutes = omega arith;
  seconds = omega arith;
  frames = omega (arith, r.positive);
  not_dropped = λ e. absurd cc;
}

pub frame_number-time_at_ndf : (f fps : ℕ) → frame_number fps false (time_at_ndf fps f) ≡ f
frame_number-time_at_ndf f fps =
    let e : seconds_of_day (time_at_ndf fps f) ≡ f / fps = omega arith in rw e (omega arith)

-- The hours and the ten minutes of frame number f, and what is left of f.
abbrev hour_of : ℕ → ℕ
hour_of f = f / 107892

abbrev ten_minutes_of : ℕ → ℕ
ten_minutes_of f = f % 107892 / 17982

abbrev rest_of : ℕ → ℕ
rest_of f = f % 107892 % 17982

-- The units of the minutes, and the frame within the minute counted with the dropped frames.
abbrev minute_of : ℕ → ℕ
minute_of f = if ltb (rest_of f) 1800 then 0 else (rest_of f - 1800) / 1798 + 1

abbrev frame_of : ℕ → ℕ
frame_of f = if ltb (rest_of f) 1800 then rest_of f else (rest_of f - 1800) % 1798 + 2

abbrev pub time_at_df : ℕ → Hmsf
time_at_df f = record {
  h = hour_of f;
  m = ten_minutes_of f * 10 + minute_of f;
  s = frame_of f / 30;
  f = frame_of f % 30;
}

from_frames_seconds_sum :
    (ht h mt m f : ℕ)
    → ht < 4
    → h < 16
    → mt < 8
    → m < 16
    → f < 1800
    → from_frames_seconds ht h mt m f
      ≡ ht * 0x10000000
        + h * 0x1000000
        + mt * 0x100000
        + m * 0x10000
        + seconds_part (f / 30)
        + frames_part (f % 30)
unfolding from_frames_seconds
from_frames_seconds_sum ht h mt m f a b c d e = simp sub-div-mul (
    assemble_sum ht h mt m (f / 300) (f % 300 / 30) (f % 300 % 30 / 10) (f % 300 % 30 % 10) a b c d
      (omega arith) (omega arith) (omega arith) (omega arith)
    ∙ omega arith)

-- Both arms of the test end in the code of a time.
arm-code :
    (f m r : ℕ)
    → f < 2589408
    → m ≤ 9
    → r < 1800
    → from_frames_seconds (f / 1078920) (f % 1078920 / 107892) (f % 107892 / 17982) m r
      ≡ code (record { h = hour_of f; m = ten_minutes_of f * 10 + m; s = r / 30; f = r % 30 })
arm-code f m r h p q =
    from_frames_seconds_sum (f / 1078920) (f % 1078920 / 107892) (f % 107892 / 17982) m r
      (omega arith) (omega arith) (omega arith) (omega arith) q
    ∙ omega arith

hour_rest : (f : ℕ) → f % 1078920 % 107892 ≡ f % 107892
hour_rest f = omega arith

first_minute :
    (f : ℕ) → ltb (rest_of f) 1800 ≡ true → f < 2589408 → from_frames_df f ≡ code (time_at_df f)
unfolding from_frames_df
first_minute f b h =
    simp (sub-div-mul, hour_rest, b) (arm-code f 0 (rest_of f) h (omega arith) (ltb→lt _ _ b))

later_minute :
    (f : ℕ) → ltb (rest_of f) 1800 ≡ false → f < 2589408 → from_frames_df f ≡ code (time_at_df f)
unfolding from_frames_df
later_minute f b h =
    let e : rest_of f - 1800 + 2 - (rest_of f - 1800) / 1798 * 1798
        ≡ (rest_of f - 1800) % 1798 + 2 =
      omega arith in
    simp (sub-div-mul, hour_rest, b, e)
      (arm-code f ((rest_of f - 1800) / 1798 + 1) ((rest_of f - 1800) % 1798 + 2) h (omega arith)
        (omega arith))

pub from_frames_df-code : (f : ℕ) → f < 2589408 → from_frames_df f ≡ code (time_at_df f)
from_frames_df-code f h = elim (Bool-cases (ltb (rest_of f) 1800)) [
  | inl b ↦ first_minute f b h
  | inr b ↦ later_minute f b h
]

pub time_at_df-IsTime : (f : ℕ) → f < 2589408 → IsTime 30 true (time_at_df f)
time_at_df-IsTime f h = elim (Bool-cases (ltb (rest_of f) 1800)) [
  | inl b ↦ simp b (record {
    hours = omega arith;
    minutes = omega arith;
    seconds = omega (tests, b);
    frames = omega arith;
    not_dropped = λ _ a z. absurd (z (omega arith));
  })
  | inr b ↦ simp b (record {
    hours = omega arith;
    minutes = omega arith;
    seconds = omega arith;
    frames = omega arith;
    not_dropped = λ _ a z. omega arith;
  })
]

pub frame_number-time_at_df : (f : ℕ) → f < 2589408 → frame_number 30 true (time_at_df f) ≡ f
frame_number-time_at_df f h = elim (Bool-cases (ltb (rest_of f) 1800)) [
  | inl b ↦ let p : rest_of f < 1800 = ltb→lt _ _ b in simp b (omega arith)
  | inr b ↦ let p : 1800 ≤ rest_of f = ltb_false→le _ _ b in simp b (omega arith)
]
