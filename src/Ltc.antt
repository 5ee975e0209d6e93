-- ===== src/Ltc.antt =====
-- The functions of hdspe_ltc_math.c: 32-bit linear time codes. A code is a u32, a natural number
-- below 2 ^ 32; `fps` is 24, 25 or 30 and never 0, `df` is C's truth value of the drop-frame flag.
-- An int that can be negative is a ℤ. No int of these functions leaves its range as long as the
-- frame counts given to `from_frames` and `add_frames` do not.
pub mod Fields
pub mod Time
pub mod Frames
pub mod FromFrames
pub mod Convert
pub mod Arithmetic
pub mod Next
pub mod Previous
pub mod Order
pub mod Step
pub mod Tests
use snd_hdspe.Common.{
  ℕ, ◌+◌, ◌-◌, ◌*◌, ◌/◌, bit_and, bit_or, Bool, not, ltb, if◌then◌else◌, shr, shl, u32,
}
use snd_hdspe.Common.Int.{ℤ, pos, pos_part, ◌+ℤ◌, ◌-ℤ◌, ltb_ℤ, rem_ℤ}

unfoldable pub fpd : ℕ → Bool → ℕ
fpd fps df = if df then 24 * 107892 else 24 * 60 * 60 * fps

-- The four results of `parse`.
pub record Hmsf : Type 0 where
  pub h : ℕ
  pub m : ℕ
  pub s : ℕ
  pub f : ℕ

pub parse : ℕ → Hmsf
parse ltc = record {
  h = bit_and (shr ltc 28) 0x3 * 10 + bit_and (shr ltc 24) 0xf;
  m = bit_and (shr ltc 20) 0x7 * 10 + bit_and (shr ltc 16) 0xf;
  s = bit_and (shr ltc 12) 0x7 * 10 + bit_and (shr ltc 8) 0xf;
  f = bit_and (shr ltc 4) 0x3 * 10 + bit_and (shr ltc 0) 0xf;
}

pub compose : ℕ → ℕ → ℕ → ℕ → ℕ
compose h m s f =
    let ht = h / 10 in
    let mt = m / 10 in
    let st = s / 10 in
    let ft = f / 10 in
    let hu = h - ht * 10 in
    let mu = m - mt * 10 in
    let su = s - st * 10 in
    let fu = f - ft * 10 in
    bit_or
      (bit_or
        (bit_or
          (bit_or
            (bit_or
              (bit_or (bit_or (shl (bit_and ht 0x3) 28) (shl (bit_and hu 0xf) 24))
                (shl (bit_and mt 0x7) 20))
              (shl (bit_and mu 0xf) 16))
            (shl (bit_and st 0x7) 12))
          (shl (bit_and su 0xf) 8))
        (shl (bit_and ft 0x3) 4))
      (bit_and fu 0xf)

-- The bits of a code that carry the time.
abbrev pub time_mask : ℕ
time_mask = 0x3f7f7f3f

pub cmp : ℕ → ℕ → ℤ
cmp ltc1 ltc2 = pos (bit_and ltc1 time_mask) -ℤ pos (bit_and ltc2 time_mask)

pub to_frames_df : ℕ → ℕ
to_frames_df ltc = u32 (
    bit_and (shr ltc 28) 0x3 * 1078920
    + bit_and (shr ltc 24) 0xf * 107892
    + bit_and (shr ltc 20) 0x7 * 17982
    + bit_and (shr ltc 16) 0xf * 1798
    + bit_and (shr ltc 12) 0x7 * 300
    + bit_and (shr ltc 8) 0xf * 30
    + bit_and (shr ltc 4) 0x3 * 10
    + bit_and ltc 0xf)

pub to_frames_ndf : ℕ → ℕ → ℕ
to_frames_ndf ltc fps = u32 (
    (bit_and (shr ltc 28) 0x3 * 36000
        + bit_and (shr ltc 24) 0xf * 3600
        + bit_and (shr ltc 20) 0x7 * 600
        + bit_and (shr ltc 16) 0xf * 60
        + bit_and (shr ltc 12) 0x7 * 10
        + bit_and (shr ltc 8) 0xf)
      * fps
    + bit_and (shr ltc 4) 0x3 * 10
    + bit_and ltc 0xf)

pub to_frames : ℕ → ℕ → Bool → ℕ
to_frames ltc fps df = if df then to_frames_df ltc else to_frames_ndf ltc fps

-- The last line of `from_frames`.
pub assemble : ℕ → ℕ → ℕ → ℕ → ℕ → ℕ → ℕ → ℕ → ℕ
assemble ht h mt m st s ft f =
    bit_or
      (bit_or
        (bit_or
          (bit_or
            (bit_or (bit_or (bit_or (shl (bit_and ht 3) 28) (shl h 24)) (shl mt 20)) (shl m 16))
            (shl st 12))
          (shl s 8))
        (shl ft 4))
      f

-- The branch of `from_frames` without drop frames, from the frame count f within the day.
pub from_frames_ndf : ℕ → ℕ → ℕ
from_frames_ndf f fps =
    let s = f / fps in
    let f1 = f - s * fps in
    let ft = f1 / 10 in
    let f2 = f1 - ft * 10 in
    let m = s / 60 in
    let s1 = s - m * 60 in
    let st = s1 / 10 in
    let s2 = s1 - st * 10 in
    let h = m / 60 in
    let m1 = m - h * 60 in
    let mt = m1 / 10 in
    let m2 = m1 - mt * 10 in
    let ht = h / 10 in let h1 = h - ht * 10 in assemble ht h1 mt m2 st s2 ft f2

-- The seconds and frames of the drop-frame branch; both arms of its test end so.
pub from_frames_seconds : ℕ → ℕ → ℕ → ℕ → ℕ → ℕ
from_frames_seconds ht h mt m f =
    let st = f / 300 in
    let f1 = f - st * 300 in
    let s = f1 / 30 in
    let f2 = f1 - s * 30 in
    let ft = f2 / 10 in let f3 = f2 - ft * 10 in assemble ht h mt m st s ft f3

-- In the second arm `f -= m * 1798 - 2` is written `f + 2 - m * 1798`, since m can be 0.
pub from_frames_df : ℕ → ℕ
from_frames_df f =
    let ht = f / 1078920 in
    let f1 = f - ht * 1078920 in
    let h = f1 / 107892 in
    let f2 = f1 - h * 107892 in
    let mt = f2 / 17982 in
    let f3 = f2 - mt * 17982 in
    let f4 = f3 - 1800 in
    let m = f4 / 1798 in
    if ltb f3 1800
    then from_frames_seconds ht h mt 0 f3
    else from_frames_seconds ht h mt (m + 1) (f4 + 2 - m * 1798)

-- `f % fpd`, with fpd added to a negative remainder. The result is not negative.
pub wrap_frames : ℤ → ℕ → ℕ
wrap_frames frames d =
    let f = rem_ℤ frames d in if ltb_ℤ f (pos 0) then pos_part (f +ℤ pos d) else pos_part f

pub from_frames : ℤ → ℕ → Bool → ℕ
from_frames frames fps df =
    let f = wrap_frames frames (fpd fps df) in
    if not df then from_frames_ndf f fps else from_frames_df f

pub add_frames : ℤ → ℕ → ℕ → Bool → ℕ
add_frames n ltc fps df = from_frames (pos (to_frames ltc fps df) +ℤ n) fps df

pub diff_frames : ℕ → ℕ → ℕ → Bool → ℕ
diff_frames ltc1 ltc2 fps df =
    wrap_frames (pos (to_frames ltc1 fps df) -ℤ pos (to_frames ltc2 fps df)) (fpd fps df)
