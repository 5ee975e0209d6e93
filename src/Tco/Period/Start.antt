-- ===== src/Tco/Period/Start.antt =====
-- `hdspe_tco_start_timecode`: the offset and the time code that it writes.
use snd_hdspe.Common.{
  ℕ, ◌+◌, ◌-◌, ◌*◌, ◌/◌, ◌%◌, ◌^◌, ◌≤◌, ◌<◌, ◌≡◌, arith, refl, bit_and, bit_or, Bool, true, false,
  not, ltb, ◌==◌, u32, List, ◌∷◌, ap, Bool-cases, inl, inr, ltb_false→le, lt→ltb, leb, leb→le, ◌&&◌,
}
use mathlib.Core.Path.{subst}
use native.Mathlib.Nat.{div-add-mod', mod-lt, mul-le-mul_left}
use snd_hdspe.Common.Int.{pos}
use snd_hdspe.Clock.{sample_rate_freq}
use snd_hdspe.Device.{Write, wr_tco}
use snd_hdspe.Ltc.{add_frames}
use snd_hdspe.Common.Finite.{all_below, all_below_sound, &&-split}
use snd_hdspe.Tco.{field_get, Tco, write_tco, set_timecode, tco_get_sample_rate}
use snd_hdspe.Tco.Mtc.{u64, sub_u64}
use snd_hdspe.Tco.Registers.{IsIdle, StartsAt, set_timecode_lem}
use snd_hdspe.Tco.Period.{
  fps_tab, scale_tab, ltc_offset, Environment, s32, is_real_time, compensation, frame_samples,
  target, start_timecode,
}

quotient_bounds : (x d : ℕ) → 1 ≤ d → (x / d * d ≤ x) × (x < x / d * d + d)
quotient_bounds x d h =
    let whole = div-add-mod' x d in
    let rest = mod-lt x h in (omega (arith, whole), omega (arith, whole, rest))

-- Where the start is at most one frame after the pickup, the compensated start is within one frame
-- after the pickup.
compensation-bounds :
    (fc pickup fs : ℕ)
    → 1 ≤ fs
    → fc ≤ pickup + fs
    → (pickup ≤ fc + compensation fc pickup fs * fs)
      × (fc + compensation fc pickup fs * fs ≤ pickup + fs)
unfolding compensation
compensation-bounds fc pickup fs h le =
    let far : ltb (pickup + fs) fc ≡ false = ground arith in
    let bounds = quotient_bounds (pickup - fc) fs h in
    rw far (elim (Bool-cases (ltb fc pickup)) [
      | inl early ↦ rw early (ground (arith, bounds.0, bounds.1))
      | inr late ↦ rw late (ground (arith, ltb_false→le fc pickup late))
    ])

samples_small : ℕ → ℕ → Bool
samples_small sr i = let fs = sr * 1000 / (fps_tab i * scale_tab i) in leb 1 fs && leb fs 2000

samples_table :
    (all_below 4 (samples_small 48000) ≡ true) × (all_below 4 (samples_small 44100) ≡ true)
unfolding all_below samples_small fps_tab scale_tab
samples_table = (refl, refl)

frame_samples-bounds :
    (t : Tco) → t.settings.ltc_fps < 4 → (1 ≤ frame_samples t) × (frame_samples t ≤ 2000)
unfolding frame_samples tco_get_sample_rate samples_small
frame_samples-bounds t h =
    let small : samples_small (tco_get_sample_rate t) t.settings.ltc_fps ≡ true =
      elim (Bool-cases (not (field_get 27 1 t.reg2 == 0))) [
        | inl e ↦ rw e (all_below_sound 4 _ t.settings.ltc_fps samples_table.0 h)
        | inr e ↦ rw e (all_below_sound 4 _ t.settings.ltc_fps samples_table.1 h)
      ] in
    let (low, high) = &&-split _ _ small in (leb→le _ _ low, leb→le _ _ high)

ltc_offset-bound : (fps f : ℕ) → ltc_offset fps f ≤ 16
unfolding ltc_offset
ltc_offset-bound fps f = ground arith

-- The start compensated by n frames of fs samples, in the arithmetic of u32 and u64.
offset_words :
    (fc cfc ps n p l : ℕ)
    → cfc < 2 ^ 63
    → ps ≤ 8192
    → 16 ≤ ps
    → l ≤ 16
    → cfc + 2 * ps ≤ fc + p
    → fc + p ≤ cfc + 2 * ps + 2000
    → p < 2 ^ 32
    → u32 (u32 (sub_u64 (u64 (fc + u32 p)) (u64 (cfc + ps))) + (2 ^ 32 - l)) + l + cfc + ps ≡ fc + p
offset_words fc cfc ps n p l h1 h2 h3 h4 h5 h6 h7 = omega arith

-- A requested start, not of the real time, that is at most one frame after the second next period;
-- the register has the start bit at 0, and the counts are far from wrapping.
pub record IsReady (t : Tco) (e : Environment) : Type 0 where
  pub requested : is_real_time t.ltc_out ≡ false
  pub idle : IsIdle t.reg1
  pub fps : t.settings.ltc_fps < 4
  pub speed : 1 ≤ e.speed_factor
  pub period : 16 ≤ e.period_size / e.speed_factor
  pub period_max : e.period_size / e.speed_factor ≤ 8192
  pub frames : e.frame_count / e.speed_factor < 2 ^ 63
  pub near :
      t.ltc_out_frame_count / e.speed_factor
      ≤ e.frame_count / e.speed_factor + 2 * (e.period_size / e.speed_factor) + frame_samples t
  pub recent :
      e.frame_count / e.speed_factor + 2 * (e.period_size / e.speed_factor)
      < t.ltc_out_frame_count / e.speed_factor + 2 ^ 30

pub start_of : Tco → Environment → ℕ
start_of t e = t.ltc_out_frame_count / e.speed_factor

target-start : (t : Tco) (e : Environment) → IsReady t e → target t e ≡ (t.ltc_out, start_of t e)
unfolding target start_of
target-start t e h =
    let ordinary : (start_of t e == 2 ^ 64 - 1) ≡ false =
      ground (arith, h.near, h.frames, h.period_max, (frame_samples-bounds t h.fps).1) in
    rw (h.requested, ordinary) refl

record Compensated (t : Tco) (e : Environment) (n : ℕ) : Type 0 where
  steps :
      compensation
        (start_of t e)
        (u64 (e.frame_count / e.speed_factor + 2 * (e.period_size / e.speed_factor)))
        (frame_samples t)
      ≡ n
  word : u32 n ≡ n
  int : s32 n ≡ pos n
  after :
      e.frame_count / e.speed_factor + 2 * (e.period_size / e.speed_factor)
      ≤ start_of t e + n * frame_samples t
  before :
      start_of t e + n * frame_samples t
      ≤ e.frame_count / e.speed_factor + 2 * (e.period_size / e.speed_factor) + frame_samples t

steps_small :
    (fc pickup n fs : ℕ)
    → 1 ≤ fs
    → fs ≤ 2000
    → pickup < fc + 2 ^ 30
    → fc + n * fs ≤ pickup + fs
    → n < 2 ^ 31
steps_small fc pickup n fs h1 h2 h3 h4 =
    let product : n * 1 ≤ n * fs = mul-le-mul_left n h1 in omega (arith, product)

compensated : (t : Tco) (e : Environment) → IsReady t e → (n : ℕ) × Compensated t e n
unfolding start_of s32
compensated t e h =
    let cfc : ℕ = e.frame_count / e.speed_factor in
    let ps : ℕ = e.period_size / e.speed_factor in
    let fs = frame_samples-bounds t h.fps in
    let pickup : u64 (cfc + 2 * ps) ≡ cfc + 2 * ps = omega (arith, h.frames, h.period_max) in
    let n : ℕ = compensation (start_of t e) (cfc + 2 * ps) (frame_samples t) in
    let bounds = compensation-bounds (start_of t e) (cfc + 2 * ps) (frame_samples t) fs.0 h.near in
    let small : n < 2 ^ 31 = steps_small _ _ n (frame_samples t) fs.0 fs.1 h.recent bounds.1 in
    let word : u32 n ≡ n = omega (arith, small) in
    let positive : ltb n (2 ^ 31) ≡ true = lt→ltb n (2 ^ 31) small in
    (
      n,
      record {
        steps = rw pickup refl;
        word = word;
        int = rw (word, positive) refl;
        after = bounds.0;
        before = bounds.1;
      },
    )

-- The samples that the card starts early, by experience.
pub early : Tco → ℕ
early t = ltc_offset (fps_tab t.settings.ltc_fps) (sample_rate_freq (tco_get_sample_rate t))

-- What the start writes: the time code n frames after the requested one, for the frame that starts
-- n frames of samples after the requested count; the offset counts from the next period.
pub record Started (t : Tco) (e : Environment) (n offset v : ℕ) (after : Tco) : Type 0 where
  pub on_time :
      offset + early t + e.frame_count / e.speed_factor + e.period_size / e.speed_factor
      ≡ start_of t e + n * frame_samples t
  pub soon : offset + early t ≤ e.period_size / e.speed_factor + frame_samples t
  pub register : StartsAt v offset t.reg1
  pub writes :
      after.writes
      ≡ wr_tco 2 (bit_and (bit_or t.reg2 0x10000) 0x7f7f7f7f)
        ∷ wr_tco 1 v
        ∷ wr_tco 0 (
            bit_and
              (add_frames
                (pos n)
                t.ltc_out
                (fps_tab t.settings.ltc_fps)
                (not (t.settings.ltc_drop == 0)))
              0x7f7f7f7f)
        ∷ t.writes
  pub done : after.ltc_out ≡ 0xffffffff
  pub set : after.ltc_set ≡ true
  pub running : after.ltc_run ≡ true

start_words : Tco → Environment → ℕ → ℕ
start_words t e n = u32 (
    u32 (
      sub_u64 (u64 (start_of t e + u32 (n * frame_samples t)))
        (u64 (e.frame_count / e.speed_factor + e.period_size / e.speed_factor)))
    + (2 ^ 32 - early t))

start_words-eq :
    (t : Tco) (e : Environment) (n : ℕ)
    → IsReady t e
    → Compensated t e n
    → (start_words t e n + early t + e.frame_count / e.speed_factor + e.period_size / e.speed_factor
        ≡ start_of t e + n * frame_samples t)
      × (start_words t e n + early t ≤ e.period_size / e.speed_factor + frame_samples t)
unfolding start_words early start_of
start_words-eq t e n h c =
    let fs = frame_samples-bounds t h.fps in
    let small : n * frame_samples t < 2 ^ 32 = omega (arith, c.before, h.recent, fs.1) in
    let near : start_of t e + n * frame_samples t
        ≤ e.frame_count / e.speed_factor + 2 * (e.period_size / e.speed_factor) + 2000 =
      omega (arith, c.before, fs.1) in
    let eq =
      offset_words (start_of t e) (e.frame_count / e.speed_factor) (e.period_size / e.speed_factor)
        n (n * frame_samples t) (early t) h.frames h.period_max h.period
        (ltc_offset-bound (fps_tab t.settings.ltc_fps) (sample_rate_freq (tco_get_sample_rate t)))
        c.after near small in
    (eq, omega (arith, eq, c.before))

-- A requested start that is at most one frame after the second next period starts there or within
-- one frame after it, with the time code that the requested one reaches by then; the offset fits
-- its field, and the request is done.
pub start_timecode_lem :
    (t : Tco) (e : Environment)
    → IsReady t e
    → (n offset v : ℕ) × Started t e n offset v (start_timecode t e)
unfolding start_timecode write_tco set_timecode start_words early
start_timecode_lem t e h =
    let (n, c) = compensated t e h in
    let (eq, soon) = start_words-eq t e n h c in
    let offset : ℕ = start_words t e n in
    let fs = frame_samples-bounds t h.fps in
    let fits : offset % 2 ^ 16 % 0x4000 ≡ offset = omega (arith, soon, h.period_max, fs.1) in
    let tc : ℕ =
      add_frames (pos n) t.ltc_out (fps_tab t.settings.ltc_fps) (not (t.settings.ltc_drop == 0)) in
    let (v, register, writes, set) = set_timecode_lem t tc (offset % 2 ^ 16) h.idle in
    (
      n,
      offset,
      v,
      record {
        on_time = eq;
        soon = soon;
        register = subst (λ (o : ℕ). StartsAt v o t.reg1) fits register;
        writes =
            rw (target-start t e h, c.steps, c.int, c.word)
              (ap (λ (w : List Write). wr_tco 2 (bit_and (bit_or t.reg2 0x10000) 0x7f7f7f7f) ∷ w)
                writes);
        done = refl;
        set = refl;
        running = refl;
      },
    )
