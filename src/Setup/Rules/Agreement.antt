-- ===== src/Setup/Rules/Agreement.antt =====
-- The rules for rates and channels agree with the channel maps that `hw_params` sets up.
pub mod Rates
mod Tests
use snd_hdspe.Common.{
  ℕ, ◌+◌, ◌*◌, ◌≤◌, ◌<◌, ◌≡◌, ◌≢◌, ◌⊎◌, inl, inr, arith, refl, Bool, true, false, ◌&&◌, ◌||◌, leb,
  ltb, ◌==◌, if◌then◌else◌, List, [], ◌∷◌, ap, sym, ◌∙◌,
}
use mathlib.Core.Bool.{false≢true}
use mathlib.Core.Path.{subst}
use snd_hdspe.Common.Int.{ℤ, pos, is_negative}
use snd_hdspe.Device.{
  IoType, madi, madiface, aio, aes, raydat, aio_pro, Direction, playback, capture, SpeedMode,
  single, double, quad, invalid,
}
use snd_hdspe.Clock.{sample_rate_speed_mode}
use snd_hdspe.Mixer.{Mixer}
use snd_hdspe.Cards.{Tables, Channels, speed_channels, set_channel_map, max_channels}
use snd_hdspe.Cards.Counts.{count, max_channels-set_channel_map}
use snd_hdspe.Setup.Rules.{
  Interval, is_hw_rate, is_offered_rate, exactly, hw_rule_in_channels_rate,
  hw_rule_out_channels_rate, rule_channels_rate,
}

pub record IsWithin (x : ℕ) (i : Interval) : Type 0 where
  pub least : i.least ≤ x
  pub most : x ≤ i.most

-- What the rules need of `snd_interval_refine`: where it does not report an error, what is left lies
-- in both intervals.
pub Narrows : (Interval → Interval → Interval × ℤ) → Type 0
Narrows refine =
    (c t : Interval) (x : ℕ)
    → is_negative (refine c t).1 ≡ false
    → IsWithin x (refine c t).0
    → IsWithin x c × IsWithin x t

-- One of the three counts, which the rule for channels leaves.
pub IsCount : Tables → Direction → ℕ → Type 0
IsCount t d n = (n ≡ count t single d) ⊎ (n ≡ count t double d) ⊎ (n ≡ count t quad d)

-- The speed mode of an offered rate, and its bounds.
data Offered (rate : ℕ) : Type 0 where
  at_single : rate ≤ 48000 → sample_rate_speed_mode rate ≡ single → Offered rate
  at_double : 64000 ≤ rate → rate ≤ 96000 → sample_rate_speed_mode rate ≡ double → Offered rate
  at_quad : 128000 ≤ rate → rate ≤ 192000 → sample_rate_speed_mode rate ≡ quad → Offered rate

bounds :
    (rate : ℕ)
    → is_offered_rate rate ≡ true
    → (rate ≤ 48000) ⊎ ((64000 ≤ rate) × (rate ≤ 96000)) ⊎ ((128000 ≤ rate) × (rate ≤ 192000))
unfolding is_offered_rate is_hw_rate
bounds rate h = ground arith

offered : (rate : ℕ) → is_offered_rate rate ≡ true → Offered rate
unfolding sample_rate_speed_mode
offered rate h = elim (bounds rate h) [
  | inl low ↦ at_single low (ground arith)
  | inr (inl (low, high)) ↦ at_double low high (ground arith)
  | inr (inr (low, high)) ↦ at_quad low high (ground arith)
]

-- The rule's tests at one offered rate choose its speed mode.
choose :
    {A : Type 0} (rate : ℕ) (of_speed : SpeedMode → A) (other : A)
    → is_offered_rate rate ≡ true
    → (if ltb 96000 rate && leb rate 192000
        then of_speed quad
        else if ltb 48000 rate && leb rate 96000
        then of_speed double
        else if ltb rate 64000
        then of_speed single
        else other)
      ≡ of_speed (sample_rate_speed_mode rate)
choose rate of_speed other h = elim (offered rate h) [
  | at_single low speed ↦
      let e : (ltb 96000 rate && leb rate 192000) ≡ false = ground arith in
      let f : (ltb 48000 rate && leb rate 96000) ≡ false = ground arith in
      let g : ltb rate 64000 ≡ true = ground arith in rw (speed, e, f, g) refl
  | at_double low high speed ↦
      let e : (ltb 96000 rate && leb rate 192000) ≡ false = ground arith in
      let f : (ltb 48000 rate && leb rate 96000) ≡ true = ground arith in rw (speed, e, f) refl
  | at_quad low high speed ↦
      let e : (ltb 96000 rate && leb rate 192000) ≡ true = ground arith in rw (speed, e) refl
]

-- The channel rule at one offered rate.
rule_channels_rate_lem :
    (refine : Interval → Interval → Interval × ℤ) (d : Direction) (t : Tables) (c : Interval)
    (rate : ℕ)
    → is_offered_rate rate ≡ true
    → rule_channels_rate refine d t c (exactly rate)
      ≡ refine c (exactly (count t (sample_rate_speed_mode rate) d))
unfolding rule_channels_rate hw_rule_in_channels_rate hw_rule_out_channels_rate count
rule_channels_rate_lem refine playback t c rate h =
    choose rate (λ speed. refine c (exactly (count t speed playback))) (c, pos 0) h
rule_channels_rate_lem refine capture t c rate h =
    choose rate (λ speed. refine c (exactly (count t speed capture))) (c, pos 0) h

is_invalid : SpeedMode → Bool
is_invalid invalid = true
is_invalid _ = false

valid_speed : (rate : ℕ) → is_offered_rate rate ≡ true → sample_rate_speed_mode rate ≢ invalid
unfolding is_invalid
valid_speed rate h e = elim (offered rate h) [
  | at_single low speed ↦ false≢true (ap is_invalid (sym speed ∙ e))
  | at_double low high speed ↦ false≢true (ap is_invalid (sym speed ∙ e))
  | at_quad low high speed ↦ false≢true (ap is_invalid (sym speed ∙ e))
]

-- An interval that a rule leaves is left by an equal one.
moved :
    {x : ℕ} {a b : Interval × ℤ}
    → a ≡ b
    → is_negative a.1 ≡ false
    → IsWithin x a.0
    → (is_negative b.1 ≡ false) × IsWithin x b.0
moved {x = x} e ends within =
    subst (λ (i : Interval × ℤ). (is_negative i.1 ≡ false) × IsWithin x i.0) e (ends, within)

-- At an offered rate, the only channel count that the rule for channels leaves is that of the channel
-- map which hw_params sets up at this rate.
pub rule_channels_rate-set_channel_map :
    (refine : Interval → Interval → Interval × ℤ) (d : Direction) (t : Tables) (c : Interval)
    (rate : ℕ) (before : Channels) (m : Mixer) (n : ℕ)
    → Narrows refine
    → is_offered_rate rate ≡ true
    → is_negative (rule_channels_rate refine d t c (exactly rate)).1 ≡ false
    → IsWithin n (rule_channels_rate refine d t c (exactly rate)).0
    → max_channels (set_channel_map t (sample_rate_speed_mode rate) before m).0 d ≡ n
unfolding Narrows
rule_channels_rate-set_channel_map refine d t c rate before m n narrows h ends within =
    let e = rule_channels_rate_lem refine d t c rate h in
    let count' = count t (sample_rate_speed_mode rate) d in
    let (ends', within') = moved e ends within in
    let (_, exact) = narrows c (exactly count') n ends' within' in
    max_channels-set_channel_map t _ d before m (valid_speed rate h)
    ∙ omega (arith, exact.least, exact.most)
