-- ===== src/Setup/Rules/Agreement/Rates.antt =====
-- The rule for rates agrees with the channel maps: the rates that a channel count leaves.
use snd_hdspe.Common.{
  ℕ, ◌≤◌, ◌≡◌, ◌≢◌, ◌⊎◌, inl, inr, arith, refl, Bool, true, false, leb, if◌then◌else◌, sym, ◌∙◌,
}
use mathlib.Core.Path.{subst}
use snd_hdspe.Common.Int.{ℤ, pos, is_negative}
use snd_hdspe.Device.{
  IoType, madi, madiface, aio, aes, raydat, aio_pro, Direction, playback, capture, SpeedMode,
  single, double, quad, invalid,
}
use snd_hdspe.Clock.{sample_rate_speed_mode}
use snd_hdspe.Mixer.{Mixer}
use snd_hdspe.Cards.{Tables, Channels, set_channel_map, max_channels, init_tables}
use snd_hdspe.Cards.Counts.{
  count, max_channels-set_channel_map, AreOrdered, init_tables-AreOrdered, init_tables_aes,
}
use snd_hdspe.Setup.Rules.{
  Interval, is_offered_rate, exactly, is_aes, rate_rule, hw_rule_rate_in_channels,
  hw_rule_rate_out_channels, rule_rate_channels,
}
use snd_hdspe.Setup.Rules.Agreement.{
  IsWithin, Narrows, at_single, at_double, at_quad, offered, moved, IsCount, valid_speed,
}

-- The rates that the rule leaves for one of the counts.
IsLeft : Tables → Direction → ℕ → ℕ → Type 0
IsLeft t d n rate =
    ((n ≡ count t single d) × (rate ≤ 48000))
    ⊎ ((n ≡ count t double d) × (64000 ≤ rate) × (rate ≤ 96000))
    ⊎ ((n ≡ count t quad d) × (128000 ≤ rate))

left-count :
    (t : Tables) (d : Direction) (n rate : ℕ)
    → is_offered_rate rate ≡ true
    → IsLeft t d n rate
    → count t (sample_rate_speed_mode rate) d ≡ n
unfolding IsLeft
left-count t d n rate h left = elim (offered rate h) [
  | at_single low speed ↦ elim left [
    | inl (same, _) ↦ rw speed (sym same)
    | inr (inl (same, above, below)) ↦ absurd (omega arith)
    | inr (inr (same, above)) ↦ absurd (omega arith)
  ]
  | at_double low high speed ↦ elim left [
    | inl (same, below) ↦ absurd (omega arith)
    | inr (inl (same, above, below)) ↦ rw speed (sym same)
    | inr (inr (same, above)) ↦ absurd (omega arith)
  ]
  | at_quad low high speed ↦ elim left [
    | inl (same, below) ↦ absurd (omega arith)
    | inr (inl (same, above, below)) ↦ absurd (omega arith)
    | inr (inr (same, above)) ↦ rw speed (sym same)
  ]
]

-- The body of the two rules, for the counts of a direction.
rate_rule_lem :
    (refine : Interval → Interval → Interval × ℤ) (d : Direction) (t : Tables) (c r : Interval)
    → rate_rule refine d t c r ≡ (
        if leb (count t single d) c.least
        then refine r (record { least = 32000; most = 48000 })
        else if leb c.most (count t quad d)
        then refine r (record { least = 128000; most = 192000 })
        else if leb c.most (count t double d)
        then refine r (record { least = 64000; most = 96000 })
        else (r, pos 0))
unfolding rate_rule hw_rule_rate_in_channels hw_rule_rate_out_channels count
rate_rule_lem refine playback t c r = refl
rate_rule_lem refine capture t c r = refl

rate_rule_at :
    (refine : Interval → Interval → Interval × ℤ) (d : Direction) (t : Tables) (n : ℕ)
    (r : Interval)
    → AreOrdered t d
    → IsCount t d n
    → (span : Interval) × (rate_rule refine d t (exactly n) r ≡ refine r span)
      × ((rate : ℕ) → IsWithin rate span → IsLeft t d n rate)
unfolding IsLeft IsCount
rate_rule_at refine d t n r ordered counts = elim counts [
  | inl same ↦
      let e : leb (count t single d) n ≡ true = ground arith in
      (
        record { least = 32000; most = 48000 },
        rate_rule_lem refine d t (exactly n) r ∙ rw e refl,
        λ rate within. inl (same, within.most),
      )
  | inr (inl same) ↦
      let e : leb (count t single d) n ≡ false = ground (arith, ordered.upper) in
      let f : leb n (count t quad d) ≡ false = ground (arith, ordered.lower) in
      let g : leb n (count t double d) ≡ true = ground arith in
      (
        record { least = 64000; most = 96000 },
        rate_rule_lem refine d t (exactly n) r ∙ rw (e, f, g) refl,
        λ rate within. inr (inl (same, within.least, within.most)),
      )
  | inr (inr same) ↦
      let e : leb (count t single d) n ≡ false = ground (arith, ordered.upper, ordered.lower) in
      let f : leb n (count t quad d) ≡ true = ground arith in
      (
        record { least = 128000; most = 192000 },
        rate_rule_lem refine d t (exactly n) r ∙ rw (e, f) refl,
        λ rate within. inr (inr (same, within.least)),
      )
]

rate_rule-count :
    (refine : Interval → Interval → Interval × ℤ) (d : Direction) (t : Tables) (n : ℕ)
    (r : Interval) (rate : ℕ)
    → Narrows refine
    → AreOrdered t d
    → IsCount t d n
    → is_offered_rate rate ≡ true
    → is_negative (rate_rule refine d t (exactly n) r).1 ≡ false
    → IsWithin rate (rate_rule refine d t (exactly n) r).0
    → count t (sample_rate_speed_mode rate) d ≡ n
unfolding Narrows
rate_rule-count refine d t n r rate narrows ordered counts h ends within =
    let (span, e, left) = rate_rule_at refine d t n r ordered counts in
    let (ends', within') = moved e ends within in
    let (_, inside) = narrows r span rate ends' within' in
    left-count t d n rate h (left rate inside)

aes_or_other : (io : IoType) → (io ≡ aes) ⊎ ((io ≢ aes) × (is_aes io ≡ false))
unfolding is_aes
aes_or_other aes = inl refl
aes_or_other madi = inr (ground arith, refl)
aes_or_other madiface = inr (ground arith, refl)
aes_or_other aio = inr (ground arith, refl)
aes_or_other raydat = inr (ground arith, refl)
aes_or_other aio_pro = inr (ground arith, refl)

aes_count :
    (i o : Bool) (d : Direction) (n : ℕ) (speed : SpeedMode)
    → IsCount (init_tables aes i o) d n
    → speed ≢ invalid
    → count (init_tables aes i o) speed d ≡ n
unfolding IsCount
aes_count i o d n speed counts v = init_tables_aes i o speed d v ∙ elim counts [
  | inl same ↦ sym (same ∙ init_tables_aes i o single d (ground arith))
  | inr (inl same) ↦ sym (same ∙ init_tables_aes i o double d (ground arith))
  | inr (inr same) ↦ sym (same ∙ init_tables_aes i o quad d (ground arith))
]

other_rule :
    (refine : Interval → Interval → Interval × ℤ) (io : IoType) (d : Direction) (t : Tables)
    (c r : Interval)
    → is_aes io ≡ false
    → rule_rate_channels refine io d t c r ≡ rate_rule refine d t c r
unfolding rule_rate_channels
other_rule refine io d t c r is = rw is refl

-- On each card, with or without extension boards, if the rule for rates leaves an offered rate for
-- one of the card's channel counts, the channel map which hw_params sets up at this rate has that
-- count.
pub rule_rate_channels-set_channel_map :
    (refine : Interval → Interval → Interval × ℤ) (io : IoType) (aebi_d aebo_d : Bool)
    (d : Direction) (r : Interval) (n rate : ℕ) (before : Channels) (m : Mixer)
    → let t = init_tables io aebi_d aebo_d in
      Narrows refine
      → IsCount t d n
      → is_offered_rate rate ≡ true
      → is_negative (rule_rate_channels refine io d t (exactly n) r).1 ≡ false
      → IsWithin rate (rule_rate_channels refine io d t (exactly n) r).0
      → max_channels (set_channel_map t (sample_rate_speed_mode rate) before m).0 d ≡ n
rule_rate_channels-set_channel_map refine io i o d r n rate before m narrows counts h ends within =
    max_channels-set_channel_map (init_tables io i o) _ d before m (valid_speed rate h)
    ∙ elim (aes_or_other io) [
      | inl is ↦
          subst
            (λ (k : IoType).
              IsCount (init_tables k i o) d n
              → count (init_tables k i o) (sample_rate_speed_mode rate) d ≡ n)
            (sym is) (λ c. aes_count i o d n _ c (valid_speed rate h)) counts
      | inr (other, is) ↦
          let (ends', within') =
            moved (other_rule refine io d (init_tables io i o) (exactly n) r is) ends within in
          rate_rule-count refine d _ n r rate narrows (init_tables-AreOrdered io i o d other) counts
            h ends' within'
    ]
