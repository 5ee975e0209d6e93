-- ===== src/Setup/Rules/Agreement/Tests.antt =====
-- Runs of the rules for rates and channels.
use snd_hdspe.Common.{
  ℕ, ◌≤◌, ◌≡◌, inl, inr, arith, refl, ap, sym, true, false, ltb, if◌then◌else◌, [],
}
use snd_hdspe.Common.Int.{ℤ, pos, negsuc, is_negative}
use snd_hdspe.Device.{raydat, playback}
use snd_hdspe.Clock.{sample_rate_speed_mode}
use snd_hdspe.Mixer.{Mixer}
use snd_hdspe.Cards.{Channels, init_tables, set_channel_map, max_channels}
use snd_hdspe.Cards.Counts.{count, raydat_counts}
use snd_hdspe.Setup.Rules.{
  Interval, is_hw_rate, is_offered_rate, exactly, rule_channels_rate, hw_rule_out_channels_rate,
  rule_rate_channels, is_aes, rate_rule, hw_rule_rate_out_channels,
}
use snd_hdspe.Setup.Rules.Agreement.{
  IsWithin, Narrows, IsCount, moved, rule_channels_rate-set_channel_map,
}
use snd_hdspe.Setup.Rules.Agreement.Rates.{rule_rate_channels-set_channel_map}

-- The intersection, with -EINVAL where it is empty.
intersect : Interval → Interval → Interval × ℤ
intersect c t =
    let least = if ltb c.least t.least then t.least else c.least in
    let most = if ltb c.most t.most then c.most else t.most in
    (record { least = least; most = most }, if ltb most least then negsuc 21 else pos 1)

larger : (a b x : ℕ) → (if ltb a b then b else a) ≤ x → (a ≤ x) × (b ≤ x)
larger a b x h = ground arith

smaller : (a b x : ℕ) → x ≤ (if ltb a b then a else b) → (x ≤ a) × (x ≤ b)
smaller a b x h = ground arith

intersect-Narrows : Narrows intersect
unfolding Narrows intersect
intersect-Narrows c t x ends within =
    let (low, low') = larger c.least t.least x within.least in
    let (high, high') = smaller c.most t.most x within.most in
    (record { least = low; most = high }, record { least = low'; most = high' })

abbrev before : Channels
before = record {
  channel_map_in = [];
  channel_map_out = [];
  max_channels_in = 0;
  max_channels_out = 0;
}

abbrev mixer : Mixer
mixer = record {
  in_gain = λ _ _. 0;
  pb_gain = λ _ _. 0;
  card = λ _. 0;
  playback_pid = negsuc 0;
  capture_pid = negsuc 0;
}

abbrev all_channels : Interval
all_channels = record { least = 1; most = 64 }

abbrev all_rates : Interval
all_rates = record { least = 32000; most = 192000 }

twenty :
    rule_channels_rate intersect playback
      (init_tables raydat true true)
      all_channels
      (exactly 96000)
    ≡ (exactly 20, pos 1)
unfolding rule_channels_rate hw_rule_out_channels_rate intersect count
twenty = ap (λ n. intersect all_channels (exactly n)) raydat_counts.1

twenty_left :
    let result =
      rule_channels_rate intersect playback
        (init_tables raydat true true)
        all_channels
        (exactly 96000) in
    (is_negative result.1 ≡ false) × IsWithin 20 result.0
unfolding is_negative
twenty_left = moved (sym twenty) refl (record { least = omega arith; most = omega arith })

rule_channels_rate-set_channel_map_example :
    max_channels
      (set_channel_map (init_tables raydat true true) (sample_rate_speed_mode 96000) before mixer).0
      playback
    ≡ 20
unfolding is_offered_rate is_hw_rate
rule_channels_rate-set_channel_map_example =
    rule_channels_rate-set_channel_map intersect playback (init_tables raydat true true)
      all_channels 96000 before mixer 20 intersect-Narrows refl twenty_left.0 twenty_left.1

double_rates :
    rule_rate_channels intersect raydat playback
      (init_tables raydat true true)
      (exactly 20)
      all_rates
    ≡ (record { least = 64000; most = 96000 }, pos 1)
unfolding rule_rate_channels is_aes rate_rule hw_rule_rate_out_channels intersect count
double_rates =
    let t = init_tables raydat true true in
    let at_single : t.ss_out_channels ≡ 36 = raydat_counts.0 in
    let at_double : t.ds_out_channels ≡ 20 = raydat_counts.1 in
    let at_quad : t.qs_out_channels ≡ 12 = raydat_counts.2 in
    rw (at_single, at_double, at_quad) refl

double_left :
    let result =
      rule_rate_channels intersect raydat playback
        (init_tables raydat true true)
        (exactly 20)
        all_rates in
    (is_negative result.1 ≡ false) × IsWithin 88200 result.0
unfolding is_negative
double_left = moved (sym double_rates) refl (record { least = omega arith; most = omega arith })

rule_rate_channels-set_channel_map_example :
    max_channels
      (set_channel_map (init_tables raydat true true) (sample_rate_speed_mode 88200) before mixer).0
      playback
    ≡ 20
unfolding is_offered_rate is_hw_rate IsCount
rule_rate_channels-set_channel_map_example =
    rule_rate_channels-set_channel_map intersect raydat true true playback all_rates 20 88200 before
      mixer intersect-Narrows (inr (inl (sym raydat_counts.1))) refl double_left.0 double_left.1
