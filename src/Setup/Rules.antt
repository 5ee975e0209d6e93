-- ===== src/Setup/Rules.antt =====
-- The rules of hdspe_pcm.c by which ALSA narrows the rates and the channel counts of a stream, and
-- their choice in `snd_hdspe_open`. ALSA's `snd_interval_refine` and `snd_interval_list` are
-- arguments. An interval of whole numbers has its ends; the flags of open ends are left out.
pub mod Agreement
use snd_hdspe.Common.{
  ℕ, Bool, true, false, ◌&&◌, ◌||◌, leb, ltb, ◌==◌, if◌then◌else◌, List, [], ◌∷◌,
}
use snd_hdspe.Common.Int.{ℤ, pos}
use snd_hdspe.Device.{IoType, aes, Direction, playback, capture}
use snd_hdspe.Cards.{Tables}

pub record Interval : Type 0 where
  pub least : ℕ
  pub most : ℕ

-- A rate that `snd_hdspe_playback_subinfo` and `snd_hdspe_capture_subinfo` offer.
pub is_hw_rate : ℕ → Bool
is_hw_rate rate =
    (rate == 32000)
    || (rate == 44100)
    || (rate == 48000)
    || (rate == 64000)
    || (rate == 88200)
    || (rate == 96000)
    || (rate == 176400)
    || (rate == 192000)

-- With the rate that the AES's list of rates adds to these.
pub is_offered_rate : ℕ → Bool
is_offered_rate rate = is_hw_rate rate || (rate == 128000)

abbrev exactly : ℕ → Interval
exactly n = record { least = n; most = n }

pub hw_rule_in_channels_rate :
    (Interval → Interval → Interval × ℤ) → Tables → Interval → Interval → Interval × ℤ
hw_rule_in_channels_rate refine t c r =
    if ltb 96000 r.least && leb r.most 192000
    then refine c (exactly t.qs_in_channels)
    else if ltb 48000 r.least && leb r.most 96000
    then refine c (exactly t.ds_in_channels)
    else if ltb r.most 64000
    then refine c (exactly t.ss_in_channels)
    else (c, pos 0)

pub hw_rule_out_channels_rate :
    (Interval → Interval → Interval × ℤ) → Tables → Interval → Interval → Interval × ℤ
hw_rule_out_channels_rate refine t c r =
    if ltb 96000 r.least && leb r.most 192000
    then refine c (exactly t.qs_out_channels)
    else if ltb 48000 r.least && leb r.most 96000
    then refine c (exactly t.ds_out_channels)
    else if ltb r.most 64000
    then refine c (exactly t.ss_out_channels)
    else (c, pos 0)

pub hw_rule_rate_in_channels :
    (Interval → Interval → Interval × ℤ) → Tables → Interval → Interval → Interval × ℤ
hw_rule_rate_in_channels refine t c r =
    if leb t.ss_in_channels c.least
    then refine r (record { least = 32000; most = 48000 })
    else if leb c.most t.qs_in_channels
    then refine r (record { least = 128000; most = 192000 })
    else if leb c.most t.ds_in_channels
    then refine r (record { least = 64000; most = 96000 })
    else (r, pos 0)

pub hw_rule_rate_out_channels :
    (Interval → Interval → Interval × ℤ) → Tables → Interval → Interval → Interval × ℤ
hw_rule_rate_out_channels refine t c r =
    if leb t.ss_out_channels c.least
    then refine r (record { least = 32000; most = 48000 })
    else if leb c.most t.qs_out_channels
    then refine r (record { least = 128000; most = 192000 })
    else if leb c.most t.ds_out_channels
    then refine r (record { least = 64000; most = 96000 })
    else (r, pos 0)

pub hw_rule_in_channels : (Interval → List ℕ → Interval × ℤ) → Tables → Interval → Interval × ℤ
hw_rule_in_channels interval_list t c =
    interval_list c (t.qs_in_channels ∷ t.ds_in_channels ∷ t.ss_in_channels ∷ [])

pub hw_rule_out_channels : (Interval → List ℕ → Interval × ℤ) → Tables → Interval → Interval × ℤ
hw_rule_out_channels interval_list t c =
    interval_list c (t.qs_out_channels ∷ t.ds_out_channels ∷ t.ss_out_channels ∷ [])

-- The rules that `snd_hdspe_open` adds for a direction.
pub rule_channels_rate :
    (Interval → Interval → Interval × ℤ) → Direction → Tables → Interval → Interval → Interval × ℤ
rule_channels_rate refine playback = hw_rule_out_channels_rate refine
rule_channels_rate refine capture = hw_rule_in_channels_rate refine

pub rule_channels :
    (Interval → List ℕ → Interval × ℤ) → Direction → Tables → Interval → Interval × ℤ
rule_channels interval_list playback = hw_rule_out_channels interval_list
rule_channels interval_list capture = hw_rule_in_channels interval_list

is_aes : IoType → Bool
is_aes aes = true
is_aes _ = false

rate_rule :
    (Interval → Interval → Interval × ℤ) → Direction → Tables → Interval → Interval → Interval × ℤ
rate_rule refine playback = hw_rule_rate_out_channels refine
rate_rule refine capture = hw_rule_rate_in_channels refine

-- The AES card has a list of rates in place of this rule.
pub rule_rate_channels :
    (Interval → Interval → Interval × ℤ)
    → IoType
    → Direction
    → Tables
    → Interval
    → Interval
    → Interval × ℤ
rule_rate_channels refine io d t c r = if is_aes io then (r, pos 0) else rate_rule refine d t c r
