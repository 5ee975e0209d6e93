-- ===== src/Hwdep/Meters.antt =====
-- What the requests give: the levels of each channel, and the sample rate.
use snd_hdspe.Common.{
  ℕ, zero, suc, ◌+◌, ◌*◌, ◌/◌, ◌^◌, ◌<◌, ◌≡◌, ◌==◌, arith, refl, ap, ◌∙◌, false, not, if◌then◌else◌,
  u32, Option, none, some, List, [], ◌∷◌,
}
use snd_hdspe.Common.Bits.{bit_or-add}
use snd_hdspe.Clock.Dds.{dds_sample_rate}
use snd_hdspe.Cards.Status.{Sources, Running, read_sample_rate_status}
use snd_hdspe.Cards.Status.Read.{madi_read_status, aes_read_status, raio_read_status}
use snd_hdspe.Hwdep.{max_channels, levels_from, peak, rms, read_levels, config}

pub channel : List ℕ → ℕ → Option ℕ
channel [] i = none
channel (x ∷ xs) zero = some x
channel (x ∷ xs) (suc i) = channel xs i

channel-levels_from :
    (level : ℕ → ℕ) (j n i : ℕ) → i < n → channel (levels_from level j n) i ≡ some (level (j + i))
unfolding channel levels_from
channel-levels_from level j zero i l = absurd (omega arith)
channel-levels_from level j (suc n) zero l = ap (λ x. some (level x)) (omega arith)
channel-levels_from level j (suc n) (suc i) l =
    channel-levels_from level (suc j) n i (omega arith) ∙ ap (λ x. some (level x)) (omega arith)

channel_first :
    (level : ℕ → ℕ) (n i : ℕ) → i < n → channel (levels_from level 0 n) i ≡ some (level i)
channel_first level n i l =
    channel-levels_from level 0 n i l ∙ ap (λ x. some (level x)) (omega arith)

rms-eq :
    (readl : ℕ → ℕ) (high low i : ℕ)
    → readl (low + i * 4) < 2 ^ 32
    → rms readl high low i ≡ readl (high + i * 4) * 2 ^ 32 + readl (low + i * 4)
unfolding rms
rms-eq readl high low i l =
    bit_or-add 32 (readl (high + i * 4) * 2 ^ 32) (readl (low + i * 4)) (omega arith) l

-- A word of 64 bits with its halves.
pub IsLevel : Option ℕ → ℕ → ℕ → Type 0
IsLevel level high low = (level ≡ some (high * 2 ^ 32 + low)) × (high * 2 ^ 32 + low < 2 ^ 64)

level :
    (readl : ℕ → ℕ) (high low i : ℕ)
    → ((a : ℕ) → readl a < 2 ^ 32)
    → i < max_channels
    → IsLevel
        (channel (levels_from (rms readl high low) 0 max_channels) i)
        (readl (high + i * 4))
        (readl (low + i * 4))
unfolding IsLevel
level readl high low i words l = (
  channel_first (rms readl high low) max_channels i l
      ∙ ap some (rms-eq readl high low i (words (low + i * 4))),
  omega (arith, words (high + i * 4), words (low + i * 4)),
)

-- For registers of 32 bits, each of the 64 channels has its input's, playback's and output's peak in
-- the word of its number, and the RMS with its halves in the two words of its number, whole.
pub read_levels_lem :
    (readl : ℕ → ℕ) (i : ℕ)
    → ((a : ℕ) → readl a < 2 ^ 32)
    → i < 64
    → let l = read_levels readl in
      (channel l.input_peaks i ≡ some (readl (4096 + i * 4)))
      × (channel l.playback_peaks i ≡ some (readl (4352 + i * 4)))
      × (channel l.output_peaks i ≡ some (readl (4608 + i * 4)))
      × IsLevel (channel l.input_rms i) (readl (7168 + i * 4)) (readl (6144 + i * 4))
      × IsLevel (channel l.playback_rms i) (readl (7424 + i * 4)) (readl (6400 + i * 4))
      × IsLevel (channel l.output_rms i) (readl (7680 + i * 4)) (readl (6656 + i * 4))
unfolding read_levels peak
read_levels_lem readl i words l = (
  channel_first _ 64 i l,
  channel_first _ 64 i l,
  channel_first _ 64 i l,
  level readl 7168 6144 i words l,
  level readl 7424 6400 i words l,
  level readl 7680 6656 i words l,
)

nonzero_rate :
    (numerator pll_freq : ℕ) (rate : ℕ)
    → (pll_freq == 0) ≡ false
    → u32 (numerator / pll_freq)
      ≡ (if not (pll_freq == 0) then u32 (numerator / pll_freq) else rate)
nonzero_rate numerator pll_freq rate h = rw h refl

-- On each card, whatever its registers read, the sample rate of the configuration is that of the DDS
-- value that the PLL register reads, if it is not 0.
config-system_sample_rate :
    (r : Running) (pll_freq a b c d e : ℕ) (before : Sources)
    → (pll_freq == 0) ≡ false
    → ((config (madi_read_status r pll_freq a b c before) d).system_sample_rate
        ≡ dds_sample_rate r.device pll_freq)
      × ((config (aes_read_status r pll_freq a b c e before) d).system_sample_rate
          ≡ dds_sample_rate r.device pll_freq)
      × ((config (raio_read_status r pll_freq a b c e before) d).system_sample_rate
          ≡ dds_sample_rate r.device pll_freq)
unfolding config madi_read_status aes_read_status raio_read_status read_sample_rate_status
    dds_sample_rate
config-system_sample_rate r pll_freq a b c d e before h =
    let same = nonzero_rate _ pll_freq _ h in (same, same, same)
