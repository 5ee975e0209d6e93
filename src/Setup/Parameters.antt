-- ===== src/Setup/Parameters.antt =====
-- `snd_hdspe_hw_params`: what it refuses, and the rate, period and DMA channels that it leaves.
use snd_hdspe.Common.{
  ℕ, zero, suc, ◌*◌, ◌^◌, ◌≤◌, ◌<◌, ◌≡◌, ◌⊎◌, inl, inr, arith, refl, Bool, true, false, ◌||◌, ◌==◌,
  some, ap, sym, ◌∙◌, Bool-cases,
}
use snd_hdspe.Common.Int.{ℤ, pos, negsuc, is_negative}
use snd_hdspe.Device.{Direction, playback, capture, is_raydat_or_aio}
use snd_hdspe.Clock.{sample_rate_speed_mode}
use snd_hdspe.Clock.Freq.{IsClocked}
use snd_hdspe.Clock.Dds.System.{write_system_sample_rate-io_type}
use snd_hdspe.Pcm.{Stream, set_interrupt_interval}
use snd_hdspe.Pcm.Period.{set_interrupt_interval_lem}
use snd_hdspe.Mixer.Channels.{mark, used_channels}
use snd_hdspe.Cards.{Channels, channel_map, map_of, set_channel_map, speed_channels}
use snd_hdspe.Setup.{
  Card, Request, set_sample_rate, is_busy, is_direction, enable, enable_channels, set_float_format,
  allocated, with_interval, hw_params,
}

is_direction_refl : (d : Direction) → is_direction d d ≡ true
unfolding is_direction
is_direction_refl playback = refl
is_direction_refl capture = refl

enable-enabled :
    (d : Direction) (z : ℤ) (address : ℕ → ℕ) (c : Card) (used : ℕ → Bool) (before : Bool) (x : ℕ)
    → c.enabled d x ≡ (used x || before)
    → (enable d z address c).enabled d x ≡ (mark z used x || before)
unfolding enable mark
enable-enabled d (negsuc n) address c used before x h = h
enable-enabled d (pos k) address c used before x h = elim (Bool-cases (x == k)) [
  | inl here ↦ rw (is_direction_refl d, here) refl
  | inr elsewhere ↦ rw (is_direction_refl d, elsewhere) h
]

-- The channels that the map uses are enabled, and those that were.
enable_channels-enabled :
    (n : ℕ) (map : ℕ → ℤ) (d : Direction) (address : ℕ → ℕ) (c : Card) (x : ℕ)
    → (enable_channels n map d address c).enabled d x ≡ (used_channels n map x || c.enabled d x)
unfolding enable_channels used_channels
enable_channels-enabled zero map d address c x = refl
enable_channels-enabled (suc n) map d address c x =
    enable-enabled d (map n) address (enable_channels n map d address c) (used_channels n map)
      (c.enabled d x) x (enable_channels-enabled n map d address c x)

record Same (c c' : Card) : Type 0 where
  stream : c'.stream ≡ c.stream
  channels : c'.channels ≡ c.channels

enable-Same : (d : Direction) (z : ℤ) (address : ℕ → ℕ) (c : Card) → Same c (enable d z address c)
unfolding enable
enable-Same d (negsuc n) address c = record { stream = refl; channels = refl }
enable-Same d (pos k) address c = record { stream = refl; channels = refl }

enable_channels-Same :
    (n : ℕ) (map : ℕ → ℤ) (d : Direction) (address : ℕ → ℕ) (c : Card)
    → Same c (enable_channels n map d address c)
unfolding enable_channels
enable_channels-Same zero map d address c = record { stream = refl; channels = refl }
enable_channels-Same (suc n) map d address c =
    let first = enable_channels-Same n map d address c in
    let last = enable-Same d (map n) address (enable_channels n map d address c) in
    record { stream = last.stream ∙ first.stream; channels = last.channels ∙ first.channels }

-- If the other stream belongs to another process and runs at another rate or period, the request is
-- refused with -EBUSY, and nothing changes.
pub hw_params_busy :
    (c : Card) (d : Direction) (r : Request)
    → is_busy c d r ≡ true
    → hw_params c d r ≡ some (c, negsuc 15)
unfolding hw_params
hw_params_busy c d r h = rw h refl

-- A card with a clock, and a request that it can meet: a period of 64 to 16383 frames, below 8192 on
-- the RayDAT and AIO cards, and memory for the buffer.
pub record IsMet (c : Card) (r : Request) : Type 0 where
  pub clocked : IsClocked c.stream.device
  pub period_low : 64 ≤ r.period
  pub period_high : r.period < 16384
  pub period_new : (r.period < 8192) ⊎ (is_raydat_or_aio c.stream.device.io_type ≡ false)
  pub memory : is_negative r.malloc_pages ≡ false

-- What the request leaves: the channel maps and counts of the rate's speed mode, a period that is a
-- power of two, and the DMA channels enabled that the map uses for the channels asked for.
pub record SetUp (c : Card) (d : Direction) (r : Request) (c' : Card) : Type 0 where
  pub channels : c'.channels ≡ speed_channels c.tables (sample_rate_speed_mode r.rate) c.channels
  pub period_exponent : ℕ
  pub period : c'.stream.period_size ≡ 64 * 2 ^ period_exponent
  pub period_below : c'.stream.period_size ≤ r.period
  pub period_above : r.period < 2 * c'.stream.period_size
  pub enabled :
      (x : ℕ)
      → c'.enabled d x
        ≡ (used_channels r.channels (channel_map (map_of c'.channels d)) x || c.enabled d x)

allocated-Same :
    (c : Card) (d : Direction) (r : Request)
    → is_negative r.malloc_pages ≡ false
    → (c' : Card) × (allocated c d r ≡ (c', pos 0))
      × Same c c'
      × ((x : ℕ)
          → c'.enabled d x
            ≡ (used_channels r.channels (channel_map (map_of c.channels d)) x || c.enabled d x))
unfolding allocated set_float_format
allocated-Same c d r h =
    let map : ℕ → ℤ = channel_map (map_of c.channels d) in
    let same = enable_channels-Same r.channels map d r.page_address c in
    rw h (
      _,
      refl,
      record { stream = same.stream; channels = same.channels },
      λ x. enable_channels-enabled r.channels map d r.page_address c x,
    )

interval_ends :
    (c : Card) (d : Direction) (r : Request) (s' : Stream) (c' : Card)
    → is_busy c d r ≡ false
    → set_interrupt_interval (set_sample_rate c r.rate).0.stream r.period ≡ some s'
    → allocated (record ((set_sample_rate c r.rate).0) { stream = s' }) d r ≡ (c', pos 0)
    → hw_params c d r ≡ some (c', pos 0)
unfolding hw_params with_interval
interval_ends c d r s' c' free ends done = rw free (rw ends (ap some done))

-- On a card that can meet the request, with no conflict with another process, hw_params succeeds.
pub hw_params_lem :
    (c : Card) (d : Direction) (r : Request)
    → is_busy c d r ≡ false
    → IsMet c r
    → (c' : Card) × (hw_params c d r ≡ some (c', pos 0)) × SetUp c d r c'
unfolding set_sample_rate set_channel_map
hw_params_lem c d r free h =
    let rated : Card = (set_sample_rate c r.rate).0 in
    let io = write_system_sample_rate-io_type c.stream.device r.rate h.clocked in
    let new : (r.period < 8192) ⊎ (is_raydat_or_aio rated.stream.device.io_type ≡ false) =
      elim h.period_new [ inl less ↦ inl less | inr old ↦ inr (ap is_raydat_or_aio io ∙ old) ] in
    let (s', n, ends, size, below, above) =
      set_interrupt_interval_lem rated.stream r.period h.period_low h.period_high new in
    let timed : Card = record rated { stream = s' } in
    let (c', done, same, enabled) = allocated-Same timed d r h.memory in
    let size' : c'.stream.period_size ≡ s'.period_size =
      ap (λ (s : Stream). s.period_size) same.stream in
    (
      c',
      interval_ends c d r s' c' free ends done,
      record {
        channels = same.channels;
        period_exponent = n;
        period = size' ∙ size;
        period_below = omega (arith, size', below);
        period_above = omega (arith, size', above);
        enabled = λ x.
            enabled x
            ∙ ap
                (λ (k : Channels).
                  used_channels r.channels (channel_map (map_of k d)) x || c.enabled d x)
                (sym same.channels);
      },
    )
