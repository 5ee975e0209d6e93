-- ===== src/Pcm/Streams/Silence.antt =====
-- hdspe_silence_playback: which bytes of the playback buffer it clears.
use mathlib.Core.Option
use mathlib.Core.Path.{fun_ext}
use snd_hdspe.Common.{
  ℕ, zero, suc, ◌≡◌, ◌≤◌, ◌+◌, ◌*◌, ◌%◌, refl, ap, Bool, ◌&&◌, ltb, leb, if◌then◌else◌, Option,
  none, some, arith,
}
use snd_hdspe.Pcm.Streams.{zero_bytes, silence_channels, silence_playback}

-- The first n bytes of each of the first channels' 65536 bytes.
unfoldable pub is_silent : (channels n i : ℕ) → Bool
is_silent channels n i = ltb i (channels * 65536) && ltb (i % 65536) n

-- A buffer with these bytes 0 and all others as before.
unfoldable pub silent : (channels n : ℕ) → (ℕ → ℕ) → ℕ → ℕ
silent channels n bytes i = if is_silent channels n i then 0 else bytes i

next_channel :
    (k n i x : ℕ)
    → n ≤ 65536
    → (if leb (k * 65536) i && ltb i (k * 65536 + n)
        then 0
        else if ltb i (k * 65536) && ltb (i % 65536) n
        then 0
        else x)
      ≡ (if ltb i (suc k * 65536) && ltb (i % 65536) n then 0 else x)
next_channel k n i x l = ground (arith, l)

silence_channels-silent :
    (channels n : ℕ) (bytes : ℕ → ℕ) (i : ℕ)
    → n ≤ 65536
    → silence_channels channels n bytes i ≡ silent channels n bytes i
unfolding silence_channels zero_bytes silent is_silent
silence_channels-silent zero n bytes i l = ground arith
silence_channels-silent (suc k) n bytes i l =
    rw (silence_channels-silent k n bytes i l) (next_channel k n i (bytes i) l)

pub silence_playback-silent :
    (period_size : ℕ) (buffer : Option (ℕ → ℕ))
    → period_size ≤ 16384
    → silence_playback period_size buffer ≡ Option.map (silent 64 (period_size * 4)) buffer
unfolding silence_playback
silence_playback-silent period_size none l = refl
silence_playback-silent period_size (some bytes) l =
    ap some (fun_ext (λ i. silence_channels-silent 64 (period_size * 4) bytes i (omega (arith, l))))
