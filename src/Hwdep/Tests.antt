-- ===== src/Hwdep/Tests.antt =====
-- Runs of the requests.
use snd_hdspe.Common.{ℕ, ◌*◌, ◌%◌, ◌^◌, ◌<◌, ◌≡◌, arith, refl, true, false, some}
use snd_hdspe.Common.Int.{negsuc}
use native.Mathlib.Nat.{mod-lt}
use snd_hdspe.Hwdep.{get_ltc, get_mixer, ioctl, copied, read_levels}
use snd_hdspe.Hwdep.Meters.{channel, IsLevel, read_levels_lem}

-- Without a TCO, and where a copy fails.
results :
    (ioctl get_ltc false true true ≡ negsuc 21) × (ioctl get_mixer true false true ≡ negsuc 13)
unfolding ioctl copied
results = (refl, refl)

abbrev readl : ℕ → ℕ
readl a = a * 1000003 % 2 ^ 32

readl_bound : (a : ℕ) → readl a < 2 ^ 32
readl_bound a = mod-lt (a * 1000003) (omega arith)

read_levels_lem_example :
    let l = read_levels readl in
    (channel l.input_peaks 63 ≡ some (readl 4348))
    × (channel l.playback_peaks 63 ≡ some (readl 4604))
    × (channel l.output_peaks 63 ≡ some (readl 4860))
    × IsLevel (channel l.input_rms 63) (readl 7420) (readl 6396)
    × IsLevel (channel l.playback_rms 63) (readl 7676) (readl 6652)
    × IsLevel (channel l.output_rms 63) (readl 7932) (readl 6908)
read_levels_lem_example = read_levels_lem readl 63 readl_bound (omega arith)
