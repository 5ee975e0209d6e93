-- ===== src/Cards/References/Options.antt =====
-- The AutoSync options of a card, as a set of sources.
use snd_hdspe.Common.{
  ℕ, zero, suc, ◌<◌, ◌≡◌, arith, refl, Bool, true, false, not, ◌&&◌, ◌||◌, ◌==◌, leb,
}
use snd_hdspe.Common.Finite.{all_below, all_below_sound}
use snd_hdspe.Device.{IoType, madi, madiface, aio, aes, raydat, aio_pro}
use snd_hdspe.Cards.References.{
  tco_source, sync_in_source, intern_source, autosync_opts, nr_autosync_opts, raydat_autosync_ref,
  aio_autosync_ref, aes_autosync_ref, madi_autosync_ref, raio_autosync_ref,
}

-- Whether one of the first n options is the source.
any_option : ℕ → (ℕ → ℕ) → ℕ → Bool
any_option zero opts i = false
any_option (suc n) opts i = (opts n == i) || any_option n opts i

-- An option of the card, the internal clock left out.
pub is_option : IoType → ℕ → Bool
is_option io i = any_option (nr_autosync_opts io) (autosync_opts io) i && not (i == intern_source)

-- The number of the card's digital audio inputs.
unfoldable pub inputs_of : IoType → ℕ
inputs_of madi = 1
inputs_of madiface = 1
inputs_of aes = 8
inputs_of raydat = 6
inputs_of aio = 3
inputs_of aio_pro = 3

unfoldable pub same : Bool → Bool → Bool
same true b = b
same false b = not b

pub same_sound : (a b : Bool) → same a b ≡ true → a ≡ b
unfolding same
same_sound a b h = ground arith

check_options :
    (io : IoType)
    → all_below 16 (λ i.
      same (is_option io i) (leb i (inputs_of io) || (i == tco_source) || (i == sync_in_source)))
      ≡ true
unfolding all_below same is_option any_option autosync_opts nr_autosync_opts inputs_of
    raydat_autosync_ref aio_autosync_ref aes_autosync_ref madi_autosync_ref raio_autosync_ref
check_options madi = refl
check_options madiface = refl
check_options aes = refl
check_options raydat = refl
check_options aio = refl
check_options aio_pro = refl

-- The options are the word clock, the inputs, the TCO and the sync input.
pub is_option-inputs_of :
    (io : IoType) (i : ℕ)
    → i < 16
    → is_option io i ≡ (leb i (inputs_of io) || (i == tco_source) || (i == sync_in_source))
is_option-inputs_of io i l = same_sound _ _ (all_below_sound 16 _ i (check_options io) l)
