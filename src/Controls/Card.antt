-- ===== src/Controls/Card.antt =====
-- The read-write controls of a card's table, snd_hdspe_controls_madi to snd_hdspe_controls_aio_pro of
-- hdspe_control.c: those of one register field, and the output level of the AIO Pro, which is made of
-- two.
pub mod Put
use snd_hdspe.Common.{ℕ, ◌^◌, List, [], ◌∷◌, ◌++◌, map}
use snd_hdspe.Common.Int.{ℤ}
use snd_hdspe.Device.{IoType, aio_pro}
use snd_hdspe.Driver.{Hardware}
use snd_hdspe.Controls.{
  Place, in_settings, ControlName, place, controls_of, get, put, get_aio_pro_output_level,
  put_aio_pro_output_level,
}

pub data CardControl : Type 0 where
  of_field : ControlName → CardControl
  aio_pro_output_level : CardControl

unfoldable pub pro_controls : IoType → List CardControl
pro_controls aio_pro = aio_pro_output_level ∷ []
pro_controls _ = []

unfoldable pub card_controls : IoType → List CardControl
card_controls io = pro_controls io ++ map of_field (controls_of io)

-- The values that a control can hold are those below.
unfoldable pub card_range : CardControl → ℕ
card_range (of_field c) = 2 ^ (place c).width
card_range aio_pro_output_level = 8

unfoldable pub card_get : CardControl → Hardware → ℕ
card_get (of_field c) h = get c h
card_get aio_pro_output_level h = get_aio_pro_output_level h

unfoldable pub card_put : CardControl → ℕ → Hardware → Hardware × ℤ
card_put (of_field c) val h = put c val h
card_put aio_pro_output_level val h = put_aio_pro_output_level val h

-- The register fields that the put of a control assigns.
unfoldable pub assigned : CardControl → List Place
assigned (of_field c) = place c ∷ []
assigned aio_pro_output_level = in_settings 22 2 ∷ (in_settings 26 1 ∷ [])
