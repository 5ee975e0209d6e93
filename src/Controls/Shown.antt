-- ===== src/Controls/Shown.antt =====
-- What the status of a card says of its controls: the fields of struct hdspe_status in hdspe.h that are
-- named like them.
pub mod Put
use mathlib.Core.List.{Memᴰ}
use native.Mathlib.Nat.{mod-lt}
use snd_hdspe.Common.{
  ℕ, ◌≡◌, ◌<◌, ◌+◌, ◌/◌, ◌^◌, ◌⊎◌, inl, inr, refl, sym, ap, ◌∙◌, Bool, not, ◌==◌, if◌then◌else◌,
  Option, none, some, List, [], ◌∷◌, arith,
}
use snd_hdspe.Common.Bits.Fields.{get_field, get_field-eq}
use snd_hdspe.Device.{IoType, madi, madiface, aio, aes, raydat, aio_pro}
use snd_hdspe.Cards.Status.{
  field, flag, Special, madi_special, aes_special, raio_special, aio_levels, aio_pro_levels,
  Sources, Status, Running,
}
use snd_hdspe.Cards.Status.Registers.{control_madi, control_aes, settings_raio}
use snd_hdspe.Cards.Status.Read.{
  Registers, madi_read_status, aes_read_status, raio_read_status, levels, read_method, read_status,
}
use snd_hdspe.Driver.{Hardware}
use snd_hdspe.Controls.{
  ControlName, madi_sswclk, madi_line_out, madi_clr_tms, madi_tx_64ch, madi_smux, madi_autoinput,
  madi_input_select, aes_ds_mode, aes_qs_mode, aes_emp, aes_dolby, aes_pro, aes_line_out,
  aes_sswclk, aes_clr_tms, raio_spdif_opt, raio_spdif_pro, raio_aeb1, raio_aeb2, raio_sswclk,
  raio_clr_tms, aio_xlr, raio_spdif_in, aio_input_level, aio_output_level, aio_phones_level, place,
  in_control, in_settings, raw_of, get_reg, get, get_aio_pro_output_level, controls_of,
  madi_controls, madiface_controls, aes_controls, raydat_controls, aio_controls, aio_pro_controls,
}
use snd_hdspe.Controls.Card.{
  CardControl, of_field, aio_pro_output_level, pro_controls, card_controls, card_range, card_get,
  card_put,
}
use snd_hdspe.Controls.Card.Put.{card_put-PutLaw}
use snd_hdspe.Controls.Property.{PutLaw}

pub number : Bool → ℕ
number b = if b then 1 else 0

-- The field of the card's part of `struct hdspe_status` that is named like the control.
pub reported_special : ControlName → Special → Option ℕ
reported_special madi_input_select (madi_special input auto tx smux source rx) = some (number input)
reported_special madi_autoinput (madi_special input auto tx smux source rx) = some (number auto)
reported_special madi_tx_64ch (madi_special input auto tx smux source rx) = some (number tx)
reported_special madi_smux (madi_special input auto tx smux source rx) = some (number smux)
reported_special aes_pro (aes_special pro emp dolby line_out ds qs mode) = some (number pro)
reported_special aes_emp (aes_special pro emp dolby line_out ds qs mode) = some (number emp)
reported_special aes_dolby (aes_special pro emp dolby line_out ds qs mode) = some (number dolby)
reported_special aes_line_out (aes_special pro emp dolby line_out ds qs mode) =
    some (number line_out)
reported_special aes_ds_mode (aes_special pro emp dolby line_out ds qs mode) = some (number ds)
reported_special aes_qs_mode (aes_special pro emp dolby line_out ds qs mode) = some qs
reported_special raio_aeb1 (raio_special aebo aebi aeb1 aeb2 input opt pro l) = some (number aeb1)
reported_special raio_aeb2 (raio_special aebo aebi aeb1 aeb2 input opt pro l) = some (number aeb2)
reported_special raio_spdif_in (raio_special aebo aebi aeb1 aeb2 input opt pro l) = some input
reported_special raio_spdif_opt (raio_special aebo aebi aeb1 aeb2 input opt pro l) =
    some (number opt)
reported_special raio_spdif_pro (raio_special aebo aebi aeb1 aeb2 input opt pro l) =
    some (number pro)
reported_special aio_input_level (raio_special _ _ _ _ _ _ _ (aio_levels i o p xlr)) = some i
reported_special aio_output_level (raio_special _ _ _ _ _ _ _ (aio_levels i o p xlr)) = some o
reported_special aio_phones_level (raio_special _ _ _ _ _ _ _ (aio_levels i o p xlr)) = some p
reported_special aio_xlr (raio_special _ _ _ _ _ _ _ (aio_levels i o p xlr)) = some (number xlr)
reported_special aio_input_level (raio_special _ _ _ _ _ _ _ (aio_pro_levels i o p)) = some i
reported_special aio_phones_level (raio_special _ _ _ _ _ _ _ (aio_pro_levels i o p)) = some p
reported_special _ _ = none

pub pro_level : Special → Option ℕ
pro_level (raio_special _ _ _ _ _ _ _ (aio_pro_levels i o p)) = some o
pro_level _ = none

-- What a status says of a control: the field of the same name, none where there is no such field.
pub reported : CardControl → Status → Option ℕ
reported aio_pro_output_level s = pro_level s.special
reported (of_field madi_sswclk) s = some (number s.wck48)
reported (of_field aes_sswclk) s = some (number s.wck48)
reported (of_field raio_sswclk) s = some (number s.wck48)
reported (of_field madi_clr_tms) s = some (number s.clr_tms)
reported (of_field aes_clr_tms) s = some (number s.clr_tms)
reported (of_field raio_clr_tms) s = some (number s.clr_tms)
reported (of_field c) s = reported_special c s.special

-- The status of a card with the registers of the driver's cache, and the status registers g.
pub status_of : Running → Registers → Sources → Hardware → Status
status_of r g before h =
    read_status r (record g { control = h.reg.control; settings = h.reg.settings }) before
