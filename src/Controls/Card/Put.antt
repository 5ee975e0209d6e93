-- ===== src/Controls/Card/Put.antt =====
-- The output level of the AIO Pro, and then each read-write control of a card: what is put is got.
use snd_hdspe.Common.{
  ℕ, ◌≡◌, ◌<◌, ◌+◌, ◌/◌, ◌%◌, ◌^◌, inl, inr, refl, false, ◌==◌, if◌then◌else◌, arith,
}
use snd_hdspe.Common.Bits.Fields.{put_field, get_field-put_field, get_field-put_field_other}
use snd_hdspe.Driver.{Hardware, write_settings, hdspe_write}
use snd_hdspe.Controls.{
  write_reg, get_aio_pro_output_level, set_aio_pro_output_level, put_aio_pro_output_level,
}
use snd_hdspe.Controls.Card.{
  CardControl, of_field, aio_pro_output_level, card_range, card_get, card_put,
}
use snd_hdspe.Controls.Property.{IsProperty, PutLaw, control_put-PutLaw}
use snd_hdspe.Controls.Fields.{put-PutLaw}

level_parts : (val : ℕ) → val < 8 → val % 4 % 2 ^ 2 + (if val / 4 % 2 ^ 1 == 0 then 0 else 4) ≡ val
level_parts val l = ground arith

level-IsProperty : IsProperty 8 get_aio_pro_output_level set_aio_pro_output_level
unfolding get_aio_pro_output_level set_aio_pro_output_level write_reg write_settings hdspe_write
level-IsProperty = record {
  get-put = λ val h l.
      let with_gain = put_field 22 2 (val % 4) h.reg.settings in
      rw
        (
          get_field-put_field 26 1 (val / 4) with_gain,
          get_field-put_field_other 26 1 22 2 (val / 4) with_gain (inr (omega arith)),
          get_field-put_field 22 2 (val % 4) h.reg.settings,
        )
        (level_parts val l);
  no_error = λ val h l. inl refl;
}

-- A level of the AIO Pro below 8, put into its control.
level-PutLaw :
    (val : ℕ) (h : Hardware)
    → val < 8
    → PutLaw get_aio_pro_output_level put_aio_pro_output_level val h
unfolding put_aio_pro_output_level
level-PutLaw val h l = control_put-PutLaw 8 _ _ false val h level-IsProperty l

-- A value in the range of a read-write control of a card, put into it.
pub card_put-PutLaw :
    (c : CardControl) (val : ℕ) (h : Hardware)
    → val < card_range c
    → PutLaw (card_get c) (card_put c) val h
unfolding card_range card_get card_put
card_put-PutLaw (of_field c) val h l = put-PutLaw c val h l
card_put-PutLaw aio_pro_output_level val h l = level-PutLaw val h l
