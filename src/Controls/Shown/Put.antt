-- ===== src/Controls/Shown/Put.antt =====
-- What the read_status methods of the card drivers report for a control is what was put into it.
use mathlib.Core.List.{Memᴰ}
use native.Mathlib.Nat.{mod-lt}
use snd_hdspe.Common.{
  ℕ, ◌≡◌, ◌<◌, ◌+◌, ◌/◌, ◌^◌, ◌⊎◌, inl, inr, refl, sym, ap, ◌∙◌, not, ◌==◌, if◌then◌else◌, some,
  List, [], ◌∷◌, arith,
}
use snd_hdspe.Common.Bits.Fields.{get_field, get_field-eq}
use snd_hdspe.Device.{IoType, madi, madiface, aio, aes, raydat, aio_pro}
use snd_hdspe.Cards.Status.{field, flag, Sources, Running}
use snd_hdspe.Cards.Status.Registers.{control_madi, control_aes, settings_raio}
use snd_hdspe.Cards.Status.Read.{
  Registers, madi_read_status, aes_read_status, raio_read_status, levels, read_method, read_status,
}
use snd_hdspe.Driver.{Hardware}
use snd_hdspe.Controls.{
  madi_line_out, place, in_control, in_settings, raw_of, get_reg, get, get_aio_pro_output_level,
  controls_of, madi_controls, madiface_controls, aes_controls, raydat_controls, aio_controls,
  aio_pro_controls,
}
use snd_hdspe.Controls.Card.{
  CardControl, of_field, pro_controls, card_controls, card_range, card_get, card_put,
}
use snd_hdspe.Controls.Card.Put.{card_put-PutLaw}
use snd_hdspe.Controls.Property.{PutLaw}
use snd_hdspe.Controls.Shown.{number, reported_special, pro_level, reported, status_of}

bit_number : (x : ℕ) → x < 2 → number (not (x == 0)) ≡ x
unfolding number
bit_number x l = ground arith

number-flag : (register first : ℕ) → number (flag register first) ≡ get_field first 1 register
unfolding flag field
number-flag register first =
    bit_number _ (mod-lt (register / 2 ^ first) (omega arith)) ∙ sym (get_field-eq first 1 register)

field-get_field :
    (register first width : ℕ) → field register first width ≡ get_field first width register
unfolding field
field-get_field register first width = sym (get_field-eq first width register)

-- Each element of a list has a property.
Each : {A : Type 0} → (A → Type 0) → List A → Type 0
Each P [] = Unit
Each P (x ∷ xs) = P x × Each P xs

infixr 20 ◌&◌
◌&◌ : {B C : Type 0} → B → C → B × C
b & c = (b, c)

each_sound : {A : Type 0} (P : A → Type 0) (x : A) (xs : List A) → Each P xs → Memᴰ x xs → P x
unfolding Each
each_sound P x [] e m = elim m [ ]
each_sound P x (y ∷ ys) (p, e) (Memᴰ.head h) = rw h p
each_sound P x (y ∷ ys) (p, e) (Memᴰ.tail m) = each_sound P x ys e m

-- A control is the MADI's line out, or the status says what the control gives.
Agrees : IoType → Running → Registers → Sources → Hardware → CardControl → Type 0
Agrees io r g before h c =
    (c ≡ of_field madi_line_out)
    ⊎ (reported c (
          read_method io r (record g { control = h.reg.control; settings = h.reg.settings }) before)
        ≡ some (card_get c h))

by_flag :
    (first register : ℕ) → some (number (flag register first)) ≡ some (get_field first 1 register)
by_flag first register = ap some (number-flag register first)

by_field :
    (first width register : ℕ)
    → some (field register first width) ≡ some (get_field first width register)
by_field first width register = ap some (field-get_field register first width)

level_bonus :
    (register : ℕ)
    → field register 22 2 + (if flag register 26 then 4 else 0)
      ≡ get_field 22 2 register + (if get_field 26 1 register == 0 then 0 else 4)
unfolding flag
level_bonus register =
    rw (field-get_field register 22 2, field-get_field register 26 1) (ground arith)

module _ (r : Running) (g : Registers) (before : Sources) (h : Hardware) where
  madi_agrees : Each (Agrees madi r g before h) (card_controls madi)
  unfolding Each Agrees card_controls pro_controls controls_of madi_controls reported
      reported_special read_method madi_read_status card_get get get_reg place in_control raw_of
      control_madi
  madi_agrees =
      ((inr (by_flag 10 _))
        & (inr (by_flag 18 _))
        & (inr (by_flag 11 _))
        & (inr (by_flag 14 _))
        & (inl refl)
        & (inr (by_flag 20 _))
        & (inr (by_flag 19 _))
        & tt)

  madiface_agrees : Each (Agrees madiface r g before h) (card_controls madiface)
  unfolding Each Agrees card_controls pro_controls controls_of madiface_controls reported
      reported_special read_method madi_read_status card_get get get_reg place in_control raw_of
      control_madi
  madiface_agrees = inr (by_flag 10 _) & inr (by_flag 11 _) & tt

  aes_agrees : Each (Agrees aes r g before h) (card_controls aes)
  unfolding Each Agrees card_controls pro_controls controls_of aes_controls reported
      reported_special read_method aes_read_status card_get get get_reg place in_control raw_of
      control_aes
  aes_agrees =
      ((inr (by_flag 26 _))
        & (inr (by_field 27 2 _))
        & (inr (by_flag 9 _))
        & (inr (by_flag 10 _))
        & (inr (by_flag 11 _))
        & (inr (by_flag 24 _))
        & (inr (by_flag 20 _))
        & (inr (by_flag 19 _))
        & tt)

  raydat_agrees : Each (Agrees raydat r g before h) (card_controls raydat)
  unfolding Each Agrees card_controls pro_controls controls_of raydat_controls reported
      reported_special read_method raio_read_status card_get get get_reg place in_settings raw_of
      settings_raio
  raydat_agrees =
      ((inr (by_field 12 2 _))
        & (inr (by_flag 14 _))
        & (inr (by_flag 15 _))
        & (inr (by_flag 17 _))
        & (inr (by_flag 18 _))
        & (inr (by_flag 5 _))
        & (inr (by_flag 16 _))
        & tt)

  aio_agrees : r.device.io_type ≡ aio → Each (Agrees aio r g before h) (card_controls aio)
  unfolding Each Agrees card_controls pro_controls controls_of aio_controls reported
      reported_special read_method raio_read_status card_get get get_reg place in_settings raw_of
      settings_raio levels
  aio_agrees e = rw e (
      (inr (by_field 12 2 _))
      & (inr (by_flag 14 _))
      & (inr (by_flag 15 _))
      & (inr (by_flag 17 _))
      & (inr (by_flag 5 _))
      & (inr (by_flag 16 _))
      & (inr (by_flag 26 _))
      & (inr (by_field 20 2 _))
      & (inr (by_field 22 2 _))
      & (inr (by_field 24 2 _))
      & tt)

  aio_pro_agrees :
      r.device.io_type ≡ aio_pro → Each (Agrees aio_pro r g before h) (card_controls aio_pro)
  unfolding Each Agrees card_controls pro_controls controls_of aio_pro_controls reported
      reported_special pro_level read_method raio_read_status card_get get get_reg place in_settings
      raw_of settings_raio levels get_aio_pro_output_level
  aio_pro_agrees e = rw e (
      inr (ap (λ (x : ℕ). some x) (level_bonus h.reg.settings))
      & (inr (by_field 12 2 _))
      & (inr (by_flag 14 _))
      & (inr (by_flag 15 _))
      & (inr (by_flag 17 _))
      & (inr (by_flag 5 _))
      & (inr (by_flag 16 _))
      & (inr (by_field 20 2 _))
      & (inr (by_field 24 2 _))
      & tt)

agrees :
    (io : IoType) (r : Running) (g : Registers) (before : Sources) (h : Hardware)
    → r.device.io_type ≡ io
    → Each (Agrees io r g before h) (card_controls io)
agrees madi r g before h e = madi_agrees r g before h
agrees madiface r g before h e = madiface_agrees r g before h
agrees aes r g before h e = aes_agrees r g before h
agrees raydat r g before h e = raydat_agrees r g before h
agrees aio r g before h e = aio_agrees r g before h e
agrees aio_pro r g before h e = aio_pro_agrees r g before h e

-- A value in the range of a read-write control of the card's table, the output level of the AIO Pro
-- included, once put into the control, is what the control gives and, but for the MADI's line out,
-- what the card's read_status reports in the field of the same name, whatever the status registers
-- and the rest of the driver's state are. The result of the put is 1 if the value has changed and 0
-- if not, and the same put again does nothing.
pub reported-card_put :
    (r : Running) (g : Registers) (before : Sources) (c : CardControl) (val : ℕ) (h : Hardware)
    → Memᴰ c (card_controls r.device.io_type)
    → val < card_range c
    → PutLaw (card_get c) (card_put c) val h
      × ((c ≡ of_field madi_line_out)
          ⊎ (reported c (status_of r g before (card_put c val h).0) ≡ some val))
unfolding Agrees status_of read_status
reported-card_put r g before c val h m l =
    let law = card_put-PutLaw c val h l in
    let row = each_sound _ c _ (agrees r.device.io_type r g before (card_put c val h).0 refl) m in
    (
      law,
      elim row [
        | inl line_out ↦ inl line_out
        | inr says ↦ inr (says ∙ ap some (ap (λ o. card_get c o.0) law.puts ∙ law.gets))
      ],
    )
