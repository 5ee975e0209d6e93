-- ===== src/Controls/Fields.antt =====
-- The controls that stand for a register's field: they keep what `hdspe_control_put` needs, and no
-- control of a card changes another of its fields.

use native.Mathlib.Nat.{mod-eq_of_lt}
use snd_hdspe.Common.{
  ℕ, ◌≡◌, ◌<◌, ◌^◌, inl, inr, refl, sym, ap, ◌∙◌, false, ◌==◌, Bool-cases, ==_iff,
}
use snd_hdspe.Common.Bits.Fields.{get_field, get_field-put_field}
use snd_hdspe.Device.{IoType, madi, madiface, aio, aes, raydat, aio_pro}
use snd_hdspe.Driver.{Hardware, write_control, write_settings, hdspe_write}
use snd_hdspe.Controls.{
  RegName, control, settings, Place, in_control, in_settings, ControlName, place, raw_of, write_reg,
  get_reg, assign, put_reg, put, get, clock_mode_place, madi_clock_mode, aes_clock_mode,
  raio_clock_mode, get_clock_mode, set_clock_mode, put_clock_mode,
}
use snd_hdspe.Controls.Property.{
  IsProperty, DetectsChanges, PutLaw, changed_of, control_put-PutLaw, detecting-PutLaw,
}

raw_of-write_reg : (r : RegName) (raw : ℕ) (h : Hardware) → raw_of r (write_reg r raw h).reg ≡ raw
unfolding raw_of write_reg write_control write_settings hdspe_write
raw_of-write_reg control raw h = refl
raw_of-write_reg settings raw h = refl

get_reg-assign :
    (p : Place) (val : ℕ) (h : Hardware) → val < 2 ^ p.width → get_reg p (assign p val h) ≡ val
unfolding get_reg assign
get_reg-assign p val h l =
    ap (get_field (p.first) (p.width)) (raw_of-write_reg p.reg _ h)
    ∙ (get_field-put_field (p.first) (p.width) val _ ∙ mod-eq_of_lt l)

put_reg-DetectsChanges : (p : Place) → DetectsChanges (2 ^ p.width) (get_reg p) (put_reg p)
unfolding put_reg changed_of
put_reg-DetectsChanges p = record {
  is_property = record {
    get-put = λ val h l. elim (Bool-cases (val == get_reg p h)) [
      | inl same ↦ rw same (sym ((==_iff val (get_reg p h)).0 same))
      | inr differs ↦ rw differs (get_reg-assign p val h l)
    ];
    no_error = λ val h l. elim (Bool-cases (val == get_reg p h)) [
      | inl same ↦ rw same (inl refl)
      | inr differs ↦ rw differs (inr refl)
    ];
  };
  same = λ val h same. rw same refl;
  result = λ val h l. elim (Bool-cases (val == get_reg p h)) [
    | inl same ↦ rw same refl
    | inr differs ↦ rw differs refl
  ];
}

-- Each control with a register's field: a value that the field can hold, once put, is what the
-- control gives; the result is 1 if it has changed and 0 if not; and putting it again does nothing.
pub put-PutLaw :
    (c : ControlName) (val : ℕ) (h : Hardware)
    → val < 2 ^ (place c).width
    → PutLaw (get c) (put c) val h
unfolding put get
put-PutLaw c val h l = detecting-PutLaw _ _ _ false val h (put_reg-DetectsChanges (place c)) l

clock_mode_place-width : (io : IoType) → (clock_mode_place io).width ≡ 1
unfolding clock_mode_place madi_clock_mode aes_clock_mode raio_clock_mode in_control in_settings
clock_mode_place-width madi = refl
clock_mode_place-width madiface = refl
clock_mode_place-width aes = refl
clock_mode_place-width aio = refl
clock_mode_place-width raydat = refl
clock_mode_place-width aio_pro = refl

set_clock_mode-IsProperty : (io : IoType) → IsProperty 2 (get_clock_mode io) (set_clock_mode io)
unfolding set_clock_mode get_clock_mode
set_clock_mode-IsProperty io = record {
  get-put =
      λ val h l. get_reg-assign (clock_mode_place io) val h (rw (clock_mode_place-width io) l);
  no_error = λ val h l. inl refl;
}

put_clock_mode-PutLaw :
    (io : IoType) (val : ℕ) (h : Hardware)
    → val < 2
    → PutLaw (get_clock_mode io) (put_clock_mode io) val h
unfolding put_clock_mode
put_clock_mode-PutLaw io val h l =
    control_put-PutLaw 2 _ _ false val h (set_clock_mode-IsProperty io) l
