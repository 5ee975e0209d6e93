-- ===== src/Controls.antt =====
-- The controls of hdspe_control.c that stand for a field of the control or the settings register: the
-- getters, putters and methods that the macros of hdspe_control.h make, the tables of the controls of
-- each card model, the clock mode and the sample format of the card drivers, and the output level of
-- the AIO Pro. The names and texts of the controls and their locks are left out. A value is the
-- number that ALSA passes.
pub mod Card
pub mod Fields
pub mod Property
pub mod Shown
pub mod Tests
pub mod Isolation
use snd_hdspe.Common.{
  ℕ, zero, suc, ◌+◌, ◌*◌, ◌/◌, ◌%◌, Bool, true, false, not, ◌&&◌, ◌||◌, ◌==◌, if◌then◌else◌, Option,
  none, some, List, [], ◌∷◌,
}
use snd_hdspe.Common.Int.{ℤ, pos, negsuc}
use snd_hdspe.Common.Bits.Fields.{get_field, put_field}
use snd_hdspe.Device.{IoType, madi, madiface, aio, aes, raydat, aio_pro}
use snd_hdspe.Driver.{Reg, Hardware, set_control, write_control, write_settings}

-- The registers that have putters.
pub data RegName : Type 0 where
  control settings : RegName

-- A bit field of a register.
pub record Place : Type 0 where
  pub reg : RegName
  pub first : ℕ
  pub width : ℕ

-- The read-write controls of the macros HDSPE_RW_ENUM_REG_METHODS.
pub data ControlName : Type 0 where
  madi_sswclk madi_line_out madi_clr_tms madi_tx_64ch madi_smux madi_autoinput madi_input_select :
      ControlName
  aes_ds_mode aes_qs_mode aes_emp aes_dolby aes_pro aes_line_out aes_sswclk aes_clr_tms :
      ControlName
  raio_spdif_opt raio_spdif_pro raio_aeb1 raio_aeb2 raio_sswclk raio_clr_tms aio_xlr raio_spdif_in :
      ControlName
  aio_input_level aio_output_level aio_phones_level : ControlName

unfoldable pub in_control : ℕ → ℕ → Place
in_control first width = record { reg = control; first = first; width = width }

unfoldable pub in_settings : ℕ → ℕ → Place
in_settings first width = record { reg = settings; first = first; width = width }

pub place : ControlName → Place
place madi_sswclk = in_control 20 1
place madi_line_out = in_control 24 1
place madi_clr_tms = in_control 19 1
place madi_tx_64ch = in_control 10 1
place madi_smux = in_control 18 1
place madi_autoinput = in_control 11 1
place madi_input_select = in_control 14 1
place aes_ds_mode = in_control 26 1
place aes_qs_mode = in_control 27 2
place aes_emp = in_control 10 1
place aes_dolby = in_control 11 1
place aes_pro = in_control 9 1
place aes_line_out = in_control 24 1
place aes_sswclk = in_control 20 1
place aes_clr_tms = in_control 19 1
place raio_spdif_opt = in_settings 14 1
place raio_spdif_pro = in_settings 15 1
place raio_aeb1 = in_settings 17 1
place raio_aeb2 = in_settings 18 1
place raio_sswclk = in_settings 5 1
place raio_clr_tms = in_settings 16 1
place aio_xlr = in_settings 26 1
place raio_spdif_in = in_settings 12 2
place aio_input_level = in_settings 20 2
place aio_output_level = in_settings 22 2
place aio_phones_level = in_settings 24 2

-- The tables of the controls of each card model.
madi_controls : List ControlName
madi_controls =
    madi_tx_64ch
    ∷ (madi_smux
        ∷ (madi_autoinput
            ∷ (madi_input_select ∷ (madi_line_out ∷ (madi_sswclk ∷ (madi_clr_tms ∷ []))))))

madiface_controls : List ControlName
madiface_controls = madi_tx_64ch ∷ (madi_autoinput ∷ [])

aes_controls : List ControlName
aes_controls =
    aes_ds_mode
    ∷ (aes_qs_mode
        ∷ (aes_pro ∷ (aes_emp ∷ (aes_dolby ∷ (aes_line_out ∷ (aes_sswclk ∷ (aes_clr_tms ∷ [])))))))

raydat_controls : List ControlName
raydat_controls =
    raio_spdif_in
    ∷ (raio_spdif_opt
        ∷ (raio_spdif_pro ∷ (raio_aeb1 ∷ (raio_aeb2 ∷ (raio_sswclk ∷ (raio_clr_tms ∷ []))))))

aio_controls : List ControlName
aio_controls =
    raio_spdif_in
    ∷ (raio_spdif_opt
        ∷ (raio_spdif_pro
            ∷ (raio_aeb1
                ∷ (raio_sswclk
                    ∷ (raio_clr_tms
                        ∷ (aio_xlr
                            ∷ (aio_input_level ∷ (aio_output_level ∷ (aio_phones_level ∷ [])))))))))

aio_pro_controls : List ControlName
aio_pro_controls =
    raio_spdif_in
    ∷ (raio_spdif_opt
        ∷ (raio_spdif_pro
            ∷ (raio_aeb1
                ∷ (raio_sswclk ∷ (raio_clr_tms ∷ (aio_input_level ∷ (aio_phones_level ∷ [])))))))

pub controls_of : IoType → List ControlName
controls_of madi = madi_controls
controls_of madiface = madiface_controls
controls_of aes = aes_controls
controls_of raydat = raydat_controls
controls_of aio = aio_controls
controls_of aio_pro = aio_pro_controls

unfoldable pub raw_of : RegName → Reg → ℕ
raw_of control r = r.control
raw_of settings r = r.settings

-- A register in the cache, and the write of it to the card.
pub write_reg : RegName → ℕ → Hardware → Hardware
write_reg control raw h = write_control (record h { reg = record (h.reg) { control = raw } })
write_reg settings raw h = write_settings (record h { reg = record (h.reg) { settings = raw } })

-- HDSPE_REG_GETTER of a cached register.
unfoldable pub get_reg : Place → Hardware → ℕ
get_reg p h = get_field (p.first) (p.width) (raw_of p.reg h.reg)

-- An assignment to a field, which is then written.
pub assign : Place → ℕ → Hardware → Hardware
assign p val h = write_reg p.reg (put_field (p.first) (p.width) val (raw_of p.reg h.reg)) h

-- HDSPE_REG_PUTTER
pub put_reg : Place → ℕ → Hardware → Hardware × ℤ
put_reg p val h = if val == get_reg p h then (h, pos 0) else (assign p val h, pos 1)

-- rc ? rc : changed
or_changed : {A : Type 0} → Bool → A × ℤ → A × ℤ
or_changed changed (a, pos zero) = (a, if changed then pos 1 else pos 0)
or_changed changed (a, rc) = (a, rc)

put_if : {A : Type 0} → Option (A → ℕ) → (ℕ → A → A × ℤ) → ℕ → A → A × ℤ
put_if none put val a = or_changed false (put val a)
put_if (some get) put val a = if val == get a then (a, pos 0) else or_changed true (put val a)

-- `hdspe_control_put`, where exclusive use is required or not, and given or not. -EBUSY is -16.
pub control_put : {A : Type 0} → Bool → Bool → Option (A → ℕ) → (ℕ → A → A × ℤ) → ℕ → A → A × ℤ
control_put excl_req is_exclusive get put val a =
    if excl_req && not is_exclusive then (a, negsuc 15) else put_if get put val a

-- The put method of a control with a register's field.
pub put : ControlName → ℕ → Hardware → Hardware × ℤ
put c val h = control_put false true none (put_reg (place c)) val h

pub get : ControlName → Hardware → ℕ
get c h = get_reg (place c) h

-- The clock mode's field, and the float format's.
unfoldable pub madi_clock_mode : Place
madi_clock_mode = in_control 4 1

unfoldable pub aes_clock_mode : Place
aes_clock_mode = in_control 4 1

unfoldable pub raio_clock_mode : Place
raio_clock_mode = in_settings 0 1

unfoldable pub clock_mode_place : IoType → Place
clock_mode_place madi = madi_clock_mode
clock_mode_place madiface = madi_clock_mode
clock_mode_place aes = aes_clock_mode
clock_mode_place _ = raio_clock_mode

unfoldable pub madi_float_format : Place
madi_float_format = in_control 25 1

unfoldable pub aes_float_format : Place
aes_float_format = in_control 30 1

unfoldable pub raio_float_format : Place
raio_float_format = in_control 25 1

unfoldable pub float_format_place : IoType → Place
float_format_place madi = madi_float_format
float_format_place madiface = madi_float_format
float_format_place aes = aes_float_format
float_format_place _ = raio_float_format

unfoldable pub get_clock_mode : IoType → Hardware → ℕ
get_clock_mode io h = get_reg (clock_mode_place io) h

pub set_clock_mode : IoType → ℕ → Hardware → Hardware × ℤ
set_clock_mode io master h = (assign (clock_mode_place io) master h, pos 0)

unfoldable pub get_float_format : IoType → Hardware → ℕ
get_float_format io h = get_reg (float_format_place io) h

pub set_float_format : IoType → ℕ → Hardware → Hardware
set_float_format io val h = assign (float_format_place io) val h

pub put_clock_mode : IoType → ℕ → Hardware → Hardware × ℤ
put_clock_mode io val h =
    control_put false true (some (get_clock_mode io)) (set_clock_mode io) val h

-- The output level of the AIO Pro: DA_GAIN and Sym6db.
pub get_aio_pro_output_level : Hardware → ℕ
get_aio_pro_output_level h =
    get_field 22 2 h.reg.settings + (if get_field 26 1 h.reg.settings == 0 then 0 else 4)

pub set_aio_pro_output_level : ℕ → Hardware → Hardware × ℤ
set_aio_pro_output_level val h = (
  write_reg settings (put_field 26 1 (val / 4) (put_field 22 2 (val % 4) h.reg.settings)) h,
  pos 0,
)

pub put_aio_pro_output_level : ℕ → Hardware → Hardware × ℤ
put_aio_pro_output_level val h =
    control_put false true (some get_aio_pro_output_level) set_aio_pro_output_level val h
