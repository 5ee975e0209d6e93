-- ===== src/Tco/Fields.antt =====
-- The settings in control registers 1 and 2 of hdspe_tco.c.
use snd_hdspe.Common.{
  ℕ, ◌+◌, ◌*◌, ◌/◌, ◌%◌, ◌^◌, ◌<◌, ◌≡◌, arith, bit_and, bit_or, ap, ◌∙◌, refl, Bool, true, false,
  ◌∷◌, ◌&&◌, ◌||◌, ◌==◌, ==_iff,
}
use snd_hdspe.Common.Bits.{bit_or-add, bit_or-zero}
use snd_hdspe.Common.Bits.Masks.{bit_or_split, bit_or_comm}
use snd_hdspe.Common.Finite.{all_below, all_below_sound, &&-split}
use snd_hdspe.Device.{wr_tco}
use snd_hdspe.Tco.{
  Settings, Tco, flag, field_get, write_tco, settings_reg1, settings_reg2, write_settings, pullbits,
}
use snd_hdspe.Tco.Registers.{field_get-eq, field_prep-eq, bit_and_sync}

-- The settings that the controls of the driver accept.
pub record IsSettings (c : Settings) : Type 0 where
  pub input : c.input < 3
  pub ltc_fps : c.ltc_fps < 4
  pub ltc_drop : c.ltc_drop < 2
  pub sample_rate : c.sample_rate < 3
  pub pull : c.pull < 5
  pub wck_conversion : c.wck_conversion < 3
  pub term : c.term < 2
  pub wck_out_speed : c.wck_out_speed < 3
  pub ltc_flywheel : c.ltc_flywheel < 2

abbrev made : ℕ → ℕ → ℕ → ℕ → ℕ → ℕ → Settings
made input sample_rate pull wck_conversion term ltc_flywheel = record {
  input = input;
  ltc_fps = 0;
  ltc_drop = 0;
  sample_rate = sample_rate;
  pull = pull;
  wck_conversion = wck_conversion;
  term = term;
  wck_out_speed = 0;
  ltc_flywheel = ltc_flywheel;
}

-- The class of the sample rate that the module is told to run at.
abbrev runs_48khz : ℕ → Bool → Bool
runs_48khz sample_rate sys_48khz = (sample_rate == 1) || ((sample_rate == 2) && sys_48khz)

-- Bit 2 for a pull up, bit 1 for a pull down, and bit 0 for one of 4 % in place of 0.1 %, where 0 is no
-- pull, 1 and 2 are 0.1 % up and down, and 3 and 4 are 4 % up and down.
abbrev pull_code : ℕ → ℕ
pull_code pull =
    flag ((pull == 1) || (pull == 3)) * 4
    + flag ((pull == 2) || (pull == 4)) * 2
    + flag ((pull == 3) || (pull == 4))

decodes : ℕ → ℕ → ℕ → ℕ → ℕ → ℕ → Bool → Bool → Bool
decodes i r p c t f sys run =
    let w = bit_and (settings_reg2 (made i r p c t f) sys run) 0x7f7f7f7f in
    (w / 0x20000000 % 4 == i)
    && ((w / 0x20000 % 4 == c)
        && ((w / 0x8000000 % 2 == flag (runs_48khz r sys))
            && ((w / 0x10000000 % 2 == t)
                && ((w / 0x1000000 % 8 == pull_code p)
                    && ((w / 0x10000 % 2 == flag run)
                        && ((w / 0x400000 % 2 == f) && (w / 0x80000000 == 0)))))))

table :
    (sys run : Bool)
    → all_below 3 (λ i. all_below 3 (λ r.
      all_below 5 (λ p.
        all_below 3 (λ c. all_below 2 (λ t. all_below 2 (λ f. decodes i r p c t f sys run))))))
      ≡ true
unfolding all_below decodes settings_reg2 pullbits
table true true = refl
table true false = refl
table false true = refl
table false false = refl

decodes_all :
    (i r p c t f : ℕ) (sys run : Bool)
    → i < 3
    → r < 3
    → p < 5
    → c < 3
    → t < 2
    → f < 2
    → decodes i r p c t f sys run ≡ true
decodes_all i r p c t f sys run hi hr hp hc ht hf =
    let a1 = all_below_sound 3 _ i (table sys run) hi in
    let a2 = all_below_sound 3 _ r a1 hr in
    let a3 = all_below_sound 5 _ p a2 hp in
    let a4 = all_below_sound 3 _ c a3 hc in
    let a5 = all_below_sound 2 _ t a4 ht in all_below_sound 2 _ f a5 hf

-- What the card reads in register 2: the settings, the sample rate that the module runs at, whether
-- time code runs, and nothing in bit 31.
pub record Register2 (c : Settings) (sys_48khz run : Bool) (w : ℕ) : Type 0 where
  pub input : field_get 29 2 w ≡ c.input
  pub wck_conversion : field_get 17 2 w ≡ c.wck_conversion
  pub freq : field_get 27 1 w ≡ flag (runs_48khz c.sample_rate sys_48khz)
  pub term : field_get 28 1 w ≡ c.term
  pub pull : field_get 24 3 w ≡ pull_code c.pull
  pub tc_run : field_get 16 1 w ≡ flag run
  pub flywheel : field_get 22 1 w ≡ c.ltc_flywheel
  pub from_app : field_get 31 1 w ≡ 0

settings_reg2-Register2 :
    (c : Settings) (sys run : Bool)
    → IsSettings c
    → Register2 c sys run (bit_and (settings_reg2 c sys run) 0x7f7f7f7f)
unfolding settings_reg2 decodes
settings_reg2-Register2 c sys run h =
    let w : ℕ = bit_and (settings_reg2 c sys run) 0x7f7f7f7f in
    let all =
      decodes_all c.input c.sample_rate c.pull c.wck_conversion c.term c.ltc_flywheel sys run
        h.input h.sample_rate h.pull h.wck_conversion h.term h.ltc_flywheel in
    let (f1, r1) = &&-split _ _ all in
    let (f2, r2) = &&-split _ _ r1 in
    let (f3, r3) = &&-split _ _ r2 in
    let (f4, r4) = &&-split _ _ r3 in
    let (f5, r5) = &&-split _ _ r4 in
    let (f6, r6) = &&-split _ _ r5 in
    let (f7, f8) = &&-split _ (w / 0x80000000 == 0) r6 in
    let top : w / 0x80000000 ≡ 0 = (==_iff _ _).0 f8 in
    record {
      input = field_get-eq 29 2 w ∙ (==_iff _ _).0 f1;
      wck_conversion = field_get-eq 17 2 w ∙ (==_iff _ _).0 f2;
      freq = field_get-eq 27 1 w ∙ (==_iff _ _).0 f3;
      term = field_get-eq 28 1 w ∙ (==_iff _ _).0 f4;
      pull = field_get-eq 24 3 w ∙ (==_iff _ _).0 f5;
      tc_run = field_get-eq 16 1 w ∙ (==_iff _ _).0 f6;
      flywheel = field_get-eq 22 1 w ∙ (==_iff _ _).0 f7;
      from_app = field_get-eq 31 1 w ∙ omega (arith, top);
    }

-- What the card reads in register 1.
pub record Register1 (c : Settings) (w : ℕ) : Type 0 where
  pub wck_out_speed : field_get 1 2 w ≡ c.wck_out_speed
  pub ltc_fps : field_get 10 2 w ≡ c.ltc_fps
  pub ltc_drop : field_get 9 1 w ≡ c.ltc_drop
  pub set_tc : field_get 8 1 w ≡ 0

settings_reg1-eq :
    (c : Settings)
    → IsSettings c
    → settings_reg1 c ≡ c.ltc_fps * 0x400 + c.ltc_drop * 0x200 + c.wck_out_speed * 2
unfolding settings_reg1
settings_reg1-eq c h =
    let low : ℕ = c.wck_out_speed * 2 in
    let x : ℕ = c.ltc_fps * 0x400 + low in
    let speed = field_prep-eq 1 2 c.wck_out_speed (omega (arith, h.wck_out_speed)) in
    let fps = field_prep-eq 10 2 c.ltc_fps h.ltc_fps in
    let drop = field_prep-eq 9 1 c.ltc_drop h.ltc_drop in
    let first : bit_or low (c.ltc_fps * 0x400) ≡ x =
      bit_or_comm low (c.ltc_fps * 0x400)
      ∙ bit_or-add 10 (c.ltc_fps * 0x400) low (omega arith) (omega (arith, h.wck_out_speed)) in
    let y : ℕ = c.ltc_drop * 0x200 in
    let upper : x / 2 ^ 9 ≡ c.ltc_fps * 2 = omega (arith, h.wck_out_speed) in
    let lower : x % 2 ^ 9 ≡ low = omega (arith, h.wck_out_speed) in
    let upper' : y / 2 ^ 9 ≡ c.ltc_drop = omega arith in
    let lower' : y % 2 ^ 9 ≡ 0 = omega arith in
    rw (speed, fps, drop, first, bit_or_split 9 x y, upper, lower, upper', lower')
      (rw (bit_or-add 1 (c.ltc_fps * 2) c.ltc_drop (omega arith) h.ltc_drop, bit_or-zero low)
        (omega arith))

settings_reg1-Register1 :
    (c : Settings) → IsSettings c → Register1 c (bit_and (settings_reg1 c) 0x7f7f7f7f)
settings_reg1-Register1 c h =
    let w : ℕ = bit_and (settings_reg1 c) 0x7f7f7f7f in
    let x : ℕ = c.ltc_fps * 0x400 + c.ltc_drop * 0x200 + c.wck_out_speed * 2 in
    let value : w ≡ bit_and x 0x7f7f7f7f =
      ap (λ (t : ℕ). bit_and t 0x7f7f7f7f) (settings_reg1-eq c h) in
    let kept = bit_and_sync x in
    let fps = h.ltc_fps in
    let drop = h.ltc_drop in
    let speed = h.wck_out_speed in
    record {
      wck_out_speed = field_get-eq 1 2 w ∙ omega (arith, value, kept, fps, drop, speed);
      ltc_fps = field_get-eq 10 2 w ∙ omega (arith, value, kept, fps, drop, speed);
      ltc_drop = field_get-eq 9 1 w ∙ omega (arith, value, kept, fps, drop, speed);
      set_tc = field_get-eq 8 1 w ∙ omega (arith, value, kept, fps, drop, speed);
    }

-- If each setting is in the range of its enumeration, writing the settings writes 0 into the registers
-- 0 and 3, and into the registers 1 and 2 the fields of the settings, with the direction and size of
-- the pull in their bits, no start of a time code, and the bit for the sample rate of the application
-- at 0.
pub write_settings_lem :
    (t : Tco) (sys_48khz : Bool)
    → IsSettings t.settings
    → (r1 r2 : ℕ) × Register1 t.settings r1
      × Register2 t.settings sys_48khz t.ltc_run r2
      × ((write_settings t sys_48khz).writes
          ≡ wr_tco 3 0 ∷ wr_tco 2 r2 ∷ wr_tco 1 r1 ∷ wr_tco 0 0 ∷ t.writes)
unfolding write_settings write_tco
write_settings_lem t sys_48khz h = (
  _,
  _,
  settings_reg1-Register1 t.settings h,
  settings_reg2-Register2 t.settings sys_48khz t.ltc_run h,
  refl,
)
