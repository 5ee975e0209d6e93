-- ===== src/Controls/Tests.antt =====
-- Runs of the controls.
use mathlib.Core.List.{Memᴰ}
use snd_hdspe.Common.{some, none, false, ◌≡◌, ◌⊎◌, refl, [], ◌∷◌, arith}
use snd_hdspe.Common.Bits.Fields.{get_field, put_field}
use snd_hdspe.Device.{madi, aio_pro}
use snd_hdspe.Driver.{Hardware, write_control, hdspe_write}
use snd_hdspe.Controls.{
  in_control, madi_line_out, madi_smux, madi_tx_64ch, controls_of, madi_controls, madiface_controls,
  aes_controls, raydat_controls, aio_controls, aio_pro_controls, place, get_reg, put_reg, raw_of,
  assign, write_reg, put, control_put, put_if, or_changed,
}
use snd_hdspe.Controls.Property.{PutLaw}
use snd_hdspe.Controls.Isolation.{
  fields_of, same_place, get_reg-put_other, common_fields, same_reg, assigns, any,
}
use snd_hdspe.Controls.Shown.{reported, status_of}
use snd_hdspe.Controls.Shown.Put.{reported-card_put}
use snd_hdspe.Controls.Card.{
  of_field, aio_pro_output_level, card_controls, pro_controls, card_range, card_get, card_put,
  assigned,
}
use snd_hdspe.Common.Int.{negsuc}
use snd_hdspe.Cards.Status.{sync_not_available, Sources, Running}
use snd_hdspe.Cards.Status.Read.{Registers}

abbrev hardware : Hardware
hardware = record {
  reg = record { control = 0x80c2f1; settings = 0x5; pll_freq = 2293110696; status0 = 0 };
  written = [];
}

-- Bit 18 is set and written once.
smux_on : (put madi_smux 1 hardware).0.written ≡ (64, 0x84c2f1) ∷ []
unfolding put control_put put_if or_changed put_reg get_reg place in_control raw_of assign write_reg
    write_control hdspe_write get_field put_field
smux_on = refl

get_reg-put_other_example :
    get_reg (in_control 1 3) (card_put (of_field madi_tx_64ch) 1 hardware).0
    ≡ get_reg (in_control 1 3) hardware
unfolding any card_controls pro_controls controls_of madi_controls madiface_controls aes_controls
    raydat_controls aio_controls aio_pro_controls fields_of common_fields assigns assigned
    same_place same_reg place in_control
get_reg-put_other_example =
    get_reg-put_other madi (of_field madi_tx_64ch) (in_control 1 3) 1 hardware (Memᴰ.head refl)
      (Memᴰ.tail (Memᴰ.head refl)) refl

-- An AIO Pro without a TCO.
abbrev card : Running
card = record {
  device = record {
    io_type = aio_pro;
    control = record { lat = 3; freq = 3; ds = false; qs = false };
    pll_freq = 2184533333;
    tco = none;
    writes = [];
  };
  running = 0;
  capture_pid = negsuc 0;
  playback_pid = negsuc 0;
}

abbrev registers : Registers
registers = record {
  pll_freq = 2184533333;
  control = 0;
  settings = 0;
  status0 = 0;
  status1 = 0x0404;
  status2 = 0;
  fbits = 0x300;
}

abbrev unset : Sources
unset = record { freq_of = λ _. 0; sync_of = λ _. sync_not_available }

-- The output level 5 is DA_GAIN 1 with the bit of Sym6db.
reported-card_put_example :
    PutLaw (card_get aio_pro_output_level) (card_put aio_pro_output_level) 5 hardware
    × ((aio_pro_output_level ≡ of_field madi_line_out)
        ⊎ (reported aio_pro_output_level
              (status_of card registers unset (card_put aio_pro_output_level 5 hardware).0)
            ≡ some 5))
unfolding card_controls pro_controls card_range
reported-card_put_example =
    reported-card_put card registers unset aio_pro_output_level 5 hardware (Memᴰ.head refl)
      (omega arith)
