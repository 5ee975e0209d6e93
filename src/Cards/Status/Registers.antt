-- ===== src/Cards/Status/Registers.antt =====
-- The fields of the cards' registers in hdspe_core.h that the status is made of.
use snd_hdspe.Common.{ℕ, Bool}
use snd_hdspe.Cards.Status.{field, flag}

-- struct hdspe_control_reg_madi
pub record ControlMadi : Type 0 where
  pub master : Bool
  pub tx_64ch : Bool
  pub auto_inp : Bool
  pub inp_0 : Bool
  pub sync_ref : ℕ
  pub smux : Bool
  pub clr_tms : Bool
  pub wck48 : Bool

unfoldable pub control_madi : ℕ → ControlMadi
control_madi register = record {
  master = flag register 4;
  tx_64ch = flag register 10;
  auto_inp = flag register 11;
  inp_0 = flag register 14;
  sync_ref = field register 16 2;
  smux = flag register 18;
  clr_tms = flag register 19;
  wck48 = flag register 20;
}

-- struct hdspe_status0_reg_madi
pub record Status0Madi : Type 0 where
  pub rx_64ch : Bool
  pub ab_int : Bool
  pub madi_lock : Bool
  pub tco_lock : Bool
  pub sync_in_lock : Bool
  pub sync_in_sync : Bool
  pub madi_sync : Bool
  pub madi_freq : ℕ
  pub tco_detect : Bool
  pub tco_sync : Bool

pub status0_madi : ℕ → Status0Madi
status0_madi register = record {
  rx_64ch = flag register 1;
  ab_int = flag register 2;
  madi_lock = flag register 3;
  tco_lock = flag register 5;
  sync_in_lock = flag register 16;
  sync_in_sync = flag register 17;
  madi_sync = flag register 18;
  madi_freq = field register 22 4;
  tco_detect = flag register 27;
  tco_sync = flag register 28;
}

-- struct hdspe_status2_reg_madi
pub record Status2Madi : Type 0 where
  pub wc_lock : Bool
  pub wc_sync : Bool
  pub inp_freq0 : ℕ
  pub inp_freq1 : ℕ
  pub inp_freq2 : ℕ
  pub sync_ref : ℕ
  pub inp_freq3 : ℕ

pub status2_madi : ℕ → Status2Madi
status2_madi register = record {
  wc_lock = flag register 3;
  wc_sync = flag register 4;
  inp_freq0 = field register 5 1;
  inp_freq1 = field register 6 1;
  inp_freq2 = field register 7 1;
  sync_ref = field register 8 3;
  inp_freq3 = field register 11 1;
}

-- struct hdspe_control_reg_aes
pub record ControlAes : Type 0 where
  pub master : Bool
  pub pro : Bool
  pub emp : Bool
  pub dolby : Bool
  pub sync_ref2 : ℕ
  pub sync_ref0 : ℕ
  pub sync_ref1 : ℕ
  pub clr_tms : Bool
  pub wck48 : Bool
  pub line_out : Bool
  pub sync_ref3 : ℕ
  pub ds_mode : Bool
  pub qs_mode : ℕ

unfoldable pub control_aes : ℕ → ControlAes
control_aes register = record {
  master = flag register 4;
  pro = flag register 9;
  emp = flag register 10;
  dolby = flag register 11;
  sync_ref2 = field register 13 1;
  sync_ref0 = field register 16 1;
  sync_ref1 = field register 17 1;
  clr_tms = flag register 19;
  wck48 = flag register 20;
  line_out = flag register 24;
  sync_ref3 = field register 25 1;
  ds_mode = flag register 26;
  qs_mode = field register 27 2;
}

-- struct hdspe_status0_reg_aes
pub record Status0Aes : Type 0 where
  pub tco_freq : ℕ
  pub sync_ref : ℕ
  pub wc_sync : Bool
  pub wc_lock : Bool
  pub wc_freq : ℕ
  pub tco_detect : Bool
  pub tco_sync : Bool
  pub tco_lock : Bool

pub status0_aes : ℕ → Status0Aes
status0_aes register = record {
  tco_freq = field register 1 4;
  sync_ref = field register 16 4;
  wc_sync = flag register 20;
  wc_lock = flag register 21;
  wc_freq = field register 22 4;
  tco_detect = flag register 27;
  tco_sync = flag register 28;
  tco_lock = flag register 29;
}

-- struct hdspe_status2_reg_aes; its fields `lock` and `sync` are those of the inputs.
pub record Status2Aes : Type 0 where
  pub input_lock : ℕ
  pub input_sync : ℕ
  pub aes_mode : ℕ
  pub sync_in_lock : Bool
  pub sync_in_sync : Bool
  pub sync_in_freq : ℕ

pub status2_aes : ℕ → Status2Aes
status2_aes register = record {
  input_lock = field register 0 8;
  input_sync = field register 8 8;
  aes_mode = field register 16 4;
  sync_in_lock = flag register 20;
  sync_in_sync = flag register 21;
  sync_in_freq = field register 22 4;
}

-- struct hdspe_settings_reg_raio
pub record SettingsRaio : Type 0 where
  pub master : Bool
  pub sync_ref : ℕ
  pub wck48 : Bool
  pub input : ℕ
  pub spdif_opt : Bool
  pub pro : Bool
  pub clr_tms : Bool
  pub aeb1 : Bool
  pub aeb2 : Bool
  pub ad_gain : ℕ
  pub da_gain : ℕ
  pub ph_gain : ℕ
  pub sym6db : Bool

unfoldable pub settings_raio : ℕ → SettingsRaio
settings_raio register = record {
  master = flag register 0;
  sync_ref = field register 1 4;
  wck48 = flag register 5;
  input = field register 12 2;
  spdif_opt = flag register 14;
  pro = flag register 15;
  clr_tms = flag register 16;
  aeb1 = flag register 17;
  aeb2 = flag register 18;
  ad_gain = field register 20 2;
  da_gain = field register 22 2;
  ph_gain = field register 24 2;
  sym6db = flag register 26;
}

-- struct hdspe_status1_reg_raio; its fields `lock` and `sync` are those of the inputs.
pub record Status1Raio : Type 0 where
  pub input_lock : ℕ
  pub input_sync : ℕ
  pub tco_freq : ℕ
  pub tco_lock : Bool
  pub tco_sync : Bool
  pub sync_ref : ℕ

unfoldable pub status1_raio : ℕ → Status1Raio
status1_raio register = record {
  input_lock = field register 0 8;
  input_sync = field register 8 8;
  tco_freq = field register 20 4;
  tco_lock = flag register 26;
  tco_sync = flag register 27;
  sync_ref = field register 28 4;
}

-- struct hdspe_status2_reg_raio
pub record Status2Raio : Type 0 where
  pub tco_detect : Bool
  pub aebo_d : Bool
  pub aebi_d : Bool
  pub sync_in_lock : Bool
  pub sync_in_sync : Bool
  pub sync_in_freq : ℕ

pub status2_raio : ℕ → Status2Raio
status2_raio register = record {
  tco_detect = flag register 6;
  aebo_d = flag register 7;
  aebi_d = flag register 8;
  sync_in_lock = flag register 10;
  sync_in_sync = flag register 11;
  sync_in_freq = field register 12 4;
}
