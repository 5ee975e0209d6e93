-- ===== src/Cards/References.antt =====
-- The AutoSync references: the tables of hdspe_raio.c, hdspe_madi.c and hdspe_aes.c, the preferred
-- reference of each card model, and `hdspe_init_autosync_tables` of hdspe_control.c with the two
-- controls that use its tables. The names of the sources are left out.
pub mod Preferred
pub mod Options
mod Tests
use snd_hdspe.Common.{
  ℕ, zero, suc, ◌+◌, ◌*◌, ◌/◌, ◌%◌, bit_and, Bool, true, false, not, ◌&&◌, ◌||◌, leb, ltb, ◌==◌,
  if◌then◌else◌, shr, shl, bit_or, List, [], ◌∷◌,
}
use snd_hdspe.Device.{IoType, madi, madiface, aio, aes, raydat, aio_pro}

-- HDSPE_CLOCK_SOURCE_INTERN and others of `enum hdspe_clock_source`.
abbrev pub word_source : ℕ
word_source = 0

abbrev pub tco_source : ℕ
tco_source = 9

abbrev pub sync_in_source : ℕ
sync_in_source = 10

abbrev pub intern_source : ℕ
intern_source = 15

raydat_autosync_ref : ℕ → ℕ
raydat_autosync_ref i =
    if ltb i 7
    then i
    else if i == 9
    then tco_source
    else if i == 10
    then sync_in_source
    else intern_source

aio_autosync_ref : ℕ → ℕ
aio_autosync_ref i =
    if ltb i 4
    then i
    else if i == 9
    then tco_source
    else if i == 10
    then sync_in_source
    else intern_source

aes_autosync_ref : ℕ → ℕ
aes_autosync_ref i =
    if ltb i 9
    then i
    else if i == 9
    then tco_source
    else if i == 10
    then sync_in_source
    else intern_source

-- The MADI's code has 3 bits.
pub madi_autosync_ref : ℕ → ℕ
madi_autosync_ref i =
    if i == 0
    then word_source
    else if i == 1
    then 1
    else if i == 2
    then tco_source
    else if i == 3
    then sync_in_source
    else intern_source

raio_autosync_ref : IoType → ℕ → ℕ
raio_autosync_ref raydat i = raydat_autosync_ref i
raio_autosync_ref _ i = aio_autosync_ref i

-- With a TCO module or without.
pub without_tco : Bool → ℕ → ℕ
without_tco tco ref = if (ref == tco_source) && not tco then word_source else ref

-- The preferred reference of a card whose register has the code.
pub get_preferred_sync_ref : IoType → Bool → ℕ → ℕ
get_preferred_sync_ref madi tco code = madi_autosync_ref code
get_preferred_sync_ref madiface tco code = madi_autosync_ref code
get_preferred_sync_ref aes tco code = aes_autosync_ref code
get_preferred_sync_ref io tco code = without_tco tco (raio_autosync_ref io code)

madi_syncref_value : ℕ → ℕ
madi_syncref_value ref =
    if ref == 1 then 1 else if ref == tco_source then 2 else if ref == sync_in_source then 3 else 0

raio_syncref_value : (ℕ → ℕ) → ℕ → ℕ
raio_syncref_value autosync_ref ref =
    let ref = if autosync_ref ref == intern_source then 0 else ref in
    if ref == word_source then tco_source else ref

-- The four bits SyncRef0 to SyncRef3 of the AES card.
aes_syncref_value : ℕ → ℕ
aes_syncref_value ref =
    let ref = if aes_autosync_ref ref == intern_source then 0 else ref in
    bit_or
      (bit_or (bit_or (shl (bit_and (shr ref 3) 1) 3) (shl (bit_and (shr ref 2) 1) 2))
        (shl (bit_and (shr ref 1) 1) 1))
      (shl (bit_and (shr ref 0) 1) 0)

-- The code that setting the preferred reference puts into the register.
pub set_preferred_sync_ref : IoType → ℕ → ℕ
set_preferred_sync_ref madi ref = madi_syncref_value ref
set_preferred_sync_ref madiface ref = madi_syncref_value ref
set_preferred_sync_ref aes ref = aes_syncref_value ref
set_preferred_sync_ref io ref = raio_syncref_value (raio_autosync_ref io) ref

-- The options of the card, by code.
pub autosync_opts : IoType → ℕ → ℕ
autosync_opts madi i = madi_autosync_ref i
autosync_opts madiface i = madi_autosync_ref i
autosync_opts aes i = aes_autosync_ref i
autosync_opts io i = raio_autosync_ref io i

pub nr_autosync_opts : IoType → ℕ
nr_autosync_opts madi = 8
nr_autosync_opts madiface = 8
nr_autosync_opts _ = 16

-- The tables between a control's index and the sources.
pub record Autosync : Type 0 where
  pub autosync_count : ℕ
  pub autosync_idx2ref : ℕ → ℕ
  pub autosync_ref2idx : ℕ → ℕ

set_at : (ℕ → ℕ) → ℕ → ℕ → ℕ → ℕ
set_at f n v i = if i == n then v else f i

add_source : ℕ → Autosync → Autosync
add_source ref t = record {
  autosync_idx2ref = set_at t.autosync_idx2ref t.autosync_count ref;
  autosync_ref2idx = set_at t.autosync_ref2idx ref t.autosync_count;
  autosync_count = t.autosync_count + 1;
}

-- The loop over the options 0 to n - 1.
add_options : ℕ → (ℕ → ℕ) → Autosync → Autosync
add_options zero opts t = t
add_options (suc n) opts t =
    let before = add_options n opts t in
    if opts n == intern_source then before else add_source (opts n) before

pub init_autosync_tables : IoType → Autosync
init_autosync_tables io = add_source intern_source (
    add_options (nr_autosync_opts io) (autosync_opts io)
      (record { autosync_count = 0; autosync_idx2ref = λ i. 0; autosync_ref2idx = λ i. 0 }))

-- The control of the preferred reference: the value it shows, and the code that putting one writes.
pub get_pref_sync_ref_idx : IoType → Bool → ℕ → ℕ
get_pref_sync_ref_idx io tco code =
    (init_autosync_tables io).autosync_ref2idx (get_preferred_sync_ref io tco code)

pub put_pref_sync_ref_idx : IoType → ℕ → ℕ
put_pref_sync_ref_idx io idx =
    set_preferred_sync_ref io ((init_autosync_tables io).autosync_idx2ref idx)
