-- ===== src/Driver/Identity.antt =====
-- Which card it is: the model by its vendor and firmware revision, and the serial numbers, in
-- hdspe_core.c. What the card's registers read is an argument.
pub mod Serial
pub mod Tests
use snd_hdspe.Common.{
  ℕ, ◌+◌, ◌-◌, ◌*◌, ◌/◌, ◌%◌, Bool, true, false, not, ◌&&◌, ◌||◌, ◌==◌, leb, if◌then◌else◌, shr,
  bit_and, u32, Option, none, some, List, [], ◌∷◌, ◌++◌,
}
use snd_hdspe.Device.{IoType, madi, madiface, aio, aes, raydat, aio_pro}

-- HDSPE_RAYDAT_REV, HDSPE_AIO_REV and HDSPE_MADIFACE_REV, and PCI_VENDOR_ID_RME.
abbrev raydat_rev : ℕ
raydat_rev = 211

abbrev aio_rev : ℕ
aio_rev = 212

abbrev madiface_rev : ℕ
madiface_rev = 213

abbrev vendor_rme : ℕ
vendor_rme = 0x1d18

-- none for HDSPE_IO_TYPE_INVALID.
pub get_io_type : ℕ → ℕ → Option IoType
get_io_type pci_vendor_id firmware_rev =
    if firmware_rev == raydat_rev
    then some raydat
    else if firmware_rev == aio_rev
    then some (if pci_vendor_id == vendor_rme then aio_pro else aio)
    else if firmware_rev == madiface_rev
    then some madiface
    else if (firmware_rev == 0xf0) || (leb 0xe6 firmware_rev && leb firmware_rev 0xea)
    then some aes
    else if (firmware_rev == 0xd2) || (leb 0xc8 firmware_rev && leb firmware_rev 0xcf)
    then some madi
    else none

is_madiface : IoType → Bool
is_madiface madiface = true
is_madiface _ = false

-- With whether the user has named the card.
pub get_serial_rev1 : IoType → Bool → ℕ → ℕ
get_serial_rev1 io named midi_status_in0 =
    let serial = bit_and (shr midi_status_in0 8) 0xffffff in
    if is_madiface io then 0 else if named || (serial == 0xffffff) then 0 else serial

-- The characters of a register, in the order of memory; little-endian.
pub characters : ℕ → List ℕ
characters dw =
    (dw % 256) ∷ ((dw / 0x100 % 256) ∷ ((dw / 0x10000 % 256) ∷ ((dw / 0x1000000 % 256) ∷ [])))

pub is_digit : ℕ → Bool
is_digit c = leb 48 c && leb c 57

-- The loop over the characters; serial is a u32.
pub read_digits : ℕ → List ℕ → ℕ
read_digits serial [] = serial
read_digits serial (c ∷ cs) =
    read_digits (if is_digit c then u32 (serial * 10 + (c - 48)) else serial) cs

-- The registers HDSPE_RD_BARCODE0 and HDSPE_RD_BARCODE1.
pub get_serial_rev2 : ℕ → ℕ → ℕ
get_serial_rev2 barcode0 barcode1 = read_digits 0 (characters barcode0 ++ characters barcode1)
