-- ===== src/Driver/Identity/Tests.antt =====
-- Runs of the identification of a card.
use snd_hdspe.Common.{◌≡◌, ◌<◌, ◌^◌, ◌++◌, refl, some, none}
use snd_hdspe.Device.{aio_pro, aes, madi}
use snd_hdspe.Driver.Identity.{get_io_type, get_serial_rev2, characters, read_digits, is_digit}
use snd_hdspe.Driver.Identity.Serial.{digits, decimal, get_serial_rev2_lem}

models :
    (get_io_type 0x1d18 212 ≡ some aio_pro)
    × (get_io_type 0x10ee 0xe8 ≡ some aes)
    × (get_io_type 0x10ee 0xcf ≡ some madi)
    × (get_io_type 0x10ee 0xd0 ≡ none)
unfolding get_io_type
models = (refl, refl, refl, refl)

-- The characters 2 3 7 4 and 0 1 5 and a space.
serial : get_serial_rev2 0x34373332 0x20353130 ≡ 2374015
unfolding get_serial_rev2 characters read_digits is_digit
serial = refl

get_serial_rev2_lem_example :
    (get_serial_rev2 0x34373332 0x20353130
      ≡ decimal (digits (characters 0x34373332 ++ characters 0x20353130)))
    × (get_serial_rev2 0x34373332 0x20353130 < 10 ^ 8)
get_serial_rev2_lem_example = get_serial_rev2_lem 0x34373332 0x20353130
